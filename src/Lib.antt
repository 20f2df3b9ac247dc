-- ===== src/Lib.antt =====
-- CxxConet, a network framework on coroutines: a model of its sources in src/, inc/ and their laws.
--
-- The program. A service (ESocketAcceptor) accepts sockets and starts a fiber for each. The fiber's
-- session has a chain of filters, built from the service's builder; each event (session created,
-- session closed, message received, message to send) goes along the chain, and the chain counts bytes
-- and messages on the session, which hands them on to the statistics of the service. Two filters of
-- the repository let addresses in or turn them away by lists of IPv4 subnets, a third cuts the bytes
-- into HTTP messages. An HTTP service (EHttpAcceptor) is such a service whose sessions hand the bytes
-- to a codec; the codec calls a stream of the session, the stream puts requests in a channel, and
-- workers take them from there, call the handler and encode its response.
--
-- The files, with the sources they model:
--   Prelude        shared names, lists over machine numbers, tests. Prelude/Exec is the monad of methods
--                  that change an object and may throw, keeping what was written before a throw;
--                  `undefined` marks what C++ leaves undefined. Prelude/Containers are the interfaces for
--                  the two containers of the Efc library, which is not part of the repository.
--   Subnet         src/ESubnet.cpp. An int is its pattern of 32 bits, EInetAddress a parameter (Inet).
--                  Members has the theorem on CIDR notation, Mask the lemma on masks.
--   Filter         inc/EIoFilter.hh, src/EIoFilterAdapter.cpp. A handler takes the rest of the chain as
--                  an argument.
--   Blacklist,     src/EBlacklistFilter.cpp, src/EWhitelistFilter.cpp; their laws in
--   Whitelist      Blacklist/Laws and Whitelist/Laws.
--   Chain          src/EIoFilterChain.cpp. Entries stand at addresses of an explicit heap, and each
--                  operation reads and writes pointers as the source does; the address that `new` returns
--                  is an argument. Represents says which list of filters a heap stands for (IsChain);
--                  Linked and Insert carry the pointer arguments; Add, Remove and Walk have the theorems
--                  by operation. Fire is the dispatch of events, Fire/Order and Fire/Received its theorems, Fire/Counts
--                  what is counted of a file.
--   Builder        src/EIoFilterChainBuidler.cpp (sic): Unique on the names, Build on buildFilterChain.
--   Statistics     src/EIoServiceStatistics.cpp. A 64-bit counter is its pattern, sums wrap; doubles are
--                  a parameter. Totals has the theorems.
--   Session        the counters of src/EIoSession.cpp; Counting follows them to the service;
--                  Attachment is the object attached to a session.
--   Acceptor       src/ESocketAcceptor.cpp: settings, status, the admission of connections (Limit, a step
--                  relation over all orders of accepting, ending and changes of the settings, with counters of 32
--                  bits), the idle test (Idle). Loops has
--                  the loops of the service's fibers, Ending and Drift what they come to; Fiber is the
--                  fiber of one session, Release what it gives back. Services has the binds (Bind),
--                  Threads what listen() starts and on which thread (Balance), dispose() and shutdown()
--                  as a whole (Waking).
--   ManagedSession src/EManagedSession.hh; Count follows the counters over all operations.
--   Buffer         src/EIoBuffer.cpp: normalizeCapacity and the loop of shrink, their bounds in Capacity;
--                  Resize has the buffer over the interface Prelude/ByteBuffers for EIOByteBuffer, with
--                  the operations that make it grow; Keeps, Growth and Expand what it keeps then. Access
--                  and Typed are the puts and gets of numbers over its memory (Numbers, Indexed), Search the
--                  loops of indexOf and compareTo (Ordering), Shrink the whole of shrink (Shrunk), Slice
--                  the slices (Sliced); the memory that a slice shares is copied. Bytes has fill and
--                  sweep (Swept), the blocks (Appended) and the strings (Text), Streams the streams
--                  over a buffer (Piped), Settings the rest (Frozen).
--   SocketSession  read, write and close of src/ESocketSession.cpp over the socket and the chain's
--                  events as parameters, read on the session's Buffer; Reading is about what read
--                  returns, Closing about a second close.
--   HttpCodecFilter
--                  filter/http/: the filter that cuts a stream of bytes into HTTP messages. The searches
--                  of the Efc library are an interface. Framing is about one cut, Stream about all calls.
--   HttpSession    EHttpSession::read of src/EHttpSession.cpp, which finds out the protocol of a client
--                  (Detect), and its list of streams (Streams).
--   HttpStream     ActiveStream of src/EHttpSession.cpp, src/EHttpRequest.cpp, src/EHttpResponse.cpp: a
--                  request on its way to the channel, a response on its way to the encoder (Decode),
--                  trailers and 100-continue (Trailers).
--   HttpAcceptor   src/EHttpAcceptor.cpp, src/EHttpHandler.cpp: workers and write routine (Serve), the
--                  fiber of a connection (Reads). A handler changes its response and a state of its own.
--   OwnedBuffer    http/source/buffer_impl.cc, the list of buffers that the codecs read from, over an
--                  interface for the buffers in it: Move for whole buffers, Split for parts of one.
-- Modules whose name ends in Examples or Sample hold concrete runs; Buffer/Arrays, Buffer/ArrayMemory,
-- Buffer/ArrayBlocks and OwnedBuffer/Pieces are buffers to run them on.
--
-- Fuel. The two searches along the chain and the dispatch recurse on fuel, since the heap alone does
-- not bound a walk; their theorems hold for every fuel above the number of entries, which is what a
-- well-formed chain needs; the dispatch also passes the two ends. The loop of shrink halves a number
-- below 2 ^ 31 and has 32 rounds. The loop of read has its rounds from the socket, and its theorem
-- holds for all fuel above the number of packets that are kept back; the loop that reads a connection
-- has its rounds from the number of messages. The write routine has a round for each response. move of
-- OwnedBuffer has a round for each buffer that it moves and one more. indexOf and compareTo have a
-- round for each byte. All other loops are over lists.
--
-- Assumptions. A filter does not change the chain while an event is on its way. Names are not null.
-- Fibers switch only where they sleep, yield or do I/O, so that the admission of a connection is one
-- step of its thread. A session fiber of another thread may give its connection back within that step,
-- between the test and the count; this order of events is left out. Of the ten workers of an HTTP service
-- one is followed, and the write routine behind it: the frames that workers send at the same time may
-- come between one another, and that is not modelled. Times are not negative. The writes and reads of
-- the buffer of a response, of EIOByteBuffer and of EIoBuffer inside OwnedBuffer behave as java.nio
-- documents them.
--
-- Not modelled: the copies of other projects' code (http/ but for the buffer, test/http_parser.c),
-- log lines, toString and dumps, sockets, threads and fibers themselves.
pub mod Prelude
pub mod Subnet
pub mod Filter
pub mod Blacklist
pub mod Whitelist
pub mod Chain
pub mod Builder
pub mod Statistics
pub mod Session
pub mod Acceptor
pub mod ManagedSession
pub mod Buffer
pub mod SocketSession
pub mod HttpAcceptor
pub mod HttpCodecFilter
pub mod HttpSession
pub mod HttpStream
pub mod OwnedBuffer
