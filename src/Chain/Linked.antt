-- ===== src/Chain/Linked.antt =====
-- Runs of entries that are linked both ways.
use mathlib.Core.Bool.{or_assoc}
use cxx_conet.Prelude.{
  ℕ, Bool-cases, ==_iff, inl, inr, ◌≡◌, refl, String, Bool, true, false, ◌||◌, Option, some, List,
  [], ◌∷◌, ◌++◌, ◌==◌, arith, ◌∙◌,
}
use cxx_conet.Chain.{Ptr, Entry, Heap, write}

-- an entry as its address, its name and its filter
pub record Cell : Type 0 where
  pub ptr : Ptr
  pub name : String
  pub filter : Ptr

abbrev pub has : Ptr → List Cell → Bool
has a [] = false
has a (c ∷ cs) = (a == c.ptr) || has a cs

abbrev pub Distinct : List Cell → Type 0
Distinct [] = Unit
Distinct (c ∷ cs) = (has c.ptr cs ≡ false) × Distinct cs

-- the address of the first cell, and of the last
abbrev pub first : List Cell → Ptr → Ptr
first [] next = next
first (c ∷ cs) next = c.ptr

abbrev pub last : Ptr → List Cell → Ptr
last prev [] = prev
last prev (c ∷ cs) = last c.ptr cs

abbrev pub entry : Ptr → Ptr → Cell → Entry
entry prev next c = record {
  prev_entry = prev;
  next_entry = next;
  name = c.name;
  filter = c.filter;
}

-- The heap holds the cells in a row: the first points back to `prev`, the last on to `next`.
abbrev pub Linked : Heap → Ptr → List Cell → Ptr → Type 0
Linked h prev [] next = Unit
Linked h prev (c ∷ cs) next =
    (h c.ptr ≡ some (entry prev (first cs next) c)) × Linked h c.ptr cs next

pub has-append : (a : Ptr) (cs ds : List Cell) → has a (cs ++ ds) ≡ (has a cs || has a ds)
has-append a [] ds = refl
has-append a (c ∷ cs) ds = rw (has-append a cs ds, or_assoc)

pub first-append :
    (cs ds : List Cell) (next : Ptr) → first (cs ++ ds) next ≡ first cs (first ds next)
first-append [] ds next = refl
first-append (c ∷ cs) ds next = refl

pub last-append : (prev : Ptr) (cs ds : List Cell) → last prev (cs ++ ds) ≡ last (last prev cs) ds
last-append prev [] ds = refl
last-append prev (c ∷ cs) ds = last-append c.ptr cs ds

pub Linked-append :
    (h : Heap) (prev next : Ptr) (cs ds : List Cell)
    → Linked h prev cs (first ds next)
    → Linked h (last prev cs) ds next
    → Linked h prev (cs ++ ds) next
Linked-append h prev next [] ds l m = m
Linked-append h prev next (c ∷ cs) ds l m =
    (rw (first-append cs ds next) l.0, Linked-append h c.ptr next cs ds l.1 m)

pub Linked-front :
    (h : Heap) (prev next : Ptr) (cs ds : List Cell)
    → Linked h prev (cs ++ ds) next
    → Linked h prev cs (first ds next)
Linked-front h prev next [] ds l = tt
Linked-front h prev next (c ∷ cs) ds l =
    (rw (first-append cs ds next) at (l.0), Linked-front h c.ptr next cs ds l.1)

pub Linked-back :
    (h : Heap) (prev next : Ptr) (cs ds : List Cell)
    → Linked h prev (cs ++ ds) next
    → Linked h (last prev cs) ds next
Linked-back h prev next [] ds l = l
Linked-back h prev next (c ∷ cs) ds l = Linked-back h c.ptr next cs ds l.1

-- a write elsewhere leaves the run
pub Linked-write :
    (h : Heap) (prev next : Ptr) (a : Ptr) (e : Option Entry) (cs : List Cell)
    → has a cs ≡ false
    → Linked h prev cs next
    → Linked (write h a e) prev cs next
unfolding write
Linked-write h prev next a e [] out l = tt
Linked-write h prev next a e (c ∷ cs) out l =
    (ground arith, Linked-write h c.ptr next a e cs (ground arith) l.1)

pub write-ne : (h : Heap) (a b : Ptr) (e : Option Entry) → (b == a) ≡ false → write h a e b ≡ h b
unfolding write
write-ne h a b e ne = rw ne

pub write-eq : (h : Heap) (a : Ptr) (e : Option Entry) → write h a e a ≡ e
unfolding write
write-eq h a e = ground arith

pub Distinct-back : (cs ds : List Cell) → Distinct (cs ++ ds) → Distinct ds
Distinct-back [] ds d = d
Distinct-back (c ∷ cs) ds d = Distinct-back cs ds d.1

pub Distinct-front : (cs ds : List Cell) → Distinct (cs ++ ds) → Distinct cs
Distinct-front [] ds d = tt
Distinct-front (c ∷ cs) ds d =
    (ground (arith, d.0, has-append c.ptr cs ds), Distinct-front cs ds d.1)

pub Distinct-apart :
    (a : Ptr) (cs ds : List Cell) → Distinct (cs ++ ds) → has a ds ≡ true → has a cs ≡ false
Distinct-apart a [] ds d i = refl
Distinct-apart a (c ∷ cs) ds d i =
    ground (arith, d.0, has-append c.ptr cs ds, Distinct-apart a cs ds d.1 i)

pub has-last : (p : Ptr) (c : Cell) (cs : List Cell) → has (last p (c ∷ cs)) (c ∷ cs) ≡ true
has-last p c [] = ground arith
has-last p c (d ∷ cs) = ground (arith, has-last p d cs)

-- a fresh cell between two runs keeps the addresses distinct
pub Distinct-insert :
    (cs ds : List Cell) (f : Cell)
    → Distinct (cs ++ ds)
    → has f.ptr (cs ++ ds) ≡ false
    → Distinct (cs ++ f ∷ ds)
Distinct-insert [] ds f d out = (out, d)
Distinct-insert (c ∷ cs) ds f d out = (
  ground (arith, d.0, has-append c.ptr cs ds, has-append c.ptr cs (f ∷ ds)),
  Distinct-insert cs ds f d.1 (ground arith),
)

pub Distinct-delete : (cs ds : List Cell) (f : Cell) → Distinct (cs ++ f ∷ ds) → Distinct (cs ++ ds)
Distinct-delete [] ds f d = d.1
Distinct-delete (c ∷ cs) ds f d = (
  ground (arith, d.0, has-append c.ptr cs ds, has-append c.ptr cs (f ∷ ds)),
  Distinct-delete cs ds f d.1,
)

pub has-ne : (a b : Ptr) (cs : List Cell) → has a cs ≡ true → has b cs ≡ false → (b == a) ≡ false
has-ne a b [] i o = cc
has-ne a b (c ∷ cs) i o = ground (arith, has-ne a b cs)

-- The first cell of a run can be pointed back elsewhere.
pub Linked-set_prev :
    (h : Heap) (p q next : Ptr) (c : Cell) (cs : List Cell)
    → Distinct (c ∷ cs)
    → Linked h p (c ∷ cs) next
    → Linked (write h c.ptr (some (entry q (first cs next) c))) q (c ∷ cs) next
Linked-set_prev h p q next c cs d l =
    (write-eq h c.ptr _, Linked-write h c.ptr next c.ptr _ cs d.0 l.1)

pub Linked-last :
    (h : Heap) (prev next : Ptr) (c : Cell) (cs : List Cell)
    → Linked h prev (c ∷ cs) next
    → (e : Entry) × (h (last prev (c ∷ cs)) ≡ some e) × (e.next_entry ≡ next)
Linked-last h prev next c [] l = (entry prev next c, l.0, refl)
Linked-last h prev next c (b ∷ cs) l = Linked-last h c.ptr next b cs l.1

-- The last cell of a run can be pointed on elsewhere.
pub Linked-set_next :
    (h : Heap) (prev next q : Ptr) (c : Cell) (cs : List Cell) (e : Entry)
    → Distinct (c ∷ cs)
    → Linked h prev (c ∷ cs) next
    → h (last prev (c ∷ cs)) ≡ some e
    → Linked (write h (last prev (c ∷ cs)) (some (record e { next_entry = q }))) prev (c ∷ cs) q
Linked-set_next h prev next q c [] e d l at = (write-eq h c.ptr _ ∙ ground arith, tt)
Linked-set_next h prev next q c (b ∷ cs) e d l at =
    let apart = has-ne (last c.ptr (b ∷ cs)) c.ptr (b ∷ cs) (has-last c.ptr b cs) d.0 in
    (
      write-ne h (last c.ptr (b ∷ cs)) c.ptr _ apart ∙ l.0,
      Linked-set_next h c.ptr next q b cs e d.1 l.1 at,
    )

pub has-append_left : (a : Ptr) (cs ds : List Cell) → has a (cs ++ ds) ≡ false → has a cs ≡ false
has-append_left a [] ds o = refl
has-append_left a (c ∷ cs) ds o = ground (arith, has-append_left a cs ds)

pub has-append_right : (a : Ptr) (cs ds : List Cell) → has a (cs ++ ds) ≡ false → has a ds ≡ false
has-append_right a [] ds o = o
has-append_right a (c ∷ cs) ds o = has-append_right a cs ds (ground arith)

pub Distinct-apart_left :
    (a : Ptr) (cs ds : List Cell) → Distinct (cs ++ ds) → has a cs ≡ true → has a ds ≡ false
Distinct-apart_left a [] ds d i = cc
Distinct-apart_left a (c ∷ cs) ds d i = elim (Bool-cases (a == c.ptr)) [
  | inl same ↦ rw ((==_iff a c.ptr).0 same) (has-append_right c.ptr cs ds d.0)
  | inr other ↦ Distinct-apart_left a cs ds d.1 (ground arith)
]

pub eq_sym : (a b : ℕ) → (a == b) ≡ (b == a)
eq_sym a b = ground arith

pub has-append_false :
    (a : Ptr) (cs ds : List Cell) → has a cs ≡ false → has a ds ≡ false → has a (cs ++ ds) ≡ false
has-append_false a [] ds o o' = o'
has-append_false a (c ∷ cs) ds o o' = ground (arith, has-append_false a cs ds)

pub has-delete :
    (a : Ptr) (cs ds : List Cell) (f : Cell)
    → has a (cs ++ f ∷ ds) ≡ false
    → has a (cs ++ ds) ≡ false
has-delete a [] ds f o = ground arith
has-delete a (c ∷ cs) ds f o = ground (arith, has-delete a cs ds f)
