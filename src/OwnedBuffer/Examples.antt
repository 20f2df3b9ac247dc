-- ===== src/OwnedBuffer/Examples.antt =====
-- Three bytes and seven bytes in two buffers.
use cxx_conet.Prelude.{◌+◌, ◌*◌, ◌≡◌, refl, List, [], ◌∷◌, ◌++◌, arith, length}
use cxx_conet.Prelude.Exec.{ok, throws, out_of_fuel}
use cxx_conet.OwnedBuffer.{add_data, move_all, move}
use cxx_conet.OwnedBuffer.Move.{bytes, add_data-bytes, move_all-bytes, move-bytes}
use cxx_conet.OwnedBuffer.Split.{move-out_of_fuel}
use cxx_conet.OwnedBuffer.Pieces.{Pieces, pieces}

abbrev three : Pieces
three = record { before = []; unread = 1 ∷ 2 ∷ 3 ∷ []; spare = [] }

abbrev seven : Pieces
seven = record { before = []; unread = 4 ∷ 5 ∷ 6 ∷ 7 ∷ 8 ∷ 9 ∷ 10 ∷ []; spare = [] }

abbrev five : Pieces
five = record { before = []; unread = 4 ∷ 5 ∷ 6 ∷ 7 ∷ 8 ∷ []; spare = [] }

add_data-bytes_example :
    (buffer' : List Pieces) × (add_data pieces (11 ∷ []) (three ∷ []) ≡ ok tt buffer')
    × (bytes pieces buffer' ≡ (1 ∷ 2 ∷ 3 ∷ []) ++ 11 ∷ [])
add_data-bytes_example = add_data-bytes pieces (11 ∷ []) (three ∷ [])

move_all-bytes_example :
    (bytes pieces ((move_all pieces (three ∷ []) (seven ∷ five ∷ [])).0)
      ≡ (1 ∷ 2 ∷ 3 ∷ []) ++ bytes pieces (seven ∷ five ∷ []))
    × ((move_all pieces (three ∷ []) (seven ∷ five ∷ [])).1 ≡ [])
move_all-bytes_example = move_all-bytes pieces (three ∷ []) (seven ∷ five ∷ [])

move-bytes_example :
    (buffer' that' : List Pieces) × (move pieces 2 3 ([], three ∷ seven ∷ [])
      ≡ ok tt (buffer', that'))
    × (bytes pieces buffer' ≡ 1 ∷ 2 ∷ 3 ∷ [])
    × (bytes pieces that' ≡ 4 ∷ 5 ∷ 6 ∷ 7 ∷ 8 ∷ 9 ∷ 10 ∷ [])
move-bytes_example = move-bytes pieces 2 (three ∷ []) (seven ∷ []) [] (omega arith)

move-out_of_fuel_example :
    (buffer' : List Pieces) × (b' : Pieces) × (move pieces 5 3 ([], seven ∷ [])
      ≡ throws out_of_fuel (buffer', b' ∷ []))
    × (length (bytes pieces buffer') ≡ length (bytes pieces []) + 5 * 3)
move-out_of_fuel_example =
    move-out_of_fuel pieces 5 3 seven [] [] (omega arith) (omega arith) (omega arith)

-- three bytes of five: the loop ends, and all five are moved
moves_more :
    (buffer' : List Pieces) × (move pieces 5 3 ([], five ∷ []) ≡ ok tt (buffer', []))
    × (bytes pieces buffer' ≡ 4 ∷ 5 ∷ 6 ∷ 7 ∷ 8 ∷ [])
unfolding move add_data
moves_more = (_, refl, refl)
