-- ===== src/Buffer/Typed.antt =====
-- The types of the sources' numbers: short, int, llong, float and double in a buffer.
use cxx_conet.Prelude.{ℕ, pos}
use cxx_conet.Prelude.Exec.{Exec, pure, ◌>>=◌, ◌>>◌}
use cxx_conet.Prelude.ByteBuffers.{ByteBuffers}
use cxx_conet.Buffer.Resize.{Buffer, auto_expand_at}
use cxx_conet.Buffer.Access.{
  Memory, Codec, auto_expand, put_number, get_number, put_number_at, get_number_at,
}

-- The numbers, how EStream writes them, and the bits of the two that have a point.
pub record Numbers : Type 1 where
  pub Short : Type 0
  pub Int : Type 0
  pub LLong : Type 0
  pub Float : Type 0
  pub Double : Type 0
  pub short : Codec 2 Short
  pub int : Codec 4 Int
  pub llong : Codec 8 LLong
  pub float_to_int_bits : Float → Int
  pub int_bits_to_float : Int → Float
  pub double_to_llong_bits : Double → LLong
  pub llong_bits_to_double : LLong → Double

module _ (N : Numbers) {B : ByteBuffers} (M : Memory B) (highest_one_bit : ℕ → ℕ) where
  open N use {
    Short, Int, LLong, Float, Double, short, int, llong, float_to_int_bits, int_bits_to_float,
    double_to_llong_bits, llong_bits_to_double,
  }

  abbrev pub get_short : Exec (Buffer B) Short
  get_short = get_number M highest_one_bit short

  abbrev pub put_short : Short → Exec (Buffer B) (Unit {0})
  put_short value = put_number M highest_one_bit short value

  abbrev pub get_short_at : ℕ → Exec (Buffer B) Short
  get_short_at index = get_number_at M highest_one_bit short index

  abbrev pub put_short_at : ℕ → Short → Exec (Buffer B) (Unit {0})
  put_short_at index value = put_number_at M highest_one_bit short index value

  abbrev pub get_int : Exec (Buffer B) Int
  get_int = get_number M highest_one_bit int

  abbrev pub put_int : Int → Exec (Buffer B) (Unit {0})
  put_int value = put_number M highest_one_bit int value

  abbrev pub get_int_at : ℕ → Exec (Buffer B) Int
  get_int_at index = get_number_at M highest_one_bit int index

  abbrev pub put_int_at : ℕ → Int → Exec (Buffer B) (Unit {0})
  put_int_at index value = put_number_at M highest_one_bit int index value

  abbrev pub get_llong : Exec (Buffer B) LLong
  get_llong = get_number M highest_one_bit llong

  abbrev pub put_llong : LLong → Exec (Buffer B) (Unit {0})
  put_llong value = put_number M highest_one_bit llong value

  abbrev pub get_llong_at : ℕ → Exec (Buffer B) LLong
  get_llong_at index = get_number_at M highest_one_bit llong index

  abbrev pub put_llong_at : ℕ → LLong → Exec (Buffer B) (Unit {0})
  put_llong_at index value = put_number_at M highest_one_bit llong index value

  unfoldable pub get_float : Exec (Buffer B) Float
  get_float = do n ← get_int; pure (int_bits_to_float n)

  unfoldable pub put_float : Float → Exec (Buffer B) (Unit {0})
  put_float value = do auto_expand M highest_one_bit 4; put_int (float_to_int_bits value)

  unfoldable pub get_float_at : ℕ → Exec (Buffer B) Float
  get_float_at index = do n ← get_int_at index; pure (int_bits_to_float n)

  unfoldable pub put_float_at : ℕ → Float → Exec (Buffer B) (Unit {0})
  put_float_at index value = do
    auto_expand_at B highest_one_bit (pos index) 4
    put_int_at index (float_to_int_bits value)

  unfoldable pub get_double : Exec (Buffer B) Double
  get_double = do n ← get_llong; pure (llong_bits_to_double n)

  unfoldable pub put_double : Double → Exec (Buffer B) (Unit {0})
  put_double value = do auto_expand M highest_one_bit 8; put_llong (double_to_llong_bits value)

  unfoldable pub get_double_at : ℕ → Exec (Buffer B) Double
  get_double_at index = do n ← get_llong_at index; pure (llong_bits_to_double n)

  unfoldable pub put_double_at : ℕ → Double → Exec (Buffer B) (Unit {0})
  put_double_at index value = do
    auto_expand_at B highest_one_bit (pos index) 8
    put_llong_at index (double_to_llong_bits value)
