-- ===== src/Prelude/Containers.antt =====
-- The containers of the Efc library that the sources call. Efc is not part of the repository, so
-- each container is an interface: its operations, and what its documentation says of them.
use Prim.Native.Nat.{ℕ, zero, suc}
use Prim.Native.String.{String}
use mathlib.Core.Path.{◌≡◌, refl}
use mathlib.Core.Bool.{Bool, true, false}
use mathlib.Core.Option.{Option, none, some}
use mathlib.Core.List.{List, [], ◌∷◌, ◌++◌}
use text.Mathlib.Text.{◌==◌ as str_eq}
use native.Mathlib.Omega.{arith}
use cxx_conet.Prelude.Lists.{any}
use cxx_conet.Prelude.Tests.{◌==◌, if◌then◌else◌}

module _ {A : Type 0} where
  -- the list less its first element that is equal to `x`
  abbrev pub remove_first : (A → A → Bool) → A → List A → List A
  remove_first eq x [] = []
  remove_first eq x (y ∷ ys) = if eq x y then ys else y ∷ remove_first eq x ys

  -- the list with `x` at index `i`, the later elements moved up
  abbrev pub insert_at : ℕ → A → List A → List A
  insert_at zero x ys = x ∷ ys
  insert_at (suc i) x [] = x ∷ []
  insert_at (suc i) x (y ∷ ys) = y ∷ insert_at i x ys

  abbrev pub remove_at : ℕ → List A → List A
  remove_at i [] = []
  remove_at zero (y ∷ ys) = ys
  remove_at (suc i) (y ∷ ys) = y ∷ remove_at i ys

module _ {A : Type 0} where
  pub remove_first-append_fresh :
      (eq : A → A → Bool) (x : A) (ys : List A)
      → any (eq x) ys ≡ false
      → eq x x ≡ true
      → remove_first eq x (ys ++ x ∷ []) ≡ ys
  remove_first-append_fresh eq x [] out same = rw same
  remove_first-append_fresh eq x (y ∷ ys) out same =
      ground (arith, remove_first-append_fresh eq x ys)

-- ECopyOnWriteArrayList<A>. `to_list` is what an iterator yields, in its order.
pub record CopyOnWriteArrayList (A : Type 0) : Type 1 where
  pub Repr : Type 0
  pub to_list : Repr → List A
  pub empty : Repr
  pub clear : Repr → Repr
  pub add : A → Repr → Repr
  pub add_at : ℕ → A → Repr → Repr
  pub remove : (A → A → Bool) → A → Repr → Repr
  pub remove_at_index : ℕ → Repr → Repr
  pub to_list-empty : to_list empty ≡ []
  pub to_list-clear : (l : Repr) → to_list (clear l) ≡ []
  pub to_list-add : (x : A) (l : Repr) → to_list (add x l) ≡ to_list l ++ x ∷ []
  pub to_list-add_at :
      (i : ℕ) (x : A) (l : Repr) → to_list (add_at i x l) ≡ insert_at i x (to_list l)
  pub to_list-remove :
      (eq : A → A → Bool) (x : A) (l : Repr)
      → to_list (remove eq x l) ≡ remove_first eq x (to_list l)
  pub to_list-remove_at :
      (i : ℕ) (l : Repr) → to_list (remove_at_index i l) ≡ remove_at i (to_list l)

-- A list is one, so the laws can be met.
abbrev pub plain_list : (A : Type 0) → CopyOnWriteArrayList A
plain_list A = record {
  Repr = List A;
  to_list = λ l. l;
  empty = [];
  clear = λ l. [];
  add = λ x l. l ++ x ∷ [];
  add_at = insert_at;
  remove = remove_first;
  remove_at_index = remove_at;
  to_list-empty = refl;
  to_list-clear = λ l. refl;
  to_list-add = λ x l. refl;
  to_list-add_at = λ i x l. refl;
  to_list-remove = λ eq x l. refl;
  to_list-remove_at = λ i l. refl;
}

-- EHashMap<EString*, V>, by the texts of its keys.
pub record NameMap (V : Type 0) : Type 1 where
  pub Map : Type 0
  pub empty : Map
  pub get : Map → String → Option V
  pub put : Map → String → V → Map
  pub remove : Map → String → Map
  pub get-empty : (k : String) → get empty k ≡ none
  pub get-put :
      (m : Map) (k j : String) (v : V)
      → get (put m k v) j ≡ (if str_eq k j then some v else get m j)
  pub get-remove :
      (m : Map) (k j : String) → get (remove m k) j ≡ (if str_eq k j then none else get m j)

-- A function is one.
abbrev pub function_map : (V : Type 0) → NameMap V
function_map V = record {
  Map = String → Option V;
  empty = λ _. none;
  get = λ m k. m k;
  put = λ m k v j. if str_eq k j then some v else m j;
  remove = λ m k j. if str_eq k j then none else m j;
  get-empty = λ k. refl;
  get-put = λ m k j v. refl;
  get-remove = λ m k j. refl;
}

-- EHashMap<int, V>.
pub record IntMap (V : Type 0) : Type 1 where
  pub Map : Type 0
  pub empty : Map
  pub get : Map → ℕ → Option V
  pub put : Map → ℕ → V → Map
  pub remove : Map → ℕ → Map
  pub get-empty : (k : ℕ) → get empty k ≡ none
  pub get-put :
      (m : Map) (k j : ℕ) (v : V) → get (put m k v) j ≡ (if k == j then some v else get m j)
  pub get-remove : (m : Map) (k j : ℕ) → get (remove m k) j ≡ (if k == j then none else get m j)

abbrev pub int_function_map : (V : Type 0) → IntMap V
int_function_map V = record {
  Map = ℕ → Option V;
  empty = λ _. none;
  get = λ m k. m k;
  put = λ m k v j. if k == j then some v else m j;
  remove = λ m k j. if k == j then none else m j;
  get-empty = λ k. refl;
  get-put = λ m k j v. refl;
  get-remove = λ m k j. refl;
}
