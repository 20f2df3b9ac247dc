-- ===== src/Chain/Remove.antt =====
-- The operations that take a filter out.
use mathlib.Core.List.{append_assoc}
use mathlib.Core.Path.{subst, subst⁻¹}
use cxx_conet.Prelude.{
  ◌≡◌, sym, ◌∙◌, ap, String, true, false, none, some, List, [], ◌∷◌, ◌++◌, ◌==◌, arith, str_eq,
  if◌then◌else◌,
}
use cxx_conet.Prelude.Exec.{ok, throws, illegal_argument, ◌>>◌}
use cxx_conet.Prelude.Containers.{NameMap}
use cxx_conet.Chain.{Ptr, null, Entry, Heap, write, Chain, store, deregister, take_out, remove}
use cxx_conet.Chain.Linked.{
  Cell, has, has-append_false, has-delete, has-append_right, has-last, has-ne, Distinct,
  Distinct-apart, Distinct-apart_left, Distinct-back, Distinct-front, Distinct-delete, entry, first,
  last, Linked, Linked-append, Linked-front, Linked-back, Linked-write, Linked-last,
  Linked-set_prev, Linked-set_next, write-eq,
}
use cxx_conet.Chain.Represents.{
  find_name, find_name-at, nodes, IsChain, find_name-delete, UniqueNames-delete,
}
use cxx_conet.Chain.Insert.{first-in}

-- The heap after the cell `b` has been taken from between two runs.
record Cut (h : Heap) (prev next : Ptr) (b : Cell) (ls rs : List Cell) : Type 0 where
  left : Entry
  right : Entry
  at_cell : h b.ptr ≡ some (entry (last prev ls) (first rs next) b)
  at_left : h (last prev ls) ≡ some left
  at_right : h (first rs next) ≡ some right
  apart : (first rs next == last prev ls) ≡ false
  cell_left : (b.ptr == last prev ls) ≡ false
  cell_right : (b.ptr == first rs next) ≡ false
  linked :
      Linked
        (write
          (write
            (write h (last prev ls) (some (record left { next_entry = first rs next })))
            (first rs next)
            (some (record right { prev_entry = last prev ls })))
          b.ptr
          none)
        prev
        (ls ++ rs)
        next

cut :
    (h : Heap) (prev next : Ptr) (b l r : Cell) (ls rs : List Cell)
    → Distinct ((l ∷ ls) ++ b ∷ r ∷ rs)
    → Linked h prev ((l ∷ ls) ++ b ∷ r ∷ rs) next
    → Cut h prev next b (l ∷ ls) (r ∷ rs)
cut h prev next b l r ls rs d lk =
    let p : Ptr = last prev (l ∷ ls) in
    let back = Linked-back h prev next (l ∷ ls) (b ∷ r ∷ rs) lk in
    let front = Linked-front h prev next (l ∷ ls) (b ∷ r ∷ rs) lk in
    let d_back = Distinct-back (l ∷ ls) (b ∷ r ∷ rs) d in
    let d_front = Distinct-front (l ∷ ls) (b ∷ r ∷ rs) d in
    let (e, at, on) = Linked-last h prev b.ptr l ls front in
    let p_in = has-last prev l ls in
    let p_out = Distinct-apart_left p (l ∷ ls) (b ∷ r ∷ rs) d p_in in
    let b_out = Distinct-apart b.ptr (l ∷ ls) (b ∷ r ∷ rs) d (first-in b (r ∷ rs)) in
    let r_in : has r.ptr (b ∷ r ∷ rs) ≡ true = ground arith in
    let r_out = Distinct-apart r.ptr (l ∷ ls) (b ∷ r ∷ rs) d r_in in
    let p_out' : has p (r ∷ rs) ≡ false = has-append_right p (b ∷ []) (r ∷ rs) p_out in
    let b_l : (b.ptr == p) ≡ false = has-ne p b.ptr (l ∷ ls) p_in b_out in
    let r_l : (r.ptr == p) ≡ false = has-ne p r.ptr (l ∷ ls) p_in r_out in
    let b_r : (b.ptr == r.ptr) ≡ false = has-ne r.ptr b.ptr (r ∷ rs) (first-in r rs) d_back.0 in
    let g₁ : Heap = write h p (some (record e { next_entry = r.ptr })) in
    let g₂ : Heap = write g₁ r.ptr (some (entry p (first rs next) r)) in
    let front₁ = Linked-set_next h prev b.ptr r.ptr l ls e d_front front at in
    let back₁ = Linked-write h b.ptr next p _ (r ∷ rs) p_out' back.1 in
    let back₂ = Linked-set_prev g₁ b.ptr p next r rs d_back.1 back₁ in
    record {
      left = e;
      right = entry b.ptr (first rs next) r;
      at_cell = back.0;
      at_left = at;
      at_right = back.1.0;
      apart = r_l;
      cell_left = b_l;
      cell_right = b_r;
      linked =
          Linked-write g₂ prev next b.ptr none ((l ∷ ls) ++ r ∷ rs)
            (has-append_false b.ptr (l ∷ ls) (r ∷ rs) b_out d_back.0)
            (Linked-append g₂ prev next (l ∷ ls) (r ∷ rs)
              (Linked-write g₁ prev r.ptr r.ptr _ (l ∷ ls) r_out front₁) back₂);
    }

Cut-nodes :
    (h : Heap) (b front back : Cell) (us vs : List Cell)
    → Distinct ((front ∷ us) ++ b ∷ (vs ++ back ∷ []))
    → Linked h null ((front ∷ us) ++ b ∷ (vs ++ back ∷ [])) null
    → Cut h null null b (front ∷ us) (vs ++ back ∷ [])
Cut-nodes h b front back us [] = cut h null null b front back us []
Cut-nodes h b front back us (v ∷ vs) = cut h null null b front v us (vs ++ back ∷ [])

module _ {N : NameMap Ptr} (c : Chain N) (b : Cell) (p q : Ptr) (e r : Entry) where
  abbrev deregistered : Chain N
  deregistered = record c {
    heap =
        write
          (write (write c.heap p (some (record e { next_entry = q }))) q
            (some (record r { prev_entry = p })))
          b.ptr none;
    name2entry = N.remove c.name2entry b.name;
  }

  take_out-run :
      c.heap b.ptr ≡ some (entry p q b)
      → c.heap p ≡ some e
      → c.heap q ≡ some r
      → (q == p) ≡ false
      → (b.ptr == p) ≡ false
      → (b.ptr == q) ≡ false
      → take_out b.ptr c ≡ ok b.filter deregistered
  unfolding take_out deregister
  take_out-run at at_p at_q qp bp bq = ground arith

  discard-run :
      c.heap b.ptr ≡ some (entry p q b)
      → c.heap p ≡ some e
      → c.heap q ≡ some r
      → (q == p) ≡ false
      → (b.ptr == p) ≡ false
      → (b.ptr == q) ≡ false
      → (deregister b.ptr >> store b.ptr none) c ≡ ok tt deregistered
  unfolding deregister
  discard-run at at_p at_q qp bp bq = ground arith

module _ {N : NameMap Ptr} {c : Chain N} {front back : Cell} where
  pub take_out-IsChain :
      (us vs : List Cell) (b : Cell)
      → IsChain c front back (us ++ b ∷ vs)
      → (c' : Chain N) × (take_out b.ptr c ≡ ok b.filter c')
        × ((deregister b.ptr >> store b.ptr none) c ≡ ok tt c')
        × IsChain c' front back (us ++ vs)
        × (c'.heap b.ptr ≡ none)
  take_out-IsChain us vs b is =
      let regroup : nodes front back (us ++ b ∷ vs) ≡ (front ∷ us) ++ b ∷ (vs ++ back ∷ []) =
        ap (λ l. front ∷ l) (append_assoc us (b ∷ vs) (back ∷ [])) in
      let regroup' : nodes front back (us ++ vs) ≡ (front ∷ us) ++ (vs ++ back ∷ []) =
        ap (λ l. front ∷ l) (append_assoc us vs (back ∷ [])) in
      let d = subst Distinct regroup is.distinct in
      let s =
        Cut-nodes c.heap b front back us vs d
          (subst (λ l. Linked c.heap null l null) regroup is.linked) in
      let p : Ptr = last front.ptr us in
      let q : Ptr = first (vs ++ back ∷ []) null in
      let after : Chain N = deregistered c b p q s.left s.right in
      (
        after,
        take_out-run c b p q s.left s.right s.at_cell s.at_left s.at_right s.apart s.cell_left
            s.cell_right,
        discard-run c b p q s.left s.right s.at_cell s.at_left s.at_right s.apart s.cell_left
            s.cell_right,
        record {
          head = is.head;
          tail = is.tail;
          distinct = subst⁻¹ Distinct regroup' (Distinct-delete (front ∷ us) (vs ++ back ∷ []) b d);
          not_null =
              subst⁻¹ (λ l. has null l ≡ false) regroup'
                (has-delete null (front ∷ us) (vs ++ back ∷ []) b
                  (subst (λ l. has null l ≡ false) regroup is.not_null));
          linked = subst⁻¹ (λ l. Linked after.heap null l null) regroup' s.linked;
          names = λ k.
              N.get-remove c.name2entry b.name k
              ∙ (ap (λ o. if str_eq b.name k then none else o) (is.names k)
                  ∙ sym (find_name-delete k us vs b is.unique));
          unique = UniqueNames-delete us vs b is.unique;
        },
        write-eq _ b.ptr none,
      )

  -- Removing a name takes its filter out of the list, leaves the rest in order, frees the entry and
  -- returns the filter.
  pub remove_lem :
      (us vs : List Cell) (b : Cell)
      → IsChain c front back (us ++ b ∷ vs)
      → (c' : Chain N) × (remove b.name c ≡ ok b.filter c')
        × IsChain c' front back (us ++ vs)
        × (c'.heap b.ptr ≡ none)
  unfolding remove
  remove_lem us vs b is =
      let (c', ran, _, is', freed) = take_out-IsChain us vs b is in
      (c', simp (is.names b.name, find_name-at us vs b is.unique) ran, is', freed)

  -- A name that no filter has is refused, and the chain stays as it was.
  pub remove-unknown :
      (xs : List Cell) (k : String)
      → IsChain c front back xs
      → find_name k xs ≡ none
      → remove k c ≡ throws illegal_argument c
  unfolding remove
  remove-unknown xs k is out = simp (is.names k, out)
