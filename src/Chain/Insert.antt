-- ===== src/Chain/Insert.antt =====
-- The operations that add a filter.
use mathlib.Core.List.{append_assoc}
use mathlib.Core.Path.{subst, subst⁻¹}
use cxx_conet.Prelude.{
  ◌≡◌, sym, ◌∙◌, ap, String, true, false, none, some, List, [], ◌∷◌, ◌++◌, ◌==◌, arith, str_eq,
  if◌then◌else◌,
}
use cxx_conet.Prelude.Exec.{ok}
use cxx_conet.Prelude.Containers.{NameMap}
use cxx_conet.Chain.{Ptr, null, Entry, Heap, write, Chain, register_}
use cxx_conet.Chain.Linked.{
  Cell, has, has-append_left, has-append_right, Distinct-apart_left, Linked-last, eq_sym, has-last,
  has-ne, Distinct, Distinct-apart, Distinct-back, Distinct-front, Distinct-insert, entry, first,
  last, Linked, Linked-append, Linked-front, Linked-back, Linked-write, Linked-set_prev,
  Linked-set_next, write-eq, write-ne,
}
use cxx_conet.Chain.Represents.{find_name, nodes, IsChain, find_name-insert, UniqueNames-insert}

-- The heap after a cell `f` has been put between two runs.
record Spliced (h : Heap) (prev next : Ptr) (f : Cell) (ls rs : List Cell) : Type 0 where
  left : Entry
  right : Entry
  at_left : h (last prev ls) ≡ some left
  on_left : left.next_entry ≡ first rs next
  at_right : h (first rs next) ≡ some right
  apart : (first rs next == last prev ls) ≡ false
  apart' : (last prev ls == first rs next) ≡ false
  new_left : (last prev ls == f.ptr) ≡ false
  new_right : (first rs next == f.ptr) ≡ false
  linked :
      Linked
        (write
          (write
            (write h f.ptr (some (entry (last prev ls) (first rs next) f)))
            (first rs next)
            (some (record right { prev_entry = f.ptr })))
          (last prev ls)
          (some (record left { next_entry = f.ptr })))
        prev
        (ls ++ f ∷ rs)
        next

pub first-in : (r : Cell) (rs : List Cell) → has r.ptr (r ∷ rs) ≡ true
first-in r rs = ground arith

splice :
    (h : Heap) (prev next : Ptr) (f l r : Cell) (ls rs : List Cell)
    → Distinct ((l ∷ ls) ++ r ∷ rs)
    → Linked h prev ((l ∷ ls) ++ r ∷ rs) next
    → has f.ptr ((l ∷ ls) ++ r ∷ rs) ≡ false
    → Spliced h prev next f (l ∷ ls) (r ∷ rs)
splice h prev next f l r ls rs d lk out =
    let p : Ptr = last prev (l ∷ ls) in
    let back = Linked-back h prev next (l ∷ ls) (r ∷ rs) lk in
    let front = Linked-front h prev next (l ∷ ls) (r ∷ rs) lk in
    let (e, at, on) = Linked-last h prev r.ptr l ls front in
    let out_l = has-append_left f.ptr (l ∷ ls) (r ∷ rs) out in
    let out_r = has-append_right f.ptr (l ∷ ls) (r ∷ rs) out in
    let p_in = has-last prev l ls in
    let p_out = Distinct-apart_left p (l ∷ ls) (r ∷ rs) d p_in in
    let r_out = Distinct-apart r.ptr (l ∷ ls) (r ∷ rs) d (first-in r rs) in
    let f_l : (f.ptr == p) ≡ false = has-ne p f.ptr (l ∷ ls) p_in out_l in
    let f_r : (f.ptr == r.ptr) ≡ false = has-ne r.ptr f.ptr (r ∷ rs) (first-in r rs) out_r in
    let r_l : (r.ptr == p) ≡ false = has-ne p r.ptr (l ∷ ls) p_in r_out in
    let g₁ : Heap = write h f.ptr (some (entry p r.ptr f)) in
    let g₂ : Heap = write g₁ r.ptr (some (entry f.ptr (first rs next) r)) in
    let front₂ =
      Linked-write g₁ prev r.ptr r.ptr _ (l ∷ ls) r_out
        (Linked-write h prev r.ptr f.ptr _ (l ∷ ls) out_l front) in
    let back₂ =
      Linked-set_prev g₁ p f.ptr next r rs (Distinct-back (l ∷ ls) (r ∷ rs) d)
        (Linked-write h p next f.ptr _ (r ∷ rs) out_r back) in
    let new : g₂ f.ptr ≡ some (entry p r.ptr f) =
      write-ne g₁ r.ptr f.ptr _ f_r ∙ write-eq h f.ptr _ in
    let at₂ : g₂ p ≡ some e =
      write-ne g₁ r.ptr p _ (eq_sym p r.ptr ∙ r_l)
      ∙ (write-ne h f.ptr p _ (eq_sym p f.ptr ∙ f_l) ∙ at) in
    record {
      left = e;
      right = entry p (first rs next) r;
      at_left = at;
      on_left = on;
      at_right = back.0;
      apart = r_l;
      apart' = eq_sym p r.ptr ∙ r_l;
      new_left = eq_sym p f.ptr ∙ f_l;
      new_right = eq_sym r.ptr f.ptr ∙ f_r;
      linked =
          Linked-append _ prev next (l ∷ ls) (f ∷ r ∷ rs)
            (Linked-set_next g₂ prev r.ptr f.ptr l ls e (Distinct-front (l ∷ ls) (r ∷ rs) d) front₂
              at₂)
            (write-ne g₂ p f.ptr _ f_l ∙ new, Linked-write g₂ f.ptr next p _ (r ∷ rs) p_out back₂);
    }

module _ {N : NameMap Ptr} (c : Chain N) (fresh p b : Ptr) (name : String) (filter : Ptr)
    (e r : Entry) where
  -- the chain after `register_` has put `fresh` between `p` and `b`
  abbrev registered : Chain N
  registered = record c {
    heap =
        write
          (write
            (write c.heap fresh
              (some (record { prev_entry = p; next_entry = b; name = name; filter = filter })))
            b (some (record r { prev_entry = fresh })))
          p (some (record e { next_entry = fresh }));
    name2entry = N.put c.name2entry name fresh;
  }

  register_-run :
      c.heap p ≡ some e
      → e.next_entry ≡ b
      → c.heap b ≡ some r
      → (p == fresh) ≡ false
      → (b == fresh) ≡ false
      → (p == b) ≡ false
      → (filter == null) ≡ false
      → N.get c.name2entry name ≡ none
      → register_ fresh p name filter c ≡ ok tt registered
  unfolding register_
  register_-run at on at' pf bf pb fn unused = ground arith

splice_nodes :
    (h : Heap) (f front back : Cell) (us vs : List Cell)
    → Distinct ((front ∷ us) ++ (vs ++ back ∷ []))
    → Linked h null ((front ∷ us) ++ (vs ++ back ∷ [])) null
    → has f.ptr ((front ∷ us) ++ (vs ++ back ∷ [])) ≡ false
    → Spliced h null null f (front ∷ us) (vs ++ back ∷ [])
splice_nodes h f front back us [] = splice h null null f front back us []
splice_nodes h f front back us (v ∷ vs) = splice h null null f front v us (vs ++ back ∷ [])

abbrev pub cell : Ptr → String → Ptr → Cell
cell p n f = record { ptr = p; name = n; filter = f }

has-insert :
    (a : Ptr) (us vs : List Cell) (f : Cell)
    → (a == f.ptr) ≡ false
    → has a (us ++ vs) ≡ false
    → has a (us ++ f ∷ vs) ≡ false
has-insert a [] vs f ne out = ground arith
has-insert a (u ∷ us) vs f ne out = ground (arith, has-insert a us vs f)

-- What a new entry needs: an address that no entry has, a filter, and a name that is not in use.
pub record CanJoin (front back : Cell) (xs : List Cell) (f : Cell) : Type 0 where
  pub new : has f.ptr (nodes front back xs) ≡ false
  pub new_not_null : (null == f.ptr) ≡ false
  pub filter_not_null : (f.filter == null) ≡ false
  pub unused : find_name f.name xs ≡ none

module _ {N : NameMap Ptr} {c : Chain N} {front back : Cell} (fresh : Ptr) (name : String)
    (filter : Ptr) where
  pub register_-IsChain :
      (us vs : List Cell)
      → IsChain c front back (us ++ vs)
      → CanJoin front back (us ++ vs) (cell fresh name filter)
      → (c' : Chain N) × (register_ fresh (last front.ptr us) name filter c ≡ ok tt c')
        × IsChain c' front back (us ++ cell fresh name filter ∷ vs)
  register_-IsChain us vs is can =
      let f : Cell = cell fresh name filter in
      let regroup : nodes front back (us ++ vs) ≡ (front ∷ us) ++ (vs ++ back ∷ []) =
        ap (λ l. front ∷ l) (append_assoc us vs (back ∷ [])) in
      let regroup' : nodes front back (us ++ f ∷ vs) ≡ (front ∷ us) ++ f ∷ (vs ++ back ∷ []) =
        ap (λ l. front ∷ l) (append_assoc us (f ∷ vs) (back ∷ [])) in
      let d = subst Distinct regroup is.distinct in
      let o = subst (λ l. has fresh l ≡ false) regroup can.new in
      let s =
        splice_nodes c.heap f front back us vs d
          (subst (λ l. Linked c.heap null l null) regroup is.linked) o in
      let after : Chain N =
        registered c fresh (last front.ptr us) (first (vs ++ back ∷ []) null) name filter s.left
          s.right in
      (
        after,
        register_-run c fresh (last front.ptr us) (first (vs ++ back ∷ []) null) name filter s.left
            s.right s.at_left s.on_left s.at_right s.new_left s.new_right s.apart'
            can.filter_not_null (is.names name ∙ can.unused),
        record {
          head = is.head;
          tail = is.tail;
          distinct =
              subst⁻¹ Distinct regroup' (Distinct-insert (front ∷ us) (vs ++ back ∷ []) f d o);
          not_null =
              subst⁻¹ (λ l. has null l ≡ false) regroup'
                (has-insert null (front ∷ us) (vs ++ back ∷ []) f can.new_not_null
                  (subst (λ l. has null l ≡ false) regroup is.not_null));
          linked = subst⁻¹ (λ l. Linked after.heap null l null) regroup' s.linked;
          names = λ k.
              N.get-put c.name2entry name k fresh
              ∙ (ap (λ o. if str_eq name k then some fresh else o) (is.names k)
                  ∙ sym (find_name-insert k us vs f can.unused));
          unique = UniqueNames-insert us vs f is.unique can.unused;
        },
      )
