-- ===== src/ResourceManager/Listing.antt =====
-- src/resource-manager.c, `get_cap_handles`: the handles that it lists.
use tpm2_abrmd.Prelude.{
  ℕ, zero, suc, ◌+◌, Bool, true, false, ◌||◌, if◌then◌else◌, ltb, List, [], ◌∷◌, ◌++◌, length,
  length-append, take, Ordering, ◌≡◌, refl, sym, ap, ◌∙◌, arith, Bool-cases, inl, inr,
}
use native.Mathlib.Nat.{add-zero, zero-add}
use tpm2_abrmd.HandleMap.{HandleMap, handle_map_get_keys}
use tpm2_abrmd.ResourceManager.Capability.{
  VhandleIteratorState, vhandle_iterator_callback, iterate, handle_compare, get_cap_handles,
}

-- The handles that are at least `start`, in their order
unfoldable pub at_least : ℕ → List ℕ → List ℕ
at_least start [] = []
at_least start (h ∷ l) = if ltb h start then at_least start l else h ∷ at_least start l

append_assoc : (a b c : List ℕ) → (a ++ b) ++ c ≡ a ++ (b ++ c)
append_assoc [] b c = refl
append_assoc (x ∷ a) b c = ap (λ l. x ∷ l) (append_assoc a b c)

append_nil : (a : List ℕ) → a ++ [] ≡ a
append_nil [] = refl
append_nil (x ∷ a) = ap (λ l. x ∷ l) (append_nil a)

ltb-zero_suc : (n : ℕ) → ltb 0 (suc n) ≡ true
ltb-zero_suc n = ground arith

ltb-suc_zero : (n : ℕ) → ltb (suc n) 0 ≡ false
ltb-suc_zero n = ground arith

ltb-suc-suc : (n m : ℕ) → ltb (suc n) (suc m) ≡ ltb n m
ltb-suc-suc n m = ground arith

or_true : (b : Bool) → (b || true) ≡ true
or_true false = refl
or_true true = refl

ltb_irrefl : (n m : ℕ) → n ≡ m → ltb n m ≡ false
ltb_irrefl n m e = ground arith

ltb_room : (n m k : ℕ) → n + suc k ≡ m → ltb n m ≡ true
ltb_room n m k e = ground arith

room_shift :
    (handles : List ℕ) (h n m : ℕ) → length handles + suc n ≡ m → length (handles ++ h ∷ []) + n ≡ m
room_shift handles h n m e = ground (arith, length-append handles (h ∷ []))

-- The state after a walk, from what it has collected
module _ (start max : ℕ) where
  abbrev state : List ℕ → Bool → VhandleIteratorState
  state handles more = record {
    handles = handles;
    max_count = max;
    more_data = more;
    start_handle = start;
  }

  iterate_full :
      (l handles : List ℕ) (more : Bool)
      → length handles ≡ max
      → iterate (state handles more) l ≡ state handles (more || ltb 0 (length (at_least start l)))
  unfolding iterate at_least vhandle_iterator_callback
  iterate_full [] handles false e = refl
  iterate_full [] handles true e = refl
  iterate_full (h ∷ l) handles more e = elim (Bool-cases (ltb h start)) [
    | inl p ↦ rw (p, vhandle_iterator_callback) (iterate_full l handles more e)
    | inr p ↦
        rw
          (
            p,
            ltb_irrefl _ _ e,
            ltb-zero_suc (length (at_least start l)),
            or_true more,
            vhandle_iterator_callback,
          )
          (iterate_full l handles true e)
  ]

  iterate_room :
      (l handles : List ℕ) (n : ℕ)
      → length handles + n ≡ max
      → iterate (state handles false) l
        ≡ state (handles ++ take n (at_least start l)) (ltb n (length (at_least start l)))
  unfolding iterate at_least vhandle_iterator_callback
  iterate_room l handles zero e =
      rw (append_nil handles) (iterate_full l handles false (sym (add-zero (length handles)) ∙ e))
  iterate_room [] handles (suc n) e = rw (append_nil handles, ltb-suc_zero n) refl
  iterate_room (h ∷ l) handles (suc n) e = elim (Bool-cases (ltb h start)) [
    | inl p ↦ rw (p, vhandle_iterator_callback) (iterate_room l handles (suc n) e)
    | inr p ↦
        rw
          (
            p,
            ltb_room _ _ _ e,
            ltb-suc-suc n (length (at_least start l)),
            sym (append_assoc handles (h ∷ []) (take n (at_least start l))),
            vhandle_iterator_callback,
          )
          (iterate_room l (handles ++ h ∷ []) n (room_shift handles h n max e))
  ]

-- The handles listed are the first `count` of the map's handles that are at least `prop`, in the order in
-- which they are sorted, and the flag tells whether there are more than `count` of these.
pub get_cap_handles_lem :
    (list_sort : (ℕ → ℕ → Ordering) → List ℕ → List ℕ) (map : HandleMap) (prop count : ℕ)
    → get_cap_handles list_sort map prop count ≡ (
        let l = at_least prop (list_sort handle_compare (handle_map_get_keys map)) in
        (take count l, ltb count (length l)))
unfolding get_cap_handles
get_cap_handles_lem list_sort map prop count =
    ap (λ s. (s.handles, s.more_data))
      (iterate_room prop count (list_sort handle_compare (handle_map_get_keys map)) [] count
        (zero-add count))
