-- ===== src/HandleMap/Fresh.antt =====
-- The virtual handles that a map of src/handle-map.c hands out, one after another.
use tpm2_abrmd.Prelude.{
  ℕ, zero, suc, ◌+◌, ◌*◌, ◌/◌, ◌%◌, ◌^◌, ◌≤◌, ◌≡◌, refl, ap, ◌⊎◌, ◌↔◌, ==-of_ne, inl, inr, false,
  List, [], ◌∷◌, if◌then◌else◌, ◌==◌, arith, Bool-cases,
}
use tpm2_abrmd.Table.{contains}
use tpm2_abrmd.Table.Laws.{contains_of_AllKeys}
use tpm2_abrmd.HandleMap.{HandleMap, handle_map_next_vhandle}
use tpm2_abrmd.HandleMap.Invariant.{IsValid, IsIssued, next_vhandle_cases, next_vhandle-IsValid}

not_issued :
    (m : HandleMap) (h : ℕ)
    → IsValid m
    → h % 2 ^ 24 ≡ m.handle_count
    → contains h m.vhandle_to_entry_table ≡ false
not_issued m h v e = elim (Bool-cases (contains h m.vhandle_to_entry_table)) [
  | inl old ↦ absurd (
      omega (
        arith,
        (contains_of_AllKeys (IsIssued m.handle_type m.handle_count) h m.vhandle_to_entry_table
            v.issued old).1,
      ))
  | inr new ↦ new
]

-- In a valid map, a nonzero answer of `handle_map_next_vhandle` has the map's type in its top byte,
-- is issued by the map that is left, and is not the handle of any entry. The answer is 0 exactly
-- when the counter has reached 2 ^ 24.
pub next_vhandle_fresh :
    (m : HandleMap)
    → IsValid m
    → let (m', h) = handle_map_next_vhandle m in
      ((h ≡ 0)
        ⊎ (h / 2 ^ 24 ≡ m.handle_type)
          × IsIssued m'.handle_type m'.handle_count h
          × (contains h m'.vhandle_to_entry_table ≡ false))
      × ((h ≡ 0) ↔ (m.handle_count ≡ 2 ^ 24))
next_vhandle_fresh m v = elim (next_vhandle_cases m v) [
  | inl (full, e) ↦ rw e (inl refl, ((λ _. full), (λ _. refl)))
  | inr (p, e) ↦ rw e (
    inr (
      omega (arith, v.type_byte),
      (omega (arith, v.type_byte), omega arith),
      not_issued m _ v (omega arith),
    ),
    ((λ z. absurd (omega (arith, v.started))), (λ z. absurd (omega arith))),
  )
]

-- The nonzero answers of `n` requests for a handle, in order.
pub issue : ℕ → HandleMap → List ℕ
issue zero m = []
issue (suc n) m =
    let (m', h) = handle_map_next_vhandle m in
    let rest = issue n m' in if h == 0 then rest else h ∷ rest

-- Each is above the bound and the ones before it.
abbrev pub Rising : ℕ → List ℕ → Type 0
Rising b [] = Unit
Rising b (h ∷ hs) = (b ≤ h) × Rising (h + 1) hs

Rising-from :
    (n : ℕ) (m : HandleMap) (b : ℕ)
    → IsValid m
    → b ≡ m.handle_count + m.handle_type * 2 ^ 24
    → Rising b (issue n m)
unfolding issue
Rising-from zero m b v q = tt
Rising-from (suc n) m b v q = elim (next_vhandle_cases m v) [
  | inl (full, e) ↦ rw e (Rising-from n m b v q)
  | inr (p, e) ↦
      let v' : IsValid (record m { handle_count = m.handle_count + 1 }) =
        rw (ap (λ r. r.0) e) at (next_vhandle-IsValid m v) in
      rw (e, ==-of_ne (m.handle_count + m.handle_type * 2 ^ 24) 0 (omega (arith, v.started)))
        (
          omega arith,
          Rising-from n (record m { handle_count = m.handle_count + 1 })
              (m.handle_count + m.handle_type * 2 ^ 24 + 1) v' (omega arith),
        )
]

-- The handles that a valid map hands out, in any number of requests, rise strictly: none is handed
-- out twice, and none lies below the sum of the counter and the shifted type at the start.
pub issue-Rising :
    (n : ℕ) (m : HandleMap)
    → IsValid m
    → Rising (m.handle_count + m.handle_type * 2 ^ 24) (issue n m)
issue-Rising n m v = Rising-from n m (m.handle_count + m.handle_type * 2 ^ 24) v refl
