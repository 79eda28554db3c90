-- ===== src/HandleMap/Invariant.antt =====
-- The invariant of the handle map and the operations of src/handle-map.c.
use tpm2_abrmd.Prelude.{
  ℕ, ◌+◌, ◌*◌, ◌/◌, ◌%◌, ◌^◌, ◌≤◌, ◌<◌, ◌≡◌, true, false, [], ◌∷◌, Bool-cases, inl, inr, arith,
  Bool, ◌==◌, ◌||◌, ◌⊎◌,
}
use native.Mathlib.Decide.{dec_lt}
use tpm2_abrmd.Table.{Table, contains, insert, remove, remove_key, size}
use tpm2_abrmd.Table.Laws.{
  Distinct, AllKeys, insert-Distinct, remove-Distinct, size-insert, size-remove, insert-AllKeys,
  remove-AllKeys,
}
use tpm2_abrmd.HandleMap.{
  HandleMap, handle_map_new, handle_map_is_full, handle_map_insert, handle_map_remove,
  handle_map_next_vhandle,
}

-- A handle that a map of this type has handed out when its counter stood at `count`.
abbrev pub IsIssued : ℕ → ℕ → ℕ → Type 0
IsIssued type count h = (h / 2 ^ 24 ≡ type) × (h % 2 ^ 24 < count)

pub record IsValid (m : HandleMap) : Type 0 where
  pub type_byte : m.handle_type < 256
  pub limit : m.max_entries ≤ 100
  pub started : 0xff ≤ m.handle_count
  pub counted : m.handle_count ≤ 2 ^ 24
  pub bounded : size m.vhandle_to_entry_table ≤ m.max_entries + 1
  pub distinct : Distinct m.vhandle_to_entry_table
  pub issued : AllKeys (IsIssued m.handle_type m.handle_count) m.vhandle_to_entry_table

-- A new map is valid, for a type that fits a byte and a limit of at most MAX_ENTRIES_MAX.
pub new-IsValid : (t n : ℕ) → t < 256 → n ≤ 100 → IsValid (handle_map_new t n)
unfolding handle_map_new
new-IsValid t n h k = record {
  type_byte = h;
  limit = k;
  started = omega arith;
  counted = omega arith;
  bounded = omega arith;
  distinct = tt;
  issued = tt;
}

-- A handle that has been issued stays issued as the counter moves on.
IsIssued-mono : (t c : ℕ) (l : Table ℕ) → AllKeys (IsIssued t c) l → AllKeys (IsIssued t (c + 1)) l
IsIssued-mono t c [] a = tt
IsIssued-mono t c ((k, v) ∷ l) a = ((a.0.0, omega arith), IsIssued-mono t c l a.1)

-- `handle_map_insert` leaves the map alone, or adds an entry that was not there to a map that is
-- not full.
pub data Inserts (m : HandleMap) (h e : ℕ) : HandleMap × Bool → Type 0 where
  refuses : handle_map_is_full m ≡ true → Inserts m h e (m, false)
  skips : handle_map_is_full m ≡ false → Inserts m h e (m, true)
  adds :
      size m.vhandle_to_entry_table < m.max_entries + 1
      → contains h m.vhandle_to_entry_table ≡ false
      → Inserts m h e
          (record m { vhandle_to_entry_table = insert h e m.vhandle_to_entry_table }, true)

is_full-room :
    (m : HandleMap)
    → handle_map_is_full m ≡ false
    → size m.vhandle_to_entry_table < m.max_entries + 1
unfolding handle_map_is_full
is_full-room m h = ground arith

pub insert-Inserts : (m : HandleMap) (h e : ℕ) → Inserts m h e (handle_map_insert m h e)
unfolding handle_map_insert
insert-Inserts m h e = elim (Bool-cases (handle_map_is_full m)) [
  | inl full ↦ rw full (refuses full)
  | inr room ↦ rw room elim (Bool-cases (e == 0 || h == 0)) [
    | inl null ↦ rw null (skips room)
    | inr set ↦ rw set elim (Bool-cases (contains h m.vhandle_to_entry_table)) [
      | inl old ↦ rw old (skips room)
      | inr new ↦ rw new (adds (is_full-room m room) new)
    ]
  ]
]

Inserts-IsValid :
    (m : HandleMap) (h e : ℕ) {r : HandleMap × Bool}
    → IsValid m
    → IsIssued m.handle_type m.handle_count h
    → Inserts m h e r
    → IsValid r.0
Inserts-IsValid m h e v i (refuses full) = v
Inserts-IsValid m h e v i (skips room) = v
Inserts-IsValid m h e v i (adds room new) =
    let t = m.vhandle_to_entry_table in
    record {
      type_byte = v.type_byte;
      limit = v.limit;
      started = v.started;
      counted = v.counted;
      bounded = ground (arith, size-insert h e t);
      distinct = insert-Distinct h e t v.distinct;
      issued = insert-AllKeys (IsIssued m.handle_type m.handle_count) h e t i v.issued;
    }

-- Inserting an issued handle keeps the invariant, whatever `handle_map_insert` answers.
pub handle_map_insert-IsValid :
    (m : HandleMap) (h e : ℕ)
    → IsValid m
    → IsIssued m.handle_type m.handle_count h
    → IsValid (handle_map_insert m h e).0
handle_map_insert-IsValid m h e v i = Inserts-IsValid m h e v i (insert-Inserts m h e)

pub size-remove_le : (h : ℕ) (t : Table ℕ) → size (remove_key h t) ≤ size t
size-remove_le h t = ground (arith, size-remove h t)

-- Removing a handle, in the map or not, keeps the invariant.
pub handle_map_remove-IsValid :
    (m : HandleMap) (h : ℕ) → IsValid m → IsValid (handle_map_remove m h).0
unfolding handle_map_remove remove
handle_map_remove-IsValid m h v =
    let t = m.vhandle_to_entry_table in
    record {
      type_byte = v.type_byte;
      limit = v.limit;
      started = v.started;
      counted = v.counted;
      bounded = omega (arith, size-remove_le h t, v.bounded);
      distinct = remove-Distinct h t v.distinct;
      issued = remove-AllKeys (IsIssued m.handle_type m.handle_count) h t v.issued;
    }

-- `handle_map_next_vhandle` answers 0 and leaves the map alone once the counter has a bit in the
-- type byte; before that it answers the type byte with the counter, and advances the counter.
pub next_vhandle_cases :
    (m : HandleMap)
    → IsValid m
    → ((m.handle_count ≡ 2 ^ 24) × (handle_map_next_vhandle m ≡ (m, 0)))
      ⊎ ((m.handle_count < 2 ^ 24)
          × (handle_map_next_vhandle m ≡ (
            record m { handle_count = m.handle_count + 1 },
            m.handle_count + m.handle_type * 2 ^ 24,
          )))
unfolding handle_map_next_vhandle
next_vhandle_cases m v = elim (dec_lt m.handle_count (2 ^ 24)) [
  | yes p ↦ inr (p, ground arith)
  | no p ↦ inl (omega arith, ground arith)
]

-- Asking for a new handle keeps the invariant, also when the counter has rolled over.
pub next_vhandle-IsValid : (m : HandleMap) → IsValid m → IsValid (handle_map_next_vhandle m).0
next_vhandle-IsValid m v = elim (next_vhandle_cases m v) [
  | inl (_, e) ↦ rw e v
  | inr (p, e) ↦ rw e (record {
    type_byte = v.type_byte;
    limit = v.limit;
    started = omega (arith, v.started);
    counted = omega arith;
    bounded = v.bounded;
    distinct = v.distinct;
    issued = IsIssued-mono m.handle_type m.handle_count m.vhandle_to_entry_table v.issued;
  })
]
