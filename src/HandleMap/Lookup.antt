-- ===== src/HandleMap/Lookup.antt =====
-- What the operations of src/handle-map.c do to later lookups, and when a map is full.
use tpm2_abrmd.Prelude.{
  ℕ, ◌+◌, ◌≡◌, ◌≢◌, ◌∙◌, ap, refl, ◌↔◌, Bool, true, false, none, some, if◌then◌else◌, ◌==◌, arith,
  ==-of_ne,
}
use tpm2_abrmd.Table.{contains, lookup, remove, remove_key, is_some}
use tpm2_abrmd.Table.Laws.{lookup-insert, lookup-remove_ne, lookup-remove_self}
use tpm2_abrmd.HandleMap.{
  HandleMap, handle_map_is_full, handle_map_insert, handle_map_remove, handle_map_vlookup,
  handle_map_size,
}
use tpm2_abrmd.HandleMap.Invariant.{IsValid, Inserts, refuses, skips, adds, insert-Inserts}

-- A valid map is full exactly when it holds one entry more than `max_entries`.
pub is_full_iff :
    (m : HandleMap)
    → IsValid m
    → (handle_map_is_full m ≡ true) ↔ (handle_map_size m ≡ m.max_entries + 1)
unfolding handle_map_is_full handle_map_size
is_full_iff m v = (λ h. full h, λ e. ground arith)
  where
    full : handle_map_is_full m ≡ true → handle_map_size m ≡ m.max_entries + 1
    full h = ground arith

contains_of_lookup :
    (m : HandleMap) (h x : ℕ)
    → handle_map_vlookup m h ≡ some x
    → contains h m.vhandle_to_entry_table ≡ true
unfolding handle_map_vlookup contains
contains_of_lookup m h x e = rw e

-- Whatever `handle_map_insert` is given, an entry that is in the map stays under its handle.
pub vlookup-insert_old :
    (m : HandleMap) (h e k x : ℕ)
    → handle_map_vlookup m k ≡ some x
    → handle_map_vlookup (handle_map_insert m h e).0 k ≡ some x
unfolding handle_map_vlookup
vlookup-insert_old m h e k x old = kept (insert-Inserts m h e)
  where
    kept : {r : HandleMap × Bool} → Inserts m h e r → handle_map_vlookup r.0 k ≡ some x
    kept (refuses full) = old
    kept (skips room) = old
    kept (adds room new) =
        lookup-insert h k e m.vhandle_to_entry_table
        ∙ (rw
            (==-of_ne h k (λ p.
              cc (
                new,
                contains_of_lookup m k x old,
                ap (λ j. contains j m.vhandle_to_entry_table) p,
              )))
            old)

-- An entry inserted under a handle that is not in the map, where the map is not full and neither
-- handle nor entry is 0, is found there, and every other handle finds what it found before.
pub vlookup-insert_new :
    (m : HandleMap) (h e k : ℕ)
    → handle_map_is_full m ≡ false
    → h ≢ 0
    → e ≢ 0
    → handle_map_vlookup m h ≡ none
    → ((handle_map_insert m h e).1 ≡ true)
      × (handle_map_vlookup (handle_map_insert m h e).0 k
          ≡ (if h == k then some e else handle_map_vlookup m k))
unfolding handle_map_insert handle_map_vlookup contains
vlookup-insert_new m h e k room hn en new =
    rw (room, ==-of_ne e 0 en, ==-of_ne h 0 hn, new)
      (refl, lookup-insert h k e m.vhandle_to_entry_table)

-- In a valid map a removed handle is no longer found, every other handle is found as before, and
-- the answer tells whether there was an entry.
pub vlookup-remove :
    (m : HandleMap) (h k : ℕ)
    → IsValid m
    → (handle_map_vlookup (handle_map_remove m h).0 k
        ≡ (if h == k then none else handle_map_vlookup m k))
      × ((handle_map_remove m h).1 ≡ is_some (handle_map_vlookup m h))
unfolding handle_map_remove remove handle_map_vlookup contains
vlookup-remove m h k v = (found, refl)
  where
    found :
        lookup k (remove_key h m.vhandle_to_entry_table)
        ≡ (if h == k then none else lookup k m.vhandle_to_entry_table)
    found = ground (
      arith,
      lookup-remove_self h m.vhandle_to_entry_table v.distinct,
      lookup-remove_ne h k m.vhandle_to_entry_table,
    )
