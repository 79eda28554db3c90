-- ===== src/Tests/Maps.antt =====
-- Transient maps as a connection has them (src/handle-map.c).
use tpm2_abrmd.Prelude.{
  ◌+◌, ◌*◌, ◌^◌, true, false, [], ◌∷◌, none, some, if◌then◌else◌, ◌==◌, ◌≡◌, ◌↔◌, refl, arith,
}
use tpm2_abrmd.Table.{contains, lookup}
use tpm2_abrmd.HandleMap.{
  HandleMap, handle_map_is_full, handle_map_insert, handle_map_vlookup, handle_map_size,
}
use tpm2_abrmd.HandleMap.Invariant.{IsValid, handle_map_insert-IsValid}
use tpm2_abrmd.HandleMap.Lookup.{is_full_iff, vlookup-insert_new}
use tpm2_abrmd.HandleMap.Fresh.{issue, issue-Rising, Rising}

-- A map with one entry, at address 5, and room for two more.
abbrev one_object : HandleMap
one_object = record {
  handle_type = 0x80;
  handle_count = 0x101;
  vhandle_to_entry_table = (0x800000ff, 5) ∷ [];
  max_entries = 2;
}

one_object-IsValid : IsValid one_object
unfolding contains
one_object-IsValid = record {
  type_byte = omega arith;
  limit = omega arith;
  started = omega arith;
  counted = omega arith;
  bounded = omega arith;
  distinct = (refl, tt);
  issued = ((refl, omega arith), tt);
}

is_full_iff_example : (handle_map_is_full one_object ≡ true) ↔ (handle_map_size one_object ≡ 2 + 1)
is_full_iff_example = is_full_iff one_object one_object-IsValid

room_left : handle_map_is_full one_object ≡ false
unfolding handle_map_is_full
room_left = refl

new_handle : handle_map_vlookup one_object 0x80000100 ≡ none
unfolding handle_map_vlookup lookup
new_handle = refl

vlookup-insert_new_example :
    ((handle_map_insert one_object 0x80000100 6).1 ≡ true)
    × (handle_map_vlookup (handle_map_insert one_object 0x80000100 6).0 0x80000100
        ≡ (if 0x80000100 == 0x80000100 then some 6 else handle_map_vlookup one_object 0x80000100))
vlookup-insert_new_example =
    vlookup-insert_new one_object 0x80000100 6 0x80000100 room_left (λ p. omega arith)
      (λ p. omega arith) new_handle

handle_map_insert-IsValid_example : IsValid (handle_map_insert one_object 0x80000100 6).0
handle_map_insert-IsValid_example =
    handle_map_insert-IsValid one_object 0x80000100 6 one_object-IsValid (refl, omega arith)

issue-Rising_example : Rising (0x101 + 0x80 * 2 ^ 24) (issue 3 one_object)
issue-Rising_example = issue-Rising 3 one_object one_object-IsValid
