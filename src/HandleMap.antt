-- ===== src/HandleMap.antt =====
-- src/handle-map.c and src/handle-map-entry.c: the map of a connection from virtual handles to the
-- entries of its transient objects, and the counter that new virtual handles come from. An entry
-- is named by its address, since the list of the objects loaded for a command shares it; NULL is
-- address 0. A reference count is not modelled, and nor is the mutex, which each operation holds
-- throughout.
pub mod Invariant
pub mod Lookup
pub mod Fresh
use tpm2_abrmd.Prelude.{
  ℕ, ◌+◌, ◌*◌, ◌/◌, ◌%◌, ◌^◌, Bool, true, false, ◌||◌, List, [], Option, none, some, if◌then◌else◌,
  ltb, ◌==◌, not,
}
use tpm2_abrmd.Table.{Table, lookup, insert, remove, remove_key, contains, is_some, size, keys}

pub record HandleMapEntry : Type 0 where
  pub phandle : ℕ
  pub vhandle : ℕ
  pub context : List ℕ

unfoldable pub handle_map_entry_new : ℕ → ℕ → HandleMapEntry
handle_map_entry_new phandle vhandle = record { phandle = phandle; vhandle = vhandle; context = [] }

unfoldable pub handle_map_entry_set_phandle : HandleMapEntry → ℕ → HandleMapEntry
handle_map_entry_set_phandle entry phandle = record entry { phandle = phandle }

pub record HandleMap : Type 0 where
  pub handle_type : ℕ
  pub handle_count : ℕ
  pub vhandle_to_entry_table : Table ℕ
  pub max_entries : ℕ

-- `handle_map_new` with `handle_map_init`
unfoldable pub handle_map_new : ℕ → ℕ → HandleMap
handle_map_new handle_type max_entries = record {
  handle_type = handle_type;
  handle_count = 0xff;
  vhandle_to_entry_table = [];
  max_entries = max_entries;
}

-- The sum is one of unsigned 32-bit integers.
unfoldable pub handle_map_is_full : HandleMap → Bool
handle_map_is_full map =
    if ltb (size map.vhandle_to_entry_table) ((map.max_entries + 1) % 2 ^ 32) then false else true

unfoldable pub handle_map_insert : HandleMap → ℕ → ℕ → HandleMap × Bool
unfolding handle_map_is_full
handle_map_insert map vhandle entry =
    if handle_map_is_full map
    then (map, false)
    else if entry == 0 || vhandle == 0
    then (map, true)
    else if contains vhandle map.vhandle_to_entry_table
    then (map, true)
    else (
      record map { vhandle_to_entry_table = insert vhandle entry map.vhandle_to_entry_table },
      true,
    )

unfoldable pub handle_map_remove : HandleMap → ℕ → HandleMap × Bool
unfolding remove
handle_map_remove map vhandle =
    let (table, ret) = remove vhandle map.vhandle_to_entry_table in
    (record map { vhandle_to_entry_table = table }, ret)

-- `handle_map_lookup` on the map's only table; NULL is `none`
unfoldable pub handle_map_vlookup : HandleMap → ℕ → Option ℕ
handle_map_vlookup map vhandle = lookup vhandle map.vhandle_to_entry_table

unfoldable pub handle_map_size : HandleMap → ℕ
handle_map_size map = size map.vhandle_to_entry_table

-- `handle_count & TPM2_HR_RANGE_MASK` is nonzero when a bit of the top byte is set. The handle is 0
-- when the counter has rolled over.
unfoldable pub handle_map_next_vhandle : HandleMap → HandleMap × ℕ
handle_map_next_vhandle map =
    if map.handle_count / 2 ^ 24 == 0
    then (
      record map { handle_count = (map.handle_count + 1) % 2 ^ 32 },
      (map.handle_count + map.handle_type * 2 ^ 24) % 2 ^ 32,
    )
    else (map, 0)

unfoldable pub handle_map_get_keys : HandleMap → List ℕ
handle_map_get_keys map = keys map.vhandle_to_entry_table
