-- ===== src/Connections.antt =====
-- src/connection.c and src/connection-manager.c: the connections of the daemon, in two tables that are
-- kept in step. The mutex is held throughout each operation, and is not modelled.
pub mod Invariant
pub mod Removal
use tpm2_abrmd.Prelude.{
  ℕ, Bool, true, false, List, [], Option, none, some, if◌then◌else◌, ltb, ◌&&◌,
}
use tpm2_abrmd.Table.{Table, lookup, insert, remove, contains, size}

-- `address` tells the objects apart. `istream` and `ostream` are the two ends of the iostream, and
-- `transient_handle_map` an address.
pub record Connection : Type 0 where
  pub address : ℕ
  pub istream : ℕ
  pub ostream : ℕ
  pub id : ℕ
  pub transient_handle_map : ℕ

unfoldable pub connection_new : ℕ → ℕ → ℕ → ℕ → ℕ → Connection
connection_new address istream ostream id map = record {
  address = address;
  istream = istream;
  ostream = ostream;
  id = id;
  transient_handle_map = map;
}

unfoldable pub connection_key_istream : Connection → ℕ
connection_key_istream connection = connection.istream

unfoldable pub connection_key_id : Connection → ℕ
connection_key_id connection = connection.id

pub record ConnectionManager : Type 0 where
  pub connection_from_istream_table : Table Connection
  pub connection_from_id_table : Table Connection
  pub max_connections : ℕ

unfoldable pub connection_manager_new : ℕ → ConnectionManager
connection_manager_new max_connections = record {
  connection_from_istream_table = [];
  connection_from_id_table = [];
  max_connections = max_connections;
}

unfoldable pub connection_manager_size : ConnectionManager → ℕ
connection_manager_size manager = size manager.connection_from_istream_table

unfoldable pub connection_manager_is_full : ConnectionManager → Bool
connection_manager_is_full manager =
    if ltb (size manager.connection_from_istream_table) manager.max_connections then false else true

unfoldable pub connection_manager_lookup_istream : ConnectionManager → ℕ → Option Connection
connection_manager_lookup_istream manager istream =
    lookup istream manager.connection_from_istream_table

unfoldable pub connection_manager_lookup_id : ConnectionManager → ℕ → Option Connection
connection_manager_lookup_id manager id = lookup id manager.connection_from_id_table

unfoldable pub connection_manager_contains_id : ConnectionManager → ℕ → Bool
connection_manager_contains_id manager id = contains id manager.connection_from_id_table

-- The manager, and whether the connection was taken; then the signal new-connection is emitted, which
-- the caller of this function answers (see `on_new_connection` of the command source).
unfoldable pub connection_manager_insert : ConnectionManager → Connection → ConnectionManager × Bool
unfolding connection_manager_is_full connection_key_istream connection_key_id
connection_manager_insert manager connection =
    if connection_manager_is_full manager then (manager, false) else (
      record manager {
        connection_from_istream_table =
            insert (connection_key_istream connection) connection
              manager.connection_from_istream_table;
        connection_from_id_table =
            insert (connection_key_id connection) connection manager.connection_from_id_table;
      },
      true,
    )

-- `none` is g_error, which ends the daemon: the connection is missing in one of the tables.
unfoldable pub connection_manager_remove :
    ConnectionManager → Connection → Option (ConnectionManager × Bool)
unfolding connection_key_istream connection_key_id
connection_manager_remove manager connection =
    let (by_istream, was_there) =
      remove (connection_key_istream connection) manager.connection_from_istream_table in
    let (by_id, was_there') =
      remove (connection_key_id connection) manager.connection_from_id_table in
    if was_there && was_there'
    then some (
      record manager {
        connection_from_istream_table = by_istream;
        connection_from_id_table = by_id;
      },
      true,
    )
    else none
