-- ===== src/Frontend.antt =====
-- The handlers of src/ipc-frontend-dbus.c for the calls that clients make over D-Bus. The process id of
-- the caller, which the bus is asked for, the random number and the pair of sockets are parameters.
pub mod Created
use Prim.Native.Nat.{bit_xor}
use tpm2_abrmd.Prelude.{ℕ, ◌+◌, Bool, true, false, Option, none, some, if◌then◌else◌}
use tpm2_abrmd.Constants.{ht_transient}
use tpm2_abrmd.HandleMap.{HandleMap, handle_map_new}
use tpm2_abrmd.Connections.{
  Connection, ConnectionManager, connection_new, connection_manager_is_full,
  connection_manager_contains_id, connection_manager_insert, connection_manager_lookup_id,
}
use tpm2_abrmd.CommandSource.{CommandSource, on_new_connection}

-- The errors that the handlers return.
pub data TabrmdError : Type 0 where
  error_max_connections error_id_generation error_internal error_not_permitted : TabrmdError
  error_not_implemented : TabrmdError

pub data Reply : Type 0 where
  refused : TabrmdError → Reply
  created_connection : ℕ → ℕ → Reply

-- The sockets of a connection: the daemon's streams, and the descriptor for the client.
pub record SocketPair : Type 0 where
  pub istream : ℕ
  pub ostream : ℕ
  pub client_fd : ℕ

-- What a call of CreateConnection leaves: the command source, with the connections that it shares
-- with the frontend, the answer, and the map that a new connection has.
pub record Creation : Type 0 where
  pub source : CommandSource
  pub reply : Reply
  pub map : Option HandleMap

-- The manager takes the connection, and tells the command source by its signal.
unfoldable pub add_connection : CommandSource → Connection → CommandSource
add_connection source connection =
    let (manager, taken) = connection_manager_insert source.connection_manager connection in
    let source' = record source { connection_manager = manager } in
    if taken then on_new_connection source' connection else source'

-- The connection is known under the number that the client is given, mixed with its process id.
unfoldable pub create_for : CommandSource → ℕ → ℕ → ℕ → SocketPair → Creation
unfolding add_connection
create_for source max_transient_objects pid id sockets =
    let mix = bit_xor id pid in
    if connection_manager_contains_id source.connection_manager mix
    then record { source = source; reply = refused error_id_generation; map = none }
    else let connection =
        connection_new source.next_address sockets.istream sockets.ostream mix
          source.next_address in
      record {
        source =
            add_connection (record source { next_address = source.next_address + 1 }) connection;
        reply = created_connection id sockets.client_fd;
        map = some (handle_map_new ht_transient max_transient_objects);
      }

-- `pid` is `none` where the bus does not tell it.
unfoldable pub on_handle_create_connection :
    CommandSource → ℕ → Option ℕ → ℕ → SocketPair → Creation
unfolding create_for
on_handle_create_connection source max_transient_objects pid id sockets =
    if connection_manager_is_full source.connection_manager
    then record { source = source; reply = refused error_max_connections; map = none }
    else elim pid [
      | none ↦ record { source = source; reply = refused error_internal; map = none }
      | some p ↦ create_for source max_transient_objects p id sockets
    ]

-- The answer to a call that is about a connection.
unfoldable pub for_connection : Option Connection → Reply
for_connection none = refused error_not_permitted
for_connection (some connection) = refused error_not_implemented

unfoldable pub on_handle_cancel : ConnectionManager → Option ℕ → ℕ → Reply
unfolding for_connection
on_handle_cancel manager none id = refused error_internal
on_handle_cancel manager (some pid) id =
    for_connection (connection_manager_lookup_id manager (bit_xor id pid))

unfoldable pub on_handle_set_locality : ConnectionManager → Option ℕ → ℕ → ℕ → Reply
unfolding for_connection
on_handle_set_locality manager none id locality = refused error_internal
on_handle_set_locality manager (some pid) id locality =
    for_connection (connection_manager_lookup_id manager (bit_xor id pid))
