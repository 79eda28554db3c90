-- ===== src/Frontend/Created.antt =====
-- What a call of CreateConnection leaves (src/ipc-frontend-dbus.c).
use Prim.Native.Nat.{bit_xor}
use tpm2_abrmd.Prelude.{
  ℕ, ◌+◌, ◌≤◌, ◌<◌, ◌≡◌, Option-cases, refl, sym, ap, subst, ◌∙◌, true, false, Option, none, some,
  Bool-cases, inl, inr, if◌then◌else◌, ◌==◌, arith,
}
use tpm2_abrmd.Table.{lookup, contains, is_some}
use tpm2_abrmd.Table.Laws.{contains-insert}
use tpm2_abrmd.Connections.{
  Connection, ConnectionManager, connection_new, connection_manager_is_full,
  connection_manager_contains_id, connection_manager_insert, connection_manager_lookup_id,
  connection_manager_lookup_istream, connection_manager_size,
}
use tpm2_abrmd.Connections.Invariant.{
  IsSync, connection_manager_insert-IsSync, lookup_id-insert, room_taken, full_size, is_full_size,
}
use tpm2_abrmd.HandleMap.{handle_map_new}
use tpm2_abrmd.Constants.{ht_transient}
use tpm2_abrmd.CommandSource.{CommandSource, on_new_connection}
use tpm2_abrmd.Frontend.{
  TabrmdError, error_max_connections, error_id_generation, error_internal, refused,
  created_connection, SocketPair, Creation, add_connection, create_for, on_handle_create_connection,
}

-- A refused call.
abbrev pub refusal : CommandSource → TabrmdError → Creation
refusal source e = record { source = source; reply = refused e; map = none }

-- How a call ends. It is refused with an error, and nothing changes: there are as many connections as
-- there may be, the process id `pid` is not known, or the number `id` mixed with it is in use. Or none
-- of these is so, and the client gets the number `id` and its end of the sockets: the new connection is
-- found under the mixed number, every other number finds what it found, its stream is watched, and the
-- new map is empty.
pub data Ending (source : CommandSource) (max id : ℕ) (sockets : SocketPair)
    : Option ℕ → Creation → Type 0 where
  no_room :
      {pid : Option ℕ}
      → source.connection_manager.max_connections
        ≤ connection_manager_size source.connection_manager
      → Ending source max id sockets pid (refusal source error_max_connections)
  no_pid :
      connection_manager_size source.connection_manager < source.connection_manager.max_connections
      → Ending source max id sockets none (refusal source error_internal)
  in_use :
      (p : ℕ) (c : Connection)
      → connection_manager_size source.connection_manager
        < source.connection_manager.max_connections
      → connection_manager_lookup_id source.connection_manager (bit_xor id p) ≡ some c
      → Ending source max id sockets (some p) (refusal source error_id_generation)
  opened :
      (p : ℕ) (c : Connection) {r : Creation}
      → connection_manager_size source.connection_manager
        < source.connection_manager.max_connections
      → connection_manager_lookup_id source.connection_manager (bit_xor id p) ≡ none
      → r.reply ≡ created_connection id sockets.client_fd
      → r.map ≡ some (handle_map_new ht_transient max)
      → IsSync r.source.connection_manager
      → ((i : ℕ)
          → connection_manager_lookup_id r.source.connection_manager i ≡ (
              if bit_xor id p == i
              then some c
              else connection_manager_lookup_id source.connection_manager i))
      → c.istream ≡ sockets.istream
      → c.ostream ≡ sockets.ostream
      → contains sockets.istream r.source.istream_to_source_data_map ≡ true
      → r.source.sink ≡ source.sink
      → Ending source max id sockets (some p) r

absent :
    (m : ConnectionManager) (i : ℕ)
    → connection_manager_contains_id m i ≡ false
    → connection_manager_lookup_id m i ≡ none
unfolding connection_manager_contains_id connection_manager_lookup_id contains is_some
absent m i e = ground (arith, e)

present :
    (m : ConnectionManager) (i : ℕ)
    → connection_manager_contains_id m i ≡ true
    → (c : Connection) × (connection_manager_lookup_id m i ≡ some c)
unfolding connection_manager_contains_id connection_manager_lookup_id contains is_some
present m i e = elim (Option-cases (lookup i m.connection_from_id_table)) [
  | inl n ↦ absurd (ground (arith, e, n))
  | inr (c, f) ↦ (c, f)
]

module _ (source : CommandSource) (c : Connection)
    (room : connection_manager_is_full source.connection_manager ≡ false) where
  add_lem :
      add_connection source c
      ≡ on_new_connection
          (record source {
            connection_manager = (connection_manager_insert source.connection_manager c).0;
          })
          c
  unfolding add_connection
  add_lem = rw ((room_taken source.connection_manager c room).0, add_connection) refl

  added_manager :
      (add_connection source c).connection_manager
      ≡ (connection_manager_insert source.connection_manager c).0
  unfolding on_new_connection
  added_manager = ap (λ (s : CommandSource). s.connection_manager) add_lem

  added_watch : contains c.istream (add_connection source c).istream_to_source_data_map ≡ true
  unfolding on_new_connection
  added_watch =
      ap (λ (s : CommandSource). contains c.istream s.istream_to_source_data_map) add_lem
      ∙ (contains-insert c.istream c.istream source.next_address source.istream_to_source_data_map
          ∙ ground arith)

  added_sink : (add_connection source c).sink ≡ source.sink
  unfolding on_new_connection
  added_sink = ap (λ (s : CommandSource). s.sink) add_lem

module _ (source : CommandSource) (max id : ℕ) (sockets : SocketPair)
    (v : IsSync source.connection_manager)
    (fresh : connection_manager_lookup_istream source.connection_manager sockets.istream
      ≡ none) where
  -- The connection that a call creates, and the source with the next address.
  the_connection : ℕ → Connection
  unfolding connection_new
  the_connection pid =
      connection_new source.next_address sockets.istream sockets.ostream (bit_xor id pid)
        source.next_address

  advanced : CommandSource
  advanced = record source { next_address = source.next_address + 1 }

  opens :
      (pid : ℕ)
      → connection_manager_is_full source.connection_manager ≡ false
      → connection_manager_contains_id source.connection_manager (bit_xor id pid) ≡ false
      → {r : Creation} → r.source ≡ add_connection advanced (the_connection pid)
      → r.reply ≡ created_connection id sockets.client_fd
      → r.map ≡ some (handle_map_new ht_transient max)
      → Ending source max id sockets (some pid) r
  unfolding the_connection advanced
  opens pid room new {r = r} e d f =
      let c = the_connection pid in
      let m = ap (λ (s : CommandSource). s.connection_manager) e ∙ added_manager advanced c room in
      let unused = absent source.connection_manager (bit_xor id pid) new in
      opened pid c (is_full_size source.connection_manager room) unused d f
        (subst IsSync (sym m)
          (connection_manager_insert-IsSync source.connection_manager c v unused fresh).0)
        (λ i.
          ap (λ (x : ConnectionManager). connection_manager_lookup_id x i) m
          ∙ lookup_id-insert source.connection_manager c room i)
        refl refl
        (ap (λ (s : CommandSource). contains sockets.istream s.istream_to_source_data_map) e
          ∙ added_watch advanced c room)
        (ap (λ (s : CommandSource). s.sink) e ∙ added_sink advanced c room)

  by_pid :
      (pid : Option ℕ)
      → connection_manager_is_full source.connection_manager ≡ false
      → Ending source max id sockets pid (on_handle_create_connection source max pid id sockets)
  unfolding on_handle_create_connection create_for the_connection advanced
  by_pid none room = rw room (no_pid (is_full_size source.connection_manager room))
  by_pid (some p) room =
      elim (Bool-cases (connection_manager_contains_id source.connection_manager (bit_xor id p))) [
        | inl used ↦
            let (c, found) = present source.connection_manager (bit_xor id p) used in
            rw (room, used) (in_use p c (is_full_size source.connection_manager room) found)
        | inr new ↦
            opens p room new (rw (room, new) refl) (rw (room, new) refl) (rw (room, new) refl)
      ]

  -- A call of CreateConnection, with sockets whose stream is new and tables in step. It is refused and
  -- changes nothing exactly where the connections are as many as they may be, or else the process id
  -- is not known, or else the number that the client would get is in use once mixed with its process
  -- id; each has its error. Otherwise the client gets the number and its end of the sockets, the new
  -- connection with the daemon's ends is in the tables, which stay in step, under the mixed number, the
  -- other numbers find what they found, the connection's map of handles is empty, its stream is
  -- watched, and nothing is put in the sink.
  pub on_handle_create_connection_lem :
      (pid : Option ℕ)
      → Ending source max id sockets pid (on_handle_create_connection source max pid id sockets)
  unfolding on_handle_create_connection
  on_handle_create_connection_lem pid =
      elim (Bool-cases (connection_manager_is_full source.connection_manager)) [
        | inl full ↦ rw full (no_room (full_size source.connection_manager full))
        | inr room ↦ by_pid pid room
      ]
