-- ===== src/Tests/Daemon.antt =====
-- The daemon between the bus, the streams and the resource manager (src/connection-manager.c,
-- src/command-source.c, src/response-sink.c, src/ipc-frontend-dbus.c, src/tpm2.c).
use tpm2_abrmd.Prelude.{
  ℕ, ◌+◌, ◌≡◌, ◌≢◌, refl, true, false, List, [], ◌∷◌, ◌++◌, none, some, min, length, take,
  if◌then◌else◌, ◌==◌, arith,
}
use tpm2_abrmd.Constants.{rc_success}
use tpm2_abrmd.Bytes.{get32, get8}
use tpm2_abrmd.Stream.{Streams, bytes, written}
use tpm2_abrmd.Table.{lookup, insert}
use tpm2_abrmd.Connections.{
  Connection, ConnectionManager, connection_manager_new, connection_manager_insert,
  connection_manager_remove, connection_manager_lookup_istream, connection_manager_lookup_id,
  connection_manager_is_full,
}
use tpm2_abrmd.Connections.Invariant.{
  IsSync, Insertion, new-IsSync, connection_manager_insert-IsSync,
}
use tpm2_abrmd.Connections.Removal.{connection_manager_remove_lem}
use tpm2_abrmd.CommandSource.{CommandSource, on_input_ready}
use tpm2_abrmd.CommandSource.Ready.{
  Answered, command_of, on_input_ready_command, on_input_ready-Answered,
}
use tpm2_abrmd.Header.{get_response_size}
use tpm2_abrmd.Response.{Tpm2Response, response_get_size}
use tpm2_abrmd.ResourceManager.State.{Message, response, control, connection_removed, check_cancel}
use tpm2_abrmd.ResourceManager.Process.{command}
use tpm2_abrmd.ResponseSink.{response_sink_thread}
use tpm2_abrmd.ResponseSink.Writes.{IsSized, AreWriters, responses_to, response_sink_thread_lem}
use tpm2_abrmd.Frontend.{SocketPair, on_handle_create_connection}
use tpm2_abrmd.Frontend.Created.{Ending, on_handle_create_connection_lem}
use tpm2_abrmd.Tpm2.{Tpm2}
use tpm2_abrmd.Tpm2.Startup.{
  SysEnv, command_attrs_from_cc, init_tpm, send_tpm_startup, get_tpm_properties_fixed, start_tpm,
}
use tpm2_abrmd.Tpm2.Attributes.{Found, command_attrs_from_cc-Found, init_tpm-init_tpm}
use tpm2_abrmd.Tests.Manager.{refusing}
use tpm2_abrmd.Tests.Pipes.{
  pipe, bytes_of, pipe-IsReader, pipe-IsBounded, pipe-HasIoErrors, get_random, get_random-IsMessage,
  empty_command,
}

abbrev first_client : Connection
first_client = record {
  address = 7;
  istream = 70;
  ostream = 71;
  id = 0x5a;
  transient_handle_map = 7;
}

abbrev empty_manager : ConnectionManager
empty_manager = record {
  connection_from_istream_table = [];
  connection_from_id_table = [];
  max_connections = 2;
}

empty_manager-IsSync : IsSync empty_manager
unfolding connection_manager_new
empty_manager-IsSync = new-IsSync 2

no_id : connection_manager_lookup_id empty_manager 0x5a ≡ none
unfolding connection_manager_lookup_id lookup
no_id = refl

no_istream : connection_manager_lookup_istream empty_manager 70 ≡ none
unfolding connection_manager_lookup_istream lookup
no_istream = refl

connection_manager_insert-IsSync_example :
    IsSync (connection_manager_insert empty_manager first_client).0
    × Insertion empty_manager first_client (connection_manager_insert empty_manager first_client)
connection_manager_insert-IsSync_example =
    connection_manager_insert-IsSync empty_manager first_client empty_manager-IsSync no_id
      no_istream

abbrev one_connection : ConnectionManager
one_connection = record {
  connection_from_istream_table = (70, first_client) ∷ [];
  connection_from_id_table = (0x5a, first_client) ∷ [];
  max_connections = 2;
}

one_connection-IsSync : IsSync one_connection
unfolding connection_manager_insert connection_manager_is_full insert
one_connection-IsSync =
    (connection_manager_insert-IsSync empty_manager first_client empty_manager-IsSync no_id
      no_istream).0

known : connection_manager_lookup_istream one_connection 70 ≡ some first_client
unfolding connection_manager_lookup_istream lookup
known = refl

connection_manager_remove_lem_example :
    (m' : ConnectionManager) × (connection_manager_remove one_connection first_client
      ≡ some (m', true))
    × IsSync m'
    × (connection_manager_lookup_istream m' 70 ≡ none)
    × (connection_manager_lookup_id m' 0x5a ≡ none)
    × ((i : ℕ)
        → ◌≢◌ {A = ℕ} 70 i
        → connection_manager_lookup_istream m' i
          ≡ connection_manager_lookup_istream one_connection i)
    × ((i : ℕ)
        → ◌≢◌ {A = ℕ} 0x5a i
        → connection_manager_lookup_id m' i ≡ connection_manager_lookup_id one_connection i)
connection_manager_remove_lem_example =
    connection_manager_remove_lem one_connection first_client one_connection-IsSync known

abbrev source : CommandSource
source = record {
  connection_manager = one_connection;
  command_attrs = 0x0200017b ∷ [];
  istream_to_source_data_map = (70, 8) ∷ [];
  sink = [];
  next_address = 9;
}

on_input_ready_command_example :
    (s' : List ℕ) × (on_input_ready (λ i. pipe) 0xaa (get_random ++ empty_command) source 70
      ≡ some (
        s',
        record source { sink = command (command_of source first_client get_random) ∷ [] },
        true,
      ))
    × (bytes_of s' ≡ empty_command)
on_input_ready_command_example =
    on_input_ready_command (λ i. pipe) 0xaa source first_client 70 known bytes_of pipe-IsReader
      get_random empty_command get_random-IsMessage (get_random ++ empty_command) refl

-- The client has closed its end.
on_input_ready-Answered_example :
    Answered source first_client 70 (on_input_ready (λ i. pipe) 0xaa (take 3 get_random) source 70)
on_input_ready-Answered_example =
    on_input_ready-Answered (λ i. pipe) 0xaa source first_client 70 known one_connection-IsSync
      pipe-IsBounded pipe-HasIoErrors (take 3 get_random)

-- Each connection has a list of bytes, and takes at most five at a time.
abbrev outputs : ℕ → Streams (ℕ → List ℕ)
outputs a = record {
  read = λ s n. (s, bytes []);
  write = λ s buf. (
    λ b. if a == b then s b ++ take (min 5 (length buf)) buf else s b,
    written (min 5 (length buf)),
  );
}

abbrev output_of : ℕ → (ℕ → List ℕ) → List ℕ
output_of a s = s a

outputs-AreWriters : AreWriters outputs output_of
outputs-AreWriters = record {
  writer = λ a. record {
    writes = λ s buf h. record {
      k = min 5 (length buf);
      some_byte = omega arith;
      within = omega arith;
      result = refl;
      appended = ground arith;
    };
  };
  apart = λ a b k s buf. ground arith;
}

-- Ten bytes to connection 7
abbrev short_response : Tpm2Response
short_response = record {
  connection = 7;
  attributes = 0;
  buffer = 0x80 ∷ 0x01 ∷ 0 ∷ 0 ∷ 0 ∷ 10 ∷ 0 ∷ 0 ∷ 0 ∷ 0 ∷ [];
  buffer_size = 10;
}

short_response-IsSized : IsSized short_response
unfolding response_get_size get_response_size get32 get8
short_response-IsSized = record { some_byte = omega arith; sized = refl }

abbrev messages : List Message
messages =
    control connection_removed 3
    ∷ response short_response
    ∷ control check_cancel 0
    ∷ response short_response
    ∷ []

response_sink_thread_lem_example :
    (s' : ℕ → List ℕ) × (left : List Message) × (response_sink_thread outputs (λ a. []) messages
      ≡ some (s', left))
    × ((a : ℕ) → output_of a s' ≡ output_of a (λ a. []) ++ responses_to a messages)
response_sink_thread_lem_example =
    response_sink_thread_lem outputs output_of outputs-AreWriters (λ a. []) messages
      (short_response-IsSized, (short_response-IsSized, tt))

abbrev sockets : SocketPair
sockets = record { istream = 80; ostream = 81; client_fd = 4 }

free_stream : connection_manager_lookup_istream one_connection 80 ≡ none
unfolding connection_manager_lookup_istream lookup
free_stream = refl

on_handle_create_connection_lem_example :
    Ending source 27 0x1234 sockets
      (some 999)
      (on_handle_create_connection source 27 (some 999) 0x1234 sockets)
on_handle_create_connection_lem_example =
    on_handle_create_connection_lem source 27 0x1234 sockets one_connection-IsSync free_stream
      (some 999)

command_attrs_from_cc-Found_example :
    Found 0x17b
      (0x02000162 ∷ 0x0200017b ∷ [])
      (command_attrs_from_cc (0x02000162 ∷ 0x0200017b ∷ []) 0x17b)
command_attrs_from_cc-Found_example =
    command_attrs_from_cc-Found 0x17b (0x02000162 ∷ 0x0200017b ∷ [])

-- A TPM that has been started before, and has one fixed property.
abbrev started : SysEnv ℕ
started = record {
  env = refusing;
  sys_startup = λ s. (s + 1, 0x100);
  sys_get_values = λ s cap first count. (s, 1, []);
  sys_get_properties = λ s first count. (s, 0, (0x11f, 4096) ∷ []);
}

abbrev new_chip : Tpm2 ℕ
new_chip = record { device = 0; properties_fixed = []; initialized = false }

starts : (init_tpm started new_chip).1 ≡ rc_success
unfolding init_tpm start_tpm send_tpm_startup get_tpm_properties_fixed
starts = refl

init_tpm-init_tpm_example :
    init_tpm started (init_tpm started new_chip).0 ≡ ((init_tpm started new_chip).0, rc_success)
init_tpm-init_tpm_example = init_tpm-init_tpm started new_chip starts
