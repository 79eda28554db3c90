-- ===== src/Lib.antt =====
-- The TPM2 access broker and resource manager daemon (tpm2-abrmd). Clients send TPM commands; a thread
-- reads them from the connections, the resource manager gives each client virtual handles for its
-- transient objects, loads the objects and sessions that a command needs, sends the command to the TPM,
-- and passes the response on to a sink, which writes it to the stream of the connection. A client gets
-- its connection over D-Bus and talks to the daemon through the client library, a TCTI. Paths are those
-- of the repository.
--
-- Bytes, Constants, Table: buffers and big-endian fields, numbers of the TPM specification, hash tables.
-- Mu: the marshalling functions of the TSS, a parameter with the behaviour that the code relies on.
-- Header: src/tpm2-header.c, the ten bytes at the start of commands and responses.
-- Command: src/tpm2-command.c, with the loop over the authorizations (tpm2_command_foreach_auth).
-- Response: src/tpm2-response.c.
-- HandleMap: src/handle-map.c and src/handle-map-entry.c, the virtual handles of a connection.
-- SessionEntry: src/session-entry.c, a session that the daemon tracks.
-- SessionList: src/session-list.c, the tracked sessions and the queue of abandoned ones. The list and
--   the queue hold addresses in one memory of entries, since they share the entries.
-- Tpm2: src/tpm2.c, sending commands and loading, flushing and saving contexts. The TCTI and the system
--   API of the TSS are the parameter Env, over a state of their own.
-- ResourceManager: src/resource-manager.c and src/resource-manager-session.c. State holds the state
--   and the monad of its functions, Session the loading and saving of a session, Load what is done
--   before a command, Special the commands that are answered without the TPM, Capability the lists of
--   handles, Mapping the handles in responses, Save what is done after a command, and Process the whole
--   of it, with the end of a connection and the thread. Triple, Frame, Frames, Answers, Virtualized
--   and Delivery are the rules by which Isolation follows a command through all of these; Limits
--   is about the transient maps after a command, Refusals about sessions that are not loaded, Faults
--   about answers that end the program, Listing about the handles that are listed.
-- Stream: the input and output streams of GLib, a parameter with the behaviour that the code relies on.
-- Util: src/util.c, the reading and writing of buffers on streams, and key-value strings.
-- Connections: src/connection.c and src/connection-manager.c, the connections under their streams and
--   under their ids.
-- Tpm2.Startup, Tpm2.Attributes: the start of the TPM in src/tpm2.c and src/command-attrs.c.
-- CommandSource, ResponseSink: src/command-source.c and src/response-sink.c, what is done for a stream
--   that is ready to be read, and for each message of the sink; the queues are lists.
-- Frontend: the handlers of src/ipc-frontend-dbus.c for the calls of clients.
-- Tcti: src/tcti-tabrmd.c, the client library. Receive is its function for responses, Conf the
--   configuration string, Init the connecting; States, Runs, Balance and Closed follow the state of a
--   context, Stuck and Wedge a response with a bad size, Progress the parts of a response.
-- Tests: the theorems at concrete inputs.
--
-- A function of the C code has its name without the prefix of the object: command_get_handle is
-- tpm2_command_get_handle, load_handles is resource_manager_load_handles. Its state is passed on
-- explicitly; NULL is `none`. What ends the program (a failed assertion, g_error, the use of a link of
-- a list that was freed) is `none` as well, in the monad of the resource manager and where a
-- definition says so.
--
-- Numbers are unbounded; where the code computes in 32 bits and can wrap around, the remainder is
-- written out. The loop over the authorizations runs on fuel, one round for each byte up to the end of
-- the area and one more, which is enough since an authorization takes nine bytes at least. A walk
-- through the session list takes at most as many rounds as the list had links, since no callback adds
-- one. write_all runs on one round more than the bytes to write and read_data on one more than the bytes
-- to read, since a round that goes on moves one byte at least; read_tpm_buffer_alloc on twelve rounds,
-- since it takes a round for each byte of the header at most and one or two for the rest; the parser of
-- key-value strings on one round more than the string has bytes.
--
-- Not modelled: reference counts, mutexes (each operation holds its own throughout), GObject properties,
-- logging, memory that cannot be allocated, the name of the daemon on the bus, the start of the daemon
-- and its options, the main loops and the starting and stopping of threads. These are calls into GLib and
-- the operating system.
pub mod Prelude
pub mod Bytes
pub mod Stream
pub mod Util
pub mod Tcti
pub mod Constants
pub mod Table
pub mod Mu
pub mod Header
pub mod HandleMap
pub mod SessionEntry
pub mod SessionList
pub mod Command
pub mod Response
pub mod Tpm2
pub mod ResourceManager
pub mod Connections
pub mod CommandSource
pub mod ResponseSink
pub mod Frontend
pub mod Tests
