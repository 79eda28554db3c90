-- ===== src/CommandSource.antt =====
-- src/command-source.c: it reads the commands of the clients, and hands them to its sink, the resource
-- manager. The sources of the main loop are its table of streams; GLib is a parameter as the streams
-- are. src/message-queue.c and src/control-message.c: a queue is the list of what is in it, the first
-- to be taken at its head.
pub mod Ready
use tpm2_abrmd.Prelude.{ℕ, ◌+◌, Bool, true, false, List, [], ◌∷◌, ◌++◌, Option, none, some}
use tpm2_abrmd.Stream.{Streams}
use tpm2_abrmd.Util.{read_tpm_buffer_alloc}
use tpm2_abrmd.Header.{get_command_code}
use tpm2_abrmd.Command.{Tpm2Command, command_new}
use tpm2_abrmd.Table.{Table, insert, remove_key}
use tpm2_abrmd.Connections.{
  Connection, ConnectionManager, connection_manager_lookup_istream, connection_manager_remove,
}
use tpm2_abrmd.ResourceManager.State.{ControlCode, connection_removed, check_cancel}
use tpm2_abrmd.ResourceManager.Process.{Input, command, control_message}
use tpm2_abrmd.Tpm2.Startup.{command_attrs_from_cc}

-- g_async_queue_push, and g_async_queue_pop of a queue that is not empty
unfoldable pub message_queue_enqueue {ℓ} : {A : Type ℓ} → List A → A → List A
message_queue_enqueue queue object = queue ++ object ∷ []

unfoldable pub message_queue_dequeue {ℓ} : {A : Type ℓ} → List A → Option (A × List A)
message_queue_dequeue [] = none
message_queue_dequeue (object ∷ queue) = some (object, queue)

-- `istream_to_source_data_map` holds a cancellable for each stream that is watched, and `sink` is the
-- queue of the resource manager. `next_address` is that of a new object.
pub record CommandSource : Type 0 where
  pub connection_manager : ConnectionManager
  pub command_attrs : List ℕ
  pub istream_to_source_data_map : Table ℕ
  pub sink : List Input
  pub next_address : ℕ

-- The handler of the signal new-connection: its stream is watched.
unfoldable pub on_new_connection : CommandSource → Connection → CommandSource
on_new_connection self connection = record self {
  istream_to_source_data_map =
      insert connection.istream self.next_address self.istream_to_source_data_map;
  next_address = self.next_address + 1;
}

-- A command has been read: it goes to the sink.
unfoldable pub enqueue_command : CommandSource → Connection → List ℕ → ℕ → CommandSource
unfolding message_queue_enqueue
enqueue_command self connection buf buf_size = record self {
  sink = message_queue_enqueue self.sink (
      command (
        command_new connection.address buf buf_size
          (command_attrs_from_cc self.command_attrs (get_command_code buf))));
}

-- No command can be read any more: the connection is removed, the resource manager told, and the
-- stream no longer watched. `none` is g_error.
unfoldable pub drop_connection : CommandSource → Connection → ℕ → Option CommandSource
unfolding message_queue_enqueue
drop_connection self connection istream =
    elim (connection_manager_remove self.connection_manager connection) [
      | none ↦ none
      | some (manager, ret) ↦ some (record self {
        connection_manager = manager;
        sink =
            message_queue_enqueue self.sink (control_message connection_removed connection.address);
        istream_to_source_data_map = remove_key istream self.istream_to_source_data_map;
      })
    ]

-- The answer where the connection is dropped.
unfoldable pub answer_removed :
    {S : Type 0} → S → Option CommandSource → Option (S × CommandSource × Bool)
answer_removed s none = none
answer_removed s (some self) = some (s, self, false)

module _ {S : Type 0} where
  -- What follows a read. The answer is whether the stream stays watched, G_SOURCE_CONTINUE.
  unfoldable pub after_read :
      CommandSource
      → Connection
      → ℕ
      → Option (S × Option (List ℕ × ℕ))
      → Option (S × CommandSource × Bool)
  unfolding enqueue_command drop_connection answer_removed
  after_read self connection istream none = none
  after_read self connection istream (some (s, some (buf, buf_size))) =
      some (s, enqueue_command self connection buf buf_size, true)
  after_read self connection istream (some (s, none)) =
      answer_removed s (drop_connection self connection istream)

-- `streams` are the functions of a stream, and `junk` what new memory holds. `none` is g_error, or
-- fuel of the reading that ran out.
unfoldable pub on_input_ready :
    {S : Type 0} → (ℕ → Streams S) → ℕ → S → CommandSource → ℕ → Option (S × CommandSource × Bool)
unfolding after_read
on_input_ready streams junk s self istream =
    elim (connection_manager_lookup_istream self.connection_manager istream) [
      | none ↦ none
      | some connection ↦
          after_read self connection istream (read_tpm_buffer_alloc (streams istream) junk s)
    ]
