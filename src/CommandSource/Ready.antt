-- ===== src/CommandSource/Ready.antt =====
-- What `command_source_on_input_ready` of src/command-source.c does when a stream has data.
use tpm2_abrmd.Prelude.{
  ℕ, ◌≤◌, ◌≡◌, refl, sym, ap, subst, ◌∙◌, Bool, true, false, List, [], ◌∷◌, ◌++◌, Option, none,
  some, length,
}
use tpm2_abrmd.Stream.{Streams, IsReader, IsBounded, HasIoErrors}
use tpm2_abrmd.Util.{read_tpm_buffer_alloc}
use tpm2_abrmd.Util.Frames.{IsMessage}
use tpm2_abrmd.Util.Alloc.{read_tpm_buffer_alloc_lem}
use tpm2_abrmd.Util.AllocEnds.{IsAnswer, read_tpm_buffer_alloc-Finishes}
use tpm2_abrmd.Header.{get_command_code}
use tpm2_abrmd.Command.{Tpm2Command, command_new}
use tpm2_abrmd.Connections.{
  Connection, ConnectionManager, connection_manager_lookup_istream, connection_manager_lookup_id,
  connection_manager_remove,
}
use tpm2_abrmd.Connections.Invariant.{IsSync}
use tpm2_abrmd.Connections.Removal.{connection_manager_remove_lem}
use tpm2_abrmd.ResourceManager.State.{connection_removed}
use tpm2_abrmd.ResourceManager.Process.{command, control_message}
use tpm2_abrmd.Tpm2.Startup.{command_attrs_from_cc}
use tpm2_abrmd.Table.{remove_key}
use tpm2_abrmd.CommandSource.{
  CommandSource, message_queue_enqueue, enqueue_command, drop_connection, after_read,
  answer_removed, on_input_ready,
}

-- The command that the bytes `f` of a connection are.
abbrev pub command_of : CommandSource → Connection → List ℕ → Tpm2Command
command_of self c f =
    command_new c.address f (length f)
      (command_attrs_from_cc self.command_attrs (get_command_code f))

module _ {S : Type 0} (streams : ℕ → Streams S) (junk : ℕ) (self : CommandSource) (c : Connection)
    (istream : ℕ)
    (known : connection_manager_lookup_istream self.connection_manager istream ≡ some c) where
  ready_lem :
      (s : S)
      → on_input_ready streams junk s self istream
        ≡ after_read self c istream (read_tpm_buffer_alloc (streams istream) junk s)
  unfolding on_input_ready
  ready_lem s = rw (known, on_input_ready) refl

  -- When the stream of a connection starts with a command, exactly its bytes are taken from the
  -- stream, and exactly one command is put at the end of the sink's queue: it has these bytes, their
  -- number, the connection, and the attributes of its code. The stream stays watched, and nothing
  -- else changes.
  pub on_input_ready_command :
      (queue : S → List ℕ)
      → IsReader (streams istream) queue
      → (f rest : List ℕ) → IsMessage f
      → (s : S) → queue s ≡ f ++ rest
      → (s' : S) × (on_input_ready streams junk s self istream
          ≡ some (s', record self { sink = self.sink ++ command (command_of self c f) ∷ [] }, true))
        × (queue s' ≡ rest)
  unfolding after_read
  on_input_ready_command queue w f rest m s q =
      let t = read_tpm_buffer_alloc_lem (streams istream) queue w f rest m junk s q in
      (t.stream, ready_lem s ∙ ap (after_read self c istream) t.result, t.behind)

drop_connection_lem :
    (self : CommandSource) (c : Connection) (istream : ℕ) {m : ConnectionManager} {ret : Bool}
    → connection_manager_remove self.connection_manager c ≡ some (m, ret)
    → drop_connection self c istream
      ≡ some (record self {
        connection_manager = m;
        sink = self.sink ++ control_message connection_removed c.address ∷ [];
        istream_to_source_data_map = remove_key istream self.istream_to_source_data_map;
      })
unfolding drop_connection message_queue_enqueue
drop_connection_lem self c istream e = rw (e, drop_connection) refl

-- How a call ends: with one more command, of at least a header and at most UTIL_BUF_MAX bytes; or
-- with the connection removed, which the resource manager is told.
pub data Answered {S : Type 0} (self : CommandSource) (c : Connection) (istream : ℕ)
    : Option (S × CommandSource × Bool) → Type 0 where
  delivered :
      (s : S) (buf : List ℕ) (n : ℕ)
      → (length buf ≡ n) × (10 ≤ n) × (n ≤ 8192)
      → Answered self c istream
          (some (s, record self { sink = self.sink ++ command (command_of self c buf) ∷ [] }, true))
  dropped :
      (s : S) (m : ConnectionManager)
      → IsSync m
      → connection_manager_lookup_istream m c.istream ≡ none
      → connection_manager_lookup_id m c.id ≡ none
      → Answered self c istream (
          some (
            s,
            record self {
              connection_manager = m;
              sink = self.sink ++ control_message connection_removed c.address ∷ [];
              istream_to_source_data_map = remove_key istream self.istream_to_source_data_map;
            },
            false,
          ))

module _ {S : Type 0} (streams : ℕ → Streams S) (junk : ℕ) (self : CommandSource) (c : Connection)
    (istream : ℕ)
    (known : connection_manager_lookup_istream self.connection_manager istream ≡ some c)
    (v : IsSync self.connection_manager) where
  drop_lem : (s : S) → Answered self c istream (after_read self c istream (some (s, none)))
  unfolding after_read drop_connection answer_removed message_queue_enqueue
  drop_lem s =
      let there =
        ap (connection_manager_lookup_istream self.connection_manager)
          (v.of_istream istream c known).0
        ∙ known in
      let (m, e, sync, no_istream, no_id, _, _) =
        connection_manager_remove_lem self.connection_manager c v there in
      subst (Answered self c istream)
        (sym (ap (answer_removed s) (drop_connection_lem self c istream e)))
        (dropped s m sync no_istream no_id)

  read_lem :
      (s : S) (answer : Option (List ℕ × ℕ))
      → IsAnswer answer
      → Answered self c istream (after_read self c istream (some (s, answer)))
  unfolding after_read enqueue_command message_queue_enqueue
  read_lem s none h = drop_lem s
  read_lem s (some (buf, n)) h =
      subst (λ k. Answered self c istream (after_read self c istream (some (s, some (buf, k))))) h.0
        (delivered s buf n h)

  -- Whatever the stream of a known connection does, also when it fails, ends, or carries no command,
  -- the call comes to an end without ending the daemon, where the tables of the connection manager
  -- are in step: a command is delivered, or the connection is removed from both tables, which stay in
  -- step, the resource manager gets one CONNECTION_REMOVED message about it, and its stream is no
  -- longer watched.
  pub on_input_ready-Answered :
      IsBounded (streams istream)
      → HasIoErrors (streams istream)
      → (s : S) → Answered self c istream (on_input_ready streams junk s self istream)
  on_input_ready-Answered bound io s =
      let f = read_tpm_buffer_alloc-Finishes (streams istream) bound io junk s in
      subst (Answered self c istream)
        (sym
          (ready_lem streams junk self c istream known s ∙ ap (after_read self c istream) f.result))
        (read_lem f.stream f.answer f.valid)
