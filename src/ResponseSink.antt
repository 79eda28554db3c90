-- ===== src/ResponseSink.antt =====
-- src/response-sink.c: the thread that writes the responses to the clients.
pub mod Writes
use tpm2_abrmd.Prelude.{
  ℕ, Bool, true, false, List, [], ◌∷◌, ◌++◌, Option, none, some, if◌then◌else◌,
}
use tpm2_abrmd.Stream.{Streams, WriteResult}
use tpm2_abrmd.Util.{write_all}
use tpm2_abrmd.Response.{Tpm2Response, response_get_size}
use tpm2_abrmd.ResourceManager.State.{
  ControlCode, connection_removed, check_cancel, Message, response, control,
}

-- Whether the thread goes on.
unfoldable pub sink_process_control : ControlCode → Bool
sink_process_control check_cancel = false
sink_process_control connection_removed = true

module _ {S : Type 0} (streams : ℕ → Streams S) where
  -- `streams` are the functions of the output stream of the connection at an address. `none` means
  -- that the fuel of the writing ran out.
  unfoldable pub process_response : S → Tpm2Response → Option (S × WriteResult)
  process_response s r = write_all (streams r.connection) s r.buffer (response_get_size r)

  -- The result of a write is not looked at.
  unfoldable pub written_stream : Option (S × WriteResult) → Option S
  written_stream none = none
  written_stream (some (s, r)) = some s

  -- The messages in the order in which the thread takes them from its queue; those that are left
  -- after a cancellation are not taken.
  unfoldable pub response_sink_thread : S → List Message → Option (S × List Message)
  unfolding process_response sink_process_control written_stream
  response_sink_thread s [] = some (s, [])
  response_sink_thread s (response r ∷ messages) = elim (written_stream (process_response s r)) [
    | none ↦ none
    | some s' ↦ response_sink_thread s' messages
  ]
  response_sink_thread s (control code object ∷ messages) =
      let rest = response_sink_thread s messages in
      if sink_process_control code then rest else some (s, messages)
