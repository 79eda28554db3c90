-- ===== src/Tcti.antt =====
-- src/tcti-tabrmd.c: the client's side of a connection, a state machine over the context of
-- src/tcti-tabrmd-priv.h. The functions of GIO, poll and the calls over D-Bus are parameters. Calls
-- with a NULL context or size, which are answered with an error, are left out but for those of
-- `tss2_tcti_tabrmd_get_poll_handles`.
pub mod Receive
pub mod Conf
pub mod Init
pub mod Opened
pub mod States
pub mod Runs
pub mod Balance
pub mod Closed
pub mod Wedge
pub mod Stuck
pub mod Progress
use tpm2_abrmd.Prelude.{
  ℕ, zero, suc, ◌+◌, ◌-◌, ◌^◌, Bool, true, false, ◌&&◌, ◌||◌, not, List, [], ◌∷◌, Option, none,
  some, if◌then◌else◌, ltb, ◌==◌, length, take,
}
use tpm2_abrmd.Prelude.Int.{ℤ, pos, negsuc, sub64}
use tpm2_abrmd.Bytes.{memcpy}
use tpm2_abrmd.Constants.TctiRc
use tpm2_abrmd.Constants.{tpm_header_size, rc_success}
use tpm2_abrmd.Header.{get_response_tag, get_response_size, get_response_code}
use tpm2_abrmd.Stream.{Streams, ReadResult, bytes, read_error, WriteResult, written, write_error}
use tpm2_abrmd.Util.{write_all}

abbrev pub tabrmd_magic : ℕ
tabrmd_magic = 0x1c8e03ff00db0f92

abbrev pub tabrmd_version : ℕ
tabrmd_version = 2

pub data TabrmdState : Type 0 where
  final : TabrmdState
  receive : TabrmdState
  transmit : TabrmdState

pub record TpmHeader : Type 0 where
  pub tag : ℕ
  pub size : ℕ
  pub code : ℕ

-- The functions of the common part are those of this module. `sock_connect` and `proxy` are
-- addresses, 0 for NULL.
pub record TabrmdContext : Type 0 where
  pub magic : ℕ
  pub version : ℕ
  pub id : ℕ
  pub sock_connect : ℕ
  pub proxy : ℕ
  pub header : TpmHeader
  pub state : TabrmdState
  pub index : ℕ
  pub header_buf : List ℕ

-- poll on the connection, repeated while a signal interrupts it
pub data PollResult : Type 0 where
  poll_failed : ℕ → PollResult
  timed_out : PollResult
  ready : PollResult

-- A call over D-Bus: the code that the daemon answered, or the code of a GError.
pub data CallResult : Type 0 where
  answered : ℕ → CallResult
  call_failed : ℕ → CallResult

pub record ClientEnv (S : Type 0) : Type 0 where
  pub streams : Streams S
  pub poll : S → ℤ → S × PollResult
  -- Cancel and SetLocality, of the connection with an id
  pub call_cancel : S → ℕ → S × CallResult
  pub call_set_locality : S → ℕ → ℕ → S × CallResult

abbrev pub is_transmit : TabrmdState → Bool
is_transmit transmit = true
is_transmit state = false

abbrev pub is_receive : TabrmdState → Bool
is_receive receive = true
is_receive state = false

-- The magic number and the version are those of this TCTI.
unfoldable pub is_tabrmd : TabrmdContext → Bool
is_tabrmd context = context.magic == tabrmd_magic && context.version == tabrmd_version

-- EAGAIN, which is EWOULDBLOCK, and EIO
unfoldable pub errno_to_tcti_rc : ℕ → ℕ
errno_to_tcti_rc error_number =
    if error_number == 2 ^ 32 - 1
    then TctiRc.no_connection
    else if error_number == 0
    then rc_success
    else if error_number == 11
    then TctiRc.try_again
    else if error_number == 5
    then TctiRc.io_error
    else TctiRc.general_failure

-- G_IO_ERROR_WOULD_BLOCK, FAILED, HOST_UNREACHABLE, NETWORK_UNREACHABLE and NOT_CONNECTED. The case
-- of CONNECTION_CLOSED is never compiled: to the preprocessor both names that it compares are 0.
unfoldable pub gerror_code_to_tcti_rc : ℕ → ℕ
gerror_code_to_tcti_rc error_number =
    if error_number == 2 ^ 32 - 1
    then TctiRc.no_connection
    else if error_number == 27
    then TctiRc.try_again
    else if error_number == 0 || error_number == 37 || error_number == 38 || error_number == 45
    then TctiRc.io_error
    else TctiRc.general_failure

-- What a call of the TCTI leaves: the context, the stream and the response code.
pub record Called (S : Type 0) : Type 0 where
  pub context : TabrmdContext
  pub stream : S
  pub rc : ℕ

-- The caller's size and response too.
pub record Received (S : Type 0) : Type 0 where
  pub context : TabrmdContext
  pub stream : S
  pub size : ℕ
  pub response : Option (List ℕ)
  pub rc : ℕ

-- A read into a buffer.
pub record ReadInto (S : Type 0) : Type 0 where
  pub context : TabrmdContext
  pub stream : S
  pub buf : List ℕ
  pub rc : ℕ

abbrev pub with_state : TabrmdContext → TabrmdState → TabrmdContext
with_state context state = record context { state = state }

module _ {S : Type 0} where
  unfoldable pub transmitted : TabrmdContext → ℕ → Option (S × WriteResult) → Option (Called S)
  transmitted context size none = none
  transmitted context size (some (s, write_error)) =
      some (record { context = context; stream = s; rc = TctiRc.io_error })
  transmitted context size (some (s, written n)) =
      if n == 0
      then some (record { context = context; stream = s; rc = TctiRc.no_connection })
      else if n == size
      then some (record { context = with_state context receive; stream = s; rc = rc_success })
      else some (record { context = context; stream = s; rc = TctiRc.general_failure })

module _ {S : Type 0} (env : ClientEnv S) where
  -- `command` is `none` for NULL. The outer `none` means that the fuel of `write_all` ran out.
  unfoldable pub tcti_transmit : TabrmdContext → S → ℕ → Option (List ℕ) → Option (Called S)
  unfolding is_tabrmd transmitted
  tcti_transmit context s size none =
      some (record { context = context; stream = s; rc = TctiRc.bad_reference })
  tcti_transmit context s size (some command) =
      if size == 0
      then some (record { context = context; stream = s; rc = TctiRc.bad_value })
      else if not (is_tabrmd context)
      then some (record { context = context; stream = s; rc = TctiRc.bad_context })
      else if not (is_transmit context.state)
      then some (record { context = context; stream = s; rc = TctiRc.bad_sequence })
      else transmitted context size (write_all env.streams s command size)

  unfoldable pub tcti_finalize : TabrmdContext → S → TabrmdContext × S
  tcti_finalize context s = (record context { state = final; sock_connect = 0; proxy = 0 }, s)

  -- The code of an answer, or of the error where there is none.
  unfoldable pub rc_of_call : CallResult → ℕ
  rc_of_call (answered rc) = rc
  rc_of_call (call_failed code) = code

  unfoldable pub tcti_cancel : TabrmdContext → S → Called S
  unfolding rc_of_call
  tcti_cancel context s =
      if is_receive context.state
      then (let (s', r) = env.call_cancel s context.id in
          record { context = context; stream = s'; rc = rc_of_call r })
      else record { context = context; stream = s; rc = TctiRc.bad_sequence }

  unfoldable pub tcti_set_locality : TabrmdContext → S → ℕ → Called S
  unfolding rc_of_call
  tcti_set_locality context s locality =
      if is_transmit context.state
      then (let (s', r) = env.call_set_locality s context.id locality in
          record { context = context; stream = s'; rc = rc_of_call r })
      else record { context = context; stream = s; rc = TctiRc.bad_sequence }

-- The caller's number and array of descriptors, as a call leaves them.
pub record PollHandles : Type 0 where
  pub num_handles : Option ℕ
  pub handles : Option (List ℕ)
  pub rc : ℕ

-- A write to the first item of the caller's array, where there is an array.
abbrev pub set_first : ℕ → Option (List ℕ) → Option (List ℕ)
set_first fd none = none
set_first fd (some []) = some []
set_first fd (some (h ∷ l)) = some (fd ∷ l)

-- Whether an array is given that has no room.
abbrev pub is_too_small : Option (List ℕ) → ℕ → Bool
is_too_small none n = false
is_too_small (some handles) n = ltb n 1

-- `socket_fd` is g_socket_get_fd on the socket of a connection; NULL is `none`.
unfoldable pub tcti_get_poll_handles :
    (ℕ → ℕ) → Option TabrmdContext → Option (List ℕ) → Option ℕ → PollHandles
tcti_get_poll_handles socket_fd none handles num_handles = record {
  num_handles = num_handles;
  handles = handles;
  rc = TctiRc.bad_context;
}
tcti_get_poll_handles socket_fd (some context) handles none = record {
  num_handles = none;
  handles = handles;
  rc = TctiRc.bad_reference;
}
tcti_get_poll_handles socket_fd (some context) handles (some n) =
    if is_too_small handles n
    then record { num_handles = some n; handles = handles; rc = TctiRc.insufficient_buffer }
    else record {
      num_handles = some 1;
      handles = set_first (socket_fd context.sock_connect) handles;
      rc = rc_success;
    }
