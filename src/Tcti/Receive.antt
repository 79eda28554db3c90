-- ===== src/Tcti/Receive.antt =====
-- `tcti_tabrmd_read` and `tss2_tcti_tabrmd_receive` of src/tcti-tabrmd.c.
use tpm2_abrmd.Prelude.{
  ℕ, zero, suc, ◌+◌, ◌-◌, ◌^◌, Bool, true, false, ◌&&◌, not, List, Option, none, some,
  if◌then◌else◌, ltb, ◌==◌, length, take,
}
use tpm2_abrmd.Prelude.Int.{ℤ, pos, negsuc, sub64}
use tpm2_abrmd.Bytes.{memcpy}
use tpm2_abrmd.Constants.TctiRc
use tpm2_abrmd.Constants.{tpm_header_size, rc_success}
use tpm2_abrmd.Header.{get_response_tag, get_response_size, get_response_code}
use tpm2_abrmd.Stream.{ReadResult, bytes, read_error}
use tpm2_abrmd.Tcti.{
  TabrmdContext, PollResult, poll_failed, timed_out, ready, ClientEnv, Received, ReadInto, transmit,
  is_receive, is_tabrmd, errno_to_tcti_rc, gerror_code_to_tcti_rc, with_state,
}

-- timeout < TSS2_TCTI_TIMEOUT_BLOCK, which is -1
unfoldable pub is_below_block : ℤ → Bool
is_below_block (pos n) = false
is_below_block (negsuc zero) = false
is_below_block (negsuc (suc n)) = true

unfoldable pub is_null : Option (List ℕ) → Bool
is_null none = true
is_null (some buf) = false

-- What `receive` checks before it reads: the response code, 0 where it goes on.
unfoldable pub receive_guard : TabrmdContext → ℕ → Option (List ℕ) → ℤ → ℕ
unfolding is_null is_tabrmd is_below_block
receive_guard context size response timeout =
    if is_null response && not (size == 0)
    then TctiRc.bad_value
    else if not (is_tabrmd context)
    then TctiRc.bad_context
    else if not (is_receive context.state)
    then TctiRc.bad_sequence
    else if is_below_block timeout
    then TctiRc.bad_value
    else if not (is_null response) && ltb size tpm_header_size
    then TctiRc.insufficient_buffer
    else rc_success

-- The header's fields, once its bytes are there.
unfoldable pub parse_header : TabrmdContext → TabrmdContext
parse_header context =
    if context.index == tpm_header_size
    then record context {
      header = record {
        tag = get_response_tag context.header_buf;
        size = get_response_size context.header_buf;
        code = get_response_code context.header_buf;
      };
    }
    else context

module _ {S : Type 0} where
  -- The result of a read, put at the context's index.
  unfoldable pub read_into : TabrmdContext → List ℕ → ℕ → S × ReadResult → ReadInto S
  read_into context buf size (s, read_error code) = record {
    context = context;
    stream = s;
    buf = buf;
    rc = gerror_code_to_tcti_rc code;
  }
  read_into context buf size (s, bytes c) =
      if length c == 0
      then record { context = context; stream = s; buf = buf; rc = TctiRc.no_connection }
      else record {
        context = record context { index = context.index + length c };
        stream = s;
        buf = memcpy buf context.index c;
        rc = if sub64 size (length c) == 0 then rc_success else TctiRc.try_again;
      }

  -- All the bytes are there: the caller's size is set, and the context is made ready for a command.
  unfoldable pub finish_receive : TabrmdContext → S → List ℕ → Received S
  finish_receive context s buf = record {
    context = record context { index = 0; state = transmit };
    stream = s;
    size = context.index;
    response = some buf;
    rc = rc_success;
  }

  unfoldable pub finish_read : ℕ → ReadInto S → Received S
  unfolding finish_receive
  finish_read size r =
      if r.rc == rc_success then finish_receive r.context r.stream r.buf else record {
        context = r.context;
        stream = r.stream;
        size = size;
        response = some r.buf;
        rc = r.rc;
      }

  -- Where the call returns early.
  unfoldable pub refuse : TabrmdContext → S → ℕ → Option (List ℕ) → ℕ → Received S
  refuse context s size response rc = record {
    context = context;
    stream = s;
    size = size;
    response = response;
    rc = rc;
  }

-- The caller's buffer, with the header copied once it is there.
unfoldable pub with_header : TabrmdContext → List ℕ → List ℕ
with_header context buf =
    if context.index == tpm_header_size
    then memcpy buf 0 (take tpm_header_size context.header_buf)
    else buf

-- `tcti_tabrmd_poll`: -1 on a timeout, 0 when data are ready, else the error.
unfoldable pub tcti_poll : PollResult → ℕ
tcti_poll (poll_failed error_number) = error_number
tcti_poll timed_out = 2 ^ 32 - 1
tcti_poll ready = 0

module _ {S : Type 0} (env : ClientEnv S) where
  -- `s` is the stream after the poll, and `ret` what `tcti_poll` returned.
  unfoldable pub polled : TabrmdContext → S → ℕ → List ℕ → ℕ → ReadInto S
  unfolding read_into
  polled context s ret buf size =
      if ret == 2 ^ 32 - 1
      then record { context = context; stream = s; buf = buf; rc = TctiRc.try_again }
      else if ret == 0
      then read_into context buf size (env.streams.read s size)
      else record { context = context; stream = s; buf = buf; rc = errno_to_tcti_rc ret }

  unfoldable pub tcti_read : TabrmdContext → S → List ℕ → ℕ → ℤ → ReadInto S
  unfolding polled tcti_poll
  tcti_read context s buf size timeout =
      let (s', r) = env.poll s timeout in polled context s' (tcti_poll r) buf size

  -- `receive` from where the header is there.
  unfoldable pub receive_body : TabrmdContext → S → ℕ → Option (List ℕ) → ℤ → Received S
  unfolding with_header refuse finish_receive finish_read tcti_read
  receive_body context s size none timeout = refuse context s context.header.size none rc_success
  receive_body context s size (some buf) timeout =
      let response = with_header context buf in
      if ltb size context.header.size
      then refuse context s size (some response) TctiRc.insufficient_buffer
      else if context.header.size == context.index
      then finish_receive context s response
      else finish_read size
          (tcti_read context s response (sub64 context.header.size context.index) timeout)

  -- `receive` after a read into the header's buffer.
  unfoldable pub receive_header : ReadInto S → ℕ → Option (List ℕ) → ℤ → Received S
  unfolding refuse parse_header
  receive_header r size response timeout =
      let filled = record r.context { header_buf = r.buf } in
      if not (r.rc == rc_success)
      then refuse filled r.stream size response r.rc
      else if (parse_header filled).index == tpm_header_size
          && ltb (parse_header filled).header.size tpm_header_size
      then refuse (with_state (parse_header filled) transmit) r.stream size response
          TctiRc.malformed_response
      else receive_body (parse_header filled) r.stream size response timeout

  unfoldable pub tcti_receive : TabrmdContext → S → ℕ → Option (List ℕ) → ℤ → Received S
  unfolding receive_guard refuse tcti_read
  tcti_receive context s size response timeout =
      if not (receive_guard context size response timeout == rc_success)
      then refuse context s size response (receive_guard context size response timeout)
      else if ltb context.index tpm_header_size
      then receive_header
          (tcti_read context s context.header_buf (tpm_header_size - context.index) timeout) size
          response timeout
      else receive_body context s size response timeout
