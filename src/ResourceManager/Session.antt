-- ===== src/ResourceManager/Session.antt =====
-- src/resource-manager-session.c: loading, saving, flushing and "regapping" the session of an entry.
use tpm2_abrmd.Prelude.{
  ℕ, ◌+◌, ◌-◌, ◌^◌, ◌%◌, Bool, true, false, Option, none, some, if◌then◌else◌, ◌==◌, leb, length,
  take, drop,
}
use tpm2_abrmd.Constants.{rc_success, resmgr_rc_general_failure, tpm_header_size}
use tpm2_abrmd.SessionEntry.{
  SessionEntryState, loaded, saved_rm, saved_client, saved_client_closed, session_entry_set_state,
  session_entry_set_context,
}
use tpm2_abrmd.SessionList.{session_list_remove}
use tpm2_abrmd.Command.{Tpm2Command, command_new_context_load, command_new_context_save}
use tpm2_abrmd.Response.{Tpm2Response, response_new_rc, response_get_code, response_get_size}
use tpm2_abrmd.Tpm2.{Env, send_command, context_flush}
use tpm2_abrmd.ResourceManager.State.{
  M, ◌>>=◌, ◌>>◌, return, gets, modify, from_option, on_tpm2, entry_at, put_entry,
}

unfoldable pub is_loaded : SessionEntryState → Bool
is_loaded loaded = true
is_loaded saved_rm = false
is_loaded saved_client = false
is_loaded saved_client_closed = false

module _ {S : Type 0} (env : Env S) where
  -- The response, and the response code of the TCTI.
  unfoldable pub send : Tpm2Command → M S (Tpm2Response × ℕ)
  send command s =
      let (t, resp, rc) = send_command env s.tpm2 command in
      some ((resp, rc), record s { tpm2 = t })

  unfoldable pub flush_handle : ℕ → M S ℕ
  flush_handle handle = on_tpm2 λ t. context_flush env t handle

  -- session_list_remove, as it is called here
  unfoldable pub forget_entry : ℕ → M S (Unit {0})
  forget_entry a = modify λ s. record s { session_list = session_list_remove s.session_list a }

  -- What `load_session` does with the command that it has built.
  unfoldable pub load_with : ℕ → Option Tpm2Command → M S Tpm2Response
  unfolding send
  load_with a none = return (response_new_rc 0 resmgr_rc_general_failure)
  load_with a (some cmd) = do
    (resp, rc) ← send cmd
    if rc == rc_success
        then (if response_get_code resp == rc_success
            then (do put_entry a (λ e. session_entry_set_state e loaded); return resp)
            else return resp)
        else return (response_new_rc 0 rc)

  unfoldable pub load_session : ℕ → M S Tpm2Response
  unfolding load_with
  load_session a = do
    context ← gets (λ s. (entry_at s a).context)
    cmd ← from_option (command_new_context_load env.mu (take context.size context.buf))
    load_with a cmd

  -- Whether the flushing succeeded. The entry is removed in either case.
  unfoldable pub flush_session : ℕ → M S Bool
  unfolding flush_handle forget_entry
  flush_session a = do
    handle ← gets (λ s. (entry_at s a).handle)
    rc ← flush_handle handle
    forget_entry a
    return (rc == rc_success)

  -- The context stored is the body of the response; its size is an unsigned 32-bit difference. A
  -- read behind the end of the buffer is a fault.
  unfoldable pub store_context : ℕ → Tpm2Response → M S (Unit {0})
  store_context a resp = do
    let size = (response_get_size resp + 2 ^ 32 - tpm_header_size) % 2 ^ 32
    e ← gets (λ s. entry_at s a)
    e' ← from_option (
        if leb (tpm_header_size + size) (length resp.buffer)
        then session_entry_set_context e (take size (drop tpm_header_size resp.buffer))
        else none)
    put_entry a (λ _. session_entry_set_state e' saved_rm)

  unfoldable pub save_with : ℕ → Option Tpm2Command → M S Tpm2Response
  unfolding send store_context
  save_with a none = return (response_new_rc 0 resmgr_rc_general_failure)
  save_with a (some cmd) = do
    (resp, rc) ← send cmd
    if rc == rc_success
        then (if response_get_code resp == rc_success
            then (do store_context a resp; return resp)
            else return resp)
        else return (response_new_rc 0 rc)

  unfoldable pub save_session : ℕ → M S Tpm2Response
  unfolding save_with
  save_session a = do
    e ← gets (λ s. entry_at s a)
    if is_loaded e.state
        then (do cmd ← from_option (command_new_context_save env.mu e.handle); save_with a cmd)
        else return (response_new_rc 0 resmgr_rc_general_failure)

  -- The second half of `regap_session`, once the session is loaded.
  unfoldable pub resave_session : ℕ → M S Bool
  unfolding save_session flush_session
  resave_session a = do
    resp ← save_session a
    if response_get_code resp == rc_success
        then return true
        else (do done ← flush_session a; return false)

  unfoldable pub regap_session : ℕ → M S Bool
  unfolding load_session flush_session resave_session
  regap_session a = do
    e ← gets (λ s. entry_at s a)
    if is_loaded e.state then return true else (do
      resp ← load_session a
      if response_get_code resp == rc_success
          then resave_session a
          else (do done ← flush_session a; return false))
