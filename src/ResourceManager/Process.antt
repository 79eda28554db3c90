-- ===== src/ResourceManager/Process.antt =====
-- src/resource-manager.c: a command from its arrival to its response, the end of a connection, and the
-- thread of the resource manager.
use tpm2_abrmd.Prelude.{
  ℕ, Bool, true, false, not, List, [], ◌∷◌, Option, none, some, if◌then◌else◌, ltb, ◌==◌,
}
use tpm2_abrmd.Constants.{
  rc_success, rc_context_gap, cc_flush_context, cc_context_save, cc_context_load, cc_get_capability,
}
use tpm2_abrmd.SessionEntry.{loaded, saved_rm, saved_client, saved_client_closed}
use tpm2_abrmd.SessionList.{
  SessionList, session_list_abandon_handle, session_list_prune_abandoned, session_list_remove,
}
use tpm2_abrmd.Command.{
  Tpm2Command, command_get_code, command_get_handle_count, command_has_auths, command_foreach_auth,
}
use tpm2_abrmd.Response.{Tpm2Response, response_new_rc, response_get_code}
use tpm2_abrmd.Tpm2.{Env, Tpm2, context_flush}
use tpm2_abrmd.ResourceManager.State.{
  ControlCode, check_cancel, connection_removed, response, control, ResMgr, M, ◌>>=◌, ◌>>◌, return,
  fault, gets, on_sessions, entry_at, sink_enqueue, session_list_foreach,
}
use tpm2_abrmd.ResourceManager.Session.{send, flush_handle, forget_entry}
use tpm2_abrmd.ResourceManager.Load.{regap_session_callback, load_handles, load_auth_callback}
use tpm2_abrmd.ResourceManager.Save.{save_session_callback, post_process_loaded_transients}
use tpm2_abrmd.ResourceManager.Special.{quota_check, save_context, load_context, flush_context}
use tpm2_abrmd.ResourceManager.Capability.{get_cap_gen_response}
use tpm2_abrmd.ResourceManager.Mapping.{create_context_mapping}

-- What a thread takes from its queue.
pub data Input : Type 0 where
  command : Tpm2Command → Input
  control_message : ControlCode → ℕ → Input

-- The state after the walk through the authorizations, whose answer is not looked at.
unfoldable pub after_auths :
    {S : Type 0} → Option (Option (ResMgr S) × Bool) → Option (Unit {0} × ResMgr S)
after_auths none = none
after_auths (some (none, ret)) = none
after_auths (some (some s, ret)) = some (tt, s)

module _ {S : Type 0} (env : Env S) where
  unfoldable pub command_special_processing : Tpm2Command → M S (Option Tpm2Response)
  command_special_processing cmd =
      let code = command_get_code cmd in
      if code == cc_flush_context
      then flush_context cmd
      else if code == cc_context_save
      then save_context env cmd
      else if code == cc_context_load
      then load_context env cmd
      else if code == cc_get_capability
      then (if command_has_auths cmd
          then return none
          else (do resp ← get_cap_gen_response env cmd; return (some resp)))
      else return none

  unfoldable pub send_command_handle_rc : Tpm2Command → M S Tpm2Response
  send_command_handle_rc cmd = do
    (resp, rc) ← send env cmd
    if response_get_code resp == rc_context_gap
        then (do
          ret ← session_list_foreach (regap_session_callback env) true
          (again, rc') ← send env cmd
          return again)
        else return resp

  -- One call of the callback of `tpm2_command_foreach_auth`.
  unfoldable pub auth_step : Tpm2Command → Option (ResMgr S) → ℕ → Option (ResMgr S)
  auth_step cmd none offset = none
  auth_step cmd (some s) offset = elim (load_auth_callback env cmd offset s) [
    | none ↦ none
    | some (_, s') ↦ some s'
  ]

  unfoldable pub load_auths : Tpm2Command → M S (Unit {0})
  unfolding auth_step after_auths
  load_auths cmd s = after_auths (command_foreach_auth cmd (auth_step cmd) (some s))

  unfoldable pub load_objects : Tpm2Command → M S (Tpm2Command × List ℕ)
  unfolding load_auths
  load_objects cmd = do
    (cmd', transients) ←
        if ltb 0 (command_get_handle_count cmd)
        then (do (c, ts, rc) ← load_handles env cmd []; return (c, ts))
        else return (cmd, [])
    if command_has_auths cmd' then load_auths cmd' else return tt
    return (cmd', transients)

  -- The response of the special processing, or else that of the TPM, and the transient objects loaded.
  unfoldable pub answer_or_send : Tpm2Command → Option Tpm2Response → M S (Tpm2Response × List ℕ)
  unfolding load_objects send_command_handle_rc
  answer_or_send cmd (some resp) = return (resp, [])
  answer_or_send cmd none = do
    (cmd', transients) ← load_objects cmd
    resp ← send_command_handle_rc cmd'
    create_context_mapping resp transients

  -- The response for a command that passed the quota check
  unfoldable pub execute : Tpm2Command → M S (Tpm2Response × List ℕ)
  unfolding command_special_processing answer_or_send
  execute cmd = do special ← command_special_processing cmd; answer_or_send cmd special

  -- From the label `send_response`.
  unfoldable pub finish : Tpm2Command → Tpm2Response → List ℕ → M S (Unit {0})
  finish cmd resp transients = do
    sink_enqueue (response resp)
    session_list_foreach (save_session_callback env) tt
    post_process_loaded_transients env transients cmd.connection cmd.attributes

  unfoldable pub process_tpm2_command : Tpm2Command → M S (Unit {0})
  unfolding execute finish
  process_tpm2_command cmd = do
    rc ← quota_check cmd
    if rc == rc_success
        then (do (resp, transients) ← execute cmd; finish cmd resp transients)
        else finish cmd (response_new_rc cmd.connection rc) []

  -- `flush_session_callback`, on the state of the TPM and the session list
  unfoldable pub flush_session_callback : SessionList → Tpm2 S → ℕ → SessionList × Tpm2 S × Bool
  flush_session_callback list tpm2 a =
      let (t, rc) = context_flush env tpm2 (list.objects a).handle in
      (session_list_remove list a, t, rc == rc_success)

  unfoldable pub prune_abandoned : M S Bool
  unfolding flush_session_callback
  prune_abandoned s =
      let (l, t, ret) = session_list_prune_abandoned s.session_list flush_session_callback s.tpm2 in
      some (ret, record s { session_list = l; tpm2 = t })

  unfoldable pub connection_close_session_callback : ℕ → ℕ → Unit {0} → M S (Unit {0})
  unfolding prune_abandoned
  connection_close_session_callback connection a _ = do
    e ← gets (λ s. entry_at s a)
    if not (e.connection == connection) then return tt else elim e.state [
      | saved_client ↦ do
        abandoned ← on_sessions (λ l. session_list_abandon_handle l connection e.handle)
        pruned ← prune_abandoned
        return tt
      | saved_rm ↦ do rc ← flush_handle env e.handle; forget_entry env a
      | loaded ↦ fault
      | saved_client_closed ↦ fault
    ]

  unfoldable pub remove_connection : ℕ → M S (Unit {0})
  unfolding connection_close_session_callback
  remove_connection connection =
      session_list_foreach (connection_close_session_callback connection) tt

  -- Whether the thread goes on.
  unfoldable pub process_control : ControlCode → ℕ → M S Bool
  unfolding remove_connection
  process_control check_cancel connection = do
    sink_enqueue (control check_cancel connection)
    return false
  process_control connection_removed connection = do
    remove_connection connection
    sink_enqueue (control connection_removed connection)
    return true

  -- The inputs in the order in which the thread takes them from its queue, NULL being the end. The
  -- inputs that are left after a cancellation are not taken.
  unfoldable pub resource_manager_thread : List Input → M S (List Input)
  unfolding process_tpm2_command process_control
  resource_manager_thread [] = return []
  resource_manager_thread (command cmd ∷ inputs) = do
    process_tpm2_command cmd
    resource_manager_thread inputs
  resource_manager_thread (control_message code connection ∷ inputs) = do
    more ← process_control code connection
    if more then resource_manager_thread inputs else return inputs
