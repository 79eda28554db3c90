-- ===== src/ResourceManager/Special.antt =====
-- src/resource-manager.c: the commands that the resource manager answers itself, and the quotas. `none`
-- is the NULL that lets a command go to the TPM.
use tpm2_abrmd.Prelude.{
  ℕ, ◌+◌, ◌-◌, ◌^◌, ◌%◌, Bool, ◌||◌, Option, none, some, if◌then◌else◌, ◌==◌, drop,
}
use tpm2_abrmd.Constants.{
  rc_success, tpm_header_size, ht_transient, handle_type_of, cc_flush_context, cc_create_primary,
  cc_load, cc_load_external, cc_start_auth_session, rm_rc, rc_handle, rc_p, rc_1,
  resmgr_rc_object_memory, resmgr_rc_session_memory,
}
use tpm2_abrmd.SessionEntry.{saved_rm, saved_client, session_entry_set_state}
use tpm2_abrmd.SessionList.{
  session_list_lookup_handle, session_list_lookup_context_client, session_list_claim,
  session_list_remove_handle, session_list_is_full,
}
use tpm2_abrmd.HandleMap.{handle_map_vlookup, handle_map_remove, handle_map_is_full}
use tpm2_abrmd.Command.{
  Tpm2Command, command_get_handle, command_get_code, command_get_size, command_get_flush_handle,
}
use tpm2_abrmd.Response.{
  Tpm2Response, response_new_rc, response_new_context_save, response_new_context_load,
}
use tpm2_abrmd.Tpm2.{Env}
use tpm2_abrmd.ResourceManager.State.{
  M, ◌>>=◌, ◌>>◌, return, gets, from_option, on_map, on_sessions, entry_at, put_entry,
}
use tpm2_abrmd.ResourceManager.Load.{is_session}

-- Whether a command loads a transient object.
abbrev pub loads_transient : ℕ → Bool
loads_transient code = code == cc_create_primary || code == cc_load || code == cc_load_external

module _ {S : Type 0} (env : Env S) where
  -- A response that cannot be allocated is NULL.
  unfoldable pub save_context_session : Tpm2Command → M S (Option Tpm2Response)
  save_context_session command = do
    found ← gets (λ s. session_list_lookup_handle s.session_list (command_get_handle command 0))
    elim found [
      | none ↦ return none
      | some a ↦ do
        e ← gets (λ s. entry_at s a)
        if command.connection == e.connection
            then (do
              put_entry a (λ e. session_entry_set_state e saved_client)
              saved ← gets (λ s. entry_at s a)
              from_option (response_new_context_save env.mu command.connection saved))
            else return none
    ]

  unfoldable pub save_context : Tpm2Command → M S (Option Tpm2Response)
  unfolding save_context_session
  save_context command =
      if is_session (command_get_handle command 0)
      then save_context_session command
      else return none

  -- What `load_context_session` does once the session may be loaded.
  unfoldable pub answer_loaded : Tpm2Command → ℕ → M S (Option Tpm2Response)
  answer_loaded command a = do
    put_entry a (λ e. session_entry_set_state e saved_rm)
    e ← gets (λ s. entry_at s a)
    from_option (response_new_context_load env.mu command.connection e)

  -- What it does with the entry that it finds
  unfoldable pub load_found : Tpm2Command → ℕ → M S (Option Tpm2Response)
  unfolding answer_loaded
  load_found command a = do
    e ← gets (λ s. entry_at s a)
    if command.connection == e.connection then answer_loaded command a else (do
      claimed ← on_sessions (λ l. session_list_claim l a command.connection)
      if claimed then answer_loaded command a else return none)

  -- The size is one of unsigned 32-bit integers.
  unfoldable pub load_context_session : Tpm2Command → M S (Option Tpm2Response)
  unfolding load_found
  load_context_session command = do
    l ← gets (λ s. s.session_list)
    found ← from_option (
        session_list_lookup_context_client l (drop tpm_header_size command.buffer)
          ((command_get_size command + 2 ^ 32 - tpm_header_size) % 2 ^ 32))
    elim found [ none ↦ return none | some a ↦ load_found command a ]

  -- The response code of the unmarshalling is only logged.
  unfoldable pub load_context : Tpm2Command → M S (Option Tpm2Response)
  unfolding load_context_session
  load_context command =
      let (rc, saved_handle) =
        env.unmarshal_context command.buffer (command_get_size command) tpm_header_size in
      if is_session saved_handle then load_context_session command else return none

module _ {S : Type 0} where
  -- The case TPM2_HT_TRANSIENT of `flush_context`, with the entry found
  unfoldable pub flush_transient : ℕ → ℕ → Option ℕ → M S (Option Tpm2Response)
  flush_transient connection handle none =
      return (some (response_new_rc connection (rm_rc (rc_handle + rc_p + rc_1))))
  flush_transient connection handle (some entry) = do
    ret ← on_map connection (λ m. handle_map_remove m handle)
    return (some (response_new_rc connection rc_success))

  unfoldable pub flush_context : Tpm2Command → M S (Option Tpm2Response)
  unfolding flush_transient
  flush_context command =
      if command_get_code command == cc_flush_context
      then (let (rc, handle) = command_get_flush_handle command in
          if rc == rc_success
          then (if handle_type_of handle == ht_transient
              then (do
                map ← gets (λ s. s.trans_map command.connection)
                flush_transient command.connection handle (handle_map_vlookup map handle))
              else if is_session handle
              then (do ret ← on_sessions (λ l. session_list_remove_handle l handle); return none)
              else return none)
          else return (some (response_new_rc command.connection rc)))
      else return none

  unfoldable pub quota_check : Tpm2Command → M S ℕ
  quota_check command =
      if loads_transient (command_get_code command)
      then (do
        full ← gets (λ s. handle_map_is_full (s.trans_map command.connection))
        if full then return resmgr_rc_object_memory else return rc_success)
      else if command_get_code command == cc_start_auth_session
      then (do
        full ← gets (λ s. session_list_is_full s.session_list command.connection)
        if full then return resmgr_rc_session_memory else return rc_success)
      else return rc_success
