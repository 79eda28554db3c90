-- ===== src/ResourceManager/Load.antt =====
-- src/resource-manager.c, up to `resource_manager_load_handles`: loading the transient objects and the
-- sessions that a command uses. A function that changes the command's handles answers the new
-- command, and one that collects the entries loaded answers the new list of their addresses.
use tpm2_abrmd.Prelude.{
  ℕ, ◌+◌, Bool, true, false, ◌||◌, not, List, [], ◌∷◌, none, some, if◌then◌else◌, ◌==◌,
}
use tpm2_abrmd.Constants.{
  rc_success, rc_context_gap, ht_transient, ht_hmac_session, ht_policy_session, handle_type_of,
  session_continue,
}
use tpm2_abrmd.SessionEntry.{SessionEntryState, loaded, saved_rm, saved_client, saved_client_closed}
use tpm2_abrmd.SessionList.{session_list_lookup_handle}
use tpm2_abrmd.HandleMap.{handle_map_vlookup, handle_map_entry_set_phandle}
use tpm2_abrmd.Command.{
  Tpm2Command, command_set_handle, command_get_handles, command_get_auth_handle,
  command_get_auth_attrs,
}
use tpm2_abrmd.Response.{response_get_code}
use tpm2_abrmd.Tpm2.{Env, context_load}
use tpm2_abrmd.ResourceManager.State.{
  M, ◌>>=◌, ◌>>◌, return, fault, gets, entry_at, put_map_entry, session_list_foreach,
}
use tpm2_abrmd.ResourceManager.Session.{load_session, flush_session, forget_entry, regap_session}

-- TPM2_COMMAND_MAX_HANDLES
abbrev pub command_max_handles : ℕ
command_max_handles = 3

unfoldable pub is_saved_rm : SessionEntryState → Bool
is_saved_rm loaded = false
is_saved_rm saved_rm = true
is_saved_rm saved_client = false
is_saved_rm saved_client_closed = false

-- The cases TPM2_HT_HMAC_SESSION and TPM2_HT_POLICY_SESSION
unfoldable pub is_session : ℕ → Bool
is_session handle =
    handle_type_of handle == ht_hmac_session || handle_type_of handle == ht_policy_session

module _ {S : Type 0} (env : Env S) where
  -- The response code and the handle.
  unfoldable pub load_context_of : List ℕ → M S (ℕ × ℕ)
  load_context_of context s =
      let (t, rc, phandle) = context_load env s.tpm2 context in
      some ((rc, phandle), record s { tpm2 = t })

  unfoldable pub virt_to_phys : Tpm2Command → ℕ → ℕ → M S (Tpm2Command × ℕ)
  unfolding load_context_of command_set_handle
  virt_to_phys command entry handle_number = do
    e ← gets (λ s. s.map_entries entry)
    if not (e.phandle == 0)
        then (let (c, ok) = command_set_handle command e.phandle handle_number in
            return (c, rc_success))
        else (do
          (rc, phandle) ← load_context_of e.context
          if rc == rc_success
              then (do
                put_map_entry entry (λ e. handle_map_entry_set_phandle e phandle)
                let (c, ok) = command_set_handle command phandle handle_number
                return (c, rc))
              else return (command, rc))

  unfoldable pub load_transient : Tpm2Command → List ℕ → ℕ → ℕ → M S (Tpm2Command × List ℕ × ℕ)
  unfolding virt_to_phys
  load_transient command entry_slist handle handle_index = do
    map ← gets (λ s. s.trans_map command.connection)
    elim (handle_map_vlookup map handle) [
      | none ↦ return (command, entry_slist, rc_success)
      | some entry ↦ do
        (c, rc) ← virt_to_phys command entry handle_index
        if rc == rc_success
            then return (c, entry ∷ entry_slist, rc)
            else return (c, entry_slist, rc)
    ]

  unfoldable pub regap_session_callback : ℕ → Bool → M S Bool
  unfolding regap_session
  regap_session_callback a ret = if ret then regap_session env a else return false

  unfoldable pub handle_rc : ℕ → M S Bool
  unfolding regap_session_callback
  handle_rc rc =
      if rc == rc_context_gap then session_list_foreach regap_session_callback true else return true

  -- The response code; with the session loaded, or flushed where it cannot be loaded.
  unfoldable pub load_or_flush : ℕ → M S ℕ
  unfolding load_session flush_session handle_rc
  load_or_flush a = do
    response ← load_session env a
    let rc = response_get_code response
    if rc == rc_success then return rc else (do
      ret ← handle_rc rc
      if ret
          then (do
            again ← load_session env a
            let rc' = response_get_code again
            if rc' == rc_success then return rc' else (do done ← flush_session env a; return rc'))
          else (do done ← flush_session env a; return rc))

  -- What `load_session_from_handle` does with the entry that it finds.
  unfoldable pub load_entry : ℕ → Bool → ℕ → M S ℕ
  unfolding load_or_flush forget_entry
  load_entry command_conn will_flush a = do
    e ← gets (λ s. entry_at s a)
    if command_conn == e.connection
        then (if is_saved_rm e.state
            then (do
              rc ← load_or_flush a
              if rc == rc_success
                  then (if will_flush then (do forget_entry env a; return rc) else return rc)
                  else return rc)
            else return rc_success)
        else return rc_success

  unfoldable pub load_session_from_handle : ℕ → ℕ → Bool → M S ℕ
  unfolding load_entry
  load_session_from_handle command_conn handle will_flush = do
    found ← gets (λ s. session_list_lookup_handle s.session_list handle)
    elim found [ none ↦ return rc_success | some a ↦ load_entry command_conn will_flush a ]

  unfoldable pub load_auth_callback : Tpm2Command → ℕ → M S (Unit {0})
  unfolding load_session_from_handle
  load_auth_callback command auth_offset =
      let handle = command_get_auth_handle command auth_offset in
      if is_session handle
      then (let attrs = command_get_auth_attrs command auth_offset in
          do
            rc ← load_session_from_handle command.connection handle (session_continue attrs == 0)
            return tt)
      else return tt

  -- The loop of `resource_manager_load_handles` on the handles from index `i`; `rc` is that of the
  -- latest handle that was loaded.
  unfoldable pub load_handles_from :
      Tpm2Command → List ℕ → List ℕ → ℕ → ℕ → M S (Tpm2Command × List ℕ × ℕ)
  unfolding load_transient load_session_from_handle
  load_handles_from command transients [] i rc = return (command, transients, rc)
  load_handles_from command transients (handle ∷ handles) i rc =
      if handle_type_of handle == ht_transient
      then (do
        (c, ts, rc') ← load_transient command transients handle i
        load_handles_from c ts handles (i + 1) rc')
      else if is_session handle
      then (do
        rc' ← load_session_from_handle command.connection handle false
        load_handles_from command transients handles (i + 1) rc')
      else load_handles_from command transients handles (i + 1) rc

  -- The command, the addresses of the entries loaded, and the response code.
  unfoldable pub load_handles : Tpm2Command → List ℕ → M S (Tpm2Command × List ℕ × ℕ)
  unfolding load_handles_from
  load_handles command transients = elim (command_get_handles command command_max_handles) [
    | none ↦ fault
    | some handles ↦ load_handles_from command transients handles 0 rc_success
  ]
