-- ===== src/ResourceManager/Save.antt =====
-- src/resource-manager.c: what becomes of the objects and sessions that a command had loaded.
use tpm2_abrmd.Prelude.{ℕ, not, List, [], ◌∷◌, Option, none, some, if◌then◌else◌, ◌==◌}
use tpm2_abrmd.Constants.{rc_success, ht_transient, handle_type_of, cc_flushed}
use tpm2_abrmd.HandleMap.{HandleMapEntry, handle_map_remove, handle_map_entry_set_phandle}
use tpm2_abrmd.Response.{response_get_code}
use tpm2_abrmd.Tpm2.{Env, context_saveflush}
use tpm2_abrmd.ResourceManager.State.{M, ◌>>=◌, ◌>>◌, return, gets, on_map, entry_at, put_map_entry}
use tpm2_abrmd.ResourceManager.Session.{is_loaded, save_session, flush_session}
use tpm2_abrmd.ResourceManager.Load.{handle_rc}

-- handle_map_entry_get_context answers a pointer, through which a context is written.
unfoldable pub handle_map_entry_set_context : HandleMapEntry → Option (List ℕ) → HandleMapEntry
handle_map_entry_set_context e none = e
handle_map_entry_set_context e (some context) = record e { context = context }

module _ {S : Type 0} (env : Env S) where
  -- The response code and the context.
  unfoldable pub saveflush : ℕ → M S (ℕ × Option (List ℕ))
  saveflush phandle s =
      let (t, rc, context) = context_saveflush env s.tpm2 phandle in
      some ((rc, context), record s { tpm2 = t })

  unfoldable pub flushsave_context : ℕ → M S (Unit {0})
  unfolding saveflush handle_map_entry_set_context
  flushsave_context entry = do
    phandle ← gets (λ s. (s.map_entries entry).phandle)
    if handle_type_of phandle == ht_transient
        then (do
          (rc, context) ← saveflush phandle
          put_map_entry entry (λ e. handle_map_entry_set_context e context)
          if rc == rc_success
              then put_map_entry entry (λ e. handle_map_entry_set_phandle e 0)
              else return tt)
        else return tt

  -- The callback of a walk through the session list, which carries no data.
  unfoldable pub save_session_callback : ℕ → Unit {0} → M S (Unit {0})
  unfolding save_session flush_session handle_rc
  save_session_callback a _ = do
    e ← gets (λ s. entry_at s a)
    if not (is_loaded e.state) then return tt else (do
      resp ← save_session env a
      let rc = response_get_code resp
      if rc == rc_success then return tt else (do
        ret ← handle_rc env rc
        if not ret then (do done ← flush_session env a; return tt) else (do
          again ← save_session env a
          if response_get_code again == rc_success
              then return tt
              else (do done ← flush_session env a; return tt))))

  unfoldable pub remove_entry_from_handle_map : ℕ → ℕ → M S (Unit {0})
  remove_entry_from_handle_map connection entry = do
    handle ← gets (λ s. (s.map_entries entry).vhandle)
    if handle_type_of handle == ht_transient
        then (do ret ← on_map connection (λ m. handle_map_remove m handle); return tt)
        else return tt

  -- g_slist_foreach on a list that the callback does not change
  unfoldable pub for_each : (ℕ → M S (Unit {0})) → List ℕ → M S (Unit {0})
  for_each callback [] = return tt
  for_each callback (a ∷ l) = callback a >> for_each callback l

  unfoldable pub post_process_loaded_transients : List ℕ → ℕ → ℕ → M S (Unit {0})
  unfolding for_each flushsave_context remove_entry_from_handle_map
  post_process_loaded_transients transient_slist connection command_attrs =
      if cc_flushed command_attrs == 0
      then for_each flushsave_context transient_slist
      else for_each (remove_entry_from_handle_map connection) transient_slist
