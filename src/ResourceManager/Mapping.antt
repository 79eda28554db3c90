-- ===== src/ResourceManager/Mapping.antt =====
-- src/resource-manager.c: the handles in the responses of the TPM. A transient object gets a virtual
-- handle, and a new session an entry in the session list.
use tpm2_abrmd.Prelude.{ℕ, ◌+◌, List, ◌∷◌, none, some, if◌then◌else◌, ◌==◌}
use tpm2_abrmd.Constants.{ht_transient, handle_type_of}
use tpm2_abrmd.SessionEntry.{loaded, session_entry_new, session_entry_set_state}
use tpm2_abrmd.SessionList.{session_list_lookup_handle, session_list_insert}
use tpm2_abrmd.HandleMap.{handle_map_next_vhandle, handle_map_insert, handle_map_entry_new}
use tpm2_abrmd.Response.{
  Tpm2Response, response_has_handle, response_get_handle, response_set_handle,
}
use tpm2_abrmd.ResourceManager.State.{
  M, ◌>>=◌, ◌>>◌, return, fault, gets, on_map, on_sessions, put_entry, put_map_entry,
}
use tpm2_abrmd.ResourceManager.Load.{is_session}

module _ {S : Type 0} where
  -- The address of a new object.
  unfoldable pub new_object : M S ℕ
  new_object s = some (s.next_address, record s { next_address = s.next_address + 1 })

  -- The response, and the list of the transient objects loaded.
  unfoldable pub create_context_mapping_transient :
      Tpm2Response → List ℕ → M S (Tpm2Response × List ℕ)
  unfolding new_object
  create_context_mapping_transient response transients = do
    vhandle ← on_map response.connection handle_map_next_vhandle
    if vhandle == 0 then fault else (do
      entry ← new_object
      put_map_entry entry (λ _. handle_map_entry_new (response_get_handle response) vhandle)
      inserted ← on_map response.connection (λ m. handle_map_insert m vhandle entry)
      return (response_set_handle response vhandle, entry ∷ transients))

  -- The session of a handle that the list does not know.
  unfoldable pub track_session : Tpm2Response → ℕ → M S (Unit {0})
  unfolding new_object
  track_session response handle = do
    a ← new_object
    size_buf_max ← gets (λ s. s.size_buf_max)
    put_entry a (λ _.
        session_entry_set_state (session_entry_new size_buf_max response.connection handle) loaded)
    inserted ← on_sessions (λ l. session_list_insert l a)
    return tt

  unfoldable pub create_context_mapping_session : Tpm2Response → ℕ → M S (Unit {0})
  unfolding track_session
  create_context_mapping_session response handle = do
    found ← gets (λ s. session_list_lookup_handle s.session_list handle)
    elim found [ none ↦ track_session response handle | some a ↦ return tt ]

  unfoldable pub create_context_mapping : Tpm2Response → List ℕ → M S (Tpm2Response × List ℕ)
  unfolding create_context_mapping_transient create_context_mapping_session
  create_context_mapping response transients =
      if response_has_handle response
      then (let handle = response_get_handle response in
          if handle_type_of handle == ht_transient
          then create_context_mapping_transient response transients
          else if is_session handle
          then (do create_context_mapping_session response handle; return (response, transients))
          else return (response, transients))
      else return (response, transients)
