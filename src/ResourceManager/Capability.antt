-- ===== src/ResourceManager/Capability.antt =====
-- src/resource-manager.c: TPM2_GetCapability. The handles of transient objects are virtual, so the
-- resource manager lists them itself; the other answers come from the TPM.
use tpm2_abrmd.Prelude.{
  ℕ, ◌+◌, ◌-◌, ◌*◌, ◌^◌, Bool, true, false, List, [], ◌∷◌, ◌++◌, Option, none, some, Ordering,
  compare, map, if◌then◌else◌, ltb, ◌==◌, length, replicate,
}
use tpm2_abrmd.Constants.{
  rc_success, tpm_header_size, handle_size, st_no_sessions, ht_transient, handle_type_of,
  cap_handles,
}
use tpm2_abrmd.Bytes.{put8, put32}
use tpm2_abrmd.Header.{set_response_tag, set_response_size, set_response_code}
use tpm2_abrmd.HandleMap.{HandleMap, handle_map_get_keys}
use tpm2_abrmd.Command.{Tpm2Command, command_get_cap, command_get_prop, command_get_prop_count}
use tpm2_abrmd.Response.{Tpm2Response, response_new, response_get_code, response_get_size}
use tpm2_abrmd.Tpm2.{Env, CapabilityData, tpm_properties, other_data}
use tpm2_abrmd.ResourceManager.State.{M, ◌>>=◌, return, fault, gets}
use tpm2_abrmd.ResourceManager.Session.{send}

-- vhandle_iterator_state_t; `handles` are those of `cap_data`, in the order of the array
pub record VhandleIteratorState : Type 0 where
  pub handles : List ℕ
  pub max_count : ℕ
  pub more_data : Bool
  pub start_handle : ℕ

unfoldable pub vhandle_iterator_callback : VhandleIteratorState → ℕ → VhandleIteratorState
vhandle_iterator_callback state vhandle =
    if ltb vhandle state.start_handle
    then state
    else if ltb (length state.handles) state.max_count
    then record state { handles = state.handles ++ vhandle ∷ [] }
    else record state { more_data = true }

-- g_list_foreach
unfoldable pub iterate : VhandleIteratorState → List ℕ → VhandleIteratorState
unfolding vhandle_iterator_callback
iterate state [] = state
iterate state (v ∷ l) = iterate (vhandle_iterator_callback state v) l

unfoldable pub handle_compare : ℕ → ℕ → Ordering
handle_compare a b = compare a b

-- The handles, and whether there are more.
unfoldable pub get_cap_handles :
    ((ℕ → ℕ → Ordering) → List ℕ → List ℕ) → HandleMap → ℕ → ℕ → List ℕ × Bool
unfolding iterate
get_cap_handles list_sort map prop count =
    let state =
      iterate (record { handles = []; max_count = count; more_data = false; start_handle = prop })
        (list_sort handle_compare (handle_map_get_keys map)) in
    (state.handles, state.more_data)

-- CAP_RESP_SIZE: the header, the flag, the capability, the count and the handles
abbrev pub cap_resp_size : List ℕ → ℕ
cap_resp_size handles = tpm_header_size + 1 + 4 + 4 + length handles * handle_size

-- HANDLE_SET for each handle, the first at an offset
unfoldable pub set_handles : List ℕ → ℕ → List ℕ → List ℕ
set_handles buf o [] = buf
set_handles buf o (h ∷ l) = set_handles (put32 buf o h) (o + handle_size) l

-- YES_NO_SET, CAP_SET and HANDLE_COUNT_SET, then HANDLE_SET for each handle
unfoldable pub build_cap_handles_response : List ℕ → Bool → List ℕ
unfolding set_handles set_response_tag set_response_size set_response_code
build_cap_handles_response handles more_data =
    let size = cap_resp_size handles in
    let header =
      set_response_code
        (set_response_size (set_response_tag (replicate size 0) st_no_sessions) size) rc_success in
    let flag = put8 header tpm_header_size (if more_data then 1 else 0) in
    let cap = put32 flag (tpm_header_size + 1) cap_handles in
    let counted = put32 cap (tpm_header_size + 5) (length handles) in
    set_handles counted (tpm_header_size + 9) handles

-- TPM2_PT_CONTEXT_GAP_MAX
abbrev pub pt_context_gap_max : ℕ
pt_context_gap_max = 0x114

-- The loop over the properties: the gap becomes UINT32_MAX.
unfoldable pub widen_gap : ℕ × ℕ → ℕ × ℕ
widen_gap (property, value) =
    if property == pt_context_gap_max then (property, 2 ^ 32 - 1) else (property, value)

unfoldable pub widen_gaps : CapabilityData → CapabilityData
unfolding widen_gap
widen_gaps (tpm_properties l) = tpm_properties (map widen_gap l)
widen_gaps (other_data capability bytes) = other_data capability bytes

module _ {S : Type 0} (env : Env S) where
  -- The caller does not look at the response code, and marshals into the buffer of the response. A
  -- response with another code than success fails the assertion.
  unfoldable pub get_cap_post_process : Tpm2Response → Option Tpm2Response
  unfolding widen_gaps
  get_cap_post_process resp =
      let size = response_get_size resp in
      let (rc, cap_data) = env.unmarshal_capability resp.buffer size (tpm_header_size + 1) in
      if response_get_code resp == rc_success
      then (if rc == rc_success
          then (let (rc', buffer) =
                env.marshal_capability (widen_gaps cap_data) resp.buffer size
                  (tpm_header_size + 1) in
              some (record resp { buffer = buffer }))
          else some resp)
      else none

  -- What the TPM answers, after the post-processing.
  unfoldable pub forward_get_cap : Tpm2Command → M S Tpm2Response
  unfolding send get_cap_post_process
  forward_get_cap command = do
    (resp, rc) ← send env command
    if rc == rc_success
        then elim (get_cap_post_process resp) [ none ↦ fault | some processed ↦ return processed ]
        else return resp

  unfoldable pub get_cap_gen_response : Tpm2Command → M S Tpm2Response
  unfolding get_cap_handles build_cap_handles_response forward_get_cap
  get_cap_gen_response command =
      if command_get_cap command == cap_handles
      then (if handle_type_of (command_get_prop command) == ht_transient
          then (do
            map ← gets (λ s. s.trans_map command.connection)
            let (handles, more_data) =
                get_cap_handles env.list_sort map (command_get_prop command)
                  (command_get_prop_count command)
            return (
                response_new command.connection (build_cap_handles_response handles more_data)
                  (cap_resp_size handles) command.attributes))
          else forward_get_cap command)
      else forward_get_cap command
