-- ===== src/Tpm2.antt =====
-- src/tpm2.c: the object through which the daemon talks to the TPM. The TCTI (src/tcti.c passes its
-- calls on) and the system API of the TSS are not part of the repository: `Env` holds their
-- functions as parameters, on a state `S` that they alone know. The mutex is held throughout each
-- operation, and is not modelled.
pub mod Startup
pub mod Attributes
use tpm2_abrmd.Prelude.{
  ℕ, Bool, Ordering, List, [], ◌∷◌, Option, none, some, if◌then◌else◌, ◌==◌, length,
}
use tpm2_abrmd.Constants.{rc_success}
use tpm2_abrmd.Mu.{Mu}
use tpm2_abrmd.Command.{Tpm2Command, command_get_size}
use tpm2_abrmd.Response.{Tpm2Response, response_new, response_new_rc}

-- What a TPMS_CAPABILITY_DATA holds: tagged properties, or what the daemon does not look at.
pub data CapabilityData : Type 0 where
  tpm_properties : List (ℕ × ℕ) → CapabilityData
  other_data : ℕ → List ℕ → CapabilityData

pub record Env (S : Type 0) : Type 0 where
  pub mu : Mu
  -- Tss2_MU_TPMS_CONTEXT_Unmarshal at an offset: the response code, and the `savedHandle` that the
  -- structure then has.
  pub unmarshal_context : List ℕ → ℕ → ℕ → ℕ × ℕ
  -- Tss2_MU_TPMS_CAPABILITY_DATA_Unmarshal and _Marshal at an offset
  pub unmarshal_capability : List ℕ → ℕ → ℕ → ℕ × CapabilityData
  pub marshal_capability : CapabilityData → List ℕ → ℕ → ℕ → ℕ × List ℕ
  -- g_list_sort with a comparison of handles
  pub list_sort : (ℕ → ℕ → Ordering) → List ℕ → List ℕ
  -- tcti_transmit of a buffer with its size, and tcti_receive into a buffer of a size: the response
  -- code, and the bytes received
  pub transmit : S → ℕ → List ℕ → S × ℕ
  pub receive : S → ℕ → S × ℕ × List ℕ
  -- Tss2_Sys_ContextLoad, Tss2_Sys_ContextSave and Tss2_Sys_FlushContext: the response code, and the
  -- handle or the context
  pub sys_context_load : S → List ℕ → S × ℕ × ℕ
  pub sys_context_save : S → ℕ → S × ℕ × List ℕ
  pub sys_flush_context : S → ℕ → S × ℕ

-- `properties_fixed` are the pairs of a property and its value.
pub record Tpm2 (S : Type 0) : Type 0 where
  pub device : S
  pub properties_fixed : List (ℕ × ℕ)
  pub initialized : Bool

-- TPM2_PT_MAX_RESPONSE_SIZE
abbrev pt_max_response_size : ℕ
pt_max_response_size = 0x11f

-- TSS2_RESMGR_RC_INTERNAL_ERROR and TSS2_RESMGR_RC_BAD_VALUE
abbrev resmgr_rc_internal_error : ℕ
resmgr_rc_internal_error = 0xb0800

abbrev resmgr_rc_bad_value : ℕ
resmgr_rc_bad_value = 0xb000b

-- The response code and the value.
unfoldable pub find_property : List (ℕ × ℕ) → ℕ → ℕ × ℕ
find_property [] property = (resmgr_rc_bad_value, 0)
find_property ((p, v) ∷ l) property =
    if p == property then (rc_success, v) else find_property l property

module _ {S : Type 0} where
  unfoldable pub get_fixed_property : Tpm2 S → ℕ → ℕ × ℕ
  unfolding find_property
  get_fixed_property tpm2 property = elim tpm2.properties_fixed [
    | [] ↦ (resmgr_rc_internal_error, 0)
    | p ∷ l ↦ find_property (p ∷ l) property
  ]

  unfoldable pub get_max_response : Tpm2 S → ℕ × ℕ
  unfolding get_fixed_property
  get_max_response tpm2 = get_fixed_property tpm2 pt_max_response_size

  abbrev with_device : Tpm2 S → S → Tpm2 S
  with_device tpm2 d = record tpm2 { device = d }

module _ {S : Type 0} (env : Env S) where
  -- The response code and the buffer. The allocation is taken to succeed.
  unfoldable pub get_response : Tpm2 S → Tpm2 S × ℕ × List ℕ
  unfolding get_max_response
  get_response tpm2 =
      let (rc, max_size) = get_max_response tpm2 in
      if rc == rc_success
      then (let (d, rc', buffer) = env.receive tpm2.device max_size in
          (with_device tpm2 d, rc', buffer))
      else (tpm2, rc, [])

  -- The response, and the response code of the TCTI.
  unfoldable pub send_command : Tpm2 S → Tpm2Command → Tpm2 S × Tpm2Response × ℕ
  unfolding get_response
  send_command tpm2 command =
      let (d, rc) = env.transmit tpm2.device (command_get_size command) command.buffer in
      let sent = with_device tpm2 d in
      if rc == rc_success
      then (let (received, rc', buffer) = get_response sent in
          if rc' == rc_success
          then (
            received,
            response_new command.connection buffer (length buffer) command.attributes,
            rc',
          )
          else (received, response_new_rc command.connection rc', rc'))
      else (sent, response_new_rc command.connection rc, rc)

  -- The response code and the handle.
  unfoldable pub context_load : Tpm2 S → List ℕ → Tpm2 S × ℕ × ℕ
  context_load tpm2 context =
      let (d, rc, handle) = env.sys_context_load tpm2.device context in
      (with_device tpm2 d, rc, handle)

  unfoldable pub context_flush : Tpm2 S → ℕ → Tpm2 S × ℕ
  context_flush tpm2 handle =
      let (d, rc) = env.sys_flush_context tpm2.device handle in (with_device tpm2 d, rc)

  -- The response code and the context that was saved, `none` where the saving failed.
  unfoldable pub context_saveflush : Tpm2 S → ℕ → Tpm2 S × ℕ × Option (List ℕ)
  context_saveflush tpm2 handle =
      let (d, rc, context) = env.sys_context_save tpm2.device handle in
      if rc == rc_success
      then (let (d', rc') = env.sys_flush_context d handle in
          (with_device tpm2 d', rc', some context))
      else (with_device tpm2 d, rc, none)
