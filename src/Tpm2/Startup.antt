-- ===== src/Tpm2/Startup.antt =====
-- The functions of src/tpm2.c that the daemon calls as it starts and ends, and src/command-attrs.c,
-- which keeps the attributes of the commands that the TPM knows.
use tpm2_abrmd.Prelude.{
  ℕ, ◌-◌, ◌%◌, ◌^◌, ◌&&◌, Bool, true, false, not, List, [], ◌∷◌, if◌then◌else◌, ◌==◌, length,
}
use tpm2_abrmd.Constants.{rc_success, cap_handles}
use tpm2_abrmd.Tpm2.{Tpm2, Env, with_device}

-- Tss2_Sys_Startup with TPM2_SU_CLEAR, and Tss2_Sys_GetCapability of a capability from a property
-- on, at most a count of values: the response code and the values, a TPMS_TAGGED_PROPERTY as a pair,
-- for the capability that holds them.
pub record SysEnv (S : Type 0) : Type 0 where
  pub env : Env S
  pub sys_startup : S → S × ℕ
  pub sys_get_values : S → ℕ → ℕ → ℕ → S × ℕ × List ℕ
  pub sys_get_properties : S → ℕ → ℕ → S × ℕ × List (ℕ × ℕ)

-- TPM2_RC_INITIALIZE
abbrev pub rc_initialize : ℕ
rc_initialize = 0x100

-- TPM2_PT_FIXED and TPM2_MAX_TPM_PROPERTIES
abbrev pub pt_fixed : ℕ
pt_fixed = 0x100

abbrev pub max_tpm_properties : ℕ
max_tpm_properties = 127

-- TPM2_CAP_COMMANDS, TPM2_CC_FIRST and TPM2_MAX_CAP_CC
abbrev pub cap_commands : ℕ
cap_commands = 2

abbrev pub cc_first : ℕ
cc_first = 0x11f

abbrev pub max_cap_cc : ℕ
max_cap_cc = 256

-- The first and the last handles of loaded sessions, active sessions and transient objects
abbrev pub loaded_session_first : ℕ
loaded_session_first = 0x02000000

abbrev pub loaded_session_last : ℕ
loaded_session_last = 0x0200ffff

abbrev pub active_session_first : ℕ
active_session_first = 0x03000000

abbrev pub active_session_last : ℕ
active_session_last = 0x0300ffff

abbrev pub transient_first : ℕ
transient_first = 0x80000000

abbrev pub transient_last : ℕ
transient_last = 0x80ffffff

module _ {S : Type 0} (sys : SysEnv S) where
  -- A TPM that has been started already answers TPM2_RC_INITIALIZE.
  unfoldable pub send_tpm_startup : Tpm2 S → Tpm2 S × ℕ
  send_tpm_startup tpm2 =
      let (d, rc) = sys.sys_startup tpm2.device in
      (
        with_device tpm2 d,
        if not (rc == rc_success) && not (rc == rc_initialize) then rc else rc_success,
      )

  -- The structure is written by a call that succeeds.
  unfoldable pub get_tpm_properties_fixed : Tpm2 S → Tpm2 S × ℕ
  get_tpm_properties_fixed tpm2 =
      let (d, rc, properties) = sys.sys_get_properties tpm2.device pt_fixed max_tpm_properties in
      if rc == rc_success
      then (record tpm2 { device = d; properties_fixed = properties }, rc)
      else (with_device tpm2 d, rc)

  unfoldable pub start_tpm : Tpm2 S → Tpm2 S × ℕ
  unfolding send_tpm_startup get_tpm_properties_fixed
  start_tpm tpm2 =
      let (started, rc) = send_tpm_startup tpm2 in
      if not (rc == rc_success)
      then (started, rc)
      else let (known, rc') = get_tpm_properties_fixed started in
        if not (rc' == rc_success) then (known, rc') else (record known { initialized = true }, rc')

  unfoldable pub init_tpm : Tpm2 S → Tpm2 S × ℕ
  unfolding start_tpm
  init_tpm tpm2 = if tpm2.initialized then (tpm2, rc_success) else start_tpm tpm2

  -- The response code and the count.
  unfoldable pub get_trans_object_count : Tpm2 S → Tpm2 S × ℕ × ℕ
  get_trans_object_count tpm2 =
      let (d, rc, handles) =
        sys.sys_get_values tpm2.device cap_handles transient_first
          (transient_last - transient_first) in
      if rc == rc_success
      then (with_device tpm2 d, rc, length handles)
      else (with_device tpm2 d, rc, 0)

  -- The response code and the context.
  unfoldable pub context_save : Tpm2 S → ℕ → Tpm2 S × ℕ × List ℕ
  context_save tpm2 handle =
      let (d, rc, context) = sys.env.sys_context_save tpm2.device handle in
      (with_device tpm2 d, rc, context)

  -- A handle that cannot be flushed is passed over.
  unfoldable pub flush_handles : S → List ℕ → S
  flush_handles d [] = d
  flush_handles d (handle ∷ handles) =
      let (d', rc) = sys.env.sys_flush_context d handle in flush_handles d' handles

  unfoldable pub flush_all_unlocked : Tpm2 S → ℕ → ℕ → Tpm2 S × ℕ
  unfolding flush_handles
  flush_all_unlocked tpm2 first last =
      let (d, rc, handles) = sys.sys_get_values tpm2.device cap_handles first (last - first) in
      if rc == rc_success
      then (with_device tpm2 (flush_handles d handles), rc_success)
      else (with_device tpm2 d, rc)

  unfoldable pub flush_all_context : Tpm2 S → Tpm2 S
  unfolding flush_all_unlocked
  flush_all_context tpm2 =
      let (t, rc) = flush_all_unlocked tpm2 active_session_first active_session_last in
      let (t', rc') = flush_all_unlocked t loaded_session_first loaded_session_last in
      let (t'', rc'') = flush_all_unlocked t' transient_first transient_last in t''

  -- The response code and the attributes; whether the TPM has more of them is not looked at.
  unfoldable pub get_command_attrs : Tpm2 S → Tpm2 S × ℕ × List ℕ
  get_command_attrs tpm2 =
      let (d, rc, attrs) = sys.sys_get_values tpm2.device cap_commands cc_first max_cap_cc in
      if rc == rc_success then (with_device tpm2 d, rc, attrs) else (with_device tpm2 d, rc, [])

  -- The attributes, and whether the call succeeded: TRUE is 0 and FALSE is -1.
  unfoldable pub command_attrs_init_tpm : Tpm2 S → Tpm2 S × List ℕ × Bool
  unfolding get_command_attrs
  command_attrs_init_tpm tpm2 =
      let (t, rc, attrs) = get_command_attrs tpm2 in
      if rc == rc_success then (t, attrs, true) else (t, [], false)

-- TPM2_CC_FROM_TPMA_CC: the lower 15 bits
abbrev pub cc_from_tpma_cc : ℕ → ℕ
cc_from_tpma_cc attrs = attrs % 2 ^ 15

unfoldable pub command_attrs_from_cc : List ℕ → ℕ → ℕ
command_attrs_from_cc [] command_code = 0
command_attrs_from_cc (attrs ∷ others) command_code =
    let rest = command_attrs_from_cc others command_code in
    if cc_from_tpma_cc attrs == command_code then attrs else rest
