-- ===== src/Constants.antt =====
-- Values that the daemon takes from the TPM 2.0 and TSS 2.0 headers (tss2_tpm2_types.h and
-- tss2_common.h), as the specifications publish them.
pub mod TctiRc
use tpm2_abrmd.Prelude.{ℕ, ◌+◌, ◌/◌, ◌%◌, ◌^◌}

-- TPM_HEADER_SIZE of src/tpm2-header.h: a tag of two bytes, a size and a code of four each.
abbrev pub tpm_header_size : ℕ
tpm_header_size = 10

-- sizeof (TPM2_HANDLE)
abbrev pub handle_size : ℕ
handle_size = 4

-- structure tags
abbrev pub st_no_sessions : ℕ
st_no_sessions = 0x8001

-- command codes
abbrev pub cc_create_primary : ℕ
cc_create_primary = 0x131

abbrev pub cc_load : ℕ
cc_load = 0x157

abbrev pub cc_context_load : ℕ
cc_context_load = 0x161

abbrev pub cc_context_save : ℕ
cc_context_save = 0x162

abbrev pub cc_flush_context : ℕ
cc_flush_context = 0x165

abbrev pub cc_load_external : ℕ
cc_load_external = 0x167

abbrev pub cc_start_auth_session : ℕ
cc_start_auth_session = 0x176

abbrev pub cc_get_capability : ℕ
cc_get_capability = 0x17a

-- handle types, the top byte of a handle
abbrev pub ht_hmac_session : ℕ
ht_hmac_session = 0x02

abbrev pub ht_policy_session : ℕ
ht_policy_session = 0x03

abbrev pub ht_transient : ℕ
ht_transient = 0x80

-- handle >> TPM2_HR_SHIFT
abbrev pub handle_type_of : ℕ → ℕ
handle_type_of handle = handle / 2 ^ 24

-- capabilities
abbrev pub cap_handles : ℕ
cap_handles = 1

-- response codes
abbrev pub rc_success : ℕ
rc_success = 0

abbrev pub rc_context_gap : ℕ
rc_context_gap = 0x901

abbrev pub rc_type : ℕ
rc_type = 0x08a

abbrev pub rc_handle : ℕ
rc_handle = 0x08b

abbrev pub rc_insufficient : ℕ
rc_insufficient = 0x09a

-- TPM2_RC_P, the error concerns a parameter, and TPM2_RC_1, the first one
abbrev pub rc_p : ℕ
rc_p = 0x040

abbrev pub rc_1 : ℕ
rc_1 = 0x100

-- RM_RC (rc): the code comes from the resource manager
abbrev pub rm_rc : ℕ → ℕ
rm_rc rc = 0xb0000 + rc

abbrev pub resmgr_rc_general_failure : ℕ
resmgr_rc_general_failure = 0xb0001

abbrev pub resmgr_rc_object_memory : ℕ
resmgr_rc_object_memory = 0xb0902

abbrev pub resmgr_rc_session_memory : ℕ
resmgr_rc_session_memory = 0xb0903

-- TPMA_CC: the flushed bit, the rHandle bit, the cHandles field and the command index
abbrev pub cc_flushed : ℕ → ℕ
cc_flushed attributes = attributes / 2 ^ 24 % 2

abbrev pub cc_rhandle : ℕ → ℕ
cc_rhandle attributes = attributes / 2 ^ 28 % 2

abbrev pub cc_chandles : ℕ → ℕ
cc_chandles attributes = attributes / 2 ^ 25 % 8

-- TPMA_SESSION: the continueSession bit
abbrev pub session_continue : ℕ → ℕ
session_continue attrs = attrs % 2
