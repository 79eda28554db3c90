-- ===== src/Response.antt =====
-- src/tpm2-response.c: a response of the TPM, or one that the daemon builds itself.
pub mod Fields
use tpm2_abrmd.Prelude.{
  ℕ, ◌+◌, ◌/◌, ◌%◌, ◌^◌, Bool, true, false, ◌&&◌, not, List, Option, none, some, if◌then◌else◌, ltb,
  ◌==◌, length, replicate, take,
}
use tpm2_abrmd.Bytes.{get16, get32, put16, put32, memcpy}
use tpm2_abrmd.Constants.{
  tpm_header_size, handle_size, st_no_sessions, rc_success, cc_rhandle, handle_type_of,
}
use tpm2_abrmd.Mu.{Mu, Marshaled}
use tpm2_abrmd.Header.{header_init}
use tpm2_abrmd.SessionEntry.{SessionEntry}

pub record Tpm2Response : Type 0 where
  pub connection : ℕ
  pub attributes : ℕ
  pub buffer : List ℕ
  pub buffer_size : ℕ

unfoldable pub response_new : ℕ → List ℕ → ℕ → ℕ → Tpm2Response
response_new connection buffer buffer_size attributes = record {
  connection = connection;
  attributes = attributes;
  buffer = buffer;
  buffer_size = buffer_size;
}

unfoldable pub response_buffer_set_rc : List ℕ → ℕ → List ℕ
response_buffer_set_rc buffer rc =
    put32 (put32 (put16 buffer 0 st_no_sessions) 2 tpm_header_size) 6 rc

-- The allocation of ten bytes is taken to succeed.
unfoldable pub response_new_rc : ℕ → ℕ → Tpm2Response
unfolding response_buffer_set_rc response_new
response_new_rc connection rc =
    let buffer = response_buffer_set_rc (replicate tpm_header_size 0) rc in
    response_new connection buffer (get32 buffer 2) 0

-- The outer `none` is a failed assertion, the inner one is NULL.
unfoldable pub response_new_context_load : Mu → ℕ → SessionEntry → Option (Option Tpm2Response)
response_new_context_load mu connection entry =
    let m =
      mu.uint32 entry.handle (replicate (tpm_header_size + handle_size) 0)
        (tpm_header_size + handle_size) tpm_header_size in
    if m.rc == rc_success
    then elim (header_init mu m.buf m.offset st_no_sessions m.offset rc_success) [
      | none ↦ none
      | some (rc, buf) ↦
          if rc == rc_success
          then some (some (response_new connection buf m.offset 0x10000161))
          else some none
    ]
    else some none

unfoldable pub response_new_context_save : Mu → ℕ → SessionEntry → Option (Option Tpm2Response)
response_new_context_save mu connection entry =
    let size = tpm_header_size + entry.context_client.size in
    let body =
      memcpy (replicate size 0) tpm_header_size
        (take entry.context_client.size entry.context_client.buf) in
    elim (header_init mu body size st_no_sessions size rc_success) [
      | none ↦ none
      | some (rc, buf) ↦
          if rc == rc_success
          then some (some (response_new connection buf size 0x02000162))
          else some none
    ]

unfoldable pub response_get_code : Tpm2Response → ℕ
response_get_code response = get32 response.buffer 6

unfoldable pub response_get_size : Tpm2Response → ℕ
response_get_size response = get32 response.buffer 2

unfoldable pub response_get_tag : Tpm2Response → ℕ
response_get_tag response = get16 response.buffer 0

unfoldable pub response_has_handle : Tpm2Response → Bool
unfolding response_get_size response_get_code
response_has_handle response =
    if ltb tpm_header_size (response_get_size response)
      && response_get_code response == rc_success
      && not (cc_rhandle response.attributes == 0)
    then true
    else false

-- HANDLE_END_OFFSET
abbrev pub response_handle_end : ℕ
response_handle_end = tpm_header_size + handle_size

unfoldable pub response_get_handle : Tpm2Response → ℕ
response_get_handle response =
    if ltb response.buffer_size response_handle_end
    then 0
    else get32 response.buffer tpm_header_size

unfoldable pub response_set_handle : Tpm2Response → ℕ → Tpm2Response
response_set_handle response handle =
    if ltb response.buffer_size response_handle_end
    then response
    else record response { buffer = put32 response.buffer tpm_header_size handle }

unfoldable pub response_get_handle_type : Tpm2Response → ℕ
unfolding response_get_handle
response_get_handle_type response = handle_type_of (response_get_handle response)
