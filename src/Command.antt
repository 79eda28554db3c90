-- ===== src/Command.antt =====
-- src/tpm2-command.c: a command that a client sent, and the fields that the daemon reads in it. The
-- NULL arguments that some functions refuse with a warning are left out: a command is always given.
pub mod Handles
pub mod Auths
pub mod Build
use tpm2_abrmd.Prelude.{
  ℕ, zero, suc, ◌+◌, ◌-◌, ◌*◌, ◌/◌, ◌%◌, ◌^◌, Bool, true, false, ◌&&◌, List, [], ◌∷◌, Option, none,
  some, if◌then◌else◌, ltb, leb, ◌==◌, length, replicate,
}
use tpm2_abrmd.Bytes.{get8, get16, get32, put32, memcpy}
use tpm2_abrmd.Constants.{
  tpm_header_size, handle_size, st_no_sessions, cc_context_save, cc_context_load, cc_flush_context,
  cc_get_capability, cc_chandles, rc_success, rc_type, rc_insufficient, rm_rc,
}
use tpm2_abrmd.Mu.{Mu, Marshaled}
use tpm2_abrmd.Header.{get_command_tag, get_command_size, get_command_code, header_init}

-- `connection` is an address, 0 for NULL. `attributes` is the TPMA_CC of the command.
pub record Tpm2Command : Type 0 where
  pub connection : ℕ
  pub attributes : ℕ
  pub buffer : List ℕ
  pub buffer_size : ℕ

unfoldable pub command_new : ℕ → List ℕ → ℕ → ℕ → Tpm2Command
command_new connection buffer size attributes = record {
  connection = connection;
  attributes = attributes;
  buffer = buffer;
  buffer_size = size;
}

-- CONTEXT_SAVE_CMD_SIZE
abbrev pub context_save_cmd_size : ℕ
context_save_cmd_size = tpm_header_size + handle_size

-- The outer `none` is a failed assertion, the inner one is NULL.
unfoldable pub command_new_context_save : Mu → ℕ → Option (Option Tpm2Command)
command_new_context_save mu handle =
    elim (header_init mu (replicate context_save_cmd_size 0) context_save_cmd_size st_no_sessions
      context_save_cmd_size cc_context_save) [
        | none ↦ none
        | some (rc, buf) ↦
            if rc == rc_success
            then (let m = mu.uint32 handle buf context_save_cmd_size tpm_header_size in
                if m.rc == rc_success
                then some (some (command_new 0 m.buf context_save_cmd_size 0x02000162))
                else some none)
            else some none
      ]

-- `size_new` is an unsigned 32-bit integer.
unfoldable pub command_new_context_load : Mu → List ℕ → Option (Option Tpm2Command)
command_new_context_load mu bytes =
    let size_new = (tpm_header_size + length bytes) % 2 ^ 32 in
    elim (header_init mu (replicate size_new 0) size_new st_no_sessions size_new cc_context_load) [
      | none ↦ none
      | some (rc, buf) ↦
          if rc == rc_success
          then some (some (command_new 0 (memcpy buf tpm_header_size bytes) size_new 0x10000161))
          else some none
    ]

unfoldable pub command_get_code : Tpm2Command → ℕ
command_get_code command = get_command_code command.buffer

unfoldable pub command_get_size : Tpm2Command → ℕ
command_get_size command = get_command_size command.buffer

unfoldable pub command_get_tag : Tpm2Command → ℕ
command_get_tag command = get_command_tag command.buffer

unfoldable pub command_get_handle_count : Tpm2Command → ℕ
command_get_handle_count command = cc_chandles command.attributes

-- HANDLE_OFFSET (i) and HANDLE_END_OFFSET (i)
abbrev pub handle_offset : ℕ → ℕ
handle_offset i = tpm_header_size + handle_size * i

abbrev pub handle_end_offset : ℕ → ℕ
handle_end_offset i = handle_offset i + handle_size

unfoldable pub command_get_handle : Tpm2Command → ℕ → ℕ
unfolding command_get_handle_count
command_get_handle command handle_number =
    if ltb handle_number (command_get_handle_count command)
      && leb (handle_end_offset handle_number) command.buffer_size
    then get32 command.buffer (handle_offset handle_number)
    else 0

unfoldable pub command_set_handle : Tpm2Command → ℕ → ℕ → Tpm2Command × Bool
unfolding command_get_handle_count
command_set_handle command handle handle_number =
    if ltb handle_number (command_get_handle_count command)
      && leb (handle_end_offset handle_number) command.buffer_size
    then (
      record command { buffer = put32 command.buffer (handle_offset handle_number) handle },
      true,
    )
    else (command, false)

-- The loop of `tpm2_command_get_handles` from index `i`, with the rounds left.
unfoldable pub handles_from : Tpm2Command → ℕ → ℕ → List ℕ
handles_from command zero i = []
handles_from command (suc n) i =
    let rest = handles_from command n (i + 1) in
    let handle = command_get_handle command i in if handle == 0 then [] else handle ∷ rest

-- The handles stored; `none` where the caller's array of `count` handles is too small.
unfoldable pub command_get_handles : Tpm2Command → ℕ → Option (List ℕ)
unfolding command_get_handle_count handles_from
command_get_handles command count =
    if ltb count (command_get_handle_count command)
    then none
    else some (handles_from command (command_get_handle_count command) 0)

-- The response code and the handle.
unfoldable pub command_get_flush_handle : Tpm2Command → ℕ × ℕ
unfolding command_get_code
command_get_flush_handle command =
    if command_get_code command == cc_flush_context
    then (if ltb command.buffer_size (tpm_header_size + handle_size)
        then (rm_rc rc_insufficient, 0)
        else (rc_success, get32 command.buffer (handle_offset 0)))
    else (rm_rc rc_type, 0)

-- `tpm2_command_get_cap`, `tpm2_command_get_prop` and `tpm2_command_get_prop_count` read the first,
-- second and third parameter of a TPM2_GetCapability command.
get_capability_field : Tpm2Command → ℕ → ℕ
get_capability_field command offset =
    if command_get_code command == cc_get_capability
    then (if ltb command.buffer_size (offset + 4) then 0 else get32 command.buffer offset)
    else 0

unfoldable pub command_get_cap : Tpm2Command → ℕ
unfolding get_capability_field command_get_code
command_get_cap command = get_capability_field command tpm_header_size

unfoldable pub command_get_prop : Tpm2Command → ℕ
unfolding get_capability_field command_get_code
command_get_prop command = get_capability_field command (tpm_header_size + 4)

unfoldable pub command_get_prop_count : Tpm2Command → ℕ
unfolding get_capability_field command_get_code
command_get_prop_count command = get_capability_field command (tpm_header_size + 8)

unfoldable pub command_has_auths : Tpm2Command → Bool
unfolding command_get_tag
command_has_auths command = if command_get_tag command == st_no_sessions then false else true

-- AUTH_AREA_OFFSET, AUTH_AREA_FIRST_OFFSET and AUTH_AREA_END_OFFSET
unfoldable pub auth_area_offset : Tpm2Command → ℕ
auth_area_offset command = tpm_header_size + command_get_handle_count command * handle_size

unfoldable pub auth_area_first_offset : Tpm2Command → ℕ
auth_area_first_offset command = auth_area_offset command + 4

unfoldable pub auth_area_end_offset : Tpm2Command → ℕ
auth_area_end_offset command =
    auth_area_first_offset command + get32 command.buffer (auth_area_offset command)

unfoldable pub command_get_auths_size : Tpm2Command → ℕ
unfolding command_has_auths
command_get_auths_size command =
    if command_has_auths command
    then (if ltb command.buffer_size (auth_area_first_offset command)
        then 0
        else get32 command.buffer (auth_area_offset command))
    else 0

unfoldable pub command_get_auth_handle : Tpm2Command → ℕ → ℕ
command_get_auth_handle command index =
    if ltb command.buffer_size (index + handle_size) then 0 else get32 command.buffer index

-- AUTH_SESSION_ATTRS_OFFSET: past the handle, the size of the nonce and the nonce
unfoldable pub auth_session_attrs_offset : Tpm2Command → ℕ → ℕ
auth_session_attrs_offset command index =
    index + handle_size + 2 + get16 command.buffer (index + handle_size)

-- AUTH_SESSION_ATTRS_END_OFFSET, also AUTH_AUTH_SIZE_OFFSET
unfoldable pub auth_session_attrs_end_offset : Tpm2Command → ℕ → ℕ
auth_session_attrs_end_offset command index = auth_session_attrs_offset command index + 1

unfoldable pub command_get_auth_attrs : Tpm2Command → ℕ → ℕ
command_get_auth_attrs command index =
    if ltb command.buffer_size (auth_session_attrs_end_offset command index)
    then 0
    else get8 command.buffer (auth_session_attrs_offset command index)

-- AUTH_AUTH_BUF_END_OFFSET: past the size of the authorization and the authorization
unfoldable pub auth_auth_buf_end_offset : Tpm2Command → ℕ → ℕ
auth_auth_buf_end_offset command index =
    let o = auth_session_attrs_end_offset command index in o + 2 + get16 command.buffer o

-- The loop of `tpm2_command_foreach_auth`, on fuel: the offsets that it passes to the callback.
-- `none` means that the fuel ran out.
unfoldable pub auth_offsets : Tpm2Command → ℕ → ℕ → Option (List ℕ)
auth_offsets command zero offset = none
auth_offsets command (suc f) offset =
    let rest = auth_offsets command f (auth_auth_buf_end_offset command offset) in
    if ltb offset (auth_area_end_offset command)
    then elim rest [ none ↦ none | some l ↦ some (offset ∷ l) ]
    else some []

-- The callback runs on each offset in turn. The answer is FALSE, with no call, where the area does
-- not lie in the buffer.
unfoldable pub foreach_call {ℓ} : {S : Type ℓ} → (S → ℕ → S) → S → List ℕ → S
foreach_call callback s [] = s
foreach_call callback s (o ∷ l) = foreach_call callback (callback s o) l

unfoldable pub command_foreach_auth {ℓ} :
    {S : Type ℓ} → Tpm2Command → (S → ℕ → S) → S → Option (S × Bool)
unfolding foreach_call
command_foreach_auth command callback s =
    if ltb command.buffer_size (auth_area_first_offset command)
    then some (s, false)
    else if ltb command.buffer_size (auth_area_end_offset command)
    then some (s, false)
    else elim (auth_offsets command (suc (auth_area_end_offset command))
        (auth_area_first_offset command)) [
          | none ↦ none
          | some l ↦ some (foreach_call callback s l, true)
        ]
