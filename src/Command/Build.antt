-- ===== src/Command/Build.antt =====
-- The commands that the daemon itself builds (src/tpm2-command.c), and its own accessors.
use tpm2_abrmd.Prelude.{
  ℕ, ◌+◌, ◌^◌, ◌≤◌, ◌<◌, ◌≡◌, refl, ◌∙◌, inl, List, some, arith, length, length-replicate,
  replicate,
}
use native.Mathlib.Nat.{mod-eq_of_lt}
use tpm2_abrmd.Bytes.{get8, put32, memcpy}
use tpm2_abrmd.Bytes.Laws.{get32-put32, get8-memcpy, length-put32, length-memcpy}
use tpm2_abrmd.Bytes.Fields.{get32-put32_ne, get16-put32_ne, get32-memcpy_ne, get16-memcpy_ne}
use tpm2_abrmd.Constants.{cc_context_save, cc_context_load, st_no_sessions}
use tpm2_abrmd.Mu.{Mu, IsMu}
use tpm2_abrmd.Header.{get_command_tag, get_command_size, get_command_code}
use tpm2_abrmd.Header.Fields.{
  header_init_lem, write_header, length-write_header, get_tag-write_header, get_size-write_header,
  get_code-write_header,
}
use tpm2_abrmd.Command.{
  Tpm2Command, command_new, command_new_context_save, command_new_context_load, command_get_code,
  command_get_size, command_get_tag, command_get_handle, command_get_handle_count,
}
use tpm2_abrmd.Command.Handles.{get_handle-in}

-- A header over a zeroed buffer of `n` bytes.
abbrev header_of : ℕ → ℕ → List ℕ
header_of n code = write_header (replicate n 0) st_no_sessions n code

length-header_of : (n code : ℕ) → length (header_of n code) ≡ n
length-header_of n code =
    length-write_header (replicate n 0) st_no_sessions n code ∙ length-replicate n 0

abbrev context_save_command : ℕ → Tpm2Command
context_save_command handle = record {
  connection = 0;
  attributes = 0x02000162;
  buffer = put32 (header_of 14 cc_context_save) 10 handle;
  buffer_size = 14;
}

new_context_save_lem :
    (mu : Mu) (handle : ℕ)
    → IsMu mu
    → command_new_context_save mu handle ≡ some (some (context_save_command handle))
unfolding command_new_context_save command_new
new_context_save_lem mu handle is_mu = ground (
  arith,
  header_init_lem mu (replicate 14 0) 14 st_no_sessions 14 cc_context_save is_mu (omega arith),
  is_mu.uint32_fits handle (header_of 14 cc_context_save) 14 10 (omega arith),
)

-- Where the marshalling functions behave as documented, the command built to save a session has the
-- code of TPM2_ContextSave, no sessions, a size of 14 bytes that is the size of its buffer, and the
-- session's handle as its only handle.
pub command_new_context_save-fields :
    (mu : Mu) (handle : ℕ)
    → IsMu mu
    → handle < 2 ^ 32
    → (command : Tpm2Command) × (command_new_context_save mu handle ≡ some (some command))
      × (command_get_code command ≡ cc_context_save)
      × (command_get_tag command ≡ st_no_sessions)
      × (command_get_size command ≡ 14)
      × (length command.buffer ≡ 14)
      × (command.buffer_size ≡ 14)
      × (command_get_handle_count command ≡ 1)
      × (command_get_handle command 0 ≡ handle)
unfolding command_get_code command_get_tag command_get_size command_get_handle_count
    get_command_code get_command_tag get_command_size
command_new_context_save-fields mu handle is_mu small =
    let h = header_of 14 cc_context_save in
    let c = context_save_command handle in
    (
      c,
      new_context_save_lem mu handle is_mu,
      get32-put32_ne h 10 handle 6 (inl (omega arith))
          ∙ get_code-write_header (replicate 14 0) st_no_sessions 14 cc_context_save (omega arith)
              (omega arith),
      get16-put32_ne h 10 handle 0 (inl (omega arith))
          ∙ get_tag-write_header (replicate 14 0) st_no_sessions 14 cc_context_save (omega arith)
              (omega arith),
      get32-put32_ne h 10 handle 2 (inl (omega arith))
          ∙ get_size-write_header (replicate 14 0) st_no_sessions 14 cc_context_save (omega arith)
              (omega arith),
      length-put32 h 10 handle ∙ length-header_of 14 cc_context_save,
      refl,
      refl,
      get_handle-in c 0 (omega arith)
          ∙ get32-put32 h 10 handle (omega (arith, length-header_of 14 cc_context_save)) small,
    )

abbrev context_load_command : List ℕ → Tpm2Command
context_load_command bytes = record {
  connection = 0;
  attributes = 0x10000161;
  buffer = memcpy (header_of (10 + length bytes) cc_context_load) 10 bytes;
  buffer_size = 10 + length bytes;
}

new_context_load_lem :
    (mu : Mu) (bytes : List ℕ)
    → IsMu mu
    → 10 + length bytes < 2 ^ 32
    → command_new_context_load mu bytes ≡ some (some (context_load_command bytes))
unfolding command_new_context_load command_new
new_context_load_lem mu bytes is_mu h =
    let n = 10 + length bytes in
    ground (
      arith,
      mod-eq_of_lt h,
      header_init_lem mu (replicate n 0) n st_no_sessions n cc_context_load is_mu (omega arith),
    )

-- Where the marshalling functions behave as documented, the command built to load a saved context
-- has the code of TPM2_ContextLoad, the size of its buffer, no handles, and the context as its
-- body, for every context whose command fits a 32-bit size.
pub command_new_context_load-fields :
    (mu : Mu) (bytes : List ℕ)
    → IsMu mu
    → 10 + length bytes < 2 ^ 32
    → (command : Tpm2Command) × (command_new_context_load mu bytes ≡ some (some command))
      × (command_get_code command ≡ cc_context_load)
      × (command_get_tag command ≡ st_no_sessions)
      × (command_get_size command ≡ 10 + length bytes)
      × (length command.buffer ≡ 10 + length bytes)
      × (command.buffer_size ≡ 10 + length bytes)
      × (command_get_handle_count command ≡ 0)
      × ((i : ℕ) → i < length bytes → get8 command.buffer (i + 10) ≡ get8 bytes i)
unfolding command_get_code command_get_tag command_get_size command_get_handle_count
    get_command_code get_command_tag get_command_size
command_new_context_load-fields mu bytes is_mu small =
    let n = 10 + length bytes in
    let z : List ℕ = replicate n 0 in
    let h = header_of n cc_context_load in
    let long : 10 ≤ length z = omega (arith, length-replicate {A = ℕ} n 0) in
    (
      context_load_command bytes,
      new_context_load_lem mu bytes is_mu small,
      get32-memcpy_ne h 10 6 bytes (inl (omega arith))
          ∙ get_code-write_header z st_no_sessions n cc_context_load long (omega arith),
      get16-memcpy_ne h 10 0 bytes (inl (omega arith))
          ∙ get_tag-write_header z st_no_sessions n cc_context_load long (omega arith),
      get32-memcpy_ne h 10 2 bytes (inl (omega arith))
          ∙ get_size-write_header z st_no_sessions n cc_context_load long small,
      length-memcpy h 10 bytes ∙ length-header_of n cc_context_load,
      refl,
      refl,
      λ i k.
          get8-memcpy h 10 bytes i (i + 10) (omega (arith, length-header_of n cc_context_load)) k
            refl,
    )
