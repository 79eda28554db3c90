-- ===== src/Tests/Buffers.antt =====
-- Commands, responses and contexts as clients and the TPM send them.
use tpm2_abrmd.Prelude.{
  ℕ, ◌+◌, ◌-◌, ◌*◌, ◌≤◌, ◌<◌, true, false, List, [], ◌∷◌, none, some, Ordering, ◌≡◌, ◌≢◌, ◌⊎◌, ◌↔◌,
  arith, length, get_or,
}
use tpm2_abrmd.Bytes.{get8}
use tpm2_abrmd.SessionEntry.{SessionEntry, saved_rm, session_entry_compare_on_context_client}
use tpm2_abrmd.SessionEntry.Context.{compare_on_context_client_iff}
use tpm2_abrmd.Command.{
  Tpm2Command, command_get_handle_count, command_get_handle, command_get_handles,
  command_foreach_auth, foreach_call, auth_area_end_offset, auth_area_first_offset,
}
use tpm2_abrmd.Command.Handles.{get_handles_lem}
use tpm2_abrmd.Command.Auths.{Visits, ReadsBelow, foreach_auth_lem}

-- A session whose client context is 3, 4 in an array of four bytes.
abbrev session : SessionEntry
session = record {
  connection = 7;
  state = saved_rm;
  handle = 0x02000000;
  context = record { size = 2; buf = 3 ∷ 4 ∷ 0 ∷ 0 ∷ [] };
  context_client = record { size = 2; buf = 3 ∷ 4 ∷ 0 ∷ 0 ∷ [] };
}

compare_on_context_client_iff_example :
    (session_entry_compare_on_context_client session (3 ∷ 4 ∷ []) 2 ≡ some Ordering.eq)
    ↔ ((i : ℕ) → i < 2 → get8 session.context_client.buf i ≡ get8 (3 ∷ 4 ∷ []) i)
compare_on_context_client_iff_example =
    compare_on_context_client_iff session (3 ∷ 4 ∷ []) 2 (omega arith)

-- TPM2_FlushContext of the virtual handle 0x800000ff, with one handle in its handle area.
abbrev flush_object : Tpm2Command
flush_object = record {
  connection = 7;
  attributes = 0x02000165;
  buffer = 0x80 ∷ 0x01 ∷ 0 ∷ 0 ∷ 0 ∷ 14 ∷ 0 ∷ 0 ∷ 0x01 ∷ 0x65 ∷ 0x80 ∷ 0 ∷ 0 ∷ 0xff ∷ [];
  buffer_size = 14;
}

get_handles_lem_example :
    ((3 < command_get_handle_count flush_object) × (command_get_handles flush_object 3 ≡ none))
    ⊎ ((l : List ℕ) × (command_get_handles flush_object 3 ≡ some l)
        × ((j : ℕ)
            → j < length l
            → (get_or l j 0 ≡ command_get_handle flush_object j)
              × (command_get_handle flush_object j ≢ 0))
        × ((length l ≡ command_get_handle_count flush_object)
            ⊎ (command_get_handle flush_object (length l) ≡ 0)))
get_handles_lem_example = get_handles_lem flush_object 3

foreach_auth_lem_example :
    ((14 < auth_area_end_offset flush_object)
      × (command_foreach_auth flush_object (λ (n : ℕ) o. n + o) 0 ≡ some (0, false)))
    ⊎ ((l : List ℕ) × (auth_area_end_offset flush_object ≤ 14)
        × (command_foreach_auth flush_object (λ (n : ℕ) o. n + o) 0
            ≡ some (foreach_call (λ (n : ℕ) o. n + o) 0 l, true))
        × Visits flush_object (auth_area_first_offset flush_object) l
        × (9 * length l
            ≤ auth_area_end_offset flush_object - auth_area_first_offset flush_object + 8)
        × ReadsBelow flush_object 14 l)
foreach_auth_lem_example = foreach_auth_lem flush_object (λ (n : ℕ) o. n + o) 0
