-- ===== src/SessionEntry.antt =====
-- src/session-entry.c: a session of the TPM that the daemon tracks. A connection is named by its
-- address, NULL being 0. Reference counts are not modelled. What a failed assertion ends is
-- `none`.
pub mod Context
use tpm2_abrmd.Prelude.{
  ℕ, zero, suc, ◌+◌, Bool, true, false, ◌&&◌, List, [], Option, none, some, Ordering, compare,
  if◌then◌else◌, leb, ◌==◌, get_or, drop, take, length, replicate,
}
use tpm2_abrmd.Bytes.{memcpy, memcmp}

-- SessionEntryStateEnum (src/session-entry-state-enum.h)
pub data SessionEntryState : Type 0 where
  loaded saved_rm saved_client saved_client_closed : SessionEntryState

-- size_buf_t: an array of SIZE_BUF_MAX bytes, and how many of them are in use
pub record SizeBuf : Type 0 where
  pub size : ℕ
  pub buf : List ℕ

pub record SessionEntry : Type 0 where
  pub connection : ℕ
  pub state : SessionEntryState
  pub handle : ℕ
  pub context : SizeBuf
  pub context_client : SizeBuf

-- GObject clears the memory of a new object.
abbrev empty_size_buf : ℕ → SizeBuf
empty_size_buf size_buf_max = record { size = 0; buf = replicate size_buf_max 0 }

-- SIZE_BUF_MAX is sizeof (TPMS_CONTEXT), which the TSS headers define.
unfoldable pub session_entry_new : ℕ → ℕ → ℕ → SessionEntry
session_entry_new size_buf_max connection handle = record {
  connection = connection;
  state = saved_rm;
  handle = handle;
  context = empty_size_buf size_buf_max;
  context_client = empty_size_buf size_buf_max;
}

unfoldable pub session_entry_set_state : SessionEntry → SessionEntryState → SessionEntry
session_entry_set_state e saved_client_closed = record e {
  connection = 0;
  state = saved_client_closed;
}
session_entry_set_state e state = record e { state = state }

unfoldable pub session_entry_abandon : SessionEntry → SessionEntry
session_entry_abandon e = record e { connection = 0; state = saved_client_closed }

unfoldable pub session_entry_set_connection : SessionEntry → ℕ → SessionEntry
session_entry_set_connection e connection = record e { connection = connection }

-- memcpy into the array
unfoldable pub fill : SizeBuf → List ℕ → SizeBuf
fill b bytes = record { size = length bytes; buf = memcpy b.buf 0 bytes }

unfoldable pub session_entry_set_context : SessionEntry → List ℕ → Option SessionEntry
unfolding fill
session_entry_set_context e bytes =
    if leb (length bytes) (length e.context.buf)
    then some (
        if e.context_client.size == 0
        then record e {
          context = fill e.context bytes;
          context_client = fill e.context_client bytes;
        }
        else record e { context = fill e.context bytes })
    else none

-- A GCompareFunc answers -1, 0 or 1.
unfoldable pub session_entry_compare_on_connection : SessionEntry → ℕ → Ordering
session_entry_compare_on_connection e connection = compare e.connection connection

unfoldable pub session_entry_compare_on_handle : SessionEntry → ℕ → Ordering
session_entry_compare_on_handle e handle = compare e.handle handle

unfoldable pub session_entry_compare_on_context_client : SessionEntry → List ℕ → ℕ → Option Ordering
session_entry_compare_on_context_client e buf size =
    if leb size (length e.context_client.buf)
    then some (memcmp size e.context_client.buf buf)
    else none
