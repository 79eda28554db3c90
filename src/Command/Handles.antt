-- ===== src/Command/Handles.antt =====
-- The handle area of a command (src/tpm2-command.c): what is read and written there.
use tpm2_abrmd.Prelude.{
  ℕ, zero, suc, ◌+◌, ◌^◌, ◌≤◌, ◌<◌, ◌≡◌, ◌≢◌, refl, ap, ◌⊎◌, inl, inr, true, false, List, ◌∷◌, none,
  some, if◌then◌else◌, ◌==◌, arith, length, get_or, lt→ltb, leb-of_le, ==-of_ne, ==-refl, ltb-of_le,
}
use native.Mathlib.Nat.{add-zero, zero-add}
use native.Mathlib.Decide.{dec_lt, dec_le, ℕ_discrete}
use tpm2_abrmd.Bytes.{get32, put32}
use tpm2_abrmd.Bytes.Laws.{get32-put32}
use tpm2_abrmd.Bytes.Fields.{get32-put32_ne, get16-put32_ne, Apart}
use tpm2_abrmd.Header.{get_command_tag, get_command_size, get_command_code}
use tpm2_abrmd.Command.{
  Tpm2Command, command_get_handle_count, command_get_handle, command_set_handle, handles_from,
  command_get_handles, handle_offset, handle_end_offset, command_get_code, command_get_size,
  command_get_tag,
}

-- The handle of this number stands in the handle area, within the buffer.
abbrev pub InArea : Tpm2Command → ℕ → Type 0
InArea command i =
    (i < command_get_handle_count command) × (handle_end_offset i ≤ command.buffer_size)

pub get_handle-in :
    (command : Tpm2Command) (i : ℕ)
    → InArea command i
    → command_get_handle command i ≡ get32 command.buffer (handle_offset i)
unfolding command_get_handle
get_handle-in command i h = ground arith

pub set_handle-in :
    (command : Tpm2Command) (v i : ℕ)
    → InArea command i
    → command_set_handle command v i
      ≡ (record command { buffer = put32 command.buffer (handle_offset i) v }, true)
unfolding command_set_handle
set_handle-in command v i h = rw (lt→ltb _ _ h.0, leb-of_le _ _ h.1)

-- It does not.
abbrev pub OutOfArea : Tpm2Command → ℕ → Type 0
OutOfArea command i =
    (command_get_handle_count command ≤ i) ⊎ (command.buffer_size < handle_end_offset i)

pub InArea-cases : (command : Tpm2Command) (i : ℕ) → InArea command i ⊎ OutOfArea command i
InArea-cases command i = elim (dec_lt i (command_get_handle_count command)) [
  | no p ↦ inr (inl (omega arith))
  | yes p ↦ elim (dec_le (handle_end_offset i) command.buffer_size) [
    | no q ↦ inr (inr (omega arith))
    | yes q ↦ inl (p, q)
  ]
]

pub get_handle-out :
    (command : Tpm2Command) (i : ℕ) → OutOfArea command i → command_get_handle command i ≡ 0
unfolding command_get_handle
get_handle-out command i (inl h) = ground arith
get_handle-out command i (inr h) = ground arith

pub set_handle-out :
    (command : Tpm2Command) (v i : ℕ)
    → OutOfArea command i
    → command_set_handle command v i ≡ (command, false)
unfolding command_set_handle
set_handle-out command v i (inl h) = ground arith
set_handle-out command v i (inr h) = ground arith

module _ (command : Tpm2Command) (v i : ℕ) where
  -- The command with a handle written.
  abbrev with_handle : Tpm2Command
  with_handle = record command { buffer = put32 command.buffer (handle_offset i) v }

  get_handle-with_handle :
      (j : ℕ)
      → command.buffer_size ≡ length command.buffer
      → v < 2 ^ 32
      → InArea command i
      → command_get_handle with_handle j ≡ (if i == j then v else command_get_handle command j)
  unfolding command_get_handle_count
  get_handle-with_handle j same small area = elim (InArea-cases command j) [
    | inr out ↦
        rw
          (get_handle-out with_handle j out, get_handle-out command j out, ==-of_ne i j (apart out))
          refl
    | inl inside ↦
        rw (get_handle-in with_handle j inside, get_handle-in command j inside)
          elim (ℕ_discrete i j) [
            | yes p ↦
                rw (← p, ==-refl)
                  (get32-put32 command.buffer (handle_offset i) v (omega arith) small)
            | no p ↦
                rw (==-of_ne i j p)
                  (get32-put32_ne command.buffer (handle_offset i) v (handle_offset j) (beside p))
          ]
  ]
    where
      apart : OutOfArea command j → i ≢ j
      apart (inl h) p = absurd (omega arith)
      apart (inr h) p = absurd (omega arith)

      beside : i ≢ j → Apart (handle_offset j) 4 (handle_offset i) 4
      beside p = elim (dec_lt i j) [ yes l ↦ inr (omega arith) | no l ↦ inl (omega arith) ]

  header-with_handle :
      (command_get_tag with_handle ≡ command_get_tag command)
      × (command_get_size with_handle ≡ command_get_size command)
      × (command_get_code with_handle ≡ command_get_code command)
  unfolding command_get_tag command_get_size command_get_code get_command_tag get_command_size
      get_command_code
  header-with_handle = (
    get16-put32_ne command.buffer (handle_offset i) v 0 (inl (omega arith)),
    get32-put32_ne command.buffer (handle_offset i) v 2 (inl (omega arith)),
    get32-put32_ne command.buffer (handle_offset i) v 6 (inl (omega arith)),
  )

-- A handle written into a buffer of the stated size is read back, every other handle reads as
-- before, and so do the tag, the size and the code of the command. A handle number outside the
-- handle area or the buffer is refused, and nothing changes.
pub command_get_handle-set_handle :
    (command : Tpm2Command) (v i j : ℕ)
    → command.buffer_size ≡ length command.buffer
    → v < 2 ^ 32
    → let (command', ok) = command_set_handle command v i in
      (InArea command i
        × (ok ≡ true)
        × (command_get_handle command' j ≡ (if i == j then v else command_get_handle command j))
        × (command_get_tag command' ≡ command_get_tag command)
        × (command_get_size command' ≡ command_get_size command)
        × (command_get_code command' ≡ command_get_code command))
      ⊎ (OutOfArea command i × (command_set_handle command v i ≡ (command, false)))
command_get_handle-set_handle command v i j same small = elim (InArea-cases command i) [
  | inr out ↦ inr (out, set_handle-out command v i out)
  | inl area ↦ rw (set_handle-in command v i area) (
      let (tag, size, code) = header-with_handle command v i in
      inl (area, refl, get_handle-with_handle command v i j same small area, tag, size, code))
]

-- What the loop of `tpm2_command_get_handles` has stored when it ends, started at index `i` with `n`
-- rounds left.
record Stored (command : Tpm2Command) (n i : ℕ) (l : List ℕ) : Type 0 where
  each :
      (j : ℕ)
      → j < length l
      → (get_or l j 0 ≡ command_get_handle command (i + j))
        × (command_get_handle command (i + j) ≢ 0)
  stops : (length l ≡ n) ⊎ (command_get_handle command (i + length l) ≡ 0)

Stored-next :
    (command : Tpm2Command) (n i : ℕ) (l : List ℕ)
    → command_get_handle command i ≢ 0
    → Stored command n (i + 1) l
    → Stored command (suc n) i (command_get_handle command i ∷ l)
Stored-next command n i l nz s = record { each = each; stops = stops s.stops }
  where
    H : ℕ → ℕ
    H = command_get_handle command

    each : (j : ℕ) → j < suc (length l) → (get_or (H i ∷ l) j 0 ≡ H (i + j)) × (H (i + j) ≢ 0)
    each zero h = rw add-zero (refl, nz)
    each (suc j) h = let at : i + suc j ≡ i + 1 + j = omega arith in rw at (s.each j (omega arith))

    stops :
        (length l ≡ n) ⊎ (H (i + 1 + length l) ≡ 0)
        → (suc (length l) ≡ suc n) ⊎ (H (i + suc (length l)) ≡ 0)
    stops (inl e) = inl (ap suc e)
    stops (inr e) = let at : i + suc (length l) ≡ i + 1 + length l = omega arith in inr (rw at e)

handles_from-Stored :
    (command : Tpm2Command) (n i : ℕ) → Stored command n i (handles_from command n i)
unfolding handles_from
handles_from-Stored command zero i = record { each = λ j h. absurd (omega arith); stops = inl refl }
handles_from-Stored command (suc n) i = elim (ℕ_discrete (command_get_handle command i) 0) [
  | yes z ↦ rw z (record { each = λ j h. absurd (omega arith); stops = inr (rw add-zero z) })
  | no nz ↦ rw (==-of_ne (command_get_handle command i) 0 nz) (
      Stored-next command n i (handles_from command n (i + 1)) nz
        (handles_from-Stored command n (i + 1)))
]

-- `tpm2_command_get_handles`, given an array that is large enough, stores handles that are not 0,
-- the one of number `j` at index `j`. It stops at the handle count of the command, or before at the
-- first handle that cannot be read or is 0. It fails exactly where the array is too small.
pub get_handles_lem :
    (command : Tpm2Command) (count : ℕ)
    → ((count < command_get_handle_count command) × (command_get_handles command count ≡ none))
      ⊎ ((l : List ℕ) × (command_get_handles command count ≡ some l)
          × ((j : ℕ)
              → j < length l
              → (get_or l j 0 ≡ command_get_handle command j) × (command_get_handle command j ≢ 0))
          × ((length l ≡ command_get_handle_count command)
              ⊎ (command_get_handle command (length l) ≡ 0)))
unfolding command_get_handles
get_handles_lem command count =
    let n = command_get_handle_count command in
    elim (dec_lt count n) [
      | yes p ↦ inl (p, rw (lt→ltb _ _ p))
      | no p ↦
          let s = handles_from-Stored command n 0 in
          inr (
            handles_from command n 0,
            rw (ltb-of_le count n (omega arith)),
            (λ j h. rw zero-add at (s.each j h)),
            (rw zero-add at s.stops),
          )
    ]
