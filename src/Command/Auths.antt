-- ===== src/Command/Auths.antt =====
-- The loop over the authorization area of a command (src/tpm2-command.c): its end, and what it visits.
use tpm2_abrmd.Prelude.{
  ℕ, zero, suc, ◌+◌, ◌-◌, ◌*◌, ◌≤◌, ◌<◌, ◌≡◌, refl, ◌⊎◌, inl, inr, true, false, List, [], ◌∷◌, some,
  arith, length, lt→ltb, ltb-of_le,
}
use native.Mathlib.Decide.{dec_lt}
use tpm2_abrmd.Command.{
  Tpm2Command, auth_area_first_offset, auth_area_end_offset, auth_session_attrs_end_offset,
  auth_auth_buf_end_offset, auth_session_attrs_offset, auth_offsets, foreach_call,
  command_foreach_auth,
}

-- An authorization takes nine bytes at least: a handle, the size of the nonce, the attributes and
-- the size of the authorization value.
buf_end-ge :
    (command : Tpm2Command) (o : ℕ)
    → auth_session_attrs_end_offset command o + 2 ≤ auth_auth_buf_end_offset command o
unfolding auth_auth_buf_end_offset
buf_end-ge command o = omega arith

attrs_end-ge : (command : Tpm2Command) (o : ℕ) → o + 7 ≤ auth_session_attrs_end_offset command o
unfolding auth_session_attrs_end_offset auth_session_attrs_offset
attrs_end-ge command o = omega arith

-- The offsets from `lo` on, each at or past the end of the authorization at the one before, and
-- before the end of the area.
abbrev pub Visits : Tpm2Command → ℕ → List ℕ → Type 0
Visits command lo [] = auth_area_end_offset command ≤ lo
Visits command lo (o ∷ l) =
    (o ≡ lo)
    × (o < auth_area_end_offset command)
    × Visits command (auth_auth_buf_end_offset command o) l

-- With more fuel than there are bytes left in the area, the loop ends.
pub auth_offsets_total :
    (command : Tpm2Command) (f o : ℕ)
    → auth_area_end_offset command - o < f
    → (l : List ℕ) × (auth_offsets command f o ≡ some l) × Visits command o l
unfolding auth_offsets
auth_offsets_total command zero o h = absurd (omega arith)
auth_offsets_total command (suc f) o h = elim (dec_lt o (auth_area_end_offset command)) [
  | no p ↦ ([], rw (ltb-of_le _ _ (not_lt p)), not_lt p)
  | yes p ↦
      let (l, e, v) =
        auth_offsets_total command f (auth_auth_buf_end_offset command o)
          (omega (arith, buf_end-ge command o, attrs_end-ge command o)) in
      (o ∷ l, rw (lt→ltb _ _ p, e), (refl, p, v))
]
  where
    not_lt : ¬ (o < auth_area_end_offset command) → auth_area_end_offset command ≤ o
    not_lt p = omega arith

-- Every authorization but the last lies below `size`, up to and with the size of its value.
abbrev pub ReadsBelow : Tpm2Command → ℕ → List ℕ → Type 0
ReadsBelow command size [] = Unit {0}
ReadsBelow command size (o ∷ []) = Unit {0}
ReadsBelow command size (o ∷ p ∷ l) =
    (auth_session_attrs_end_offset command o + 2 ≤ size) × ReadsBelow command size (p ∷ l)

Visits-ReadsBelow :
    (command : Tpm2Command) (size lo : ℕ) (l : List ℕ)
    → auth_area_end_offset command ≤ size
    → Visits command lo l
    → ReadsBelow command size l
Visits-ReadsBelow command size lo [] h v = tt
Visits-ReadsBelow command size lo (o ∷ []) h v = tt
Visits-ReadsBelow command size lo (o ∷ p ∷ l) h v = (
  omega (arith, buf_end-ge command o),
  Visits-ReadsBelow command size (auth_auth_buf_end_offset command o) (p ∷ l) h v.2,
)

Visits-length :
    (command : Tpm2Command) (lo : ℕ) (l : List ℕ)
    → Visits command lo l
    → 9 * length l ≤ auth_area_end_offset command - lo + 8
Visits-length command lo [] v = omega arith
Visits-length command lo (o ∷ l) v = omega (
  arith,
  Visits-length command (auth_auth_buf_end_offset command o) l v.2,
  buf_end-ge command o,
  attrs_end-ge command o,
)

first-le-end :
    (command : Tpm2Command) → auth_area_first_offset command ≤ auth_area_end_offset command
unfolding auth_area_end_offset
first-le-end command = omega arith

module _ {ℓ} {S : Type ℓ} (command : Tpm2Command) (callback : S → ℕ → S) (s : S) where
  foreach_auth-refused :
      command.buffer_size < auth_area_end_offset command
      → command_foreach_auth command callback s ≡ some (s, false)
  unfolding command_foreach_auth
  foreach_auth-refused h = elim (dec_lt command.buffer_size (auth_area_first_offset command)) [
    | yes p ↦ rw (lt→ltb _ _ p)
    | no p ↦
        rw (
          ltb-of_le command.buffer_size (auth_area_first_offset command) (omega arith),
          lt→ltb _ _ h,
        )
  ]

  foreach_auth-runs :
      (l : List ℕ)
      → auth_area_end_offset command ≤ command.buffer_size
      → auth_offsets command (suc (auth_area_end_offset command)) (auth_area_first_offset command)
        ≡ some l
      → command_foreach_auth command callback s ≡ some (foreach_call callback s l, true)
  unfolding command_foreach_auth
  foreach_auth-runs l h e =
      rw
        (
          ltb-of_le command.buffer_size (auth_area_first_offset command)
              (omega (arith, first-le-end command)),
          ltb-of_le _ _ h,
          e,
          command_foreach_auth,
        )
        refl

-- `tpm2_command_foreach_auth` always ends. Where the area does not lie in the buffer it answers
-- FALSE and makes no call. Otherwise it calls the callback on the offsets of the authorizations in
-- turn, the first at the start of the area and each other one at the end of the one before, all of
-- them inside the area: at most one for every nine bytes of it, rounded up. What it reads of each
-- authorization but the last lies inside the buffer.
pub foreach_auth_lem {ℓ} :
    {S : Type ℓ} (command : Tpm2Command) (callback : S → ℕ → S) (s : S)
    → ((command.buffer_size < auth_area_end_offset command)
        × (command_foreach_auth command callback s ≡ some (s, false)))
      ⊎ ((l : List ℕ) × (auth_area_end_offset command ≤ command.buffer_size)
          × (command_foreach_auth command callback s ≡ some (foreach_call callback s l, true))
          × Visits command (auth_area_first_offset command) l
          × (9 * length l ≤ auth_area_end_offset command - auth_area_first_offset command + 8)
          × ReadsBelow command command.buffer_size l)
foreach_auth_lem command callback s =
    elim (dec_lt command.buffer_size (auth_area_end_offset command)) [
      | yes p ↦ inl (p, foreach_auth-refused command callback s p)
      | no p ↦
          let inside : auth_area_end_offset command ≤ command.buffer_size = omega arith in
          let (l, e, v) =
            auth_offsets_total command (suc (auth_area_end_offset command))
              (auth_area_first_offset command) (omega arith) in
          inr (
            l,
            inside,
            foreach_auth-runs command callback s l inside e,
            v,
            Visits-length command (auth_area_first_offset command) l v,
            Visits-ReadsBelow command command.buffer_size (auth_area_first_offset command) l inside
                v,
          )
    ]
