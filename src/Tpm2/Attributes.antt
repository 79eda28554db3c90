-- ===== src/Tpm2/Attributes.antt =====
-- The lookup of src/command-attrs.c, and the start of the TPM in src/tpm2.c.
use tpm2_abrmd.Prelude.{
  ℕ, ◌≡◌, ◌≢◌, refl, sym, ap, ◌∙◌, inl, inr, true, false, List, [], ◌∷◌, ◌++◌, if◌then◌else◌, ◌==◌,
  Bool-cases, arith,
}
use native.Mathlib.Decide.{ℕ_discrete}
use tpm2_abrmd.Constants.{rc_success}
use tpm2_abrmd.Tpm2.{Tpm2}
use tpm2_abrmd.Tpm2.Startup.{SysEnv, cc_from_tpma_cc, command_attrs_from_cc, start_tpm, init_tpm}

-- No attributes in the list are those of the code.
abbrev pub NoneOf : ℕ → List ℕ → Type 0
NoneOf cc [] = Unit {0}
NoneOf cc (a ∷ l) = (cc_from_tpma_cc a ≢ cc) × NoneOf cc l

pub data Found (cc : ℕ) (l : List ℕ) (r : ℕ) : Type 0 where
  missing : NoneOf cc l → r ≡ 0 → Found cc l r
  first :
      (before after : List ℕ)
      → l ≡ before ++ r ∷ after
      → NoneOf cc before
      → cc_from_tpma_cc r ≡ cc
      → Found cc l r

found_later :
    {cc r : ℕ} (a : ℕ) (l : List ℕ) → cc_from_tpma_cc a ≢ cc → Found cc l r → Found cc (a ∷ l) r
found_later a l h (missing n e) = missing (h, n) e
found_later a l h (first b f e n c) = first (a ∷ b) f (ap (◌∷◌ a) e) (h, n) c

-- The attributes of a command code are the first in the list of the TPM whose lower 15 bits are the
-- code; where there are none, the answer is 0.
pub command_attrs_from_cc-Found : (cc : ℕ) (l : List ℕ) → Found cc l (command_attrs_from_cc l cc)
unfolding command_attrs_from_cc
command_attrs_from_cc-Found cc [] = missing tt refl
command_attrs_from_cc-Found cc (a ∷ l) = elim (ℕ_discrete (cc_from_tpma_cc a) cc) [
  | yes e ↦ rw (yes_test (cc_from_tpma_cc a) cc e) (first [] l refl tt e)
  | no k ↦
      rw (no_test (cc_from_tpma_cc a) cc k) (found_later a l k (command_attrs_from_cc-Found cc l))
]
  where
    yes_test : (x y : ℕ) → x ≡ y → (x == y) ≡ true
    yes_test x y h = ground (arith, h)

    no_test : (x y : ℕ) → x ≢ y → (x == y) ≡ false
    no_test x y h = ground arith

module _ {S : Type 0} (sys : SysEnv S) where
  start_done :
      (tpm2 : Tpm2 S)
      → (start_tpm sys tpm2).1 ≡ rc_success
      → (start_tpm sys tpm2).0.initialized ≡ true
  unfolding start_tpm
  start_done tpm2 e = ground (arith, e)

  init_started : (tpm2 : Tpm2 S) → tpm2.initialized ≡ true → init_tpm sys tpm2 ≡ (tpm2, rc_success)
  unfolding init_tpm
  init_started tpm2 e = ap (λ b. if b then (tpm2, rc_success) else start_tpm sys tpm2) e

  init_new : (tpm2 : Tpm2 S) → tpm2.initialized ≡ false → init_tpm sys tpm2 ≡ start_tpm sys tpm2
  unfolding init_tpm
  init_new tpm2 e = ap (λ b. if b then (tpm2, rc_success) else start_tpm sys tpm2) e

  init_done :
      (tpm2 : Tpm2 S)
      → (init_tpm sys tpm2).1 ≡ rc_success
      → (init_tpm sys tpm2).0.initialized ≡ true
  init_done tpm2 e = elim (Bool-cases tpm2.initialized) [
    | inl done ↦ ap (λ (p : Tpm2 S × ℕ). p.0.initialized) (init_started tpm2 done) ∙ done
    | inr new ↦
        let same = init_new tpm2 new in
        ap (λ (p : Tpm2 S × ℕ). p.0.initialized) same
        ∙ start_done tpm2 (sym (ap (λ (p : Tpm2 S × ℕ). p.1) same) ∙ e)
  ]

  -- Once the TPM has been started with success, it counts as started, and starting it again does
  -- nothing and succeeds.
  pub init_tpm-init_tpm :
      (tpm2 : Tpm2 S)
      → (init_tpm sys tpm2).1 ≡ rc_success
      → init_tpm sys (init_tpm sys tpm2).0 ≡ ((init_tpm sys tpm2).0, rc_success)
  init_tpm-init_tpm tpm2 e = init_started (init_tpm sys tpm2).0 (init_done tpm2 e)
