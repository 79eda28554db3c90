-- ===== src/Tcti/Runs.antt =====
-- Runs of calls of src/tcti-tabrmd.c on one context.
use tpm2_abrmd.Prelude.{
  ℕ, ◌≡◌, ◌≢◌, refl, sym, ap, ◌∙◌, subst, true, false, List, Option, none, some, ◌==◌, Bool-cases,
  inl, inr, arith,
}
use native.Mathlib.Decide.{ℕ_discrete}
use mathlib.Core.Option.{some-injective, none-ne-some}
use tpm2_abrmd.Constants.TctiRc
use tpm2_abrmd.Constants.{rc_success}
use tpm2_abrmd.Stream.{WriteResult, written, write_error}
use tpm2_abrmd.Util.{write_all}
use tpm2_abrmd.Tcti.{
  receive, transmit, TabrmdContext, ClientEnv, Called, transmitted, tcti_transmit, tcti_cancel,
  tcti_set_locality, is_tabrmd, is_transmit, is_receive, with_state,
}
use tpm2_abrmd.Tcti.States.{
  transmitting, cancelling, relocating, Move, fails, sends, cancels, relocates, is_transmit_lem,
  is_receive_lem,
}

-- The possible results of a transmit.
pub data Transmitted {S : Type 0} (c : TabrmdContext) (r : Called S) : Type 0 where
  unsent : r.context ≡ c → r.rc ≢ rc_success → r.rc ≢ TctiRc.malformed_response → Transmitted c r
  sent : c.state ≡ transmit → r.context ≡ with_state c receive → r.rc ≡ rc_success → Transmitted c r

differs : (rc rc' : ℕ) → (rc == rc') ≡ false → rc ≢ rc'
differs rc rc' e z = ground arith

-- The result is the one computed.
by_value :
    {S : Type 0} {c : TabrmdContext} {r : Called S} (o : Option (Called S)) (x : Called S)
    → o ≡ some r
    → o ≡ some x
    → Transmitted c x
    → Transmitted c r
by_value {c = c} o x d e t = subst (Transmitted c) (some-injective _ _ (sym e ∙ d)) t

transmitted_cases :
    {S : Type 0} (c : TabrmdContext) (size : ℕ) (o : Option (S × WriteResult)) {r : Called S}
    → c.state ≡ transmit
    → transmitted c size o ≡ some r
    → Transmitted c r
unfolding transmitted
transmitted_cases c size none e d = absurd (none-ne-some _ d)
transmitted_cases c size (some (s, write_error)) e d =
    by_value (transmitted c size (some (s, write_error))) _ d refl
      (unsent refl (differs _ _ refl) (differs _ _ refl))
transmitted_cases c size (some (s, written n)) e d =
    let o = transmitted c size (some (s, written n)) in
    elim (ℕ_discrete n 0) [
      | yes z ↦
          by_value o (record { context = c; stream = s; rc = TctiRc.no_connection }) d
            (ground (arith, z)) (unsent refl (differs _ _ refl) (differs _ _ refl))
      | no k ↦ elim (ℕ_discrete n size) [
        | yes whole ↦
            by_value o (record { context = with_state c receive; stream = s; rc = rc_success }) d
              (ground (arith, whole)) (sent e refl refl)
        | no short ↦
            by_value o (record { context = c; stream = s; rc = TctiRc.general_failure }) d
              (ground arith) (unsent refl (differs _ _ refl) (differs _ _ refl))
      ]
    ]

of_cases :
    {S : Type 0} {c : TabrmdContext} {r : Called S}
    → Transmitted c r
    → Move c.state r.rc r.context.state transmitting
of_cases (unsent e k m) = fails k m (ap (λ (x : TabrmdContext). x.state) e)
of_cases (sent e d z) = sends e z (ap (λ (x : TabrmdContext). x.state) d)

module _ {S : Type 0} (env : ClientEnv S) (c : TabrmdContext) (s : S) where
  go_on :
      (command : List ℕ) (size : ℕ)
      → size ≢ 0
      → is_tabrmd c ≡ true
      → is_transmit c.state ≡ true
      → transmitted c size (write_all env.streams s command size)
        ≡ tcti_transmit env c s size (some command)
  unfolding tcti_transmit
  go_on command size z good e = ground (arith, good, e)

  pub transmit_cases :
      (size : ℕ) (command : Option (List ℕ)) {r : Called S}
      → tcti_transmit env c s size command ≡ some r
      → Transmitted c r
  unfolding tcti_transmit
  transmit_cases size none d =
      by_value (tcti_transmit env c s size none) _ d refl
        (unsent refl (differs _ _ refl) (differs _ _ refl))
  transmit_cases size (some command) d =
      let o = tcti_transmit env c s size (some command) in
      elim (ℕ_discrete size 0) [
        | yes z ↦
            by_value o (record { context = c; stream = s; rc = TctiRc.bad_value }) d
              (ground (arith, z)) (unsent refl (differs _ _ refl) (differs _ _ refl))
        | no z ↦ elim (Bool-cases (is_tabrmd c)) [
          | inr bad ↦
              by_value o (record { context = c; stream = s; rc = TctiRc.bad_context }) d
                (ground (arith, bad)) (unsent refl (differs _ _ refl) (differs _ _ refl))
          | inl good ↦ elim (Bool-cases (is_transmit c.state)) [
            | inr wait ↦
                by_value o (record { context = c; stream = s; rc = TctiRc.bad_sequence }) d
                  (ground (arith, good, wait)) (unsent refl (differs _ _ refl) (differs _ _ refl))
            | inl e ↦
                transmitted_cases c size (write_all env.streams s command size)
                  (is_transmit_lem c.state e) (go_on command size z good e ∙ d)
          ]
        ]
      ]

  -- A transmit is a move of the state machine: it sends a command, or fails.
  pub tcti_transmit-Move :
      (size : ℕ) (command : Option (List ℕ)) {r : Called S}
      → tcti_transmit env c s size command ≡ some r
      → Move c.state r.rc r.context.state transmitting
  tcti_transmit-Move size command {r = r} d = of_cases (transmit_cases size command d)

  pub tcti_cancel-Move :
      Move c.state (tcti_cancel env c s).rc (tcti_cancel env c s).context.state cancelling
  unfolding tcti_cancel
  tcti_cancel-Move = elim (Bool-cases (is_receive c.state)) [
    | inl e ↦ rw e (cancels (is_receive_lem c.state e) (is_receive_lem c.state e))
    | inr e ↦ rw e (fails (differs _ _ refl) (differs _ _ refl) refl)
  ]

  pub tcti_set_locality-Move :
      (l : ℕ)
      → Move c.state
          (tcti_set_locality env c s l).rc
          (tcti_set_locality env c s l).context.state
          relocating
  unfolding tcti_set_locality
  tcti_set_locality-Move l = elim (Bool-cases (is_transmit c.state)) [
    | inl e ↦ rw e (relocates (is_transmit_lem c.state e) (is_transmit_lem c.state e))
    | inr e ↦ rw e (fails (differs _ _ refl) (differs _ _ refl) refl)
  ]
