-- ===== src/Tcti/Closed.antt =====
-- Runs of calls of src/tcti-tabrmd.c on a context that is closed.
use tpm2_abrmd.Prelude.{ℕ, ◌≡◌, ◌≢◌, refl, sym, ap, ◌∙◌, List, [], ◌∷◌, some, arith}
use mathlib.Core.Option.{some-injective}
use tpm2_abrmd.Constants.TctiRc
use tpm2_abrmd.Constants.{rc_success}
use tpm2_abrmd.Tcti.{TabrmdState, final, TabrmdContext, ClientEnv, tcti_finalize}
use tpm2_abrmd.Tcti.States.{
  Call, Move, fails, sends, receives, asks, gives_up, gives_up_asking, cancels, relocates,
}
use tpm2_abrmd.Tcti.Balance.{
  Request, kind_of, Log, run, add_call, run_more, perform-Move, sent_by-fails, taken_by-fails,
}

closed :
    {s s' : TabrmdState} {rc : ℕ} {call : Call}
    → Move s rc s' call
    → s ≡ final
    → (s' ≡ final) × (rc ≢ rc_success)
closed (fails k m e) h = (e ∙ h, k)
closed (sends e z d) h = absurd (cc)
closed (receives e z d) h = absurd (cc)
closed (asks e z d) h = absurd (cc)
closed (gives_up e z d) h = absurd (cc)
closed (gives_up_asking e z d) h = absurd (cc)
closed (cancels e d) h = absurd (cc)
closed (relocates e d) h = absurd (cc)

closed_malformed :
    {s s' : TabrmdState} {rc : ℕ} {call : Call}
    → Move s rc s' call
    → s ≡ final
    → rc ≢ TctiRc.malformed_response
closed_malformed (fails k m e) h = m
closed_malformed (sends e z d) h = absurd (cc)
closed_malformed (receives e z d) h = absurd (cc)
closed_malformed (asks e z d) h = absurd (cc)
closed_malformed (gives_up e z d) h = absurd (cc)
closed_malformed (gives_up_asking e z d) h = absurd (cc)
closed_malformed (cancels e d) h = absurd (cc)
closed_malformed (relocates e d) h = absurd (cc)

stays_closed :
    {S : Type 0} (env : ClientEnv S) (qs : List Request) (log : Log S) {log' : Log S}
    → log.context.state ≡ final
    → run env log qs ≡ some log'
    → (log'.context.state ≡ final) × (log'.sent ≡ log.sent) × (log'.taken ≡ log.taken)
unfolding run
stays_closed env [] log h d =
    let e = some-injective _ _ d in
    (
      ap (λ (l : Log _). l.context.state) (sym e) ∙ h,
      ap (λ (l : Log _). l.sent) (sym e),
      ap (λ (l : Log _). l.taken) (sym e),
    )
stays_closed env (q ∷ qs) log h d =
    let (r, e, rest) = run_more env log q qs d in
    let m = perform-Move env log.context log.stream q e in
    let (still, k) = closed m h in
    let (state, sent, taken) = stays_closed env qs (add_call log q r) still rest in
    (
      state,
      omega (arith, sent, sent_by-fails (kind_of q) r.rc k),
      omega (arith, taken, taken_by-fails (kind_of q) r.rc k (closed_malformed m h)),
    )

-- After `finalize`, no run of calls sends a command or takes a response, and the state stays FINAL.
pub run-finalize :
    {S : Type 0} (env : ClientEnv S) (qs : List Request) (c : TabrmdContext) (s : S) (a b : ℕ)
    {log : Log S}
    → run env (record { context = (tcti_finalize env c s).0; stream = s; sent = a; taken = b }) qs
      ≡ some log
    → (log.context.state ≡ final) × (log.sent ≡ a) × (log.taken ≡ b)
unfolding tcti_finalize
run-finalize env qs c s a b d = stays_closed env qs _ refl d
