-- ===== src/Tcti/Balance.antt =====
-- Runs of calls of src/tcti-tabrmd.c on one context: commands and responses take turns, and a closed
-- context answers no call.
use tpm2_abrmd.Prelude.{
  ℕ, ◌+◌, ◌≡◌, ◌≢◌, refl, sym, ◌∙◌, subst, ◌||◌, List, [], ◌∷◌, Option, none, some, if◌then◌else◌,
  ◌==◌, arith,
}
use mathlib.Core.Option.{some-injective, none-ne-some}
use tpm2_abrmd.Prelude.Int.{ℤ}
use tpm2_abrmd.Constants.TctiRc
use tpm2_abrmd.Constants.{rc_success}
use tpm2_abrmd.Tcti.{
  TabrmdState, final, receive, transmit, TabrmdContext, ClientEnv, Called, tcti_transmit,
  tcti_cancel, tcti_set_locality,
}
use tpm2_abrmd.Tcti.Receive.{tcti_receive}
use tpm2_abrmd.Tcti.States.{
  Call, transmitting, receiving, asking, cancelling, relocating, Move, fails, sends, receives, asks,
  gives_up, gives_up_asking, cancels, relocates, call_of, tcti_receive-Move,
}
use tpm2_abrmd.Tcti.Runs.{tcti_transmit-Move, tcti_cancel-Move, tcti_set_locality-Move}

-- The calls of a client, with their arguments.
pub data Request : Type 0 where
  to_transmit : ℕ → Option (List ℕ) → Request
  to_receive : ℕ → Option (List ℕ) → ℤ → Request
  to_cancel : Request
  to_set_locality : ℕ → Request

abbrev pub kind_of : Request → Call
kind_of (to_transmit size command) = transmitting
kind_of (to_receive size response t) = call_of response
kind_of to_cancel = cancelling
kind_of (to_set_locality l) = relocating

unfoldable pub perform :
    {S : Type 0} → ClientEnv S → TabrmdContext → S → Request → Option (Called S)
perform env c s (to_transmit size command) = tcti_transmit env c s size command
perform env c s (to_receive size response t) =
    let r = tcti_receive env c s size response t in
    some (record { context = r.context; stream = r.stream; rc = r.rc })
perform env c s to_cancel = some (tcti_cancel env c s)
perform env c s (to_set_locality l) = some (tcti_set_locality env c s l)

-- The commands sent, and the responses taken or given up, by a call with its response code.
abbrev pub sent_by : Call → ℕ → ℕ
sent_by transmitting rc = if rc == rc_success then 1 else 0
sent_by call rc = 0

abbrev pub taken_by : Call → ℕ → ℕ
taken_by receiving rc = if rc == rc_success || rc == TctiRc.malformed_response then 1 else 0
taken_by asking rc = if rc == TctiRc.malformed_response then 1 else 0
taken_by call rc = 0

-- What a run leaves, with its counts.
pub record Log (S : Type 0) : Type 0 where
  pub context : TabrmdContext
  pub stream : S
  pub sent : ℕ
  pub taken : ℕ

unfoldable pub run : {S : Type 0} → ClientEnv S → Log S → List Request → Option (Log S)
run env log [] = some log
run env log (q ∷ qs) = elim (perform env log.context log.stream q) [
  | none ↦ none
  | some r ↦
      run env
        (record {
          context = r.context;
          stream = r.stream;
          sent = log.sent + sent_by (kind_of q) r.rc;
          taken = log.taken + taken_by (kind_of q) r.rc;
        })
        qs
]

-- No response is open in the state TRANSMIT, and one in the state RECEIVE.
abbrev pub IsBalanced : TabrmdState → ℕ → ℕ → Type 0
IsBalanced transmit sent taken = sent ≡ taken
IsBalanced receive sent taken = sent ≡ taken + 1
IsBalanced final sent taken = Unit {0}

pub sent_by-fails : (call : Call) (rc : ℕ) → rc ≢ rc_success → sent_by call rc ≡ 0
sent_by-fails transmitting rc k = ground arith
sent_by-fails receiving rc k = refl
sent_by-fails asking rc k = refl
sent_by-fails cancelling rc k = refl
sent_by-fails relocating rc k = refl

pub taken_by-fails :
    (call : Call) (rc : ℕ) → rc ≢ rc_success → rc ≢ TctiRc.malformed_response → taken_by call rc ≡ 0
taken_by-fails receiving rc k m = ground arith
taken_by-fails asking rc k m = ground arith
taken_by-fails transmitting rc k m = refl
taken_by-fails cancelling rc k m = refl
taken_by-fails relocating rc k m = refl

-- The balance at equal states and counts.
same_balance :
    {s s' : TabrmdState} {a a' b b' : ℕ}
    → s' ≡ s
    → a' ≡ a
    → b' ≡ b
    → IsBalanced s a b
    → IsBalanced s' a' b'
same_balance {s = s} {a = a} {a' = a'} {b' = b'} d e f h =
    subst (λ x. IsBalanced x a' b') (sym d)
      (subst (λ i. IsBalanced s i b') (sym e) (subst (λ j. IsBalanced s a j) (sym f) h))

Move-IsBalanced :
    {s s' : TabrmdState} {rc : ℕ} (call : Call) (a b : ℕ)
    → Move s rc s' call
    → IsBalanced s a b
    → IsBalanced s' (a + sent_by call rc) (b + taken_by call rc)
Move-IsBalanced {rc = rc} call a b (fails k m e) h =
    same_balance e (omega (arith, sent_by-fails call rc k))
      (omega (arith, taken_by-fails call rc k m)) h
Move-IsBalanced call a b (sends e z d) h =
    let h' : a ≡ b = subst (λ x. IsBalanced x a b) e h in
    same_balance {a = a + 1} {b = b} d (ground (arith, z)) (omega arith) (omega arith)
Move-IsBalanced call a b (receives e z d) h =
    let h' : a ≡ b + 1 = subst (λ x. IsBalanced x a b) e h in
    same_balance {a = a} {b = b + 1} d (omega arith) (ground (arith, z)) h'
Move-IsBalanced call a b (asks e z d) h =
    let h' : a ≡ b + 1 = subst (λ x. IsBalanced x a b) e h in
    same_balance {a = a} {b = b} d (omega arith) (ground (arith, z)) h'
Move-IsBalanced call a b (gives_up e z d) h =
    let h' : a ≡ b + 1 = subst (λ x. IsBalanced x a b) e h in
    same_balance {a = a} {b = b + 1} d (omega arith) (ground (arith, z)) h'
Move-IsBalanced call a b (gives_up_asking e z d) h =
    let h' : a ≡ b + 1 = subst (λ x. IsBalanced x a b) e h in
    same_balance {a = a} {b = b + 1} d (omega arith) (ground (arith, z)) h'
Move-IsBalanced call a b (cancels e d) h = same_balance (d ∙ sym e) (omega arith) (omega arith) h
Move-IsBalanced call a b (relocates e d) h = same_balance (d ∙ sym e) (omega arith) (omega arith) h

-- Each call is a move.
pub perform-Move :
    {S : Type 0} (env : ClientEnv S) (c : TabrmdContext) (s : S) (q : Request) {r : Called S}
    → perform env c s q ≡ some r
    → Move c.state r.rc r.context.state (kind_of q)
unfolding perform
perform-Move env c s (to_transmit size command) d = tcti_transmit-Move env c s size command d
perform-Move env c s (to_receive size response t) d =
    subst (λ (r : Called _). Move c.state r.rc r.context.state (call_of response))
      (some-injective _ _ d) (tcti_receive-Move env c s size response t)
perform-Move env c s to_cancel d =
    subst (λ (r : Called _). Move c.state r.rc r.context.state cancelling) (some-injective _ _ d)
      (tcti_cancel-Move env c s)
perform-Move env c s (to_set_locality l) d =
    subst (λ (r : Called _). Move c.state r.rc r.context.state relocating) (some-injective _ _ d)
      (tcti_set_locality-Move env c s l)

-- What a call adds to a log.
abbrev pub add_call : {S : Type 0} → Log S → Request → Called S → Log S
add_call log q r = record {
  context = r.context;
  stream = r.stream;
  sent = log.sent + sent_by (kind_of q) r.rc;
  taken = log.taken + taken_by (kind_of q) r.rc;
}

-- A run of one call more.
pub run_more :
    {S : Type 0} (env : ClientEnv S) (log : Log S) (q : Request) (qs : List Request) {log' : Log S}
    → run env log (q ∷ qs) ≡ some log'
    → (r : Called S) × (perform env log.context log.stream q ≡ some r)
      × (run env (add_call log q r) qs ≡ some log')
unfolding run
run_more env log q qs {log' = log'} d = go (perform env log.context log.stream q) refl
  where
    go :
        (o : Option (Called _))
        → perform env log.context log.stream q ≡ o
        → (r : Called _) × (perform env log.context log.stream q ≡ some r)
          × (run env (add_call log q r) qs ≡ some log')
    go none e = absurd (none-ne-some _ (sym (rw (e, run) refl) ∙ d))
    go (some r) e = (r, e, sym (rw (e, run) refl) ∙ d)

-- In every run of calls that starts with none sent and none taken, in the state TRANSMIT, the
-- commands sent are as many as the responses taken or given up in the state TRANSMIT, and one more
-- in the state RECEIVE.
pub run-IsBalanced :
    {S : Type 0} (env : ClientEnv S) (qs : List Request) (log : Log S) {log' : Log S}
    → IsBalanced log.context.state log.sent log.taken
    → run env log qs ≡ some log'
    → IsBalanced log'.context.state log'.sent log'.taken
unfolding run
run-IsBalanced env [] log h d =
    subst (λ (l : Log _). IsBalanced l.context.state l.sent l.taken) (some-injective _ _ d) h
run-IsBalanced env (q ∷ qs) log h d =
    let (r, e, rest) = run_more env log q qs d in
    run-IsBalanced env qs (add_call log q r)
      (Move-IsBalanced (kind_of q) log.sent log.taken (perform-Move env log.context log.stream q e)
        h)
      rest
