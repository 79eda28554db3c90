-- ===== src/Tcti/Stuck.antt =====
-- Runs of calls of src/tcti-tabrmd.c after a malformed response.
use tpm2_abrmd.Prelude.{
  ℕ, ◌-◌, ◌≡◌, ◌≢◌, refl, sym, ap, subst, ◌&&◌, List, [], ◌∷◌, Option, none, some, ltb, ◌==◌,
  Bool-cases, inl, inr, arith,
}
use native.Mathlib.Decide.{dec_lt, ℕ_discrete}
use mathlib.Core.Option.{some-injective}
use tpm2_abrmd.Prelude.Int.{ℤ, sub64}
use tpm2_abrmd.Constants.TctiRc
use tpm2_abrmd.Constants.{rc_success}
use tpm2_abrmd.Stream.{RefusesHuge}
use tpm2_abrmd.Tcti.{
  TabrmdContext, ClientEnv, Called, Received, ReadInto, transmit, with_state, tcti_cancel,
  tcti_set_locality,
}
use tpm2_abrmd.Tcti.Receive.{
  tcti_read, finish_receive, finish_read, refuse, receive_guard, parse_header, receive_body,
  receive_header, tcti_receive, with_header,
}
use tpm2_abrmd.Tcti.States.{
  receiving, cancelling, relocating, call_of, tcti_read_rc, receive_guard_rc, refused,
}
use tpm2_abrmd.Tcti.Runs.{Transmitted, unsent, sent, transmit_cases}
use tpm2_abrmd.Tcti.Wedge.{IsWedged, Fruitless, HasBuffer, tcti_receive_Fruitless}
use tpm2_abrmd.Tcti.Balance.{
  Request, to_transmit, to_receive, to_cancel, to_set_locality, kind_of, perform, taken_by, Log,
  run, add_call, run_more, taken_by-fails,
}

finish_read_rc :
    {S : Type 0} (size : ℕ) (r : ReadInto S)
    → r.rc ≢ TctiRc.malformed_response
    → (finish_read size r).rc ≢ TctiRc.malformed_response
unfolding finish_read finish_receive
finish_read_rc size r h e = ground arith

abbrev Wedges : {S : Type 0} → Received S → Type 0
Wedges o = o.rc ≡ TctiRc.malformed_response → IsWedged o.context

Wedges-by : {S : Type 0} (o o' : Received S) → o ≡ o' → Wedges o' → Wedges o
Wedges-by o o' e w = subst Wedges (sym e) w

module _ {S : Type 0} (env : ClientEnv S) (size : ℕ) (t : ℤ) where
  receive_body_rc :
      (c : TabrmdContext) (s : S) (response : Option (List ℕ))
      → (receive_body env c s size response t).rc ≢ TctiRc.malformed_response
  unfolding receive_body refuse finish_receive
  receive_body_rc c s none e = ground arith
  receive_body_rc c s (some buf) e =
      let n = sub64 c.header.size c.index in
      ground (
        arith,
        finish_read_rc size (tcti_read env c s (with_header c buf) n t),
        tcti_read_rc env c s (with_header c buf) n t,
      )

  header-Wedges :
      (r : ReadInto S) (response : Option (List ℕ))
      → r.rc ≢ TctiRc.malformed_response
      → Wedges (receive_header env r size response t)
  unfolding receive_header refuse
  header-Wedges r response k =
      let c = parse_header (record r.context { header_buf = r.buf }) in
      let o = receive_header env r size response t in
      elim (ℕ_discrete r.rc rc_success) [
        | no failed ↦
            Wedges-by o
              (refuse (record r.context { header_buf = r.buf }) r.stream size response r.rc)
              (ground arith) (λ e. absurd (k e))
        | yes done ↦ elim (Bool-cases (c.index == 10 && ltb c.header.size 10)) [
          | inl bad ↦
              Wedges-by o
                (refuse (with_state c transmit) r.stream size response TctiRc.malformed_response)
                (rw (done, bad))
                (λ _. record { behind = ground (arith, bad); short = ground (arith, bad) })
          | inr good ↦
              Wedges-by o (receive_body env c r.stream size response t) (rw (done, good))
                (λ e. absurd (receive_body_rc c r.stream response e))
        ]
      ]

module _ {S : Type 0} (env : ClientEnv S) (c : TabrmdContext) (s : S) (size : ℕ)
    (response : Option (List ℕ)) (t : ℤ) where
  receive-Wedges : Wedges (tcti_receive env c s size response t)
  unfolding refuse tcti_receive
  receive-Wedges =
      let o = tcti_receive env c s size response t in
      elim (ℕ_discrete (receive_guard c size response t) rc_success) [
        | no bad ↦
            Wedges-by o (refuse c s size response (receive_guard c size response t))
              (refused env c s size response t bad)
              (λ e. absurd (receive_guard_rc c size response t e))
        | yes ok ↦ elim (dec_lt c.index 10) [
          | yes more ↦
              Wedges-by o
                (receive_header env (tcti_read env c s c.header_buf (10 - c.index) t) size response
                  t)
                (ground (arith, ok))
                (header-Wedges env size t _ response
                  (tcti_read_rc env c s c.header_buf (10 - c.index) t))
          | no there ↦
              Wedges-by o (receive_body env c s size response t) (ground (arith, ok))
                (λ e. absurd (receive_body_rc env size t c s response e))
        ]
      ]

transmit-IsWedged :
    {S : Type 0} {c : TabrmdContext} {r : Called S}
    → Transmitted c r
    → IsWedged c
    → IsWedged r.context
transmit-IsWedged (unsent e k m) w = subst IsWedged (sym e) w
transmit-IsWedged {c = c} (sent e d z) w =
    subst IsWedged (sym d) (record { behind = w.behind; short = w.short })

module _ {S : Type 0} (env : ClientEnv S) (huge : RefusesHuge env.streams) where
  cancel_context : (c : TabrmdContext) (s : S) → (tcti_cancel env c s).context ≡ c
  unfolding tcti_cancel
  cancel_context c s = ground arith

  locality_context : (c : TabrmdContext) (s : S) (l : ℕ) → (tcti_set_locality env c s l).context ≡ c
  unfolding tcti_set_locality
  locality_context c s l = ground arith

  nothing_taken :
      (c : TabrmdContext) (response : Option (List ℕ)) (o : Received S)
      → Fruitless c o (HasBuffer response)
      → taken_by (call_of response) o.rc ≡ 0
  nothing_taken c none o f = ground (arith, f.not_malformed)
  nothing_taken c (some buf) o f = taken_by-fails receiving o.rc (f.fails tt) f.not_malformed

  perform-IsWedged :
      (c : TabrmdContext) (s : S) (q : Request) {r : Called S}
      → IsWedged c
      → perform env c s q ≡ some r
      → IsWedged r.context × (taken_by (kind_of q) r.rc ≡ 0)
  unfolding perform
  perform-IsWedged c s (to_transmit size command) w d =
      (transmit-IsWedged (transmit_cases env c s size command d) w, refl)
  perform-IsWedged c s (to_receive size response t) w d =
      let f = tcti_receive_Fruitless env huge c w size t s response in
      subst (λ (r : Called S). IsWedged r.context × (taken_by (call_of response) r.rc ≡ 0))
        (some-injective _ _ d) (subst IsWedged (sym f.same) w, nothing_taken c response _ f)
  perform-IsWedged c s to_cancel w d =
      subst (λ (r : Called S). IsWedged r.context × (taken_by cancelling r.rc ≡ 0))
        (some-injective _ _ d) (subst IsWedged (sym (cancel_context c s)) w, refl)
  perform-IsWedged c s (to_set_locality l) w d =
      subst (λ (r : Called S). IsWedged r.context × (taken_by relocating r.rc ≡ 0))
        (some-injective _ _ d) (subst IsWedged (sym (locality_context c s l)) w, refl)

  wedged_run :
      (qs : List Request) (log : Log S) {log' : Log S}
      → IsWedged log.context
      → run env log qs ≡ some log'
      → log'.taken ≡ log.taken
  unfolding run
  wedged_run [] log w d = ap (λ (l : Log S). l.taken) (sym (some-injective _ _ d))
  wedged_run (q ∷ qs) log w d =
      let (r, e, rest) = run_more env log q qs d in
      let (w', z) = perform-IsWedged log.context log.stream q w e in
      omega (arith, wedged_run qs (add_call log q r) w' rest, z)

  -- Once a receive has returned TSS2_TCTI_RC_MALFORMED_RESPONSE, no run of further calls on the
  -- context takes or gives up a response any more, over a stream that refuses a read of more than
  -- G_MAXSSIZE bytes.
  pub malformed_is_stuck :
      (c : TabrmdContext) (s : S) (size : ℕ) (response : Option (List ℕ)) (t : ℤ)
      → (tcti_receive env c s size response t).rc ≡ TctiRc.malformed_response
      → (qs : List Request) (a b : ℕ) {log : Log S}
      → run env
          (record {
            context = (tcti_receive env c s size response t).context;
            stream = (tcti_receive env c s size response t).stream;
            sent = a;
            taken = b;
          })
          qs
        ≡ some log
      → log.taken ≡ b
  malformed_is_stuck c s size response t e qs a b d =
      wedged_run qs _ (receive-Wedges env c s size response t e) d
