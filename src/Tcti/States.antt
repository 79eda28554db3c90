-- ===== src/Tcti/States.antt =====
-- The state machine of src/tcti-tabrmd-priv.h as a relation, and the calls of src/tcti-tabrmd.c as its
-- moves.
use tpm2_abrmd.Prelude.{
  ℕ, ◌-◌, ◌≡◌, ◌≢◌, refl, sym, subst, ◌∙◌, true, inl, inr, ◌&&◌, List, Option, none, some, ltb,
  ◌==◌, Bool-cases, arith,
}
use native.Mathlib.Decide.{dec_lt, ℕ_discrete}
use tpm2_abrmd.Prelude.Int.{ℤ, sub64}
use tpm2_abrmd.Constants.TctiRc
use tpm2_abrmd.Constants.{rc_success}
use tpm2_abrmd.Stream.{ReadResult, bytes, read_error}
use tpm2_abrmd.Tcti.{
  TabrmdState, final, receive, transmit, TabrmdContext, ClientEnv, Received, ReadInto, is_transmit,
  is_receive, with_state, errno_to_tcti_rc, gerror_code_to_tcti_rc,
}
use tpm2_abrmd.Tcti.Receive.{
  read_into, polled, tcti_read, finish_receive, finish_read, refuse, receive_guard, parse_header,
  receive_body, receive_header, tcti_receive, tcti_poll, with_header,
}

-- The calls: `asking` is a receive with no buffer, which asks for the size.
pub data Call : Type 0 where
  transmitting : Call
  receiving : Call
  asking : Call
  cancelling : Call
  relocating : Call

-- How a call moves the state `s` to `s'` with a response code. A command is sent; a response is
-- received, or its size asked for; what came is no response, and is given up; the daemon is asked to
-- cancel the command or to change the locality; or the call fails.
pub data Move (s : TabrmdState) (rc : ℕ) (s' : TabrmdState) : Call → Type 0 where
  fails :
      {call : Call} → rc ≢ rc_success → rc ≢ TctiRc.malformed_response → s' ≡ s → Move s rc s' call
  sends : s ≡ transmit → rc ≡ rc_success → s' ≡ receive → Move s rc s' transmitting
  receives : s ≡ receive → rc ≡ rc_success → s' ≡ transmit → Move s rc s' receiving
  asks : s ≡ receive → rc ≡ rc_success → s' ≡ receive → Move s rc s' asking
  gives_up : s ≡ receive → rc ≡ TctiRc.malformed_response → s' ≡ transmit → Move s rc s' receiving
  gives_up_asking :
      s ≡ receive → rc ≡ TctiRc.malformed_response → s' ≡ transmit → Move s rc s' asking
  cancels : s ≡ receive → s' ≡ receive → Move s rc s' cancelling
  relocates : s ≡ transmit → s' ≡ transmit → Move s rc s' relocating

-- A read leaves the state, and fails with another code than that of a malformed response.
gerror-ne_malformed : (code : ℕ) → gerror_code_to_tcti_rc code ≢ TctiRc.malformed_response
unfolding gerror_code_to_tcti_rc
gerror-ne_malformed code e = ground arith

errno-ne_malformed : (code : ℕ) → errno_to_tcti_rc code ≢ TctiRc.malformed_response
unfolding errno_to_tcti_rc
errno-ne_malformed code e = ground arith

read_into_rc :
    {S : Type 0} (c : TabrmdContext) (buf : List ℕ) (n : ℕ) (r : S × ReadResult)
    → (read_into c buf n r).rc ≢ TctiRc.malformed_response
unfolding read_into
read_into_rc c buf n (s, read_error code) e = gerror-ne_malformed code e
read_into_rc c buf n (s, bytes l) e = ground arith

read_into_state :
    {S : Type 0} (c : TabrmdContext) (buf : List ℕ) (n : ℕ) (r : S × ReadResult)
    → (read_into c buf n r).context.state ≡ c.state
unfolding read_into
read_into_state c buf n (s, read_error code) = refl
read_into_state c buf n (s, bytes l) = ground arith

module _ {S : Type 0} (env : ClientEnv S) where
  polled_state :
      (c : TabrmdContext) (s : S) (ret : ℕ) (buf : List ℕ) (n : ℕ)
      → (polled env c s ret buf n).context.state ≡ c.state
  unfolding polled
  polled_state c s ret buf n = ground (arith, read_into_state c buf n (env.streams.read s n))

  polled_rc :
      (c : TabrmdContext) (s : S) (ret : ℕ) (buf : List ℕ) (n : ℕ)
      → (polled env c s ret buf n).rc ≢ TctiRc.malformed_response
  unfolding polled
  polled_rc c s ret buf n e =
      ground (arith, errno-ne_malformed ret, read_into_rc c buf n (env.streams.read s n))

  pub tcti_read_rc :
      (c : TabrmdContext) (s : S) (buf : List ℕ) (n : ℕ) (t : ℤ)
      → (tcti_read env c s buf n t).rc ≢ TctiRc.malformed_response
  unfolding tcti_read
  tcti_read_rc c s buf n t = polled_rc c (env.poll s t).0 (tcti_poll (env.poll s t).1) buf n

  tcti_read_state :
      (c : TabrmdContext) (s : S) (buf : List ℕ) (n : ℕ) (t : ℤ)
      → (tcti_read env c s buf n t).context.state ≡ c.state
  unfolding tcti_read
  tcti_read_state c s buf n t = polled_state c (env.poll s t).0 (tcti_poll (env.poll s t).1) buf n

-- A receive, from the state RECEIVE.
abbrev Receives : {S : Type 0} → Call → Received S → Type 0
Receives call o = Move receive o.rc o.context.state call

step_to :
    {S : Type 0} {call : Call} (o o' : Received S) → o ≡ o' → Receives call o' → Receives call o
step_to {call = call} o o' e m = subst (Receives call) (sym e) m

finish_read-Move :
    {S : Type 0} (size : ℕ) (r : ReadInto S)
    → r.context.state ≡ receive
    → r.rc ≢ TctiRc.malformed_response
    → Receives receiving (finish_read size r)
unfolding finish_read finish_receive refuse
finish_read-Move size r e k = elim (ℕ_discrete r.rc rc_success) [
  | yes done ↦
      step_to (finish_read size r) (finish_receive r.context r.stream r.buf) (ground (arith, done))
        (receives refl refl refl)
  | no failed ↦
      step_to (finish_read size r) (refuse r.context r.stream size (some r.buf) r.rc) (ground arith)
        (fails failed k e)
]

-- The call that a receive is.
abbrev pub call_of : Option (List ℕ) → Call
call_of none = asking
call_of (some buf) = receiving

give_up :
    (response : Option (List ℕ))
    → Move receive TctiRc.malformed_response transmit (call_of response)
give_up none = gives_up_asking refl refl refl
give_up (some buf) = gives_up refl refl refl

module _ {S : Type 0} (env : ClientEnv S) (size : ℕ) (t : ℤ) where
  receive_body-Move :
      (c : TabrmdContext) (s : S) (response : Option (List ℕ))
      → c.state ≡ receive
      → Receives (call_of response) (receive_body env c s size response t)
  unfolding receive_body refuse
  receive_body-Move c s none e = asks refl refl e
  receive_body-Move c s (some buf) e = elim (dec_lt size c.header.size) [
    | yes small ↦
        step_to (receive_body env c s size (some buf) t)
          (refuse c s size (some (with_header c buf)) TctiRc.insufficient_buffer) (ground arith)
          (fails (λ d. ground arith) (λ d. ground arith) e)
    | no room ↦ elim (ℕ_discrete c.header.size c.index) [
      | yes whole ↦
          step_to (receive_body env c s size (some buf) t) (finish_receive c s (with_header c buf))
            (ground (arith, whole)) (unfold finish_receive in receives refl refl refl)
      | no more ↦
          step_to (receive_body env c s size (some buf) t)
            (finish_read size
              (tcti_read env c s (with_header c buf) (sub64 c.header.size c.index) t))
            (ground arith)
            (finish_read-Move size _
              (tcti_read_state env c s (with_header c buf) (sub64 c.header.size c.index) t ∙ e)
              (tcti_read_rc env c s (with_header c buf) (sub64 c.header.size c.index) t))
    ]
  ]

  parse_header_state : (c : TabrmdContext) → (parse_header c).state ≡ c.state
  unfolding parse_header
  parse_header_state c = ground arith

  receive_header-Move :
      (r : ReadInto S) (response : Option (List ℕ))
      → r.context.state ≡ receive
      → r.rc ≢ TctiRc.malformed_response
      → Receives (call_of response) (receive_header env r size response t)
  unfolding receive_header refuse
  receive_header-Move r response e k =
      let c = parse_header (record r.context { header_buf = r.buf }) in
      let kept = parse_header_state (record r.context { header_buf = r.buf }) ∙ e in
      elim (ℕ_discrete r.rc rc_success) [
        | no failed ↦
            step_to (receive_header env r size response t)
              (refuse (record r.context { header_buf = r.buf }) r.stream size response r.rc)
              (ground arith) (fails failed k e)
        | yes done ↦ elim (Bool-cases (c.index == 10 && ltb c.header.size 10)) [
          | inl bad ↦
              step_to (receive_header env r size response t)
                (refuse (with_state c transmit) r.stream size response TctiRc.malformed_response)
                (rw (done, bad)) (give_up response)
          | inr good ↦
              step_to (receive_header env r size response t)
                (receive_body env c r.stream size response t) (rw (done, good))
                (receive_body-Move c r.stream response kept)
        ]
      ]

pub is_receive_lem : (s : TabrmdState) → is_receive s ≡ true → s ≡ receive
is_receive_lem receive e = refl
is_receive_lem final e = cc
is_receive_lem transmit e = cc

pub is_transmit_lem : (s : TabrmdState) → is_transmit s ≡ true → s ≡ transmit
is_transmit_lem transmit e = refl
is_transmit_lem final e = cc
is_transmit_lem receive e = cc

receive_guard_state :
    (c : TabrmdContext) (size : ℕ) (response : Option (List ℕ)) (t : ℤ)
    → receive_guard c size response t ≡ rc_success
    → is_receive c.state ≡ true
unfolding receive_guard
receive_guard_state c size response t e = ground arith

pub receive_guard_rc :
    (c : TabrmdContext) (size : ℕ) (response : Option (List ℕ)) (t : ℤ)
    → receive_guard c size response t ≢ TctiRc.malformed_response
unfolding receive_guard
receive_guard_rc c size response t e = ground arith

module _ {S : Type 0} (env : ClientEnv S) (c : TabrmdContext) (s : S) where
  received :
      (size : ℕ) (response : Option (List ℕ)) (t : ℤ)
      → c.state ≡ receive
      → receive_guard c size response t ≡ rc_success
      → Receives (call_of response) (tcti_receive env c s size response t)
  unfolding tcti_receive
  received size response t e ok = elim (dec_lt c.index 10) [
    | yes more ↦
        let r = tcti_read env c s c.header_buf (10 - c.index) t in
        step_to (tcti_receive env c s size response t) (receive_header env r size response t)
          (ground (arith, ok))
          (receive_header-Move env size t r response
            (tcti_read_state env c s c.header_buf (10 - c.index) t ∙ e)
            (tcti_read_rc env c s c.header_buf (10 - c.index) t))
    | no there ↦
        step_to (tcti_receive env c s size response t) (receive_body env c s size response t)
          (ground (arith, ok)) (receive_body-Move env size t c s response e)
  ]

  pub refused :
      (size : ℕ) (response : Option (List ℕ)) (t : ℤ)
      → receive_guard c size response t ≢ rc_success
      → tcti_receive env c s size response t
        ≡ refuse c s size response (receive_guard c size response t)
  unfolding tcti_receive
  refused size response t bad = ground arith

  -- A receive is a move of the state machine: it fails, it takes the response or tells its size, or
  -- it gives a malformed response up.
  pub tcti_receive-Move :
      (size : ℕ) (response : Option (List ℕ)) (t : ℤ)
      → Move c.state
          (tcti_receive env c s size response t).rc
          (tcti_receive env c s size response t).context.state
          (call_of response)
  unfolding tcti_receive refuse
  tcti_receive-Move size response t =
      elim (ℕ_discrete (receive_guard c size response t) rc_success) [
        | yes ok ↦
            let e = is_receive_lem c.state (receive_guard_state c size response t ok) in
            subst
              (λ x.
                Move x (tcti_receive env c s size response t).rc
                  (tcti_receive env c s size response t).context.state (call_of response))
              (sym e) (received size response t e ok)
        | no bad ↦
            subst (λ (o : Received S). Move c.state o.rc o.context.state (call_of response))
              (sym (refused size response t bad))
              (fails bad (receive_guard_rc c size response t) refl)
      ]
