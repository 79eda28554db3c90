-- ===== src/Tcti/Progress/Until.antt =====
-- A client of src/tcti-tabrmd.c that calls receive until it is not told to try again.
use tpm2_abrmd.Prelude.{
  ℕ, zero, suc, ◌+◌, ◌-◌, ◌<◌, ◌≤◌, ◌≡◌, refl, ◌∙◌, true, false, List, ◌++◌, Option, some, none,
  length, if◌then◌else◌, ◌==◌, arith,
}
use tpm2_abrmd.Prelude.Int.{ℤ}
use tpm2_abrmd.Constants.TctiRc
use tpm2_abrmd.Constants.{rc_success}
use tpm2_abrmd.Stream.{IsReader}
use tpm2_abrmd.Tcti.{TabrmdContext, receive, ClientEnv, Received, is_tabrmd}
use tpm2_abrmd.Tcti.Receive.{
  is_below_block, receive_guard, tcti_read, receive_body, receive_header, tcti_receive,
}
use tpm2_abrmd.Tcti.Progress.Piece.{IsReady}
use tpm2_abrmd.Tcti.Progress.Step.{
  IsResponse, Waiting, in_header, in_body, Complete, Outcome, complete, partial, outcome_by,
}
use tpm2_abrmd.Tcti.Progress.Rounds.{step_body}
use tpm2_abrmd.Tcti.Progress.FirstRound.{step_header}

-- A round, and the next one where the caller is told to try again.
pub again_or :
    {S : Type 0}
    → Received S
    → Option (List ℕ)
    → (List ℕ → Option (Received S))
    → Option (Received S)
again_or o none next = none
again_or o (some buf) next = if o.rc == TctiRc.try_again then next buf else some o

-- The last call; `none` where the rounds did not suffice.
pub receive_until :
    {S : Type 0} → ClientEnv S → ℕ → ℤ → ℕ → TabrmdContext → S → List ℕ → Option (Received S)
receive_until env size t zero c s buf = none
receive_until env size t (suc f) c s buf =
    let o = tcti_receive env c s size (some buf) t in
    again_or o o.response λ buf'. receive_until env size t f o.context o.stream buf'

again_lem :
    {S : Type 0} (o : Received S) {r : Option (List ℕ)} (buf : List ℕ)
    (next : List ℕ → Option (Received S))
    → o.rc ≡ TctiRc.try_again
    → r ≡ some buf
    → again_or o r next ≡ next buf
unfolding again_or
again_lem o buf next e d = rw (d, e, again_or) refl

stop_lem :
    {S : Type 0} (o : Received S) {r : Option (List ℕ)} (buf : List ℕ)
    (next : List ℕ → Option (Received S))
    → o.rc ≡ rc_success
    → r ≡ some buf
    → again_or o r next ≡ some o
unfolding again_or
stop_lem o buf next e d = rw (d, e, again_or) refl

module _ {S : Type 0} (env : ClientEnv S) (queue : S → List ℕ) (polls : IsReady env queue)
    (reader : IsReader env.streams queue) (f rest : List ℕ) (m : IsResponse f) (size : ℕ) (t : ℤ)
    (fits : length f ≤ size) (waits : is_below_block t ≡ false) where
  guard_lem :
      (c : TabrmdContext) (buf : List ℕ)
      → is_tabrmd c ≡ true
      → c.state ≡ receive
      → receive_guard c size (some buf) t ≡ rc_success
  unfolding receive_guard
  guard_lem c buf h e = rw (h, e, waits) (ground (arith, m.header))

  receive_in_body :
      (c : TabrmdContext) (s : S) (buf : List ℕ)
      → is_tabrmd c ≡ true
      → c.state ≡ receive
      → 10 ≤ c.index
      → tcti_receive env c s size (some buf) t ≡ receive_body env c s size (some buf) t
  unfolding tcti_receive
  receive_in_body c s buf h e k = ground (arith, guard_lem c buf h e)

  receive_in_header :
      (c : TabrmdContext) (s : S) (buf : List ℕ)
      → is_tabrmd c ≡ true
      → c.state ≡ receive
      → c.index < 10
      → tcti_receive env c s size (some buf) t
        ≡ receive_header env (tcti_read env c s c.header_buf (10 - c.index) t) size (some buf) t
  unfolding tcti_receive
  receive_in_header c s buf h e k = ground (arith, guard_lem c buf h e)

  round_lem :
      (c : TabrmdContext) (s : S) (buf : List ℕ) (i : ℕ)
      → Waiting queue f rest c s buf i
      → Outcome queue f rest i (tcti_receive env c s size (some buf) t)
  round_lem c s buf i (in_header b) =
      outcome_by queue f rest size i _ _
        (receive_in_header c s buf b.ours b.waiting (omega (arith, b.at, b.before)))
        (step_header env queue polls reader f rest m size t fits c s buf i b)
  round_lem c s buf i (in_body b) =
      outcome_by queue f rest size i _ _
        (receive_in_body c s buf b.ours b.waiting (omega (arith, b.at, b.past)))
        (step_body env queue polls reader f rest m size t fits c s buf i b)

  -- No more than the whole response has come.
  index_le :
      {c : TabrmdContext} {s : S} {buf : List ℕ} (i : ℕ)
      → Waiting queue f rest c s buf i
      → i ≤ length f
  index_le i (in_header b) = omega (arith, b.before, m.header)
  index_le i (in_body b) = b.within

  -- The last call, which took the response.
  pub record Ended (r : Option (Received S)) : Type 0 where
    pub last : Received S
    pub result : r ≡ some last
    pub whole : Complete queue f rest last

  one_round :
      (n : ℕ) (c : TabrmdContext) (s : S) (buf : List ℕ) (i : ℕ)
      → ((c' : TabrmdContext) (s' : S) (buf' : List ℕ) (j : ℕ)
          → Waiting queue f rest c' s' buf' j
          → i < j
          → Ended (receive_until env size t n c' s' buf'))
      → Outcome queue f rest i (tcti_receive env c s size (some buf) t)
      → Ended (receive_until env size t (suc n) c s buf)
  unfolding receive_until
  one_round n c s buf i next (complete d) = record {
    last = tcti_receive env c s size (some buf) t;
    result = stop_lem (tcti_receive env c s size (some buf) t) (f ++ d.tail) _ d.success d.response;
    whole = d;
  }
  one_round n c s buf i next (partial p) =
      let o = tcti_receive env c s size (some buf) t in
      let rest = next o.context o.stream p.buf p.j p.state p.more in
      record {
        last = rest.last;
        result = again_lem o p.buf _ p.again p.response ∙ rest.result;
        whole = rest.whole;
      }

  until_lem :
      (n : ℕ) (c : TabrmdContext) (s : S) (buf : List ℕ) (i : ℕ)
      → Waiting queue f rest c s buf i
      → length f < i + n
      → Ended (receive_until env size t n c s buf)
  unfolding receive_until
  until_lem zero c s buf i w h = absurd (omega (arith, index_le i w))
  until_lem (suc n) c s buf i w h =
      one_round n c s buf i (λ c' s' buf' j w' k. until_lem n c' s' buf' j w' (omega arith))
        (round_lem c s buf i w)

  -- A client that has sent a command and calls receive again as long as it is told to try again gets
  -- the whole response, in at most one call for each of its bytes and one, however the connection
  -- cuts it into pieces; the last call returns success and the size of the response, and the context
  -- is ready for the next command. The client passes a buffer with room for the response each time,
  -- and the connection has data to read each time.
  pub receive_until_lem :
      (c : TabrmdContext) (s : S) (buf : List ℕ)
      → is_tabrmd c ≡ true
      → c.state ≡ receive
      → c.index ≡ 0
      → length c.header_buf ≡ 10
      → length f ≤ length buf
      → queue s ≡ f ++ rest
      → Ended (receive_until env size t (suc (length f)) c s buf)
  receive_until_lem c s buf ours e at len room q =
      until_lem (suc (length f)) c s buf 0
        (in_header (record {
          ours = ours;
          waiting = e;
          at = at;
          before = omega arith;
          tail = c.header_buf;
          content = refl;
          left = len;
          room = room;
          way = q;
        }))
        (omega arith)
