-- ===== src/Tcti/Progress/Step.antt =====
-- One call of `tss2_tcti_tabrmd_receive` over a connection that delivers.
use tpm2_abrmd.Prelude.{
  ℕ, ◌+◌, ◌-◌, ◌^◌, ◌<◌, ◌≤◌, ◌≡◌, refl, sym, ap, subst, true, List, ◌++◌, some, length, take, drop,
  arith,
}
use tpm2_abrmd.Constants.TctiRc
use tpm2_abrmd.Constants.{rc_success}
use tpm2_abrmd.Header.{get_response_size}
use tpm2_abrmd.Tcti.{TabrmdContext, receive, transmit, ReadInto, Received, is_tabrmd}
use tpm2_abrmd.Tcti.Receive.{finish_receive, finish_read, refuse, with_header}

-- A response whose header tells its length, of 32 bits.
pub record IsResponse (f : List ℕ) : Type 0 where
  pub header : 10 ≤ length f
  pub bounded : length f < 2 ^ 32
  pub sized : get_response_size f ≡ length f

-- `i` bytes of the response `f` have come, the header's among them; they are in the caller's buffer,
-- or will be with the copy of the header.
pub record InBody {S : Type 0} (queue : S → List ℕ) (f rest : List ℕ) (c : TabrmdContext) (s : S)
    (buf : List ℕ) (i : ℕ) : Type 0 where
  pub ours : is_tabrmd c ≡ true
  pub waiting : c.state ≡ receive
  pub at : c.index ≡ i
  pub past : 10 ≤ i
  pub within : i ≤ length f
  pub size : c.header.size ≡ length f
  pub tail : List ℕ
  pub content : with_header c buf ≡ take i f ++ tail
  pub room : length f ≤ i + length tail
  pub way : queue s ≡ drop i f ++ rest

-- Fewer than the header's bytes have come; they are in the context.
pub record InHeader {S : Type 0} (queue : S → List ℕ) (f rest : List ℕ) (c : TabrmdContext) (s : S)
    (buf : List ℕ) (i : ℕ) : Type 0 where
  pub ours : is_tabrmd c ≡ true
  pub waiting : c.state ≡ receive
  pub at : c.index ≡ i
  pub before : i < 10
  pub tail : List ℕ
  pub content : c.header_buf ≡ take i f ++ tail
  pub left : length tail ≡ 10 - i
  pub room : length f ≤ length buf
  pub way : queue s ≡ drop i f ++ rest

pub data Waiting {S : Type 0} (queue : S → List ℕ) (f rest : List ℕ) (c : TabrmdContext) (s : S)
    (buf : List ℕ) (i : ℕ) : Type 0 where
  in_header : InHeader queue f rest c s buf i → Waiting queue f rest c s buf i
  in_body : InBody queue f rest c s buf i → Waiting queue f rest c s buf i

-- The whole response is in the buffer, and the context is ready for a command.
pub record Complete {S : Type 0} (queue : S → List ℕ) (f rest : List ℕ) (o : Received S)
    : Type 0 where
  pub success : o.rc ≡ rc_success
  pub ready : o.context.state ≡ transmit
  pub reset : o.context.index ≡ 0
  pub size : o.size ≡ length f
  pub tail : List ℕ
  pub response : o.response ≡ some (f ++ tail)
  pub way : queue o.stream ≡ rest

-- More bytes have come than the `i` before, and the caller is told to try again.
pub record Partial {S : Type 0} (queue : S → List ℕ) (f rest : List ℕ) (i : ℕ) (o : Received S)
    : Type 0 where
  pub again : o.rc ≡ TctiRc.try_again
  pub j : ℕ
  pub more : i < j
  pub buf : List ℕ
  pub response : o.response ≡ some buf
  pub state : Waiting queue f rest o.context o.stream buf j

pub data Outcome {S : Type 0} (queue : S → List ℕ) (f rest : List ℕ) (i : ℕ) (o : Received S)
    : Type 0 where
  complete : Complete queue f rest o → Outcome queue f rest i o
  partial : Partial queue f rest i o → Outcome queue f rest i o

module _ {S : Type 0} (queue : S → List ℕ) (f rest : List ℕ) (size : ℕ) where
  pub outcome_by :
      (i : ℕ) (o o' : Received S) → o ≡ o' → Outcome queue f rest i o' → Outcome queue f rest i o
  outcome_by i o o' e h = subst (Outcome queue f rest i) (sym e) h

  -- A body that is read to its end, and one that is not.
  pub finish_full :
      (r : ReadInto S) (tail : List ℕ)
      → r.rc ≡ rc_success
      → r.context.index ≡ length f
      → r.buf ≡ f ++ tail
      → queue r.stream ≡ rest
      → (i : ℕ) → Outcome queue f rest i (finish_read size r)
  unfolding finish_read finish_receive
  finish_full r tail z at b q i =
      outcome_by i (finish_read size r) (finish_receive r.context r.stream r.buf)
        (ground (arith, z))
        (complete (record {
          success = refl;
          ready = refl;
          reset = refl;
          size = at;
          tail = tail;
          response = ap some b;
          way = q;
        }))

  pub finish_short :
      (r : ReadInto S) (i j : ℕ)
      → r.rc ≡ TctiRc.try_again
      → i < j
      → Waiting queue f rest r.context r.stream r.buf j
      → Outcome queue f rest i (finish_read size r)
  unfolding finish_read refuse
  finish_short r i j z more w =
      outcome_by i (finish_read size r) (refuse r.context r.stream size (some r.buf) r.rc)
        (ground (arith, z))
        (partial
          (record { again = z; j = j; more = more; buf = r.buf; response = refl; state = w }))
