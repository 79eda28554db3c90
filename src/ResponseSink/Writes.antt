-- ===== src/ResponseSink/Writes.antt =====
-- What the thread of src/response-sink.c writes.
use tpm2_abrmd.Prelude.{
  ℕ, zero, suc, ◌+◌, ◌-◌, ◌<◌, ◌≡◌, ◌≢◌, refl, sym, ap, subst, ◌∙◌, drop, ◌==◌, List, [], ◌∷◌, ◌++◌,
  Option, some, if◌then◌else◌, length, take, take_all, arith,
}
use mathlib.Core.List.{append_assoc, append-nil}
use tpm2_abrmd.Stream.{Streams, WriteResult, written, write_error, IsWriter}
use mathlib.Core.Option.{some-injective, none-ne-some}
use native.Mathlib.Decide.{dec_lt, ℕ_discrete}
use tpm2_abrmd.Util.{write_all, write_from}
use tpm2_abrmd.Util.Write.{write_all_lem}
use tpm2_abrmd.Response.{Tpm2Response, response_get_size}
use tpm2_abrmd.ResourceManager.State.{connection_removed, check_cancel, Message, response, control}
use tpm2_abrmd.ResponseSink.{
  process_response, sink_process_control, written_stream, response_sink_thread,
}

-- The size field of a response is the number of its bytes.
pub record IsSized (r : Tpm2Response) : Type 0 where
  pub some_byte : 0 < length r.buffer
  pub sized : response_get_size r ≡ length r.buffer

abbrev pub AreSized : List Message → Type 0
AreSized [] = Unit {0}
AreSized (response r ∷ l) = IsSized r × AreSized l
AreSized (control code object ∷ l) = AreSized l

-- The bytes of the responses to the connection `a`, up to a cancellation.
abbrev pub responses_to : ℕ → List Message → List ℕ
responses_to a [] = []
responses_to a (response r ∷ l) =
    let rest = responses_to a l in if r.connection == a then r.buffer ++ rest else rest
responses_to a (control connection_removed object ∷ l) = responses_to a l
responses_to a (control check_cancel object ∷ l) = []

-- Another queue is left alone by the writes of a stream.
abbrev Leaves : {S : Type 0} → Streams S → (S → List ℕ) → Type 0
Leaves {S} st queue = (s : S) (buf : List ℕ) → queue (st.write s buf).0 ≡ queue s

-- The connections of the daemon: what is written to one goes to the end of its queue, and to no
-- other queue.
pub record AreWriters {S : Type 0} (streams : ℕ → Streams S) (queue : ℕ → S → List ℕ) : Type 0 where
  pub writer : (a : ℕ) → IsWriter (streams a) (queue a)
  pub apart : (a b : ℕ) → a ≢ b → Leaves (streams a) (queue b)

if_true : (k j : ℕ) (x : List ℕ) → k ≡ j → (if k == j then x else []) ≡ x
if_true k j x h = ground arith

if_false : (k j : ℕ) (x : List ℕ) → k ≢ j → (if k == j then x else []) ≡ []
if_false k j x h = ground arith

if_append :
    (k j : ℕ) (x y : List ℕ) → (if k == j then x else []) ++ y ≡ (if k == j then x ++ y else y)
if_append k j x y = elim (ℕ_discrete k j) [ yes e ↦ ground (arith, e) | no e ↦ ground arith ]

module _ {S : Type 0} (st : Streams S) (queue : S → List ℕ) (h : Leaves st queue) where
  -- Every result keeps the queue `q`.
  abbrev Keeps : List ℕ → Option (S × WriteResult) → Type 0
  Keeps q o = (s' : S) (r : WriteResult) → o ≡ some (s', r) → queue s' ≡ q

  Keeps-value :
      (q : List ℕ) (o : Option (S × WriteResult)) (s : S) (r : WriteResult)
      → queue s ≡ q
      → o ≡ some (s, r)
      → Keeps q o
  Keeps-value q o s r e d s' r' d' =
      ap (λ (p : S × WriteResult). queue p.0) (some-injective _ _ (sym d' ∙ d)) ∙ e

  continues :
      (f : ℕ) (s : S) (buf : List ℕ) (size total n : ℕ)
      → (st.write s (take (size - total) (drop total buf))).1 ≡ written n
      → n ≢ 0
      → total + n < size
      → write_from st (suc f) s buf size total
        ≡ write_from st f (st.write s (take (size - total) (drop total buf))).0 buf size (total + n)
  unfolding write_from
  continues f s buf size total n k z more = ground (arith, k)

  Keeps-round :
      (f : ℕ) (s : S) (buf : List ℕ) (size total : ℕ) (w : WriteResult)
      → (st.write s (take (size - total) (drop total buf))).1 ≡ w
      → ((t : ℕ)
          → Keeps
              (queue s)
              (write_from st f (st.write s (take (size - total) (drop total buf))).0 buf size t))
      → Keeps (queue s) (write_from st (suc f) s buf size total)
  unfolding write_from
  Keeps-round f s buf size total write_error k ih =
      Keeps-value (queue s) (write_from st (suc f) s buf size total) _ write_error
        (h s (take (size - total) (drop total buf))) (ground (arith, k))
  Keeps-round f s buf size total (written n) k ih =
      let o = write_from st (suc f) s buf size total in
      let same = h s (take (size - total) (drop total buf)) in
      elim (ℕ_discrete n 0) [
        | yes z ↦ Keeps-value (queue s) o _ (written total) same (ground (arith, k, z))
        | no z ↦ elim (dec_lt (total + n) size) [
          | no done ↦ Keeps-value (queue s) o _ (written (total + n)) same (ground (arith, k))
          | yes more ↦
              subst (Keeps (queue s)) (sym (continues f s buf size total n k z more))
                (ih (total + n))
        ]
      ]

  Keeps-from :
      (f : ℕ) (s : S) (buf : List ℕ) (size total : ℕ)
      → Keeps (queue s) (write_from st f s buf size total)
  unfolding write_from
  Keeps-from zero s buf size total = λ s' r e. absurd (none-ne-some _ e)
  Keeps-from (suc f) s buf size total = Keeps-round f s buf size total _ refl λ t.
      subst
        (λ q.
          Keeps q
            (write_from st f (st.write s (take (size - total) (drop total buf))).0 buf size t))
        (h s (take (size - total) (drop total buf)))
        (Keeps-from f (st.write s (take (size - total) (drop total buf))).0 buf size t)

  pub write_all_leaves :
      (s s' : S) (buf : List ℕ) (size : ℕ) {r : WriteResult}
      → write_all st s buf size ≡ some (s', r)
      → queue s' ≡ queue s
  unfolding write_all
  write_all_leaves s s' buf size {r = r} e = Keeps-from (suc size) s buf size 0 s' r e

module _ {S : Type 0} (streams : ℕ → Streams S) (queue : ℕ → S → List ℕ)
    (world : AreWriters streams queue) where
  -- One response: its bytes go behind those of its connection.
  response_lem :
      (s : S) (r : Tpm2Response)
      → IsSized r
      → (s' : S) × (process_response streams s r ≡ some (s', written (length r.buffer)))
        × ((a : ℕ) → queue a s' ≡ queue a s ++ (if r.connection == a then r.buffer else []))
  unfolding process_response
  response_lem s r h =
      let w =
        write_all_lem (streams r.connection) (queue r.connection) (world.writer r.connection) s
          r.buffer (length r.buffer) h.some_byte (omega arith) in
      (
        w.stream,
        ap (write_all (streams r.connection) s r.buffer) h.sized ∙ w.result,
        λ a. elim (ℕ_discrete r.connection a) [
          | yes e ↦
              subst
                (λ b. queue b w.stream ≡ queue b s ++ (if r.connection == b then r.buffer else []))
                e
                (w.appended
                  ∙ ap (◌++◌ (queue r.connection s)) (
                      take_all (length r.buffer) r.buffer (omega arith)
                      ∙ sym (if_true r.connection r.connection r.buffer refl)))
          | no k ↦
              write_all_leaves (streams r.connection) (queue a) (world.apart r.connection a k) s
                w.stream r.buffer (length r.buffer) w.result
              ∙ (sym (append-nil (queue a s))
                  ∙ ap (◌++◌ (queue a s)) (sym (if_false r.connection a r.buffer k)))
        ],
      )

  -- The thread takes its messages in order until it is told to end, and comes to an end: on every
  -- connection, the bytes of all the responses to it, up to the cancellation, go out in order behind
  -- what was there, however few bytes each write accepts, and nothing else is written. The messages
  -- are responses whose size field is the number of their bytes, and control messages.
  pub response_sink_thread_lem :
      (s : S) (messages : List Message)
      → AreSized messages
      → (s' : S) × (left : List Message) × (response_sink_thread streams s messages
          ≡ some (s', left))
        × ((a : ℕ) → queue a s' ≡ queue a s ++ responses_to a messages)
  unfolding response_sink_thread sink_process_control written_stream
  response_sink_thread_lem s [] h = (s, [], refl, λ a. sym (append-nil (queue a s)))
  response_sink_thread_lem s (response r ∷ l) h =
      let (t, e, q) = response_lem s r h.0 in
      let (s', left, d, q') = response_sink_thread_lem t l h.1 in
      (
        s',
        left,
        rw (e, response_sink_thread) d,
        λ a.
            q' a
            ∙ (ap (λ x. x ++ responses_to a l) (q a)
                ∙ (append_assoc (queue a s) (if r.connection == a then r.buffer else [])
                      (responses_to a l)
                    ∙ ap (◌++◌ (queue a s))
                        (if_append r.connection a r.buffer (responses_to a l)))),
      )
  response_sink_thread_lem s (control check_cancel object ∷ l) h =
      (s, l, refl, λ a. sym (append-nil (queue a s)))
  response_sink_thread_lem s (control connection_removed object ∷ l) h =
      response_sink_thread_lem s l h
