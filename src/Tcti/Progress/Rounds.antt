-- ===== src/Tcti/Progress/Rounds.antt =====
-- How a call of `tss2_tcti_tabrmd_receive` brings a response on.
use tpm2_abrmd.Prelude.{
  ℕ, ◌+◌, ◌-◌, ◌<◌, ◌≤◌, ◌≡◌, refl, ap, ap₂, ◌∙◌, List, ◌++◌, some, length, drop, length-drop,
  take_all, arith,
}
use native.Mathlib.Decide.{dec_lt}
use tpm2_abrmd.Prelude.Int.{ℤ, sub64, sub64-of_le}
use tpm2_abrmd.Stream.{IsReader}
use tpm2_abrmd.Util.Memory.{drop_all}
use tpm2_abrmd.Tcti.{TabrmdContext, ClientEnv, ReadInto, is_tabrmd}
use tpm2_abrmd.Tcti.Receive.{tcti_read, finish_receive, finish_read, with_header, receive_body}
use tpm2_abrmd.Tcti.Progress.Piece.{IsReady, Piece, piece_lem}
use tpm2_abrmd.Tcti.Progress.Step.{
  IsResponse, InBody, in_body, Outcome, complete, outcome_by, finish_full, finish_short,
}

module _ {S : Type 0} (env : ClientEnv S) (size : ℕ) (t : ℤ) (c : TabrmdContext) (s : S)
    (buf : List ℕ) (h : c.header.size ≤ size) where
  body_whole :
      c.header.size ≡ c.index
      → receive_body env c s size (some buf) t ≡ finish_receive c s (with_header c buf)
  unfolding receive_body
  body_whole e = ground (arith, e)

  body_reads :
      c.index < c.header.size
      → receive_body env c s size (some buf) t
        ≡ finish_read size (tcti_read env c s (with_header c buf) (sub64 c.header.size c.index) t)
  unfolding receive_body
  body_reads e = ground arith

pub same_tabrmd : (c : TabrmdContext) (i : ℕ) → is_tabrmd (record c { index = i }) ≡ is_tabrmd c
unfolding is_tabrmd
same_tabrmd c i = refl

-- Behind the header, the buffer is the caller's.
with_header_past : (c : TabrmdContext) (buf : List ℕ) → 10 < c.index → with_header c buf ≡ buf
unfolding with_header
with_header_past c buf h = ground arith

module _ {S : Type 0} (env : ClientEnv S) (queue : S → List ℕ) (polls : IsReady env queue)
    (reader : IsReader env.streams queue) (f rest : List ℕ) (m : IsResponse f) (size : ℕ) (t : ℤ)
    (fits : length f ≤ size) where
  body_piece :
      (c : TabrmdContext) (s : S) (buf : List ℕ) (i : ℕ) (b : InBody queue f rest c s buf i)
      (r : ReadInto S)
      → Piece queue f rest c i (length f - i) b.tail r
      → Outcome queue f rest i (finish_read size r)
  body_piece c s buf i b r p =
      let index : r.context.index ≡ i + p.k = ap (λ (x : TabrmdContext). x.index) p.context in
      elim (dec_lt p.k (length f - i)) [
        | yes less ↦
            finish_short queue f rest size r i (i + p.k) (p.short less) (omega (arith, p.some_byte))
              (in_body (record {
                ours = ap is_tabrmd p.context ∙ same_tabrmd c (i + p.k) ∙ b.ours;
                waiting = ap (λ (x : TabrmdContext). x.state) p.context ∙ b.waiting;
                at = index;
                past = omega (arith, b.past);
                within = omega (arith, b.within);
                size = ap (λ (x : TabrmdContext). x.header.size) p.context ∙ b.size;
                tail = drop p.k b.tail;
                content =
                    with_header_past r.context r.buf (omega (arith, index, b.past, p.some_byte))
                    ∙ p.buf;
                room = omega (arith, b.room, length-drop p.k b.tail);
                way = p.way;
              }))
        | no all ↦
            let whole : i + p.k ≡ length f = omega (arith, p.within, b.within) in
            finish_full queue f rest size r (drop p.k b.tail) (p.full (omega (arith, p.within)))
              (index ∙ whole)
              (p.buf ∙ ap (λ l. l ++ drop p.k b.tail) (take_all (i + p.k) f (omega arith)))
              (p.way ∙ ap (λ l. l ++ rest) (drop_all (i + p.k) f (omega arith))) i
      ]

  done_body :
      (c : TabrmdContext) (s : S) (buf : List ℕ) (i : ℕ)
      → (b : InBody queue f rest c s buf i) → i ≡ length f
      → Outcome queue f rest i (finish_receive c s (with_header c buf))
  unfolding finish_receive
  done_body c s buf i b e = complete (record {
    success = refl;
    ready = refl;
    reset = refl;
    size = b.at ∙ e;
    tail = b.tail;
    response = ap some (b.content ∙ ap (λ l. l ++ b.tail) (take_all i f (omega arith)));
    way = b.way ∙ ap (λ l. l ++ rest) (drop_all i f (omega arith));
  })

  pub step_body :
      (c : TabrmdContext) (s : S) (buf : List ℕ) (i : ℕ)
      → InBody queue f rest c s buf i
      → Outcome queue f rest i (receive_body env c s size (some buf) t)
  step_body c s buf i b = elim (dec_lt i (length f)) [
    | yes more ↦
        let n : sub64 c.header.size c.index ≡ length f - i =
          ap₂ sub64 b.size b.at ∙ sub64-of_le (length f) i b.within (omega (arith, m.bounded)) in
        outcome_by queue f rest size i _ _
          (body_reads env size t c s buf (omega (arith, b.size)) (omega (arith, b.size, b.at))
            ∙ ap (λ j. finish_read size (tcti_read env c s (with_header c buf) j t)) n)
          (body_piece c s buf i b _ (
            piece_lem env queue polls reader f rest c s (with_header c buf) i (length f - i) b.tail
              t (omega arith) b.at b.content (omega arith) (omega (arith, b.room))
              (omega (arith, m.bounded)) b.way))
    | no whole ↦
        outcome_by queue f rest size i _ _
          (body_whole env size t c s buf (omega (arith, b.size))
            (omega (arith, b.size, b.at, b.within)))
          (done_body c s buf i b (omega (arith, b.within)))
  ]
