-- ===== src/Tcti/Progress/FirstRound.antt =====
-- A call of `tss2_tcti_tabrmd_receive` that reads in the header.
use tpm2_abrmd.Prelude.{
  ℕ, ◌+◌, ◌-◌, ◌<◌, ◌≤◌, ◌≡◌, refl, sym, ap, ap₂, ◌∙◌, subst, List, [], ◌++◌, Option, some, length,
  take, drop, length-drop, arith,
}
use native.Mathlib.Decide.{dec_lt}
use tpm2_abrmd.Prelude.Int.{ℤ}
use tpm2_abrmd.Bytes.{memcpy}
use tpm2_abrmd.Constants.TctiRc
use tpm2_abrmd.Constants.{rc_success}
use tpm2_abrmd.Header.{get_response_size, get_command_size}
use tpm2_abrmd.Stream.{IsReader}
use tpm2_abrmd.Util.Memory.{drop_all, take-append_le, length-take_le, take-take_le}
use tpm2_abrmd.Util.Frames.{memcpy_into, size_of_header}
use tpm2_abrmd.Tcti.{TabrmdContext, ClientEnv, ReadInto, Received, is_tabrmd}
use tpm2_abrmd.Tcti.Receive.{
  parse_header, tcti_read, refuse, with_header, receive_body, receive_header,
}
use tpm2_abrmd.Tcti.Progress.Piece.{IsReady, Piece, piece_lem}
use tpm2_abrmd.Tcti.Progress.Step.{
  IsResponse, InBody, InHeader, in_header, Outcome, complete, partial, outcome_by,
}
use tpm2_abrmd.Tcti.Progress.Rounds.{same_tabrmd, step_body}

-- The header's bytes, parsed.
filled : TabrmdContext → List ℕ → TabrmdContext
filled c buf = record c { header_buf = buf }

module _ {S : Type 0} (env : ClientEnv S) (size : ℕ) (t : ℤ) (response : Option (List ℕ)) where
  header_fails :
      (r : ReadInto S)
      → r.rc ≡ TctiRc.try_again
      → receive_header env r size response t
        ≡ refuse (filled r.context r.buf) r.stream size response TctiRc.try_again
  unfolding receive_header refuse filled
  header_fails r e = ground (arith, e)

  header_passes :
      (r : ReadInto S)
      → r.rc ≡ rc_success
      → 10 ≤ (parse_header (filled r.context r.buf)).header.size
      → receive_header env r size response t
        ≡ receive_body env (parse_header (filled r.context r.buf)) r.stream size response t
  unfolding receive_header filled
  header_passes r e h = ground (arith, e)

-- What parsing keeps and what it finds.
module _ (c : TabrmdContext) (h : c.index ≡ 10) where
  parsed_size : (parse_header c).header.size ≡ get_response_size c.header_buf
  unfolding parse_header
  parsed_size = ground (arith, h)

  parsed_state : (parse_header c).state ≡ c.state
  unfolding parse_header
  parsed_state = ground (arith, h)

  parsed_index : (parse_header c).index ≡ c.index
  unfolding parse_header
  parsed_index = ground (arith, h)

  parsed_ours : is_tabrmd (parse_header c) ≡ is_tabrmd c
  unfolding parse_header is_tabrmd
  parsed_ours = ground (arith, h)

  parsed_buf : (parse_header c).header_buf ≡ c.header_buf
  unfolding parse_header
  parsed_buf = ground (arith, h)

header_tabrmd : (c : TabrmdContext) (buf : List ℕ) → is_tabrmd (filled c buf) ≡ is_tabrmd c
unfolding is_tabrmd filled
header_tabrmd c buf = refl

with_header_now :
    (c : TabrmdContext) (buf : List ℕ)
    → c.index ≡ 10
    → with_header c buf ≡ memcpy buf 0 (take 10 c.header_buf)
unfolding with_header
with_header_now c buf h = ground (arith, h)

size_of_response :
    (f tail : List ℕ) → 10 ≤ length f → get_response_size (take 10 f ++ tail) ≡ get_response_size f
unfolding get_response_size
size_of_response f tail h = unfold get_command_size in size_of_header f tail h

module _ {S : Type 0} (env : ClientEnv S) (queue : S → List ℕ) (polls : IsReady env queue)
    (reader : IsReader env.streams queue) (f rest : List ℕ) (m : IsResponse f) (size : ℕ) (t : ℤ)
    (fits : length f ≤ size) where
  -- The context once the header is there.
  body_of_Piece :
      (c : TabrmdContext) (s : S) (buf : List ℕ) (i : ℕ) (b : InHeader queue f rest c s buf i)
      (r : ReadInto S)
      → (p : Piece queue f rest c i (10 - i) b.tail r) → p.k ≡ 10 - i
      → InBody queue f rest (parse_header (filled r.context r.buf)) r.stream buf 10
  unfolding filled
  body_of_Piece c s buf i b r p e =
      let now : i + p.k ≡ 10 = omega (arith, b.before) in
      let c' = filled r.context r.buf in
      let index : c'.index ≡ 10 = ap (λ (x : TabrmdContext). x.index) p.context ∙ now in
      let bytes : r.buf ≡ take 10 f ++ [] =
        p.buf ∙ ap₂ (λ j l. take j f ++ l) now (drop_all p.k b.tail (omega (arith, b.left))) in
      let len = length-take_le 10 f m.header in
      record {
        ours =
            parsed_ours c' index
            ∙ (header_tabrmd r.context r.buf
                ∙ (ap is_tabrmd p.context ∙ (same_tabrmd c (i + p.k) ∙ b.ours)));
        waiting =
            parsed_state c' index ∙ (ap (λ (x : TabrmdContext). x.state) p.context ∙ b.waiting);
        at = parsed_index c' index ∙ index;
        past = omega arith;
        within = m.header;
        size =
            parsed_size c' index
            ∙ (ap get_response_size bytes ∙ (size_of_response f [] m.header ∙ m.sized));
        tail = drop 10 buf;
        content =
            with_header_now (parse_header c') buf (parsed_index c' index ∙ index)
            ∙ (ap (λ l. memcpy buf 0 (take 10 l)) (parsed_buf c' index ∙ bytes)
                ∙ (ap (memcpy buf 0) (
                      take-append_le 10 (take 10 f) [] (omega (arith, len))
                      ∙ take-take_le 10 10 f (omega arith))
                    ∙ (memcpy_into [] buf (take 10 f) 0 refl (omega (arith, len, b.room, m.header))
                        ∙ ap (λ j. take 10 f ++ drop j buf) len)));
        room = omega (arith, b.room, length-drop 10 buf);
        way = p.way ∙ ap (λ j. drop j f ++ rest) now;
      }

  -- More of the header has come.
  header_of_Piece :
      (c : TabrmdContext) (s : S) (buf : List ℕ) (i : ℕ) (b : InHeader queue f rest c s buf i)
      (r : ReadInto S)
      → (p : Piece queue f rest c i (10 - i) b.tail r) → p.k < 10 - i
      → InHeader queue f rest (filled r.context r.buf) r.stream buf (i + p.k)
  unfolding filled
  header_of_Piece c s buf i b r p e = record {
    ours =
        header_tabrmd r.context r.buf
        ∙ (ap is_tabrmd p.context ∙ (same_tabrmd c (i + p.k) ∙ b.ours));
    waiting = ap (λ (x : TabrmdContext). x.state) p.context ∙ b.waiting;
    at = ap (λ (x : TabrmdContext). x.index) p.context;
    before = omega arith;
    tail = drop p.k b.tail;
    content = p.buf;
    left = omega (arith, b.left, length-drop p.k b.tail);
    room = b.room;
    way = p.way;
  }

  -- An outcome counted from a smaller index.
  from_before :
      (i j : ℕ) {o : Received S} → i ≤ j → Outcome queue f rest j o → Outcome queue f rest i o
  from_before i j h (complete d) = complete d
  from_before i j h (partial p) = partial (record {
    again = p.again;
    j = p.j;
    more = omega (arith, p.more);
    buf = p.buf;
    response = p.response;
    state = p.state;
  })

  waits :
      (c : TabrmdContext) (s : S) (buf : List ℕ) (i j : ℕ)
      → i < j
      → InHeader queue f rest c s buf j
      → Outcome queue f rest i (refuse c s size (some buf) TctiRc.try_again)
  unfolding refuse
  waits c s buf i j h b =
      partial
        (record { again = refl; j = j; more = h; buf = buf; response = refl; state = in_header b })

  header_piece :
      (c : TabrmdContext) (s : S) (buf : List ℕ) (i : ℕ) (b : InHeader queue f rest c s buf i)
      (r : ReadInto S)
      → Piece queue f rest c i (10 - i) b.tail r
      → Outcome queue f rest i (receive_header env r size (some buf) t)
  header_piece c s buf i b r p = elim (dec_lt p.k (10 - i)) [
    | yes less ↦
        outcome_by queue f rest size i _ _ (header_fails env size t (some buf) r (p.short less)) (
          waits (filled r.context r.buf) r.stream buf i (i + p.k) (omega (arith, p.some_byte))
            (header_of_Piece c s buf i b r p less))
    | no all ↦
        let all' : p.k ≡ 10 - i = omega (arith, p.within) in
        let b' = body_of_Piece c s buf i b r p all' in
        outcome_by queue f rest size i _ _
          (header_passes env size t (some buf) r (p.full all') (omega (arith, b'.size, m.header)))
          (from_before i 10 (omega (arith, b.before))
            (step_body env queue polls reader f rest m size t fits _ r.stream buf 10 b'))
  ]

  pub step_header :
      (c : TabrmdContext) (s : S) (buf : List ℕ) (i : ℕ)
      → InHeader queue f rest c s buf i
      → Outcome queue f rest i
          (receive_header env (tcti_read env c s c.header_buf (10 - c.index) t) size (some buf) t)
  step_header c s buf i b =
      subst
        (λ j.
          Outcome queue f rest i
            (receive_header env (tcti_read env c s c.header_buf (10 - j) t) size (some buf) t))
        (sym b.at)
        (header_piece c s buf i b _ (
          piece_lem env queue polls reader f rest c s c.header_buf i (10 - i) b.tail t
            (omega (arith, b.before)) b.at b.content (omega (arith, b.before, m.header))
            (omega (arith, b.left)) (omega arith) b.way))
