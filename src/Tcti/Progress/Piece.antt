-- ===== src/Tcti/Progress/Piece.antt =====
-- One read of `tcti_tabrmd_read` over a connection that delivers.
use tpm2_abrmd.Prelude.{
  ℕ, ◌+◌, ◌^◌, ◌<◌, ◌≤◌, ◌≡◌, sym, ap, ap₂, ◌∙◌, subst, List, ◌++◌, length, take, drop,
  length-append, length-drop, if◌then◌else◌, ◌==◌, arith,
}
use mathlib.Core.List.{append_assoc}
use tpm2_abrmd.Prelude.Int.{ℤ, sub64, sub64-of_le}
use tpm2_abrmd.Bytes.{memcpy}
use tpm2_abrmd.Constants.TctiRc
use tpm2_abrmd.Constants.{rc_success}
use tpm2_abrmd.Stream.{ReadResult, bytes, Prefix, IsReader}
use tpm2_abrmd.Util.Memory.{take-add, drop-drop, take-append_le, drop-append_le, length-take_le}
use tpm2_abrmd.Util.Frames.{memcpy_into}
use tpm2_abrmd.Tcti.{TabrmdContext, ready, ClientEnv, ReadInto}
use tpm2_abrmd.Tcti.Receive.{read_into, polled, tcti_read, tcti_poll}

-- There are always data to read, as long as bytes are on their way.
pub record IsReady {S : Type 0} (env : ClientEnv S) (queue : S → List ℕ) : Type 0 where
  pub is_ready : (s : S) (t : ℤ) → (env.poll s t).1 ≡ ready
  pub keeps : (s : S) (t : ℤ) → queue (env.poll s t).0 ≡ queue s

-- A read of `k` of the `n` bytes that are asked for, at the index `i` of the message `f`. What was
-- in the buffer behind the index is `tail`.
pub record Piece {S : Type 0} (queue : S → List ℕ) (f rest : List ℕ) (c : TabrmdContext) (i n : ℕ)
    (tail : List ℕ) (r : ReadInto S) : Type 0 where
  pub k : ℕ
  pub some_byte : 0 < k
  pub within : k ≤ n
  pub context : r.context ≡ record c { index = i + k }
  pub buf : r.buf ≡ take (i + k) f ++ drop k tail
  pub way : queue r.stream ≡ drop (i + k) f ++ rest
  pub full : k ≡ n → r.rc ≡ rc_success
  pub short : k < n → r.rc ≡ TctiRc.try_again

-- What a read of the bytes `l` makes of the context and the buffer.
module _ {S : Type 0} (c : TabrmdContext) (buf : List ℕ) (n : ℕ) (r : S × ReadResult) (l : List ℕ)
    (e : r.1 ≡ bytes l) (h : 0 < length l) where
  pub read_into_lem : read_into c buf n r ≡ record {
    context = record c { index = c.index + length l };
    stream = r.0;
    buf = memcpy buf c.index l;
    rc = if sub64 n (length l) == 0 then rc_success else TctiRc.try_again;
  }
  unfolding read_into
  read_into_lem = ground (arith, e)

module _ {S : Type 0} (env : ClientEnv S) (queue : S → List ℕ) (polls : IsReady env queue)
    (reader : IsReader env.streams queue) (f rest : List ℕ) where
  read_lem :
      (c : TabrmdContext) (s : S) (buf : List ℕ) (n : ℕ) (t : ℤ)
      → tcti_read env c s buf n t ≡ read_into c buf n (env.streams.read (env.poll s t).0 n)
  unfolding tcti_read polled tcti_poll
  read_lem c s buf n t = ground (arith, polls.is_ready s t)

  -- The bytes that a read takes.
  next_bytes :
      (i k : ℕ) {q : List ℕ}
      → i + k ≤ length f
      → q ≡ drop i f ++ rest
      → (take k q ≡ take k (drop i f)) × (drop k q ≡ drop (i + k) f ++ rest)
  next_bytes i k h e = (
    ap (take k) e ∙ take-append_le k (drop i f) rest (omega (arith, length-drop i f)),
    ap (drop k) e
        ∙ (drop-append_le k (drop i f) rest (omega (arith, length-drop i f))
            ∙ ap (λ l. l ++ rest) (drop-drop i k f)),
  )

  Piece-of_prefix :
      (c : TabrmdContext) (s : S) (buf : List ℕ) (i n : ℕ) (tail : List ℕ)
      → c.index ≡ i
      → buf ≡ take i f ++ tail
      → i + n ≤ length f
      → n ≤ length tail
      → n < 2 ^ 63
      → queue s ≡ drop i f ++ rest
      → Prefix queue s n (env.streams.read s n)
      → Piece queue f rest c i n tail (read_into c buf n (env.streams.read s n))
  Piece-of_prefix c s buf i n tail at e room fits b q p =
      let (now, after) = next_bytes i p.k (omega (arith, p.within)) q in
      let len = length-take_le p.k (queue s) p.there in
      let r =
        read_into_lem c buf n (env.streams.read s n) (take p.k (queue s)) p.result
          (omega (arith, p.some_byte)) in
      let left = ap (sub64 n) len ∙ sub64-of_le n p.k p.within (omega arith) in
      record {
        k = p.k;
        some_byte = p.some_byte;
        within = p.within;
        context =
            ap (λ (x : ReadInto S). x.context) r
            ∙ ap (λ j. record c { index = j }) (omega (arith, at, len));
        buf =
            ap (λ (x : ReadInto S). x.buf) r
            ∙ (ap (λ l. memcpy l c.index (take p.k (queue s))) e
                ∙ (memcpy_into (take i f) tail (take p.k (queue s)) c.index
                      (omega (arith, at, length-take_le i f (omega arith)))
                      (omega (arith, p.within))
                    ∙ (sym (
                          append_assoc (take i f) (take p.k (queue s))
                            (drop (length (take p.k (queue s))) tail))
                        ∙ ap₂ (λ l j. l ++ drop j tail)
                            (ap (◌++◌ (take i f)) now ∙ take-add i p.k f) len)));
        way = ap (λ (x : ReadInto S). queue x.stream) r ∙ (p.rest ∙ after);
        full = λ d. ap (λ (x : ReadInto S). x.rc) r ∙ ground (arith, left);
        short = λ d. ap (λ (x : ReadInto S). x.rc) r ∙ ground (arith, left);
      }

  pub piece_lem :
      (c : TabrmdContext) (s : S) (buf : List ℕ) (i n : ℕ) (tail : List ℕ) (t : ℤ)
      → 0 < n
      → c.index ≡ i
      → buf ≡ take i f ++ tail
      → i + n ≤ length f
      → n ≤ length tail
      → n < 2 ^ 63
      → queue s ≡ drop i f ++ rest
      → Piece queue f rest c i n tail (tcti_read env c s buf n t)
  piece_lem c s buf i n tail t h at e room fits b q =
      let q' = polls.keeps s t ∙ q in
      subst (Piece queue f rest c i n tail) (sym (read_lem c s buf n t)) (
        Piece-of_prefix c (env.poll s t).0 buf i n tail at e room fits b q' (
          reader.reads (env.poll s t).0 n h b
            (omega (arith, ap length q', length-append (drop i f) rest, length-drop i f))))
