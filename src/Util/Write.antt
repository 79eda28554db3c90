-- ===== src/Util/Write.antt =====
-- What `write_all` of src/util.c puts on a stream.
use tpm2_abrmd.Prelude.{
  ℕ, zero, suc, ◌+◌, ◌-◌, ◌≤◌, ◌<◌, ◌≡◌, sym, ap, ap₂, subst, ◌∙◌, List, ◌++◌, Option, some, length,
  take, drop, length-take, take_all, length-drop, arith,
}
use native.Mathlib.Decide.{dec_lt}
use mathlib.Core.List.{append_assoc}
use tpm2_abrmd.Stream.{Streams, WriteResult, written, Suffix, IsWriter}
use tpm2_abrmd.Util.{write_from, write_all}
use tpm2_abrmd.Util.Memory.{take-take_le, take-add, drop-drop}

-- The stream afterwards, and that all of the buffer is behind what was there.
pub record Wrote {S : Type 0} (queue : S → List ℕ) (s : S) (bs : List ℕ) (n : ℕ)
    (r : Option (S × WriteResult)) : Type 0 where
  pub stream : S
  pub result : r ≡ some (stream, written n)
  pub appended : queue stream ≡ queue s ++ bs

piece_length :
    (buf : List ℕ) (size total : ℕ)
    → size ≤ length buf
    → length (take (size - total) (drop total buf)) ≡ size - total
piece_length buf size total h =
    omega (arith, length-take (size - total) (drop total buf), length-drop total buf)

-- The first `k` bytes and then the others are all `n` bytes.
pieces :
    (q xs : List ℕ) (n k : ℕ) {q' zs : List ℕ}
    → q' ≡ q ++ take k (take n xs)
    → k ≤ n
    → zs ≡ take (n - k) (drop k xs)
    → q' ++ zs ≡ q ++ take n xs
pieces q xs n k e h d =
    ap₂ ◌++◌ e d
    ∙ (append_assoc q (take k (take n xs)) (take (n - k) (drop k xs))
        ∙ ap (◌++◌ q) (
            ap (λ l. l ++ take (n - k) (drop k xs)) (take-take_le k n xs h)
            ∙ (take-add k (n - k) xs ∙ ap (λ i. take i xs) (omega arith))))

module _ {S : Type 0} (st : Streams S) (queue : S → List ℕ) (w : IsWriter st queue) where
  -- One write of `j` bytes, and what the rest of the loop does.
  write_step :
      (f : ℕ) (s : S) (buf : List ℕ) (size total : ℕ)
      → total < size
      → size ≤ length buf
      → (p : Suffix queue s
          (take (size - total) (drop total buf))
          (st.write s (take (size - total) (drop total buf))))
      → (total + p.k < size
          → Wrote queue
              (st.write s (take (size - total) (drop total buf))).0
              (take (size - (total + p.k)) (drop (total + p.k) buf))
              size
              (write_from st f
                (st.write s (take (size - total) (drop total buf))).0
                buf
                size
                (total + p.k)))
      → Wrote queue s
          (take (size - total) (drop total buf))
          size
          (write_from st (suc f) s buf size total)
  unfolding write_from
  write_step f s buf size total h k p rest = elim (dec_lt (total + p.k) size) [
    | yes more ↦
        let ih = rest more in
        record {
          stream = ih.stream;
          result = ground (arith, p.result, p.some_byte, ih.result);
          appended =
              ih.appended
              ∙ pieces (queue s) (drop total buf) (size - total) p.k p.appended
                  (omega (arith, p.within, piece_length buf size total k))
                  (ap (take (size - (total + p.k))) (sym (drop-drop total p.k buf))
                    ∙ ap (λ i. take i (drop p.k (drop total buf))) (omega arith));
        }
    | no done ↦ record {
      stream = (st.write s (take (size - total) (drop total buf))).0;
      result = ground (arith, p.result, p.some_byte, p.within, piece_length buf size total k);
      appended =
          p.appended
          ∙ ap (◌++◌ (queue s)) (
              take_all p.k (take (size - total) (drop total buf))
                (omega (arith, p.within, piece_length buf size total k)));
    }
  ]

  write_from_lem :
      (f : ℕ) (s : S) (buf : List ℕ) (size total : ℕ)
      → total < size
      → size ≤ length buf
      → size - total < f
      → Wrote queue s (take (size - total) (drop total buf)) size (write_from st f s buf size total)
  unfolding write_from
  write_from_lem zero s buf size total h k e = absurd (omega arith)
  write_from_lem (suc f) s buf size total h k e =
      let p =
        w.writes s (take (size - total) (drop total buf))
          (omega (arith, piece_length buf size total k)) in
      write_step f s buf size total h k p
        λ more. write_from_lem f _ buf size (total + p.k) more k (omega (arith, p.some_byte))

  -- Where the buffer is not empty, `write_all` puts all of it on the stream, in order, however few
  -- bytes each write of the stream accepts, and returns the size.
  pub write_all_lem :
      (s : S) (buf : List ℕ) (size : ℕ)
      → 0 < size
      → size ≤ length buf
      → Wrote queue s (take size buf) size (write_all st s buf size)
  unfolding write_all
  write_all_lem s buf size h k =
      subst (λ n. Wrote queue s (take n buf) size (write_all st s buf size)) (omega arith)
        (write_from_lem (suc size) s buf size 0 h k (omega arith))
