-- ===== src/Util/Alloc.antt =====
-- `read_tpm_buffer` and `read_tpm_buffer_alloc` of src/util.c on a stream that starts with a message.
use tpm2_abrmd.Prelude.{
  ℕ, suc, ◌-◌, ◌≤◌, ◌<◌, ◌≡◌, refl, sym, ap, ap₂, ◌∙◌, List, [], ◌++◌, Option, some, length, take,
  drop, replicate, length-drop, length-replicate, take_all, arith,
}
use native.Mathlib.Decide.{dec_lt}
use mathlib.Core.List.{append-nil}
use tpm2_abrmd.Header.{get_command_size}
use tpm2_abrmd.Stream.{Streams, IsReader}
use tpm2_abrmd.Util.{
  Reading, eproto, util_buf_max, read_data, read_body, after_header, read_tpm_buffer, realloc,
  judge, alloc_from, read_tpm_buffer_alloc,
}
use tpm2_abrmd.Util.Memory.{drop_all, length-take_le}
use tpm2_abrmd.Util.Frames.{
  IsMessage, Framed, headed, body_lem, header_lem, size_of_header, read_body_refuses,
}

-- The message `f` is taken from the queue into a buffer of its size.
pub record Taken {S : Type 0} (queue : S → List ℕ) (f rest : List ℕ)
    (r : Option (S × Option (List ℕ × ℕ))) : Type 0 where
  pub stream : S
  pub result : r ≡ some (stream, some (f, length f))
  pub behind : queue stream ≡ rest

module _ {S : Type 0} (st : Streams S) where
  start_lem :
      (s : S) (buf : List ℕ) (n : ℕ) {r : Reading S}
      → 10 ≤ n
      → read_data st s 0 buf 10 ≡ some r
      → r.ret ≡ 0
      → read_tpm_buffer st s 0 buf n ≡ read_body st r n
  unfolding read_tpm_buffer after_header
  start_lem s buf n h e z = ground (arith, e, z)

  resume_lem :
      (s : S) (buf : List ℕ) (n : ℕ)
      → 10 ≤ n
      → read_tpm_buffer st s 10 buf n
        ≡ read_body st (record { stream = s; index = 10; buf = buf; ret = 0 }) n
  unfolding read_tpm_buffer
  resume_lem s buf n h = ground arith

module _ {S : Type 0} (st : Streams S) (queue : S → List ℕ) (w : IsReader st queue)
    (f rest : List ℕ) (m : IsMessage f) where
  -- A buffer with room for the message that a stream starts with takes exactly the message: 0 is
  -- returned, the index is the size of the message, the bytes behind it keep their values, and the
  -- stream stands behind the message.
  pub read_tpm_buffer_lem :
      (s : S) (buf : List ℕ) (n : ℕ)
      → length buf ≡ n
      → length f ≤ n
      → queue s ≡ f ++ rest
      → Framed queue f (drop 10 buf) rest (read_tpm_buffer st s 0 buf n)
  read_tpm_buffer_lem s buf n full room q =
      let (s', e, q') = header_lem st queue w f rest m s buf (omega (arith, m.header)) q in
      let b =
        body_lem st queue w f rest m s' (drop 10 buf) n (omega (arith, length-drop 10 buf)) room
          q' in
      record {
        stream = b.stream;
        result = start_lem st s buf n (omega (arith, m.header)) e refl ∙ b.result;
        behind = b.behind;
      }

  -- In a smaller buffer, which holds a header, the header is kept and EPROTO returned.
  pub read_tpm_buffer_small :
      (s : S) (buf : List ℕ) (n : ℕ)
      → length buf ≡ n
      → 10 ≤ n
      → n < length f
      → queue s ≡ f ++ rest
      → (s' : S) × (read_tpm_buffer st s 0 buf n
          ≡ some (record { stream = s'; index = 10; buf = take 10 f ++ drop 10 buf; ret = eproto }))
        × (queue s' ≡ drop 10 f ++ rest)
  read_tpm_buffer_small s buf n full header room q =
      let (s', e, q') = header_lem st queue w f rest m s buf (omega arith) q in
      (
        s',
        start_lem st s buf n header e refl
            ∙ read_body_refuses st (headed st queue w f rest m s' (drop 10 buf)) n (length f)
                (size_of_header f (drop 10 buf) m.header ∙ m.sized) (omega arith) room,
        q',
      )

module _ {S : Type 0} (r : Reading S) (n size : ℕ)
    (again : Reading S → ℕ → Option (S × Option (List ℕ × ℕ))) where
  judge_again :
      r.ret ≡ eproto
      → get_command_size r.buf ≡ size
      → 10 ≤ size
      → size ≤ util_buf_max
      → judge (some r) n again ≡ again r size
  unfolding judge
  judge_again e d h k = ground (arith, e, d)

  judge_done : r.ret ≡ 0 → judge (some r) n again ≡ some (r.stream, some (r.buf, n))
  unfolding judge
  judge_done e = ground (arith, e)

-- Where nothing stands behind the message.
drop_short : (f tail : List ℕ) (i : ℕ) → length tail ≤ i → f ++ drop i tail ≡ f
drop_short f tail i h = ap (◌++◌ f) (drop_all i tail h) ∙ append-nil f

module _ {S : Type 0} (st : Streams S) (queue : S → List ℕ) (w : IsReader st queue)
    (f rest : List ℕ) (m : IsMessage f) where
  -- The first round, for a message that is no more than a header.
  alloc_header :
      (junk g : ℕ) (s : S)
      → length f ≡ 10
      → queue s ≡ f ++ rest
      → Taken queue f rest (alloc_from st junk (suc g) s 0 [] 10)
  unfolding alloc_from realloc
  alloc_header junk g s e q =
      let buf : List ℕ = replicate 10 junk in
      let b = read_tpm_buffer_lem st queue w f rest m s buf 10 refl (omega arith) q in
      record {
        stream = b.stream;
        result =
            ap (λ r. judge r 10 λ r size. alloc_from st junk g r.stream r.index r.buf size) b.result
            ∙ (judge_done _ 10 0 _ refl
                ∙ ap₂ (λ l i. some (b.stream, some (l, i)))
                    (drop_short f (drop 10 buf) (length f - 10) (omega arith)) (sym e));
        behind = b.behind;
      }

  -- The second round, with the size that the header has.
  alloc_body :
      (junk g : ℕ) (s : S)
      → queue s ≡ drop 10 f ++ rest
      → Taken queue f rest (alloc_from st junk (suc g) s 10 (take 10 f) (length f))
  unfolding alloc_from realloc
  alloc_body junk g s q =
      let head = length-take_le 10 f m.header in
      let tail : List ℕ = replicate (length f - length (take 10 f)) junk in
      let size : length tail ≡ length f - 10 =
        length-replicate (length f - length (take 10 f)) junk ∙ ap (◌-◌ (length f)) head in
      let b = body_lem st queue w f rest m s tail (length f) (omega arith) (omega arith) q in
      let kept : take (length f) (take 10 f) ≡ take 10 f =
        take_all (length f) (take 10 f) (omega (arith, m.header)) in
      record {
        stream = b.stream;
        result =
            ap (λ r. judge r (length f) λ r size. alloc_from st junk g r.stream r.index r.buf size)
              (ap (λ l. read_tpm_buffer st s 10 (l ++ tail) (length f)) kept
                ∙ (resume_lem st s (take 10 f ++ tail) (length f) m.header ∙ b.result))
            ∙ (judge_done _ (length f) 0 _ refl
                ∙ ap (λ l. some (b.stream, some (l, length f)))
                    (drop_short f tail (length f - 10) (omega arith)));
        behind = b.behind;
      }

  alloc_lem :
      (junk g : ℕ) (s : S)
      → queue s ≡ f ++ rest
      → Taken queue f rest (alloc_from st junk (suc (suc g)) s 0 [] 10)
  unfolding alloc_from realloc
  alloc_lem junk g s q = elim (dec_lt 10 (length f)) [
    | no short ↦ alloc_header junk (suc g) s (omega (arith, m.header)) q
    | yes more ↦
        let buf : List ℕ = replicate 10 junk in
        let (s', e, q') =
          read_tpm_buffer_small st queue w f rest m s buf 10 refl (omega arith) more q in
        let b = alloc_body junk g s' q' in
        record {
          stream = b.stream;
          result =
              ap (λ r. judge r 10 λ r size. alloc_from st junk (suc g) r.stream r.index r.buf size)
                e
              ∙ (judge_again _ 10 (length f) _ refl
                    (size_of_header f (drop 10 buf) m.header ∙ m.sized) m.header m.bounded
                  ∙ (ap (λ l. alloc_from st junk (suc g) s' 10 l (length f))
                        (append-nil (take 10 f))
                      ∙ b.result));
          behind = b.behind;
        }
  ]

  -- From a stream that starts with a message of at most UTIL_BUF_MAX bytes, however it is cut into
  -- pieces, `read_tpm_buffer_alloc` takes exactly the message, in a buffer of its size.
  pub read_tpm_buffer_alloc_lem :
      (junk : ℕ) (s : S)
      → queue s ≡ f ++ rest
      → Taken queue f rest (read_tpm_buffer_alloc st junk s)
  unfolding read_tpm_buffer_alloc
  read_tpm_buffer_alloc_lem junk s q = alloc_lem junk 10 s q
