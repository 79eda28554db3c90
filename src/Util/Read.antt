-- ===== src/Util/Read.antt =====
-- What `read_data` of src/util.c takes from a stream, and that it comes to an end on every stream.
use tpm2_abrmd.Prelude.{
  ℕ, zero, suc, ◌+◌, ◌-◌, ◌^◌, ◌≤◌, ◌<◌, ◌≡◌, ◌≢◌, refl, sym, ap, ap₂, subst, ◌∙◌, List, Option,
  some, length, take, drop, length-drop, arith,
}
use native.Mathlib.Decide.{dec_lt}
use tpm2_abrmd.Prelude.Int.{sub64, sub64-of_le}
use tpm2_abrmd.Bytes.{memcpy}
use tpm2_abrmd.Bytes.Laws.{length-memcpy}
use tpm2_abrmd.Stream.{
  Streams, ReadResult, bytes, read_error, length_of, IsReader, IsBounded, HasIoErrors,
}
use tpm2_abrmd.Util.{eof, eproto, Reading, read_from, read_data}
use tpm2_abrmd.Util.Memory.{take-add, drop-drop, memcpy-append, length-take_le}

-- A read of `c` bytes to an index of a buffer: they are the next ones of the queue.
pub record Got {S : Type 0} (queue : S → List ℕ) (s : S) (index : ℕ) (buf : List ℕ) (c : ℕ)
    (r : Option (Reading S)) : Type 0 where
  pub stream : S
  pub result :
      r
      ≡ some (record {
        stream = stream;
        index = index + c;
        buf = memcpy buf index (take c (queue s));
        ret = 0;
      })
  pub rest : queue stream ≡ drop c (queue s)

-- One round of the loop, after a read of the bytes `c`.
module _ {S : Type 0} (st : Streams S) (f : ℕ) (s : S) (index : ℕ) (buf : List ℕ) (n : ℕ)
    (c : List ℕ) (e : (st.read s n).1 ≡ bytes c) (h : 0 < length c) where
  pub read_from_more :
      (m : ℕ)
      → sub64 n (length c) ≡ m
      → 0 < m
      → read_from st (suc f) s index buf n
        ≡ read_from st f (st.read s n).0 (index + length c) (memcpy buf index c) m
  unfolding read_from
  read_from_more m d k = ground (arith, e, d)

  pub read_from_done :
      sub64 n (length c) ≡ 0
      → read_from st (suc f) s index buf n
        ≡ some (record {
          stream = (st.read s n).0;
          index = index + length c;
          buf = memcpy buf index c;
          ret = 0;
        })
  unfolding read_from
  read_from_done d = ground (arith, e, d)

module _ {S : Type 0} (st : Streams S) (queue : S → List ℕ) (w : IsReader st queue) where
  -- A read of `k` bytes and then one of the others.
  Got-more :
      (s s' : S) (index : ℕ) (buf : List ℕ) (n k : ℕ) {r r' : Option (Reading S)}
      → k ≤ n
      → k ≤ length (queue s)
      → queue s' ≡ drop k (queue s)
      → r ≡ r'
      → Got queue s' (index + k) (memcpy buf index (take k (queue s))) (n - k) r'
      → Got queue s index buf n r
  Got-more s s' index buf n k h there e same ih = record {
    stream = ih.stream;
    result =
        same
        ∙ (ih.result
            ∙ ap₂ (λ i b. some (record { stream = ih.stream; index = i; buf = b; ret = 0 }))
                (omega arith)
                (ap (λ l. memcpy (memcpy buf index (take k (queue s))) (index + k) (take (n - k) l))
                    e
                  ∙ (ap
                        (λ i.
                          memcpy (memcpy buf index (take k (queue s))) (index + i)
                            (take (n - k) (drop k (queue s))))
                        (sym (length-take_le k (queue s) there))
                      ∙ (memcpy-append buf index (take k (queue s))
                            (take (n - k) (drop k (queue s)))
                          ∙ ap (memcpy buf index) (
                              take-add k (n - k) (queue s)
                              ∙ ap (λ i. take i (queue s)) (omega arith))))));
    rest =
        ih.rest
        ∙ (ap (drop (n - k)) e
            ∙ (drop-drop k (n - k) (queue s) ∙ ap (λ i. drop i (queue s)) (omega arith)));
  }

  read_from_lem :
      (f : ℕ) (s : S) (index : ℕ) (buf : List ℕ) (n : ℕ)
      → 0 < n
      → n ≤ length (queue s)
      → n < 2 ^ 63
      → n < f
      → Got queue s index buf n (read_from st f s index buf n)
  unfolding read_from
  read_from_lem zero s index buf n h k b e = absurd (omega arith)
  read_from_lem (suc f) s index buf n h k b e =
      let p = w.reads s n h b (omega arith) in
      let l = length-take_le p.k (queue s) p.there in
      let left = sub64-of_le n p.k p.within (omega arith) in
      elim (dec_lt p.k n) [
        | yes more ↦
            Got-more s (st.read s n).0 index buf n p.k p.within p.there p.rest
              (read_from_more st f s index buf n (take p.k (queue s)) p.result
                  (omega (arith, p.some_byte)) (n - p.k) (ap (sub64 n) l ∙ left) (omega arith)
                ∙ ap
                    (λ i.
                      read_from st f (st.read s n).0 (index + i)
                        (memcpy buf index (take p.k (queue s))) (n - p.k))
                    l)
              (read_from_lem f (st.read s n).0 (index + p.k) (memcpy buf index (take p.k (queue s)))
                (n - p.k) (omega arith) (omega (arith, ap length p.rest, length-drop p.k (queue s)))
                (omega arith) (omega (arith, p.some_byte)))
        | no done ↦
            let all : p.k ≡ n = omega (arith, p.within) in
            record {
              stream = (st.read s n).0;
              result =
                  read_from_done st f s index buf n (take p.k (queue s)) p.result
                    (omega (arith, p.some_byte)) (ap (sub64 n) l ∙ (left ∙ omega arith))
                  ∙ ap₂
                      (λ i b.
                        some (record { stream = (st.read s n).0; index = i; buf = b; ret = 0 }))
                      (omega arith) (ap (λ i. memcpy buf index (take i (queue s))) all);
              rest = subst (λ i. queue (st.read s n).0 ≡ drop i (queue s)) all p.rest;
            }
      ]

  -- On a stream that delivers, `read_data` fills the `count` bytes at the index with the next bytes
  -- of the stream, however they are cut into pieces, moves the index behind them and returns 0.
  pub read_data_lem :
      (s : S) (index : ℕ) (buf : List ℕ) (count : ℕ)
      → 0 < count
      → count ≤ length (queue s)
      → count < 2 ^ 63
      → Got queue s index buf count (read_data st s index buf count)
  unfolding read_data
  read_data_lem s index buf count h k b =
      read_from_lem (suc count) s index buf count h k b (omega arith)

within : {r : ReadResult} (c : List ℕ) (n : ℕ) → r ≡ bytes c → length_of r ≤ n → length c ≤ n
within c n e h = subst (λ r. length_of r ≤ n) e h

-- How a read to an index of a buffer ends on any stream: with a code that is not EPROTO, with a
-- buffer of the same length, which is the same buffer where the index has not moved on.
pub record Ends {S : Type 0} (index : ℕ) (buf : List ℕ) (r : Option (Reading S)) : Type 0 where
  pub reading : Reading S
  pub result : r ≡ some reading
  pub no_eproto : reading.ret ≢ eproto
  pub same_length : length reading.buf ≡ length buf
  pub moved : index ≤ reading.index
  pub still : reading.index ≤ index → reading.buf ≡ buf

module _ {S : Type 0} (st : Streams S) (bound : IsBounded st) (io : HasIoErrors st) where
  Ends-step :
      (f : ℕ) (s : S) (index : ℕ) (buf : List ℕ) (n : ℕ)
      → n < 2 ^ 64
      → ((index : ℕ) (buf : List ℕ) (m : ℕ)
          → m < n
          → Ends index buf (read_from st f (st.read s n).0 index buf m))
      → (r : ReadResult) → (st.read s n).1 ≡ r
      → Ends index buf (read_from st (suc f) s index buf n)
  unfolding read_from
  Ends-step f s index buf n b ih (read_error code) e = record {
    reading = record { stream = (st.read s n).0; index = index; buf = buf; ret = code };
    result = ground (arith, e);
    no_eproto = λ d. ground (arith, io.small s n code e);
    same_length = refl;
    moved = omega arith;
    still = λ _. refl;
  }
  Ends-step f s index buf n b ih (bytes c) e = elim (dec_lt 0 (length c)) [
    | no empty ↦ record {
      reading = record { stream = (st.read s n).0; index = index; buf = buf; ret = eof };
      result = ground (arith, e);
      no_eproto = λ d. ground (arith);
      same_length = refl;
      moved = omega arith;
      still = λ _. refl;
    }
    | yes byte ↦ elim (dec_lt (length c) n) [
      | yes more ↦
          let left = sub64-of_le n (length c) (omega arith) b in
          let rest = ih (index + length c) (memcpy buf index c) (n - length c) (omega arith) in
          record {
            reading = rest.reading;
            result =
                read_from_more st f s index buf n c e byte (n - length c) left (omega arith)
                ∙ rest.result;
            no_eproto = rest.no_eproto;
            same_length = rest.same_length ∙ length-memcpy buf index c;
            moved = omega (arith, rest.moved);
            still = λ d. absurd (omega (arith, rest.moved));
          }
      | no done ↦
          let full : length c ≤ n = within c n e (bound.read_within s n) in
          record {
            reading = record {
              stream = (st.read s n).0;
              index = index + length c;
              buf = memcpy buf index c;
              ret = 0;
            };
            result =
                read_from_done st f s index buf n c e byte
                  (sub64-of_le n (length c) full b ∙ omega arith);
            no_eproto = λ d. ground (arith);
            same_length = length-memcpy buf index c;
            moved = omega arith;
            still = λ d. absurd (omega arith);
          }
    ]
  ]

  read_from-Ends :
      (f : ℕ) (s : S) (index : ℕ) (buf : List ℕ) (n : ℕ)
      → n < 2 ^ 64
      → n < f
      → Ends index buf (read_from st f s index buf n)
  read_from-Ends zero s index buf n b h = absurd (omega arith)
  read_from-Ends (suc f) s index buf n b h =
      Ends-step f s index buf n b
        (λ index' buf' m k.
          read_from-Ends f (st.read s n).0 index' buf' m (omega arith) (omega arith))
        (st.read s n).1 refl

  -- On every stream, also on one that fails or ends, `read_data` comes to an end, and what it returns
  -- is not EPROTO; the buffer keeps its length, and its bytes where the index has not moved on.
  pub read_data-Ends :
      (s : S) (index : ℕ) (buf : List ℕ) (count : ℕ)
      → count < 2 ^ 64
      → Ends index buf (read_data st s index buf count)
  unfolding read_data
  read_data-Ends s index buf count b = read_from-Ends (suc count) s index buf count b (omega arith)
