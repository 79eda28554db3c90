-- ===== src/Util/Frames.antt =====
-- How `read_tpm_buffer` and `read_tpm_buffer_alloc` of src/util.c cut a stream into the buffers of
-- commands and responses.
use tpm2_abrmd.Prelude.{
  ℕ, ◌+◌, ◌-◌, ◌≤◌, ◌<◌, ◌≡◌, refl, sym, ap, ap₂, ◌∙◌, List, [], ◌++◌, Option, some, length, take,
  drop, length-drop, length-append, drop_append, take_append, take_all, arith,
}
use native.Mathlib.Decide.{dec_lt}
use mathlib.Core.List.{append_assoc}
use tpm2_abrmd.Prelude.Int.{sub64, sub64-of_le}
use tpm2_abrmd.Bytes.{memcpy, get32}
use tpm2_abrmd.Header.{get_command_size}
use tpm2_abrmd.Stream.{Streams, IsReader}
use tpm2_abrmd.Util.{Reading, eproto, util_buf_max, read_data, read_body}
use tpm2_abrmd.Util.Memory.{
  drop_all, take-drop, take-append_le, drop-append_le, length-take_le, memcpy_splice, get32-append,
}
use tpm2_abrmd.Util.Read.{Got, read_data_lem}

-- A buffer with a header whose size field is the length of the whole.
pub record IsMessage (f : List ℕ) : Type 0 where
  pub header : 10 ≤ length f
  pub bounded : length f ≤ util_buf_max
  pub sized : get_command_size f ≡ length f

pub size_of_header :
    (f tail : List ℕ) → 10 ≤ length f → get_command_size (take 10 f ++ tail) ≡ get_command_size f
unfolding get_command_size
size_of_header f tail h =
    get32-append (take 10 f) tail 2 (omega (arith, length-take_le 10 f h))
    ∙ (sym (get32-append (take 10 f) (drop 10 f) 2 (omega (arith, length-take_le 10 f h)))
        ∙ ap (λ l. get32 l 2) (take-drop 10 f))

-- A write of `vs` at the end of `pre` into what follows it.
pub memcpy_into :
    (pre tail vs : List ℕ) (o : ℕ)
    → o ≡ length pre
    → length vs ≤ length tail
    → memcpy (pre ++ tail) o vs ≡ pre ++ (vs ++ drop (length vs) tail)
memcpy_into pre tail vs o e h =
    ap₂ (λ l i. memcpy (pre ++ l) i vs) (sym (take-drop (length vs) tail)) e
    ∙ memcpy_splice pre (take (length vs) tail) (drop (length vs) tail) vs
        (length-take_le (length vs) tail h)

module _ {S : Type 0} (st : Streams S) (r : Reading S) (n size : ℕ)
    (e : get_command_size r.buf ≡ size) where
  pub read_body_stops : size ≡ 10 → read_body st r n ≡ some r
  unfolding read_body
  read_body_stops h = ground (arith, e)

  pub read_body_refuses : 10 < size → n < size → read_body st r n ≡ some (record r { ret = eproto })
  unfolding read_body
  read_body_refuses h k = ground (arith, e)

  pub read_body_reads :
      10 < size
      → size ≤ n
      → read_body st r n ≡ read_data st r.stream r.index r.buf (sub64 size r.index)
  unfolding read_body
  read_body_reads h k = ground (arith, e)

-- What `read_tpm_buffer` makes of a message `f` at the head of the queue, in a buffer with `tail`
-- behind the header.
pub record Framed {S : Type 0} (queue : S → List ℕ) (f tail rest : List ℕ) (r : Option (Reading S))
    : Type 0 where
  pub stream : S
  pub result :
      r
      ≡ some (record {
        stream = stream;
        index = length f;
        buf = f ++ drop (length f - 10) tail;
        ret = 0;
      })
  pub behind : queue stream ≡ rest

module _ {S : Type 0} (st : Streams S) (queue : S → List ℕ) (w : IsReader st queue)
    (f rest : List ℕ) (m : IsMessage f) where
  -- The header in its buffer.
  abbrev pub headed : S → List ℕ → Reading S
  headed s tail = record { stream = s; index = 10; buf = take 10 f ++ tail; ret = 0 }

  body_of_header :
      (s : S) (tail : List ℕ) (n : ℕ)
      → length f ≡ 10
      → queue s ≡ drop 10 f ++ rest
      → Framed queue f tail rest (read_body st (headed s tail) n)
  body_of_header s tail n e q =
      let whole : take 10 f ≡ f = take_all 10 f (omega arith) in
      let none_left : 0 ≡ length f - 10 = omega arith in
      record {
        stream = s;
        result =
            read_body_stops st (headed s tail) n 10 (size_of_header f tail m.header ∙ (m.sized ∙ e))
              refl
            ∙ ap₂ (λ i b. some (record { stream = s; index = i; buf = b; ret = 0 })) (sym e)
                (ap₂ (λ h i. h ++ drop i tail) whole none_left);
        behind = q ∙ ap (λ l. l ++ rest) (drop_all 10 f (omega arith));
      }

  body_of_rest :
      (s : S) (tail : List ℕ) (n : ℕ)
      → 10 < length f
      → length f ≤ 10 + length tail
      → length f ≤ n
      → queue s ≡ drop 10 f ++ rest
      → Got queue s 10
          (take 10 f ++ tail)
          (length f - 10)
          (read_data st s 10 (take 10 f ++ tail) (length f - 10))
      → Framed queue f tail rest (read_body st (headed s tail) n)
  body_of_rest s tail n more fits room q g =
      let len : length (drop 10 f) ≡ length f - 10 = length-drop 10 f in
      let all : take (length f - 10) (queue s) ≡ drop 10 f =
        ap₂ take (sym len) q ∙ take_append (drop 10 f) rest in
      record {
        stream = g.stream;
        result =
            read_body_reads st (headed s tail) n (length f)
              (size_of_header f tail m.header ∙ m.sized) more room
            ∙ (ap (read_data st s 10 (take 10 f ++ tail))
                  (sub64-of_le (length f) 10 m.header (omega (arith, m.bounded)))
                ∙ (g.result
                    ∙ ap₂ (λ i b. some (record { stream = g.stream; index = i; buf = b; ret = 0 }))
                        (omega arith)
                        (ap (memcpy (take 10 f ++ tail) 10) all
                          ∙ (memcpy_into (take 10 f) tail (drop 10 f) 10
                                (sym (length-take_le 10 f m.header)) (omega arith)
                              ∙ (sym (
                                    append_assoc (take 10 f) (drop 10 f)
                                      (drop (length (drop 10 f)) tail))
                                  ∙ ap₂ (λ h i. h ++ drop i tail) (take-drop 10 f) len)))));
        behind = g.rest ∙ (ap₂ drop (sym len) q ∙ drop_append (drop 10 f) rest);
      }

  pub body_lem :
      (s : S) (tail : List ℕ) (n : ℕ)
      → length f ≤ 10 + length tail
      → length f ≤ n
      → queue s ≡ drop 10 f ++ rest
      → Framed queue f tail rest (read_body st (headed s tail) n)
  body_lem s tail n fits room q = elim (dec_lt 10 (length f)) [
    | no short ↦ body_of_header s tail n (omega (arith, m.header)) q
    | yes more ↦ body_of_rest s tail n more fits room q (
        read_data_lem st queue w s 10 (take 10 f ++ tail) (length f - 10) (omega arith)
          (omega (arith, ap length q, length-append (drop 10 f) rest, length-drop 10 f))
          (omega (arith, m.bounded)))
  ]

  -- The read of the header, at the start of a message.
  pub header_lem :
      (s : S) (buf : List ℕ)
      → 10 ≤ length buf
      → queue s ≡ f ++ rest
      → (s' : S) × (read_data st s 0 buf 10 ≡ some (headed s' (drop 10 buf)))
        × (queue s' ≡ drop 10 f ++ rest)
  header_lem s buf room q =
      let g =
        read_data_lem st queue w s 0 buf 10 (omega arith)
          (omega (arith, ap length q, length-append f rest, m.header)) (omega arith) in
      let first : take 10 (queue s) ≡ take 10 f =
        ap (take 10) q ∙ take-append_le 10 f rest m.header in
      let len = length-take_le 10 f m.header in
      (
        g.stream,
        g.result
            ∙ ap (λ b. some (record { stream = g.stream; index = 10; buf = b; ret = 0 }))
                (ap (memcpy buf 0) first
                  ∙ (memcpy_into [] buf (take 10 f) 0 refl (omega arith)
                      ∙ ap (λ i. take 10 f ++ drop i buf) len)),
        g.rest ∙ (ap (drop 10) q ∙ drop-append_le 10 f rest m.header),
      )
