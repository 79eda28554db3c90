-- ===== src/Util/AllocEnds.antt =====
-- The loop of `read_tpm_buffer_alloc` of src/util.c: its fuel, and the bounds of what it returns.
use tpm2_abrmd.Prelude.{
  ℕ, zero, suc, ◌-◌, ◌≤◌, ◌<◌, ◌≡◌, refl, sym, ap, subst, ◌∙◌, List, [], ◌++◌, Option, some, none,
  length, take, replicate, length-append, length-replicate, length-take, take_all, arith,
}
use native.Mathlib.Decide.{dec_lt, ℕ_discrete}
use tpm2_abrmd.Header.{get_command_size}
use tpm2_abrmd.Stream.{Streams, IsBounded, HasIoErrors}
use tpm2_abrmd.Util.{
  Reading, eproto, util_buf_max, realloc, judge, alloc_from, read_tpm_buffer_alloc,
}
use tpm2_abrmd.Util.Memory.{get32-append}
use tpm2_abrmd.Util.Ends.{read_tpm_buffer-Round}

-- A buffer has the size returned with it, which lies within the bounds.
abbrev pub IsAnswer : Option (List ℕ × ℕ) → Type 0
IsAnswer none = Unit {0}
IsAnswer (some (buf, n)) = (length buf ≡ n) × (10 ≤ n) × (n ≤ util_buf_max)

-- The stream afterwards and the answer.
pub record Finishes {S : Type 0} (o : Option (S × Option (List ℕ × ℕ))) : Type 0 where
  pub stream : S
  pub answer : Option (List ℕ × ℕ)
  pub result : o ≡ some (stream, answer)
  pub valid : IsAnswer answer

length-realloc : (junk : ℕ) (buf : List ℕ) (n : ℕ) → length (realloc junk buf n) ≡ n
unfolding realloc
length-realloc junk buf n = omega (
  arith,
  length-append (take n buf) (replicate (n - length buf) junk),
  length-take n buf,
  length-replicate (n - length buf) junk,
)

size-realloc :
    (junk : ℕ) (buf : List ℕ) (n : ℕ)
    → 10 ≤ length buf
    → length buf ≤ n
    → get_command_size (realloc junk buf n) ≡ get_command_size buf
unfolding get_command_size realloc
size-realloc junk buf n h k =
    ap (λ l. get_command_size (l ++ replicate (n - length buf) junk)) (take_all n buf k)
    ∙ get32-append buf (replicate (n - length buf) junk) 2 (omega arith)

-- A round is over: the loop ends too, or starts again with more room.
judge_lem :
    {S : Type 0} (r : Reading S) (n : ℕ) (again : Reading S → ℕ → Option (S × Option (List ℕ × ℕ)))
    → length r.buf ≡ n
    → 10 ≤ n
    → n ≤ util_buf_max
    → (r.ret ≡ eproto
        → 10 ≤ get_command_size r.buf
        → get_command_size r.buf ≤ util_buf_max
        → Finishes (again r (get_command_size r.buf)))
    → Finishes (judge (some r) n again)
unfolding judge
judge_lem r n again full low high more = elim (ℕ_discrete r.ret eproto) [
  | no other ↦ elim (ℕ_discrete r.ret 0) [
    | yes done ↦ record {
      stream = r.stream;
      answer = some (r.buf, n);
      result = ground (arith, done);
      valid = (full, low, high);
    }
    | no failed ↦ record { stream = r.stream; answer = none; result = ground arith; valid = tt }
  ]
  | yes e ↦ elim (dec_lt (get_command_size r.buf) 10) [
    | yes small ↦ record {
      stream = r.stream;
      answer = none;
      result = ground (arith, e);
      valid = tt;
    }
    | no big ↦ elim (dec_lt util_buf_max (get_command_size r.buf)) [
      | yes huge ↦ record {
        stream = r.stream;
        answer = none;
        result = ground (arith, e);
        valid = tt;
      }
      | no fits ↦
          let f = more e (omega arith) (omega arith) in
          record {
            stream = f.stream;
            answer = f.answer;
            result = ground (arith, e, f.result);
            valid = f.valid;
          }
    ]
  ]
]

module _ {S : Type 0} (st : Streams S) (bound : IsBounded st) (io : HasIoErrors st) where
  -- Every further round moves the index on, which stays within the header.
  alloc_from-Finishes :
      (junk f : ℕ) (s : S) (index : ℕ) (buf : List ℕ) (n : ℕ)
      → 10 ≤ length buf
      → length buf ≤ n
      → get_command_size buf ≡ n
      → n ≤ util_buf_max
      → 10 - index < f
      → Finishes (alloc_from st junk f s index buf n)
  unfolding alloc_from
  alloc_from-Finishes junk zero s index buf n h k e m fuel = absurd (omega arith)
  alloc_from-Finishes junk (suc f) s index buf n h k e m fuel =
      let new = realloc junk buf n in
      let full = length-realloc junk buf n in
      let size = size-realloc junk buf n h k ∙ e in
      let r = read_tpm_buffer-Round st bound io s index new n (omega arith) full in
      let same : r.reading.buf ≡ new → get_command_size r.reading.buf ≡ n =
        λ d. ap get_command_size d ∙ size in
      subst (λ o. Finishes (judge o n λ r size. alloc_from st junk f r.stream r.index r.buf size))
        (sym r.result)
        (judge_lem r.reading n _ (r.same_length ∙ full) (omega arith) m λ d low high.
          elim (dec_lt index r.reading.index) [
            | no stays ↦ absurd (omega (arith, r.too_small d, full, same (r.still (omega arith) d)))
            | yes moves ↦ elim (dec_lt index 10) [
              | no past ↦ absurd (omega (arith, r.too_small d, full, same (r.kept (omega arith) d)))
              | yes within ↦
                  alloc_from-Finishes junk f r.reading.stream r.reading.index r.reading.buf
                    (get_command_size r.reading.buf) (omega (arith, r.same_length, full))
                    (omega (arith, r.same_length, full, r.too_small d)) refl high (omega arith)
            ]
          ])

  -- On every stream, also on one that fails or ends anywhere, `read_tpm_buffer_alloc` comes to an
  -- end: it returns NULL, or a buffer of the size that it returns with it, which is at least that of
  -- a header and at most UTIL_BUF_MAX.
  pub read_tpm_buffer_alloc-Finishes :
      (junk : ℕ) (s : S) → Finishes (read_tpm_buffer_alloc st junk s)
  unfolding read_tpm_buffer_alloc alloc_from
  read_tpm_buffer_alloc-Finishes junk s =
      let new = realloc junk [] 10 in
      let full = length-realloc junk [] 10 in
      let r = read_tpm_buffer-Round st bound io s 0 new 10 (omega arith) full in
      subst (λ o. Finishes (judge o 10 λ r size. alloc_from st junk 11 r.stream r.index r.buf size))
        (sym r.result)
        (judge_lem r.reading 10 _ (r.same_length ∙ full) (omega arith) (omega arith) λ d low high.
          alloc_from-Finishes junk 11 r.reading.stream r.reading.index r.reading.buf
            (get_command_size r.reading.buf) (omega (arith, r.same_length, full))
            (omega (arith, r.same_length, full)) refl high (omega arith))
