-- ===== src/Util/Ends.antt =====
-- `read_tpm_buffer_alloc` of src/util.c on any stream, also on one that fails or ends.
use tpm2_abrmd.Prelude.{
  ℕ, ◌-◌, ◌≤◌, ◌<◌, ◌≡◌, ◌≢◌, refl, sym, subst, ◌∙◌, List, Option, some, length, arith,
}
use native.Mathlib.Decide.{dec_lt, ℕ_discrete}
use tpm2_abrmd.Prelude.Int.{sub64}
use tpm2_abrmd.Header.{get_command_size}
use tpm2_abrmd.Stream.{Streams, IsBounded, HasIoErrors}
use tpm2_abrmd.Util.{Reading, eproto, read_body, after_header, read_tpm_buffer}
use tpm2_abrmd.Util.Read.{read_data-Ends}

-- How the part behind the header ends: on EPROTO nothing was read, since the size field is larger
-- than the buffer.
record Body {S : Type 0} (r : Reading S) (o : Option (Reading S)) : Type 0 where
  pub reading : Reading S
  pub result : o ≡ some reading
  pub same_length : length reading.buf ≡ length r.buf
  pub moved : r.index ≤ reading.index
  pub refused : reading.ret ≡ eproto → reading.buf ≡ r.buf
  pub too_small : reading.ret ≡ eproto → length r.buf < get_command_size r.buf

-- How a call of `read_tpm_buffer` ends: on EPROTO the size field is larger than the buffer, and the
-- buffer is the old one where the index has not moved on or where the header was there.
pub record Round {S : Type 0} (index : ℕ) (buf : List ℕ) (o : Option (Reading S)) : Type 0 where
  pub reading : Reading S
  pub result : o ≡ some reading
  pub same_length : length reading.buf ≡ length buf
  pub moved : index ≤ reading.index
  pub still : reading.index ≤ index → reading.ret ≡ eproto → reading.buf ≡ buf
  pub kept : 10 ≤ index → reading.ret ≡ eproto → reading.buf ≡ buf
  pub too_small : reading.ret ≡ eproto → length buf < get_command_size reading.buf

module _ {S : Type 0} (st : Streams S) (bound : IsBounded st) (io : HasIoErrors st) where
  read_body-Body :
      (r : Reading S) (n : ℕ) → length r.buf ≡ n → r.ret ≢ eproto → Body r (read_body st r n)
  unfolding read_body
  read_body-Body r n full ok = elim (ℕ_discrete (get_command_size r.buf) 10) [
    | yes header ↦ record {
      reading = r;
      result = ground (arith, header);
      same_length = refl;
      moved = omega arith;
      refused = λ e. refl;
      too_small = λ e. absurd (ok e);
    }
    | no body ↦ elim (dec_lt n (get_command_size r.buf)) [
      | yes large ↦ record {
        reading = record r { ret = eproto };
        result = ground arith;
        same_length = refl;
        moved = omega arith;
        refused = λ e. refl;
        too_small = λ e. omega arith;
      }
      | no fits ↦
          let e =
            read_data-Ends st bound io r.stream r.index r.buf
              (sub64 (get_command_size r.buf) r.index) (omega arith) in
          record {
            reading = e.reading;
            result = ground (arith, e.result);
            same_length = e.same_length;
            moved = e.moved;
            refused = λ d. absurd (e.no_eproto d);
            too_small = λ d. absurd (e.no_eproto d);
          }
    ]
  ]

  -- Where the header is there.
  Round-of_body :
      (s : S) (index : ℕ) (buf : List ℕ) (n : ℕ)
      → 10 ≤ n
      → length buf ≡ n
      → 10 ≤ index
      → Round index buf (read_tpm_buffer st s index buf n)
  unfolding read_tpm_buffer
  Round-of_body s index buf n h full k =
      let r : Reading S = record { stream = s; index = index; buf = buf; ret = 0 } in
      let b = read_body-Body r n full (λ e. ground arith) in
      record {
        reading = b.reading;
        result = ground (arith, b.result);
        same_length = b.same_length;
        moved = b.moved;
        still = λ _ e. b.refused e;
        kept = λ _ e. b.refused e;
        too_small =
            λ e. subst (λ l. length buf < get_command_size l) (sym (b.refused e)) (b.too_small e);
      }

  -- Where the rest of the header is read first.
  Round-of_header :
      (s : S) (index : ℕ) (buf : List ℕ) (n : ℕ)
      → 10 ≤ n
      → length buf ≡ n
      → index < 10
      → Round index buf (read_tpm_buffer st s index buf n)
  unfolding read_tpm_buffer after_header
  Round-of_header s index buf n h full k =
      let e = read_data-Ends st bound io s index buf (10 - index) (omega arith) in
      elim (ℕ_discrete e.reading.ret 0) [
        | no failed ↦ record {
          reading = e.reading;
          result = ground (arith, e.result);
          same_length = e.same_length;
          moved = e.moved;
          still = λ _ d. absurd (e.no_eproto d);
          kept = λ _ d. absurd (e.no_eproto d);
          too_small = λ d. absurd (e.no_eproto d);
        }
        | yes done ↦
            let b = read_body-Body e.reading n (e.same_length ∙ full) e.no_eproto in
            record {
              reading = b.reading;
              result = ground (arith, e.result, b.result);
              same_length = b.same_length ∙ e.same_length;
              moved = omega (arith, b.moved, e.moved);
              still = λ i d. b.refused d ∙ e.still (omega (arith, b.moved));
              kept = λ i d. absurd (omega arith);
              too_small = λ d.
                  subst (λ l. length buf < get_command_size l) (sym (b.refused d))
                    (subst (λ i. i < get_command_size e.reading.buf) e.same_length (b.too_small d));
            }
      ]

  pub read_tpm_buffer-Round :
      (s : S) (index : ℕ) (buf : List ℕ) (n : ℕ)
      → 10 ≤ n
      → length buf ≡ n
      → Round index buf (read_tpm_buffer st s index buf n)
  read_tpm_buffer-Round s index buf n h full = elim (dec_lt index 10) [
    | yes k ↦ Round-of_header s index buf n h full k
    | no k ↦ Round-of_body s index buf n h full (omega arith)
  ]
