-- ===== src/Util/KeyValue/Ends.antt =====
-- The loop of `parse_key_value_string` of src/util.c on any string.
use tpm2_abrmd.Prelude.{
  ℕ, zero, suc, ◌<◌, ◌≤◌, ◌≡◌, refl, ap, List, [], ◌∷◌, Option, none, some, length, arith,
}
use native.Mathlib.Decide.{ℕ_discrete}
use mathlib.Core.Option.{some-injective, none-ne-some}
use tpm2_abrmd.Constants.TctiRc
use tpm2_abrmd.Constants.{rc_success}
use tpm2_abrmd.Util.KeyValue.{
  KeyValue, skip, token, token_of, strtok, parse_key_value, on_token, parse_from,
  parse_key_value_string,
}

length-token : (delim : ℕ) (s : List ℕ) → length (token delim s).1 ≤ length s
unfolding token
length-token delim [] = omega arith
length-token delim (c ∷ s) = ground (arith, length-token delim s)

length-rest : (delim c : ℕ) (s : List ℕ) → length (token delim (c ∷ s)).1 ≤ length s
unfolding token
length-rest delim c s = ground (arith, length-token delim s)

length-skip : (delim : ℕ) (s : List ℕ) → length (skip delim s) ≤ length s
unfolding skip
length-skip delim [] = omega arith
length-skip delim (c ∷ s) = ground (arith, length-skip delim s)

length-token_of :
    (delim : ℕ) (s : List ℕ) {tok rest : List ℕ}
    → token_of delim s ≡ some (tok, rest)
    → length rest < length s
unfolding token_of
length-token_of delim [] e = absurd (none-ne-some _ e)
length-token_of delim (c ∷ s) e =
    let d = ap (λ (p : List ℕ × List ℕ). length p.1) (some-injective _ _ e) in
    omega (arith, d, length-rest delim c s)

-- What is left after a token is shorter.
length-strtok :
    (delim : ℕ) (s : List ℕ) {tok rest : List ℕ}
    → strtok delim s ≡ some (tok, rest)
    → length rest < length s
unfolding strtok
length-strtok delim s e = omega (arith, length-token_of delim (skip delim s) e, length-skip delim s)

module _ {S : Type 0} (callback : KeyValue → S → S × ℕ) where
  on_token_ends :
      (kv : Option KeyValue) (user : S) (again : S → Option (S × ℕ))
      → ((user' : S) → (r : S × ℕ) × (again user' ≡ some r))
      → (r : S × ℕ) × (on_token callback kv user again ≡ some r)
  unfolding on_token
  on_token_ends none user again h = ((user, TctiRc.bad_value), refl)
  on_token_ends (some kv) user again h = elim (ℕ_discrete (callback kv user).1 rc_success) [
    | yes z ↦ let (r, e) = h (callback kv user).0 in (r, ground (arith, z, e))
    | no k ↦ (callback kv user, ground arith)
  ]

  parse_from_ends :
      (f : ℕ) (s : List ℕ) (user : S)
      → length s < f
      → (r : S × ℕ) × (parse_from callback f s user ≡ some r)
  unfolding parse_from
  parse_from_ends zero s user h = absurd (omega arith)
  parse_from_ends (suc f) s user h =
      go (strtok b',' s) refl λ rest k user'. parse_from_ends f rest user' k
    where
      go :
          (o : Option (List ℕ × List ℕ))
          → strtok b',' s ≡ o
          → ((rest : List ℕ)
              → length rest < f
              → (user' : S) → (r : S × ℕ) × (parse_from callback f rest user' ≡ some r))
          → (r : S × ℕ) × (parse_from callback (suc f) s user ≡ some r)
      go none e ih = ((user, rc_success), rw (e, parse_from) refl)
      go (some (tok, rest)) e ih =
          let (r, d) =
            on_token_ends (parse_key_value tok) user (λ user'. parse_from callback f rest user')
              (ih rest (omega (arith, length-strtok b',' s e))) in
          (r, rw (e, parse_from) d)

  -- The parser comes to an end on every string, with a code.
  pub parse_key_value_string_ends :
      (kv_str : List ℕ) (user : S)
      → (r : S × ℕ) × (parse_key_value_string callback kv_str user ≡ some r)
  unfolding parse_key_value_string
  parse_key_value_string_ends kv_str user =
      parse_from_ends (suc (length kv_str)) kv_str user (omega arith)
