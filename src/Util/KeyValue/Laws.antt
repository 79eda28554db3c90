-- ===== src/Util/KeyValue/Laws.antt =====
-- What the parser of configuration strings of src/util.c does with the strings that it is meant for.
use tpm2_abrmd.Prelude.{
  ℕ, zero, suc, ◌<◌, ◌≤◌, ◌≡◌, ◌≢◌, refl, sym, ap, ap₂, subst, ◌∙◌, List, [], ◌∷◌, ◌++◌, Option,
  none, some, if◌then◌else◌, ◌==◌, ==-of_ne, length, length-append, arith,
}
use tpm2_abrmd.Constants.{rc_success}
use tpm2_abrmd.Util.KeyValue.{
  KeyValue, skip, token, token_of, strtok, parse_key_value, on_token, parse_from,
  parse_key_value_string,
}

-- A string with no delimiter.
abbrev pub Free : ℕ → List ℕ → Type 0
Free delim [] = Unit {0}
Free delim (c ∷ s) = (c ≢ delim) × Free delim s

token-Free : (delim : ℕ) (s : List ℕ) → Free delim s → token delim s ≡ (s, [])
unfolding token
token-Free delim [] h = refl
token-Free delim (c ∷ s) h = rw (token-Free delim s h.1, ==-of_ne c delim h.0) refl

token_until :
    (delim : ℕ) (s rest : List ℕ) → Free delim s → token delim (s ++ delim ∷ rest) ≡ (s, rest)
unfolding token
token_until delim [] rest h = ground arith
token_until delim (c ∷ s) rest h = rw (token_until delim s rest h.1, ==-of_ne c delim h.0) refl

skip_lem : (delim c : ℕ) (s : List ℕ) → c ≢ delim → skip delim (c ∷ s) ≡ c ∷ s
unfolding skip
skip_lem delim c s h = ground (arith, ==-of_ne c delim h)

strtok_end :
    (delim c : ℕ) (s : List ℕ) → Free delim (c ∷ s) → strtok delim (c ∷ s) ≡ some (c ∷ s, [])
unfolding strtok token_of
strtok_end delim c s h =
    ap (token_of delim) (skip_lem delim c s h.0) ∙ ap some (token-Free delim (c ∷ s) h)

strtok_until :
    (delim c : ℕ) (s rest : List ℕ)
    → Free delim (c ∷ s)
    → strtok delim ((c ∷ s) ++ delim ∷ rest) ≡ some (c ∷ s, rest)
unfolding strtok token_of
strtok_until delim c s rest h =
    ap (token_of delim) (skip_lem delim c (s ++ delim ∷ rest) h.0)
    ∙ ap some (token_until delim (c ∷ s) rest h)

strtok_empty : (delim : ℕ) → strtok delim [] ≡ none
unfolding strtok skip token_of
strtok_empty delim = refl

Free-append : (delim : ℕ) (s t : List ℕ) → Free delim s → Free delim t → Free delim (s ++ t)
Free-append delim [] t h k = k
Free-append delim (c ∷ s) t h k = (h.0, Free-append delim s t h.1 k)

-- A text of at least one character, with no delimiter.
pub record IsWord (s : List ℕ) : Type 0 where
  pub first : ℕ
  pub others : List ℕ
  pub shape : s ≡ first ∷ others
  pub no_equals : Free b'=' (first ∷ others)
  pub no_comma : Free b',' (first ∷ others)

abbrev pub AreWords : List KeyValue → Type 0
AreWords [] = Unit {0}
AreWords (kv ∷ kvs) = (IsWord kv.key × IsWord kv.value) × AreWords kvs

-- The string for a list of pairs.
abbrev pub print_pair : KeyValue → List ℕ
print_pair kv = kv.key ++ b'=' ∷ kv.value

abbrev pub print : List KeyValue → List ℕ
print [] = []
print (kv ∷ []) = print_pair kv
print (kv ∷ kv' ∷ kvs) = print_pair kv ++ b',' ∷ print (kv' ∷ kvs)

parse_pair :
    (kv : KeyValue) → IsWord kv.key → IsWord kv.value → parse_key_value (print_pair kv) ≡ some kv
unfolding parse_key_value
parse_pair kv k v =
    let first =
      ap (λ l. strtok b'=' (l ++ b'=' ∷ kv.value)) k.shape
      ∙ strtok_until b'=' k.first k.others kv.value k.no_equals in
    let second = ap (strtok b'=') v.shape ∙ strtok_end b'=' v.first v.others v.no_equals in
    rw (first, parse_key_value)
      (rw (second, parse_key_value)
        (ap₂ (λ a b. some (record { key = a; value = b })) (sym k.shape) (sym v.shape)))

-- A pair is a word with no comma.
pair_shape :
    (kv : KeyValue) (k : IsWord kv.key) → print_pair kv ≡ k.first ∷ (k.others ++ b'=' ∷ kv.value)
pair_shape kv k = ap (λ l. l ++ b'=' ∷ kv.value) k.shape

pair-Free :
    (kv : KeyValue) (k : IsWord kv.key)
    → IsWord kv.value
    → Free b',' (k.first ∷ (k.others ++ b'=' ∷ kv.value))
pair-Free kv k v = (
  k.no_comma.0,
  Free-append b',' k.others (b'=' ∷ kv.value) k.no_comma.1
      (differs, subst (Free b',') (sym v.shape) v.no_comma),
)
  where
    differs : ◌≢◌ {A = ℕ} b'=' b','
    differs = λ e. ground arith

module _ {S : Type 0} (callback : KeyValue → S → S × ℕ) where
  -- What the pairs do, one after the other, up to the first that is refused.
  pub feed : List KeyValue → S → S × ℕ
  feed [] user = (user, rc_success)
  feed (kv ∷ kvs) user =
      let (user', rc) = callback kv user in
      let rest = feed kvs user' in if rc == rc_success then rest else (user', rc)

  on_pair :
      (kv : KeyValue) (kvs : List KeyValue) (user : S) (again : S → Option (S × ℕ))
      → again (callback kv user).0 ≡ some (feed kvs (callback kv user).0)
      → on_token callback (some kv) user again ≡ some (feed (kv ∷ kvs) user)
  unfolding on_token feed
  on_pair kv kvs user again e = ground (arith, e)

  parse_end : (f : ℕ) (user : S) → parse_from callback (suc f) [] user ≡ some (user, rc_success)
  unfolding parse_from strtok skip token_of
  parse_end f user = refl

  parse_token :
      (f : ℕ) (s : List ℕ) (user : S) {tok rest : List ℕ} {kv : KeyValue}
      → strtok b',' s ≡ some (tok, rest)
      → parse_key_value tok ≡ some kv
      → parse_from callback (suc f) s user
        ≡ on_token callback (some kv) user (λ user'. parse_from callback f rest user')
  unfolding parse_from
  parse_token f s user e d = rw (e, parse_from) (rw (d) refl)

  parse_lem :
      (f : ℕ) (kvs : List KeyValue) (user : S)
      → AreWords kvs
      → length kvs < f
      → parse_from callback f (print kvs) user ≡ some (feed kvs user)
  unfolding feed
  parse_lem zero kvs user h k = absurd (omega arith)
  parse_lem (suc f) [] user h k = parse_end f user
  parse_lem (suc zero) (kv ∷ kvs) user h k = absurd (omega arith)
  parse_lem (suc (suc f)) (kv ∷ []) user h k =
      parse_token (suc f) (print_pair kv) user
        (ap (strtok b',') (pair_shape kv h.0.0)
          ∙ (strtok_end b',' _ _ (pair-Free kv h.0.0 h.0.1)
              ∙ ap (λ l. some (l, [])) (sym (pair_shape kv h.0.0))))
        (parse_pair kv h.0.0 h.0.1)
      ∙ on_pair kv [] user _ (parse_end f (callback kv user).0)
  parse_lem (suc (suc f)) (kv ∷ kv' ∷ kvs) user h k =
      parse_token (suc f) (print_pair kv ++ b',' ∷ print (kv' ∷ kvs)) user
        (ap (λ l. strtok b',' (l ++ b',' ∷ print (kv' ∷ kvs))) (pair_shape kv h.0.0)
          ∙ (strtok_until b',' _ _ (print (kv' ∷ kvs)) (pair-Free kv h.0.0 h.0.1)
              ∙ ap (λ l. some (l, print (kv' ∷ kvs))) (sym (pair_shape kv h.0.0))))
        (parse_pair kv h.0.0 h.0.1)
      ∙ on_pair kv (kv' ∷ kvs) user _
          (parse_lem (suc f) (kv' ∷ kvs) (callback kv user).0 h.1 (omega arith))

  length-print : (kvs : List KeyValue) → AreWords kvs → length kvs ≤ length (print kvs)
  length-print [] h = omega arith
  length-print (kv ∷ []) h = omega (arith, length-append kv.key (b'=' ∷ kv.value))
  length-print (kv ∷ kv' ∷ kvs) h = omega (
    arith,
    length-append (print_pair kv) (b',' ∷ print (kv' ∷ kvs)),
    length-print (kv' ∷ kvs) h.1,
  )

  -- A string of pairs `key=value` with commas between them, whose keys and values are words with
  -- neither a comma nor an equals sign, is parsed into exactly these pairs: the callback gets them
  -- in order, up to the first that it refuses, and its code is returned.
  pub parse_key_value_string-print :
      (kvs : List KeyValue) (user : S)
      → AreWords kvs
      → parse_key_value_string callback (print kvs) user ≡ some (feed kvs user)
  unfolding parse_key_value_string
  parse_key_value_string-print kvs user h =
      parse_lem (suc (length (print kvs))) kvs user h (omega (arith, length-print kvs h))
