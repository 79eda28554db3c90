-- ===== src/Util/KeyValue.antt =====
-- The configuration strings of src/util.c: pairs `key=value`, separated by commas. A string is the
-- list of its characters; `strtok_r` is that of the C library.
pub mod Laws
pub mod Ends
use tpm2_abrmd.Prelude.{
  ℕ, zero, suc, List, [], ◌∷◌, Option, none, some, if◌then◌else◌, ◌==◌, length,
}
use tpm2_abrmd.Constants.TctiRc
use tpm2_abrmd.Constants.{rc_success}

pub record KeyValue : Type 0 where
  pub key : List ℕ
  pub value : List ℕ

-- The string from its first character that is no delimiter.
unfoldable pub skip : ℕ → List ℕ → List ℕ
skip delim [] = []
skip delim (c ∷ s) = let rest = skip delim s in if c == delim then rest else c ∷ s

-- The characters up to a delimiter, and those behind it.
unfoldable pub token : ℕ → List ℕ → List ℕ × List ℕ
token delim [] = ([], [])
token delim (c ∷ s) = let (t, r) = token delim s in if c == delim then ([], s) else (c ∷ t, r)

unfoldable pub token_of : ℕ → List ℕ → Option (List ℕ × List ℕ)
token_of delim [] = none
token_of delim (c ∷ s) = some (token delim (c ∷ s))

-- strtok_r: the token, and the state for the next call.
unfoldable pub strtok : ℕ → List ℕ → Option (List ℕ × List ℕ)
unfolding skip token token_of
strtok delim s = token_of delim (skip delim s)

-- `none` is FALSE.
unfoldable pub parse_key_value : List ℕ → Option KeyValue
unfolding strtok
parse_key_value key_value_str = elim (strtok b'=' key_value_str) [
  | none ↦ none
  | some (key, state) ↦ elim (strtok b'=' state) [
    | none ↦ none
    | some (value, rest) ↦ some (record { key = key; value = value })
  ]
]

module _ {S : Type 0} (callback : KeyValue → S → S × ℕ) where
  -- A token of the loop of `parse_key_value_string`; `again` is the rest of the loop.
  unfoldable pub on_token : Option KeyValue → S → (S → Option (S × ℕ)) → Option (S × ℕ)
  on_token none user again = some (user, TctiRc.bad_value)
  on_token (some kv) user again =
      let (user', rc) = callback kv user in
      if rc == rc_success then again user' else some (user', rc)

  -- The loop, on fuel; `none` means that it ran out.
  unfoldable pub parse_from : ℕ → List ℕ → S → Option (S × ℕ)
  unfolding on_token
  parse_from zero s user = none
  parse_from (suc f) s user = elim (strtok b',' s) [
    | none ↦ some (user, rc_success)
    | some (tok, rest) ↦ on_token (parse_key_value tok) user λ user'. parse_from f rest user'
  ]

  unfoldable pub parse_key_value_string : List ℕ → S → Option (S × ℕ)
  unfolding parse_from
  parse_key_value_string kv_str user = parse_from (suc (length kv_str)) kv_str user
