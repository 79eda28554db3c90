-- ===== src/Table.antt =====
-- A GHashTable as an association list with one entry for each key.
pub mod Laws
use tpm2_abrmd.Prelude.{
  ℕ, Bool, true, false, List, [], ◌∷◌, Option, none, some, if◌then◌else◌, ◌==◌, length, map,
}

abbrev pub Table {ℓ} : Type ℓ → Type ℓ
Table V = List (ℕ × V)

module _ {ℓ} {V : Type ℓ} where
  -- g_hash_table_lookup; NULL is `none`
  unfoldable pub lookup : ℕ → Table V → Option V
  lookup k [] = none
  lookup k ((j, w) ∷ t) = if j == k then some w else lookup k t

  -- g_hash_table_insert replaces the value of a key that is there.
  unfoldable pub insert : ℕ → V → Table V → Table V
  insert k v [] = (k, v) ∷ []
  insert k v ((j, w) ∷ t) = if j == k then (k, v) ∷ t else (j, w) ∷ insert k v t

  unfoldable pub remove_key : ℕ → Table V → Table V
  remove_key k [] = []
  remove_key k ((j, w) ∷ t) = if j == k then t else (j, w) ∷ remove_key k t

  unfoldable pub is_some : Option V → Bool
  is_some none = false
  is_some (some v) = true

  -- g_hash_table_contains, g_hash_table_lookup_extended
  unfoldable pub contains : ℕ → Table V → Bool
  unfolding lookup is_some
  contains k t = is_some (lookup k t)

  -- g_hash_table_remove: whether the key was there.
  unfoldable pub remove : ℕ → Table V → Table V × Bool
  remove k t = (remove_key k t, contains k t)

  -- g_hash_table_size
  abbrev pub size : Table V → ℕ
  size t = length t

  -- g_hash_table_get_keys
  unfoldable pub keys : Table V → List ℕ
  keys = map λ e. e.0
