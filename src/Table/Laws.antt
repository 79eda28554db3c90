-- ===== src/Table/Laws.antt =====
-- The laws of a table that its users rely on.
use tpm2_abrmd.Prelude.{
  ℕ, ◌+◌, ◌-◌, ◌≤◌, ◌≡◌, ◌≢◌, refl, true, false, [], ◌∷◌, none, some, if◌then◌else◌, ◌==◌, arith,
}
use tpm2_abrmd.Table.{Table, lookup, insert, remove_key, contains, is_some, size}

-- Each key stands once.
abbrev pub Distinct {ℓ} : {V : Type ℓ} → Table V → Type 0
Distinct [] = Unit
Distinct ((k, v) ∷ t) = (contains k t ≡ false) × Distinct t

-- Every key has the property.
abbrev pub AllKeys {ℓ κ} : {V : Type ℓ} → (ℕ → Type κ) → Table V → Type κ
AllKeys P [] = Unit
AllKeys P ((k, v) ∷ t) = P k × AllKeys P t

module _ {ℓ} {V : Type ℓ} where
  pub lookup-insert :
      (k j : ℕ) (v : V) (t : Table V)
      → lookup j (insert k v t) ≡ (if k == j then some v else lookup j t)
  unfolding lookup insert
  lookup-insert k j v [] = refl
  lookup-insert k j v ((i, w) ∷ t) = ground (arith, lookup-insert k j v t)

  pub contains-insert :
      (k j : ℕ) (v : V) (t : Table V)
      → contains j (insert k v t) ≡ (if k == j then true else contains j t)
  unfolding contains
  contains-insert k j v t = ground (arith, lookup-insert k j v t)

  pub lookup-remove_ne : (k j : ℕ) (t : Table V) → k ≢ j → lookup j (remove_key k t) ≡ lookup j t
  unfolding lookup remove_key
  lookup-remove_ne k j [] h = refl
  lookup-remove_ne k j ((i, w) ∷ t) h = ground (arith, lookup-remove_ne k j t h)

  pub lookup-remove_self : (k : ℕ) (t : Table V) → Distinct t → lookup k (remove_key k t) ≡ none
  unfolding lookup remove_key contains
  lookup-remove_self k [] d = refl
  lookup-remove_self k ((i, w) ∷ t) d = ground (arith, lookup-remove_self k t d.1)

  pub contains-remove_ne :
      (k j : ℕ) (t : Table V) → k ≢ j → contains j (remove_key k t) ≡ contains j t
  unfolding contains
  contains-remove_ne k j t h = ground (arith, lookup-remove_ne k j t h)

  pub insert-Distinct : (k : ℕ) (v : V) (t : Table V) → Distinct t → Distinct (insert k v t)
  unfolding insert contains
  insert-Distinct k v [] d = (refl, tt)
  insert-Distinct k v ((i, w) ∷ t) d =
      ground (arith, insert-Distinct k v t d.1, lookup-insert k i v t)

  pub contains-remove_false :
      (k j : ℕ) (t : Table V) → contains j t ≡ false → contains j (remove_key k t) ≡ false
  unfolding contains lookup remove_key is_some
  contains-remove_false k j [] h = refl
  contains-remove_false k j ((i, w) ∷ t) h = ground (arith, contains-remove_false k j t)

  pub remove-Distinct : (k : ℕ) (t : Table V) → Distinct t → Distinct (remove_key k t)
  unfolding remove_key
  remove-Distinct k [] d = tt
  remove-Distinct k ((i, w) ∷ t) d =
      ground (arith, remove-Distinct k t d.1, contains-remove_false k i t)

  pub size-insert :
      (k : ℕ) (v : V) (t : Table V)
      → size (insert k v t) ≡ (if contains k t then size t else size t + 1)
  unfolding insert contains lookup is_some
  size-insert k v [] = refl
  size-insert k v ((i, w) ∷ t) = ground (arith, size-insert k v t)

  pub size-remove :
      (k : ℕ) (t : Table V) → size (remove_key k t) ≡ (if contains k t then size t - 1 else size t)
  unfolding remove_key contains lookup is_some
  size-remove k [] = refl
  size-remove k ((i, w) ∷ t) = ground (arith, size-remove k t, size-pos t)
    where
      size-pos : (t : Table V) → contains k t ≡ true → 1 ≤ size t
      size-pos [] h = cc
      size-pos (e ∷ t) h = omega arith

  pub contains_of_AllKeys {κ} :
      (P : ℕ → Type κ) (k : ℕ) (t : Table V) → AllKeys P t → contains k t ≡ true → P k
  unfolding contains lookup is_some
  contains_of_AllKeys P k [] a h = cc
  contains_of_AllKeys P k ((i, w) ∷ t) a h = ground (arith, contains_of_AllKeys P k t a.1)

  pub insert-AllKeys {κ} :
      (P : ℕ → Type κ) (k : ℕ) (v : V) (t : Table V) → P k → AllKeys P t → AllKeys P (insert k v t)
  unfolding insert
  insert-AllKeys P k v [] p a = (p, tt)
  insert-AllKeys P k v ((i, w) ∷ t) p a = ground (arith, insert-AllKeys P k v t p a.1)

  pub remove-AllKeys {κ} :
      (P : ℕ → Type κ) (k : ℕ) (t : Table V) → AllKeys P t → AllKeys P (remove_key k t)
  unfolding remove_key
  remove-AllKeys P k [] a = tt
  remove-AllKeys P k ((i, w) ∷ t) a = ground (arith, remove-AllKeys P k t a.1)
