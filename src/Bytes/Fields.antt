-- ===== src/Bytes/Fields.antt =====
-- Fields that lie apart in a buffer do not disturb one another.
use tpm2_abrmd.Prelude.{ℕ, ◌+◌, ◌≤◌, ◌<◌, ◌≡◌, ◌⊎◌, inl, inr, List, length, arith}
use tpm2_abrmd.Bytes.{memcpy, get8, get16, get32, be16, be32, put16, put32}
use tpm2_abrmd.Bytes.Laws.{get8-memcpy_ne}

-- The `n` bytes at `p` and the `m` bytes at `o`.
abbrev pub Apart : ℕ → ℕ → ℕ → ℕ → Type 0
Apart p n o m = (p + n ≤ o) ⊎ (o + m ≤ p)

before_or_behind : (p n o m j : ℕ) → Apart p n o m → p ≤ j → j < p + n → (j < o) ⊎ (o + m ≤ j)
before_or_behind p n o m j (inl h) k l = inl (omega arith)
before_or_behind p n o m j (inr h) k l = inr (omega arith)

module _ (buf : List ℕ) (o p : ℕ) (vs : List ℕ) where
  pub get16-memcpy_ne : Apart p 2 o (length vs) → get16 (memcpy buf o vs) p ≡ get16 buf p
  unfolding get16
  get16-memcpy_ne h = omega (
    arith,
    get8-memcpy_ne buf o vs p (before_or_behind p 2 o (length vs) p h (omega arith) (omega arith)),
    get8-memcpy_ne buf o vs (1 + p)
        (before_or_behind p 2 o (length vs) (1 + p) h (omega arith) (omega arith)),
  )

  pub get32-memcpy_ne : Apart p 4 o (length vs) → get32 (memcpy buf o vs) p ≡ get32 buf p
  unfolding get32
  get32-memcpy_ne h = omega (
    arith,
    get8-memcpy_ne buf o vs p (before_or_behind p 4 o (length vs) p h (omega arith) (omega arith)),
    get8-memcpy_ne buf o vs (1 + p)
        (before_or_behind p 4 o (length vs) (1 + p) h (omega arith) (omega arith)),
    get8-memcpy_ne buf o vs (2 + p)
        (before_or_behind p 4 o (length vs) (2 + p) h (omega arith) (omega arith)),
    get8-memcpy_ne buf o vs (3 + p)
        (before_or_behind p 4 o (length vs) (3 + p) h (omega arith) (omega arith)),
  )

module _ (buf : List ℕ) (o v p : ℕ) where
  pub get8-put16_ne : Apart p 1 o 2 → get8 (put16 buf o v) p ≡ get8 buf p
  unfolding put16
  get8-put16_ne h =
      get8-memcpy_ne buf o (be16 v) p (before_or_behind p 1 o 2 p h (omega arith) (omega arith))

  pub get8-put32_ne : Apart p 1 o 4 → get8 (put32 buf o v) p ≡ get8 buf p
  unfolding put32
  get8-put32_ne h =
      get8-memcpy_ne buf o (be32 v) p (before_or_behind p 1 o 4 p h (omega arith) (omega arith))

  pub get16-put32_ne : Apart p 2 o 4 → get16 (put32 buf o v) p ≡ get16 buf p
  unfolding put32
  get16-put32_ne = get16-memcpy_ne buf o p (be32 v)

  pub get32-put16_ne : Apart p 4 o 2 → get32 (put16 buf o v) p ≡ get32 buf p
  unfolding put16
  get32-put16_ne = get32-memcpy_ne buf o p (be16 v)

  pub get32-put32_ne : Apart p 4 o 4 → get32 (put32 buf o v) p ≡ get32 buf p
  unfolding put32
  get32-put32_ne = get32-memcpy_ne buf o p (be32 v)
