-- ===== src/Bytes/Laws.antt =====
-- What a write into a buffer does to later reads.
use tpm2_abrmd.Prelude.{
  ℕ, zero, suc, ◌+◌, ◌^◌, ◌≤◌, ◌<◌, ◌≡◌, refl, ap, ◌∙◌, ◌⊎◌, inl, inr, List, [], ◌∷◌, get_or, set,
  take, length, length-set, get_or-set_self, get_or-set_ne, arith,
}
use tpm2_abrmd.Bytes.{memcpy, get8, get16, get32, be16, be32, put16, put32}

pub length-memcpy : (buf : List ℕ) (o : ℕ) (vs : List ℕ) → length (memcpy buf o vs) ≡ length buf
unfolding memcpy
length-memcpy buf o [] = refl
length-memcpy buf o (v ∷ vs) = length-memcpy (set buf o v) (suc o) vs ∙ length-set buf o v

-- Outside the bytes written, nothing changes.
pub get8-memcpy_ne :
    (buf : List ℕ) (o : ℕ) (vs : List ℕ) (j : ℕ)
    → (j < o) ⊎ (o + length vs ≤ j)
    → get8 (memcpy buf o vs) j ≡ get8 buf j
unfolding memcpy get8
get8-memcpy_ne buf o [] j h = refl
get8-memcpy_ne buf o (v ∷ vs) j (inl h) =
    get8-memcpy_ne (set buf o v) (suc o) vs j (inl (omega arith))
    ∙ get_or-set_ne buf v 0 (omega arith)
get8-memcpy_ne buf o (v ∷ vs) j (inr h) =
    get8-memcpy_ne (set buf o v) (suc o) vs j (inr (omega arith))
    ∙ get_or-set_ne buf v 0 (omega arith)

-- Inside, they are the bytes written.
pub get8-memcpy :
    (buf : List ℕ) (o : ℕ) (vs : List ℕ) (i j : ℕ)
    → o + length vs ≤ length buf
    → i < length vs
    → j ≡ i + o
    → get8 (memcpy buf o vs) j ≡ get8 vs i
unfolding memcpy get8
get8-memcpy buf o [] i j h k e = absurd (omega arith)
get8-memcpy buf o (v ∷ vs) zero j h k e =
    get8-memcpy_ne (set buf o v) (suc o) vs j (inl (omega arith))
    ∙ (ap (λ n. get_or (set buf o v) n 0) (omega arith) ∙ get_or-set_self buf o v 0 (omega arith))
get8-memcpy buf o (v ∷ vs) (suc i) j h k e =
    get8-memcpy (set buf o v) (suc o) vs i j (omega (arith, length-set buf o v)) (omega arith)
      (omega arith)

pub length-put16 : (buf : List ℕ) (o v : ℕ) → length (put16 buf o v) ≡ length buf
unfolding put16
length-put16 buf o v = length-memcpy buf o (be16 v)

pub length-put32 : (buf : List ℕ) (o v : ℕ) → length (put32 buf o v) ≡ length buf
unfolding put32
length-put32 buf o v = length-memcpy buf o (be32 v)

-- A field reads back as it was written.
pub get16-put16 :
    (buf : List ℕ) (o v : ℕ) → o + 2 ≤ length buf → v < 2 ^ 16 → get16 (put16 buf o v) o ≡ v
unfolding get16 put16
get16-put16 buf o v h k = omega (
  arith,
  get8-memcpy buf o (be16 v) 0 o (omega arith) (omega arith) (omega arith),
  get8-memcpy buf o (be16 v) 1 (1 + o) (omega arith) (omega arith) (omega arith),
)

pub get32-put32 :
    (buf : List ℕ) (o v : ℕ) → o + 4 ≤ length buf → v < 2 ^ 32 → get32 (put32 buf o v) o ≡ v
unfolding get32 put32
get32-put32 buf o v h k = omega (
  arith,
  get8-memcpy buf o (be32 v) 0 o (omega arith) (omega arith) (omega arith),
  get8-memcpy buf o (be32 v) 1 (1 + o) (omega arith) (omega arith) (omega arith),
  get8-memcpy buf o (be32 v) 2 (2 + o) (omega arith) (omega arith) (omega arith),
  get8-memcpy buf o (be32 v) 3 (3 + o) (omega arith) (omega arith) (omega arith),
)

pub get8-take : (n : ℕ) (buf : List ℕ) (i : ℕ) → i < n → get8 (take n buf) i ≡ get8 buf i
unfolding get8
get8-take zero buf i h = absurd (omega arith)
get8-take (suc n) [] i h = refl
get8-take (suc n) (x ∷ buf) zero h = refl
get8-take (suc n) (x ∷ buf) (suc i) h = get8-take n buf i (omega arith)
