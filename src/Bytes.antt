-- ===== src/Bytes.antt =====
-- Byte buffers, and the big-endian fields that the daemon reads and writes in them through
-- be16toh, be32toh, htobe16 and htobe32 (src/tpm2-header.c and the macros of src/tpm2-command.c).
-- A buffer is the list of its bytes. The source guards its reads and writes; past the end of the
-- list a byte reads as 0 and a write is lost.
pub mod Laws
pub mod Fields
use tpm2_abrmd.Prelude.{
  ℕ, zero, suc, Ordering, compare, drop, ◌+◌, ◌*◌, ◌/◌, ◌%◌, ◌^◌, List, [], ◌∷◌, get_or, set,
}

-- memcpy (&buf [o], src, length src)
unfoldable pub memcpy : List ℕ → ℕ → List ℕ → List ℕ
memcpy buf o [] = buf
memcpy buf o (v ∷ vs) = memcpy (set buf o v) (suc o) vs

-- memcmp (a, b, n)
unfoldable pub memcmp : ℕ → List ℕ → List ℕ → Ordering
memcmp zero a b = Ordering.eq
memcmp (suc n) a b = elim (compare (get_or a 0 0) (get_or b 0 0)) [
  | Ordering.eq ↦ memcmp n (drop 1 a) (drop 1 b)
  | Ordering.lt ↦ Ordering.lt
  | Ordering.gt ↦ Ordering.gt
]

unfoldable pub get8 : List ℕ → ℕ → ℕ
get8 buf o = get_or buf o 0

unfoldable pub get16 : List ℕ → ℕ → ℕ
unfolding get8
get16 buf o = get8 buf o * 2 ^ 8 + get8 buf (1 + o)

unfoldable pub get32 : List ℕ → ℕ → ℕ
unfolding get8
get32 buf o =
    get8 buf o * 2 ^ 24 + get8 buf (1 + o) * 2 ^ 16 + get8 buf (2 + o) * 2 ^ 8 + get8 buf (3 + o)

-- The bytes of a 16-bit and of a 32-bit value, the most significant first.
abbrev pub be16 : ℕ → List ℕ
be16 v = v / 2 ^ 8 % 256 ∷ v % 256 ∷ []

abbrev pub be32 : ℕ → List ℕ
be32 v = v / 2 ^ 24 % 256 ∷ v / 2 ^ 16 % 256 ∷ v / 2 ^ 8 % 256 ∷ v % 256 ∷ []

unfoldable pub put8 : List ℕ → ℕ → ℕ → List ℕ
put8 buf o v = set buf o (v % 256)

unfoldable pub put16 : List ℕ → ℕ → ℕ → List ℕ
unfolding memcpy
put16 buf o v = memcpy buf o (be16 v)

unfoldable pub put32 : List ℕ → ℕ → ℕ → List ℕ
unfolding memcpy
put32 buf o v = memcpy buf o (be32 v)
