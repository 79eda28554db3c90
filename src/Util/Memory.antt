-- ===== src/Util/Memory.antt =====
-- Pieces of a buffer: writes that follow one another, and what they leave.
use tpm2_abrmd.Prelude.{
  ℕ, zero, suc, ◌+◌, ◌≤◌, ◌<◌, ◌≡◌, refl, sym, ap, ◌∙◌, List, [], ◌∷◌, ◌++◌, length, take, drop,
  set, length-append, length-take, arith,
}
use mathlib.Core.List.{append_assoc, append-nil}
use tpm2_abrmd.Bytes.{memcpy, get8, get32}

suc_shift : (k n : ℕ) → suc (k + n) ≡ suc k + n
suc_shift k n = omega arith

module _ {ℓ} {A : Type ℓ} where
  pub take-take_le : (k n : ℕ) (xs : List A) → k ≤ n → take k (take n xs) ≡ take k xs
  take-take_le zero n xs h = refl
  take-take_le (suc k) zero xs h = absurd (omega arith)
  take-take_le (suc k) (suc n) [] h = refl
  take-take_le (suc k) (suc n) (x ∷ xs) h = ap (◌∷◌ x) (take-take_le k n xs (omega arith))

  pub take-drop : (n : ℕ) (xs : List A) → take n xs ++ drop n xs ≡ xs
  take-drop zero xs = refl
  take-drop (suc n) [] = refl
  take-drop (suc n) (x ∷ xs) = ap (◌∷◌ x) (take-drop n xs)

  pub take_nil : (n : ℕ) → take {A = A} n [] ≡ []
  take_nil zero = refl
  take_nil (suc n) = refl

  drop_nil : (n : ℕ) → drop {A = A} n [] ≡ []
  drop_nil zero = refl
  drop_nil (suc n) = refl

  -- Two pieces in a row are one piece.
  pub take-add : (k n : ℕ) (xs : List A) → take k xs ++ take n (drop k xs) ≡ take (k + n) xs
  take-add zero n xs = ap (λ i. take i xs) (omega arith)
  take-add (suc k) n [] = take_nil n ∙ sym (take_nil (suc k + n))
  take-add (suc k) n (x ∷ xs) =
      ap (◌∷◌ x) (take-add k n xs) ∙ ap (λ i. take i (x ∷ xs)) (suc_shift k n)

  pub drop-drop : (k n : ℕ) (xs : List A) → drop n (drop k xs) ≡ drop (k + n) xs
  drop-drop zero n xs = ap (λ i. drop i xs) (omega arith)
  drop-drop (suc k) n [] = drop_nil n ∙ sym (drop_nil (suc k + n))
  drop-drop (suc k) n (x ∷ xs) = drop-drop k n xs ∙ ap (λ i. drop i (x ∷ xs)) (suc_shift k n)

  pub take-append_le : (n : ℕ) (xs ys : List A) → n ≤ length xs → take n (xs ++ ys) ≡ take n xs
  take-append_le zero xs ys h = refl
  take-append_le (suc n) [] ys h = absurd (omega arith)
  take-append_le (suc n) (x ∷ xs) ys h = ap (◌∷◌ x) (take-append_le n xs ys (omega arith))

  pub drop-append_le :
      (n : ℕ) (xs ys : List A) → n ≤ length xs → drop n (xs ++ ys) ≡ drop n xs ++ ys
  drop-append_le zero xs ys h = refl
  drop-append_le (suc n) [] ys h = absurd (omega arith)
  drop-append_le (suc n) (x ∷ xs) ys h = drop-append_le n xs ys (omega arith)

  pub drop_all : (n : ℕ) (xs : List A) → length xs ≤ n → drop n xs ≡ []
  drop_all zero [] h = refl
  drop_all zero (x ∷ xs) h = absurd (omega arith)
  drop_all (suc n) [] h = refl
  drop_all (suc n) (x ∷ xs) h = drop_all n xs (omega arith)

  pub length-take_le : (n : ℕ) (xs : List A) → n ≤ length xs → length (take n xs) ≡ n
  length-take_le n xs h = omega (arith, length-take n xs)

pub memcpy-append :
    (buf : List ℕ) (o : ℕ) (xs ys : List ℕ)
    → memcpy (memcpy buf o xs) (o + length xs) ys ≡ memcpy buf o (xs ++ ys)
unfolding memcpy
memcpy-append buf o [] ys = ap (λ i. memcpy buf i ys) (omega arith)
memcpy-append buf o (x ∷ xs) ys =
    ap (λ i. memcpy (memcpy (set buf o x) (suc o) xs) i ys) (omega arith)
    ∙ memcpy-append (set buf o x) (suc o) xs ys

set-append : (pre post : List ℕ) (v m : ℕ) → set (pre ++ m ∷ post) (length pre) v ≡ pre ++ v ∷ post
set-append [] post v m = refl
set-append (x ∷ pre) post v m = ap (◌∷◌ x) (set-append pre post v m)

-- A write replaces the bytes that stand there.
pub memcpy_splice :
    (pre mid post vs : List ℕ)
    → length mid ≡ length vs
    → memcpy (pre ++ (mid ++ post)) (length pre) vs ≡ pre ++ (vs ++ post)
unfolding memcpy
memcpy_splice pre [] post [] h = refl
memcpy_splice pre [] post (v ∷ vs) h = absurd (omega arith)
memcpy_splice pre (m ∷ mid) post [] h = absurd (omega arith)
memcpy_splice pre (m ∷ mid) post (v ∷ vs) h =
    ap (λ b. memcpy b (suc (length pre)) vs)
      (set-append pre (mid ++ post) v m ∙ sym (append_assoc pre (v ∷ []) (mid ++ post)))
    ∙ (ap (λ i. memcpy ((pre ++ v ∷ []) ++ (mid ++ post)) i vs)
          (omega (arith, length-append pre (v ∷ [])))
        ∙ (memcpy_splice (pre ++ v ∷ []) mid post vs (omega arith)
            ∙ append_assoc pre (v ∷ []) (vs ++ post)))

-- A write over the whole buffer.
pub memcpy_all : (buf vs : List ℕ) → length buf ≡ length vs → memcpy buf 0 vs ≡ vs
memcpy_all buf vs h =
    ap (λ b. memcpy b 0 vs) (sym (append-nil buf)) ∙ (memcpy_splice [] buf [] vs h ∙ append-nil vs)

-- A write behind the first bytes, to the end.
pub memcpy_tail :
    (pre mid vs : List ℕ) → length mid ≡ length vs → memcpy (pre ++ mid) (length pre) vs ≡ pre ++ vs
memcpy_tail pre mid vs h =
    ap (λ b. memcpy (pre ++ b) (length pre) vs) (sym (append-nil mid))
    ∙ (memcpy_splice pre mid [] vs h ∙ ap (◌++◌ pre) (append-nil vs))

pub get8-append : (xs ys : List ℕ) (i : ℕ) → i < length xs → get8 (xs ++ ys) i ≡ get8 xs i
unfolding get8
get8-append [] ys i h = absurd (omega arith)
get8-append (x ∷ xs) ys zero h = refl
get8-append (x ∷ xs) ys (suc i) h = get8-append xs ys i (omega arith)

pub get32-append : (xs ys : List ℕ) (o : ℕ) → o + 4 ≤ length xs → get32 (xs ++ ys) o ≡ get32 xs o
unfolding get32
get32-append xs ys o h = omega (
  arith,
  get8-append xs ys o (omega arith),
  get8-append xs ys (1 + o) (omega arith),
  get8-append xs ys (2 + o) (omega arith),
  get8-append xs ys (3 + o) (omega arith),
)
