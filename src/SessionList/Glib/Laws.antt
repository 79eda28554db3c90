-- ===== src/SessionList/Glib/Laws.antt =====
-- Laws of the list functions of GLib, in terms of which pointers a list holds.
use tpm2_abrmd.Prelude.{
  ℕ, ◌≡◌, ◌≢◌, refl, ◌⊎◌, inl, inr, true, false, List, [], ◌∷◌, ◌++◌, none, some, Ordering,
  if◌then◌else◌, arith, length, Bool-cases,
}
use tpm2_abrmd.SessionList.Glib.{find_custom, remove_first, member, last, init}

-- No pointer occurs twice.
abbrev pub Unique : List ℕ → Type 0
Unique [] = Unit {0}
Unique (a ∷ l) = (member a l ≡ false) × Unique l

pub member-append :
    (a : ℕ) (l m : List ℕ) → member a (l ++ m) ≡ (if member a l then true else member a m)
unfolding member
member-append a [] m = refl
member-append a (b ∷ l) m = ground (arith, member-append a l m)

pub append-Unique : (a : ℕ) (l : List ℕ) → member a l ≡ false → Unique l → Unique (l ++ a ∷ [])
unfolding member
append-Unique a [] n u = (refl, tt)
append-Unique a (b ∷ l) n u = ground (arith, append-Unique a l, member-append b l (a ∷ []))

pub member-remove_ne : (a b : ℕ) (l : List ℕ) → a ≢ b → member b (remove_first a l) ≡ member b l
unfolding member remove_first
member-remove_ne a b [] h = refl
member-remove_ne a b (c ∷ l) h = ground (arith, member-remove_ne a b l h)

pub member-remove_self : (a : ℕ) (l : List ℕ) → Unique l → member a (remove_first a l) ≡ false
unfolding member remove_first
member-remove_self a [] u = refl
member-remove_self a (b ∷ l) u = ground (arith, member-remove_self a l u.1)

pub member-remove→ : (a b : ℕ) (l : List ℕ) → member b (remove_first a l) ≡ true → member b l ≡ true
unfolding member remove_first
member-remove→ a b [] h = h
member-remove→ a b (c ∷ l) h = ground (arith, member-remove→ a b l)

pub remove-Unique : (a : ℕ) (l : List ℕ) → Unique l → Unique (remove_first a l)
unfolding remove_first
remove-Unique a [] u = tt
remove-Unique a (b ∷ l) u =
    ground
      (arith, remove-Unique a l u.1, member-remove→ a b l, Bool-cases (member b (remove_first a l)))

pub remove-absent : (a : ℕ) (l : List ℕ) → member a l ≡ false → remove_first a l ≡ l
unfolding member remove_first
remove-absent a [] h = refl
remove-absent a (b ∷ l) h = ground (arith, remove-absent a l)

pub remove_self-head : (a : ℕ) (l : List ℕ) → remove_first a (a ∷ l) ≡ l
unfolding remove_first
remove_self-head a l = ground arith

-- The last item and the rest make up the list.
pub last-init :
    (l : List ℕ) → (length l ≡ 0) ⊎ ((a : ℕ) × (last l ≡ some a) × (l ≡ init l ++ a ∷ []))
unfolding last init
last-init [] = inl refl
last-init (a ∷ []) = inr (a, refl, refl)
last-init (a ∷ b ∷ l) = elim (last-init (b ∷ l)) [
  | inl e ↦ absurd (omega arith)
  | inr (c, e, d) ↦ inr (c, e, cc)
]

-- What a search finds is in the list and compares equal; where it finds nothing, nothing does.
pub find_custom-some :
    (func : ℕ → Ordering) (l : List ℕ) (a : ℕ)
    → find_custom func l ≡ some a
    → (func a ≡ Ordering.eq) × (member a l ≡ true)
unfolding find_custom member
find_custom-some func [] a h = cc
find_custom-some func (b ∷ l) a h = ground (arith, find_custom-some func l a)

pub find_custom-none :
    (func : ℕ → Ordering) (l : List ℕ) (a : ℕ)
    → find_custom func l ≡ none
    → member a l ≡ true
    → func a ≢ Ordering.eq
unfolding find_custom member
find_custom-none func [] a h m = cc
find_custom-none func (b ∷ l) a h m = ground (arith, find_custom-none func l a)
