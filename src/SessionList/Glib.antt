-- ===== src/SessionList/Glib.antt =====
-- The functions of GLib on a GList and a GQueue of pointers that the session list calls.
pub mod Laws
use tpm2_abrmd.Prelude.{
  ℕ, Bool, true, false, List, [], ◌∷◌, Option, none, some, Ordering, if◌then◌else◌, ◌==◌,
}

-- g_list_find_custom: the first item that the comparison calls equal.
unfoldable pub find_custom : (ℕ → Ordering) → List ℕ → Option ℕ
find_custom func [] = none
find_custom func (a ∷ l) =
    let rest = find_custom func l in
    elim (func a) [ Ordering.eq ↦ some a | Ordering.lt ↦ rest | Ordering.gt ↦ rest ]

-- g_list_remove, g_queue_remove: the first occurrence of a pointer.
unfoldable pub remove_first : ℕ → List ℕ → List ℕ
remove_first a [] = []
remove_first a (b ∷ l) = if b == a then l else b ∷ remove_first a l

-- g_list_find, g_queue_find: whether the pointer occurs.
unfoldable pub member : ℕ → List ℕ → Bool
member a [] = false
member a (b ∷ l) = if b == a then true else member a l

-- g_queue_pop_tail: the last item, and what is left.
unfoldable pub last : List ℕ → Option ℕ
last [] = none
last (a ∷ []) = some a
last (a ∷ b ∷ l) = last (b ∷ l)

unfoldable pub init : List ℕ → List ℕ
init [] = []
init (a ∷ []) = []
init (a ∷ b ∷ l) = a ∷ init (b ∷ l)
