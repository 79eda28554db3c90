-- ===== src/SessionList/Lookup.antt =====
-- Which entry a lookup in the session list finds (src/session-list.c).
use tpm2_abrmd.Prelude.{
  ℕ, ◌≤◌, ◌<◌, leb-of_le, ◌≡◌, ◌≢◌, refl, ◌∙◌, ◌⊎◌, inl, inr, true, List, [], ◌∷◌, Option, none,
  some, Ordering, arith, length, Option-cases,
}
use native.Mathlib.Decide.{ℕ_discrete}
use tpm2_abrmd.Bytes.{get8, memcmp}
use tpm2_abrmd.SessionEntry.{
  SessionEntry, session_entry_compare_on_handle, session_entry_compare_on_context_client,
}
use tpm2_abrmd.SessionEntry.Context.{compare_on_context_client_iff}
use tpm2_abrmd.SessionList.Glib.{member, find_custom}
use tpm2_abrmd.SessionList.Glib.Laws.{find_custom-some, find_custom-none}
use tpm2_abrmd.SessionList.{
  SessionList, session_list_lookup_handle, session_list_lookup_context_client, find_context_client,
}

pub handle_of_compare :
    (e : SessionEntry) (h : ℕ) → session_entry_compare_on_handle e h ≡ Ordering.eq → e.handle ≡ h
unfolding session_entry_compare_on_handle
handle_of_compare e h p = ground arith

pub compare_of_handle :
    (e : SessionEntry) (h : ℕ) → e.handle ≡ h → session_entry_compare_on_handle e h ≡ Ordering.eq
unfolding session_entry_compare_on_handle
compare_of_handle e h p = ground arith

-- A lookup by handle answers an entry of the list that has the handle, or NULL where no entry of the
-- list has it.
pub lookup_handle_cases :
    (list : SessionList) (handle : ℕ)
    → ((a : ℕ) × (session_list_lookup_handle list handle ≡ some a)
        × (member a list.session_entry_list ≡ true)
        × ((list.objects a).handle ≡ handle))
      ⊎ ((session_list_lookup_handle list handle ≡ none)
          × ((a : ℕ) → member a list.session_entry_list ≡ true → (list.objects a).handle ≢ handle))
unfolding session_list_lookup_handle
lookup_handle_cases list handle = elim (Option-cases (find_custom func entries)) [
  | inl e ↦ inr (
    e,
    λ a m h. find_custom-none func entries a e m (compare_of_handle (list.objects a) handle h),
  )
  | inr (a, e) ↦
      let found = find_custom-some func entries a e in
      inl (a, e, found.1, handle_of_compare (list.objects a) handle found.0)
]
  where
    entries : List ℕ
    entries = list.session_entry_list

    func : ℕ → Ordering
    func a = session_entry_compare_on_handle (list.objects a) handle

-- Every stored client context is an array of `n` bytes.
abbrev pub ArraysOf : ℕ → (ℕ → SessionEntry) → Type 0
ArraysOf n objects = (a : ℕ) → length (objects a).context_client.buf ≡ n

-- The first `size` bytes of the entry's client context are those of `buf`.
abbrev pub SameContext : SessionEntry → List ℕ → ℕ → Type 0
SameContext e buf size = (i : ℕ) → i < size → get8 e.context_client.buf i ≡ get8 buf i

SameContext-of_eq :
    (e : SessionEntry) (buf : List ℕ) (size : ℕ)
    → size ≤ length e.context_client.buf
    → session_entry_compare_on_context_client e buf size ≡ some Ordering.eq
    → SameContext e buf size
SameContext-of_eq e buf size h p = (compare_on_context_client_iff e buf size h).0 p

not_SameContext-of_ne :
    (e : SessionEntry) (buf : List ℕ) (size : ℕ)
    → size ≤ length e.context_client.buf
    → session_entry_compare_on_context_client e buf size ≢ some Ordering.eq
    → ¬ SameContext e buf size
not_SameContext-of_ne e buf size h n p = n ((compare_on_context_client_iff e buf size h).1 p)

-- The comparison asserts that the size is at most that of the array.
compare_cases :
    (e : SessionEntry) (buf : List ℕ) (size : ℕ)
    → size ≤ length e.context_client.buf
    → (session_entry_compare_on_context_client e buf size ≡ some Ordering.eq)
      ⊎ ((session_entry_compare_on_context_client e buf size ≡ some Ordering.lt)
          ⊎ (session_entry_compare_on_context_client e buf size ≡ some Ordering.gt))
unfolding session_entry_compare_on_context_client
compare_cases e buf size h = rw (leb-of_le _ _ h) (three (memcmp size e.context_client.buf buf))
  where
    three :
        (o : Ordering)
        → ◌≡◌ {A = Option Ordering} (some o) (some Ordering.eq)
          ⊎ (◌≡◌ {A = Option Ordering} (some o) (some Ordering.lt)
              ⊎ ◌≡◌ {A = Option Ordering} (some o) (some Ordering.gt))
    three Ordering.eq = inl refl
    three Ordering.lt = inr (inl refl)
    three Ordering.gt = inr (inr refl)

abbrev Found : (ℕ → SessionEntry) → List ℕ → List ℕ → ℕ → Type 0
Found objects l buf size =
    ((a : ℕ) × (find_context_client objects l buf size ≡ some (some a))
      × (member a l ≡ true)
      × SameContext (objects a) buf size)
    ⊎ ((find_context_client objects l buf size ≡ some none)
        × ((a : ℕ) → member a l ≡ true → ¬ SameContext (objects a) buf size))

Found-skip :
    (objects : ℕ → SessionEntry) (b : ℕ) (l buf : List ℕ) (size : ℕ)
    → find_context_client objects (b ∷ l) buf size ≡ find_context_client objects l buf size
    → ¬ SameContext (objects b) buf size
    → Found objects l buf size
    → Found objects (b ∷ l) buf size
unfolding member
Found-skip objects b l buf size same other (inl (a, e, m, c)) = inl (a, same ∙ e, ground arith, c)
Found-skip objects b l buf size same other (inr (e, none_has)) = inr (
  same ∙ e,
  λ a m. elim (ℕ_discrete b a) [ yes p ↦ rw (← p) other | no p ↦ none_has a (ground arith) ],
)

find_context_client_cases :
    (objects : ℕ → SessionEntry) (l buf : List ℕ) (size n : ℕ)
    → ArraysOf n objects
    → size ≤ n
    → Found objects l buf size
unfolding find_context_client member
find_context_client_cases objects [] buf size n arrays h = inr (refl, λ a m. cc)
find_context_client_cases objects (b ∷ l) buf size n arrays h =
    let fits : size ≤ length (objects b).context_client.buf = omega (arith, arrays b) in
    let rest = find_context_client_cases objects l buf size n arrays h in
    elim (compare_cases (objects b) buf size fits) [
      | inl e ↦ inl (
        b,
        rw (e, find_context_client),
        ground arith,
        SameContext-of_eq (objects b) buf size fits e,
      )
      | inr (inl e) ↦
          Found-skip objects b l buf size (rw (e, find_context_client))
            (not_SameContext-of_ne (objects b) buf size fits (λ q. cc)) rest
      | inr (inr e) ↦
          Found-skip objects b l buf size (rw (e, find_context_client))
            (not_SameContext-of_ne (objects b) buf size fits (λ q. cc)) rest
    ]

-- A lookup by context whose size is at most that of the arrays ends without a failed assertion. It
-- answers an entry of the list with the same first `size` bytes, or NULL where no entry of the list
-- has them.
pub lookup_context_client_cases :
    (list : SessionList) (buf : List ℕ) (size n : ℕ)
    → ArraysOf n list.objects
    → size ≤ n
    → ((a : ℕ) × (session_list_lookup_context_client list buf size ≡ some (some a))
        × (member a list.session_entry_list ≡ true)
        × SameContext (list.objects a) buf size)
      ⊎ ((session_list_lookup_context_client list buf size ≡ some none)
          × ((a : ℕ)
              → member a list.session_entry_list ≡ true
              → ¬ SameContext (list.objects a) buf size))
unfolding session_list_lookup_context_client
lookup_context_client_cases list buf size n arrays h =
    find_context_client_cases list.objects list.session_entry_list buf size n arrays h
