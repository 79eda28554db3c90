-- ===== src/SessionList/Quota.antt =====
-- The limit on the sessions of a connection (src/session-list.c).
use tpm2_abrmd.Prelude.{
  ℕ, suc, ◌+◌, ◌≤◌, ◌<◌, ◌≡◌, ◌≢◌, refl, ◌⊎◌, inl, inr, true, false, List, [], ◌∷◌, ◌++◌,
  if◌then◌else◌, ◌==◌, arith, leb-of_le, leb-of_lt,
}
use native.Mathlib.Decide.{dec_le}
use tpm2_abrmd.SessionEntry.{SessionEntry}
use tpm2_abrmd.SessionList.Glib.{remove_first}
use tpm2_abrmd.SessionList.{
  SessionList, connection_counter, session_list_connection_count, session_list_is_full,
  session_list_insert, session_list_remove,
}

-- How many entries of a list belong to a connection.
pub owned : (ℕ → SessionEntry) → ℕ → List ℕ → ℕ
owned objects c [] = 0
owned objects c (a ∷ l) =
    if (objects a).connection == c then suc (owned objects c l) else owned objects c l

counter-owned :
    (objects : ℕ → SessionEntry) (c : ℕ) (l : List ℕ) (count : ℕ)
    → connection_counter objects c l count ≡ count + owned objects c l
unfolding connection_counter owned
counter-owned objects c [] count = omega arith
counter-owned objects c (a ∷ l) count =
    ground (arith, counter-owned objects c l count, counter-owned objects c l (count + 1))

pub connection_count-owned :
    (list : SessionList) (c : ℕ)
    → session_list_connection_count list c ≡ owned list.objects c list.session_entry_list
unfolding session_list_connection_count
connection_count-owned list c =
    omega (arith, counter-owned list.objects c list.session_entry_list 0)

owned-append :
    (objects : ℕ → SessionEntry) (c a : ℕ) (l : List ℕ)
    → owned objects c (l ++ a ∷ [])
      ≡ (if (objects a).connection == c then owned objects c l + 1 else owned objects c l)
unfolding owned
owned-append objects c a [] = ground arith
owned-append objects c a (b ∷ l) = ground (arith, owned-append objects c a l)

pub owned-remove_le :
    (objects : ℕ → SessionEntry) (c a : ℕ) (l : List ℕ)
    → owned objects c (remove_first a l) ≤ owned objects c l
unfolding owned remove_first
owned-remove_le objects c a [] = omega arith
owned-remove_le objects c a (b ∷ l) = ground (arith, owned-remove_le objects c a l)

-- Entries that change hands leave a connection with no more entries than it had, where each entry
-- that it has now was its own before.
pub owned_mono :
    (before after : ℕ → SessionEntry) (c : ℕ) (l : List ℕ)
    → ((a : ℕ) → (after a).connection ≡ c → (before a).connection ≡ c)
    → owned after c l ≤ owned before c l
unfolding owned
owned_mono before after c [] h = omega arith
owned_mono before after c (a ∷ l) h = ground (arith, owned_mono before after c l h, h a)

-- The list with an entry at its end.
abbrev pub appended : SessionList → ℕ → SessionList
appended list a = record list { session_entry_list = list.session_entry_list ++ a ∷ [] }

count-appended :
    (list : SessionList) (a d : ℕ)
    → session_list_connection_count (appended list a) d ≡ (
        if (list.objects a).connection == d
        then session_list_connection_count list d + 1
        else session_list_connection_count list d)
count-appended list a d = ground (
  arith,
  connection_count-owned list d,
  connection_count-owned (appended list a) d,
  owned-append list.objects d a list.session_entry_list,
)

pub insert-full :
    (list : SessionList) (a : ℕ)
    → list.max_per_connection ≤ session_list_connection_count list (list.objects a).connection
    → session_list_insert list a ≡ (list, false)
unfolding session_list_insert session_list_is_full
insert-full list a h = rw (leb-of_le _ _ h)

pub insert-room :
    (list : SessionList) (a : ℕ)
    → session_list_connection_count list (list.objects a).connection < list.max_per_connection
    → session_list_insert list a ≡ (appended list a, true)
unfolding session_list_insert session_list_is_full
insert-room list a h = rw (leb-of_lt _ _ h)

-- Inserting an entry is refused, and changes nothing, exactly when its connection `c` has
-- `max_per_connection` entries or more. Otherwise the entry is appended, `c` has one entry more, and
-- every other connection has as many as before.
pub insert_cases :
    (list : SessionList) (a : ℕ)
    → let c = (list.objects a).connection in
      ((list.max_per_connection ≤ session_list_connection_count list c)
        × (session_list_insert list a ≡ (list, false)))
      ⊎ ((list' : SessionList) × (session_list_connection_count list c < list.max_per_connection)
          × (session_list_insert list a ≡ (list', true))
          × (list'.session_entry_list ≡ list.session_entry_list ++ a ∷ [])
          × (session_list_connection_count list' c ≡ session_list_connection_count list c + 1)
          × ((d : ℕ)
              → c ≢ d
              → session_list_connection_count list' d ≡ session_list_connection_count list d))
insert_cases list a =
    let c = (list.objects a).connection in
    elim (dec_le list.max_per_connection (session_list_connection_count list c)) [
      | yes p ↦ inl (p, insert-full list a p)
      | no p ↦ inr (
        appended list a,
        omega arith,
        insert-room list a (omega arith),
        refl,
        ground (arith, count-appended list a c),
        (λ d n. ground (arith, count-appended list a d)),
      )
    ]

-- No connection has more than `max_per_connection` entries in the list.
abbrev pub WithinQuota : SessionList → Type 0
WithinQuota list = (c : ℕ) → c ≢ 0 → session_list_connection_count list c ≤ list.max_per_connection

-- Inserting an entry, whatever the answer, keeps every connection within its limit.
pub insert-WithinQuota :
    (list : SessionList) (a : ℕ) → WithinQuota list → WithinQuota (session_list_insert list a).0
insert-WithinQuota list a w =
    elim (dec_le list.max_per_connection
      (session_list_connection_count list (list.objects a).connection)) [
        | yes p ↦ rw (insert-full list a p) w
        | no p ↦
            rw (insert-room list a (omega arith))
              (λ d nz. ground (arith, w d nz, count-appended list a d))
      ]

-- Removing an entry keeps every connection within its limit.
pub remove-WithinQuota :
    (list : SessionList) (a : ℕ) → WithinQuota list → WithinQuota (session_list_remove list a)
unfolding session_list_remove
remove-WithinQuota list a w d nz = omega (
  arith,
  w d nz,
  connection_count-owned list d,
  connection_count-owned
      (record list { session_entry_list = remove_first a list.session_entry_list }) d,
  owned-remove_le list.objects d a list.session_entry_list,
)
