-- ===== src/SessionList/Invariant.antt =====
-- The invariant that ties the list of sessions to the queue of abandoned ones (src/session-list.c).
use tpm2_abrmd.Prelude.{ℕ, ◌≡◌, ◌≢◌, Bool-cases, inl, inr, true, false, [], ◌∷◌, arith}
use native.Mathlib.Decide.{ℕ_discrete, dec_le}
use tpm2_abrmd.SessionEntry.{SessionEntry, session_entry_abandon}
use tpm2_abrmd.SessionList.Glib.{member, remove_first}
use tpm2_abrmd.SessionList.Glib.Laws.{
  Unique, append-Unique, remove-Unique, member-append, member-remove_ne, member-remove→,
  member-remove_self,
}
use tpm2_abrmd.SessionList.Quota.{appended, insert-full, insert-room}
use tpm2_abrmd.SessionList.{
  SessionList, write, session_list_new, session_list_insert, session_list_remove,
  session_list_connection_count, take_over,
}

-- No entry is listed or queued twice, the queue holds entries of the list only, and an entry of the
-- list is in the queue exactly when it has no connection.
pub record IsValid (list : SessionList) : Type 0 where
  pub unique : Unique list.session_entry_list
  pub queue_unique : Unique list.abandoned_queue
  pub alive :
      (a : ℕ) → member a list.abandoned_queue ≡ true → member a list.session_entry_list ≡ true
  pub queued :
      (a : ℕ)
      → member a list.session_entry_list ≡ true
      → (list.objects a).connection ≡ 0
      → member a list.abandoned_queue ≡ true
  pub ownerless : (a : ℕ) → member a list.abandoned_queue ≡ true → (list.objects a).connection ≡ 0

pub new-IsValid : (objects : ℕ → SessionEntry) (m n : ℕ) → IsValid (session_list_new objects m n)
unfolding session_list_new member
new-IsValid objects m n = record {
  unique = tt;
  queue_unique = tt;
  alive = λ a h. cc;
  queued = λ a h. cc;
  ownerless = λ a h. cc;
}

appended-IsValid :
    (list : SessionList) (a : ℕ)
    → IsValid list
    → member a list.session_entry_list ≡ false
    → (list.objects a).connection ≢ 0
    → IsValid (appended list a)
unfolding member
appended-IsValid list a v new own = record {
  unique = append-Unique a list.session_entry_list new v.unique;
  queue_unique = v.queue_unique;
  alive = λ b h. rw (member-append b list.session_entry_list (a ∷ []), v.alive b h);
  queued =
      λ b h z. ground (arith, v.queued b, member-append b list.session_entry_list (a ∷ []), h, z);
  ownerless = v.ownerless;
}

-- Inserting an entry with a connection that is not yet in the list keeps the invariant, whether or
-- not the connection has room.
pub session_list_insert-IsValid :
    (list : SessionList) (a : ℕ)
    → IsValid list
    → member a list.session_entry_list ≡ false
    → (list.objects a).connection ≢ 0
    → IsValid (session_list_insert list a).0
session_list_insert-IsValid list a v new own =
    elim (dec_le list.max_per_connection
      (session_list_connection_count list (list.objects a).connection)) [
        | yes p ↦ rw (insert-full list a p) v
        | no p ↦ rw (insert-room list a (omega arith)) (appended-IsValid list a v new own)
      ]

-- Removing an entry that is not in the queue keeps the invariant.
pub session_list_remove-IsValid :
    (list : SessionList) (a : ℕ)
    → IsValid list
    → member a list.abandoned_queue ≡ false
    → IsValid (session_list_remove list a)
unfolding session_list_remove
session_list_remove-IsValid list a v away = record {
  unique = remove-Unique a list.session_entry_list v.unique;
  queue_unique = v.queue_unique;
  alive = λ b h. elim (ℕ_discrete a b) [
    | yes p ↦ cc (ap_member p)
    | no p ↦ rw (member-remove_ne a b list.session_entry_list p) (v.alive b h)
  ];
  queued = λ b h. v.queued b (member-remove→ a b list.session_entry_list h);
  ownerless = v.ownerless;
}
  where
    ap_member : {b : ℕ} → a ≡ b → member a list.abandoned_queue ≡ member b list.abandoned_queue
    ap_member p = rw p

-- Removing an entry that is in the queue leaves the queue with an entry that the list no longer
-- keeps alive.
pub remove_dangles :
    (list : SessionList) (a : ℕ)
    → IsValid list
    → member a list.abandoned_queue ≡ true
    → (member a (session_list_remove list a).abandoned_queue ≡ true)
      × (member a (session_list_remove list a).session_entry_list ≡ false)
unfolding session_list_remove
remove_dangles list a v q = (q, member-remove_self a list.session_entry_list v.unique)

-- An entry with a connection is not in the queue.
pub owned_away :
    (list : SessionList) (a : ℕ)
    → IsValid list
    → (list.objects a).connection ≢ 0
    → member a list.abandoned_queue ≡ false
owned_away list a v own = elim (Bool-cases (member a list.abandoned_queue)) [
  | inl q ↦ absurd (own (v.ownerless a q))
  | inr n ↦ n
]

-- The list once an entry without an owner is pushed on the queue, and once one is taken over.
abbrev pub abandoned : SessionList → ℕ → SessionList
abandoned list a = record (write list a (session_entry_abandon (list.objects a))) {
  abandoned_queue = a ∷ list.abandoned_queue;
}

pub abandoned-IsValid :
    (list : SessionList) (a : ℕ)
    → IsValid list
    → member a list.session_entry_list ≡ true
    → (list.objects a).connection ≢ 0
    → IsValid (abandoned list a)
unfolding member session_entry_abandon
abandoned-IsValid list a v m own = record {
  unique = v.unique;
  queue_unique = (owned_away list a v own, v.queue_unique);
  alive = λ b h. elim (ℕ_discrete a b) [ yes p ↦ rw (← p) m | no p ↦ v.alive b (ground arith) ];
  queued =
      λ b h z. elim (ℕ_discrete a b) [ yes p ↦ ground arith | no p ↦ ground (arith, v.queued b h) ];
  ownerless =
      λ b h. elim (ℕ_discrete a b) [ yes p ↦ ground arith | no p ↦ ground (arith, v.ownerless b) ];
}

abbrev pub claimed : SessionList → ℕ → ℕ → SessionList
claimed list a c = record (write list a (take_over (list.objects a) c)) {
  abandoned_queue = remove_first a list.abandoned_queue;
}

pub claimed-IsValid :
    (list : SessionList) (a c : ℕ) → IsValid list → c ≢ 0 → IsValid (claimed list a c)
unfolding take_over
claimed-IsValid list a c v nz = record {
  unique = v.unique;
  queue_unique = remove-Unique a list.abandoned_queue v.queue_unique;
  alive = λ b h. v.alive b (member-remove→ a b list.abandoned_queue h);
  queued = λ b h z. elim (ℕ_discrete a b) [
    | yes p ↦ absurd (nz (ground arith))
    | no p ↦ ground (arith, v.queued b h, member-remove_ne a b list.abandoned_queue p)
  ];
  ownerless = λ b h. elim (ℕ_discrete a b) [
    | yes p ↦ ground (arith, member-remove_self a list.abandoned_queue v.queue_unique)
    | no p ↦ ground (arith, v.ownerless b (member-remove→ a b list.abandoned_queue h))
  ];
}
