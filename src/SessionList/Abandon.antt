-- ===== src/SessionList/Abandon.antt =====
-- Sessions that a client leaves behind: abandoning, claiming and pruning them
-- (src/session-list.c).
use tpm2_abrmd.Prelude.{
  ℕ, ◌≤◌, ◌<◌, ◌≡◌, ◌≢◌, refl, sym, ◌∙◌, ◌⊎◌, inl, inr, Bool, true, false, List, [], ◌∷◌, ◌++◌,
  none, some, if◌then◌else◌, ◌==◌, arith, leb-of_le, leb-of_lt, length,
}
use native.Mathlib.Decide.{ℕ_discrete, dec_le}
use tpm2_abrmd.SessionEntry.{SessionEntry, loaded, saved_client_closed, session_entry_abandon}
use tpm2_abrmd.SessionList.Glib.{member, init}
use tpm2_abrmd.SessionList.Glib.Laws.{remove_self-head, last-init}
use tpm2_abrmd.SessionList.Lookup.{lookup_handle_cases}
use tpm2_abrmd.SessionList.Invariant.{IsValid, abandoned, abandoned-IsValid, claimed}
use tpm2_abrmd.SessionList.{
  SessionList, session_list_lookup_handle, session_list_abandon_handle, session_list_claim,
  take_over, session_list_prune_abandoned,
}

pub abandon-unknown :
    (list : SessionList) (c h : ℕ)
    → session_list_lookup_handle list h ≡ none
    → session_list_abandon_handle list c h ≡ (list, false)
unfolding session_list_abandon_handle
abandon-unknown list c h e = rw (e, session_list_abandon_handle)

pub abandon-foreign :
    (list : SessionList) (c h a : ℕ)
    → session_list_lookup_handle list h ≡ some a
    → (list.objects a).connection ≢ c
    → session_list_abandon_handle list c h ≡ (list, false)
unfolding session_list_abandon_handle
abandon-foreign list c h a e n = ground arith

pub abandon-own :
    (list : SessionList) (c h a : ℕ)
    → session_list_lookup_handle list h ≡ some a
    → (list.objects a).connection ≡ c
    → session_list_abandon_handle list c h ≡ (abandoned list a, true)
unfolding session_list_abandon_handle
abandon-own list c h a e o = ground arith

-- The second list is the first with one entry written, and with this queue.
abbrev pub Wrote : SessionList → ℕ → SessionEntry → List ℕ → SessionList → Type 0
Wrote list a e queue list' =
    ((b : ℕ) → list'.objects b ≡ (if b == a then e else list.objects b))
    × (list'.session_entry_list ≡ list.session_entry_list)
    × (list'.abandoned_queue ≡ queue)
    × (list'.max_abandoned ≡ list.max_abandoned)
    × (list'.max_per_connection ≡ list.max_per_connection)

-- What comes of abandoning the session with a handle: there is none, it is another connection's, or
-- it loses its owner and is put at the head of the queue.
pub data Abandoning (list : SessionList) (c h : ℕ) : SessionList × Bool → Type 0 where
  unknown :
      ((a : ℕ) → member a list.session_entry_list ≡ true → (list.objects a).handle ≢ h)
      → Abandoning list c h (list, false)
  foreign :
      (a : ℕ)
      → session_list_lookup_handle list h ≡ some a
      → (list.objects a).connection ≢ c
      → Abandoning list c h (list, false)
  own :
      (a : ℕ) (list' : SessionList)
      → session_list_lookup_handle list h ≡ some a
      → member a list.session_entry_list ≡ true
      → (list.objects a).handle ≡ h
      → (list.objects a).connection ≡ c
      → Wrote list a
          (record (list.objects a) { connection = 0; state = saved_client_closed })
          (a ∷ list.abandoned_queue)
          list'
      → Abandoning list c h (list', true)

abandoned_lem :
    (list : SessionList) (a : ℕ)
    → Wrote list a
        (record (list.objects a) { connection = 0; state = saved_client_closed })
        (a ∷ list.abandoned_queue)
        (abandoned list a)
unfolding session_entry_abandon
abandoned_lem list a = (λ b. refl, refl, refl, refl, refl)

-- In a valid list, a connection that is not NULL abandons the session that is found under a handle
-- if it owns it: the entry loses its connection, its state becomes SAVED_CLIENT_CLOSED, it is put at
-- the head of the queue, nothing else changes in it, in another entry or in the list, and the answer
-- is TRUE. The answer is FALSE and nothing changes if no entry of the list has the handle, or if the
-- first one that has it belongs to another connection. In all cases the list stays valid.
pub abandon_handle_cases :
    (list : SessionList) (c h : ℕ)
    → IsValid list
    → c ≢ 0
    → IsValid (session_list_abandon_handle list c h).0
      × Abandoning list c h (session_list_abandon_handle list c h)
abandon_handle_cases list c h v nz = elim (lookup_handle_cases list h) [
  | inr (e, n) ↦ rw (abandon-unknown list c h e) (v, unknown n)
  | inl (a, e, m, q) ↦ elim (ℕ_discrete (list.objects a).connection c) [
    | no n ↦ rw (abandon-foreign list c h a e n) (v, foreign a e n)
    | yes p ↦ rw (abandon-own list c h a e p) (
      abandoned-IsValid list a v m (λ z. nz (sym p ∙ z)),
      own a (abandoned list a) e m q p (abandoned_lem list a),
    )
  ]
]

claim-queued :
    (list : SessionList) (a c : ℕ)
    → member a list.abandoned_queue ≡ true
    → session_list_claim list a c ≡ (claimed list a c, true)
unfolding session_list_claim
claim-queued list a c q = rw q

-- What comes of claiming an entry: it is not in the list, or it gets the connection and leaves the
-- queue.
pub data Claiming (list : SessionList) (a c : ℕ) : SessionList × Bool → Type 0 where
  unlisted : member a list.session_entry_list ≡ false → Claiming list a c (list, false)
  taken :
      (list' : SessionList) (queue : List ℕ)
      → member a list.session_entry_list ≡ true
      → Wrote list a (record (list.objects a) { connection = c; state = loaded }) queue list'
      → member a queue ≡ false
      → ((b : ℕ) → a ≢ b → member b queue ≡ member b list.abandoned_queue)
      → Claiming list a c (list', true)

head_member : (a : ℕ) (l : List ℕ) → member a (a ∷ l) ≡ true
unfolding member
head_member a l = ground arith

-- A session that its connection abandons and another connection then claims belongs to that
-- connection and is LOADED. The list and the queue are as they were before, and so is every other
-- entry.
pub claim-abandon :
    (list : SessionList) (c d h a : ℕ)
    → IsValid list
    → c ≢ 0
    → session_list_lookup_handle list h ≡ some a
    → (list.objects a).connection ≡ c
    → let claimed_by_d = session_list_claim (session_list_abandon_handle list c h).0 a d in
      (claimed_by_d.1 ≡ true)
      × (claimed_by_d.0.session_entry_list ≡ list.session_entry_list)
      × (claimed_by_d.0.abandoned_queue ≡ list.abandoned_queue)
      × ((b : ℕ)
          → claimed_by_d.0.objects b ≡ (
              if b == a
              then record (list.objects a) { connection = d; state = loaded }
              else list.objects b))
unfolding take_over session_entry_abandon member
claim-abandon list c d h a v nz e o =
    rw
      (
        abandon-own list c h a e o,
        claim-queued (abandoned list a) a d (head_member a list.abandoned_queue),
      )
      (refl, refl, remove_self-head a list.abandoned_queue, λ b. ground arith)

module _ {ℓ} {D : Type ℓ} (list : SessionList) (func : SessionList → D → ℕ → SessionList × D × Bool)
    (d : D) where
  -- Nothing is pruned while the queue is within its limit. Past it, the function runs on the entry
  -- at the tail of the queue, the one abandoned first, after the entry is taken off the queue.
  pub prune_abandoned_cases :
      ((length list.abandoned_queue ≤ list.max_abandoned)
        × (session_list_prune_abandoned list func d ≡ (list, d, true)))
      ⊎ ((a : ℕ) × (rest : List ℕ) × (list.max_abandoned < length list.abandoned_queue)
          × (list.abandoned_queue ≡ rest ++ a ∷ [])
          × (session_list_prune_abandoned list func d
              ≡ func (record list { abandoned_queue = rest }) d a))
  unfolding session_list_prune_abandoned
  prune_abandoned_cases = elim (dec_le (length list.abandoned_queue) list.max_abandoned) [
    | yes p ↦ inl (p, rw (leb-of_le _ _ p))
    | no p ↦ elim (last-init list.abandoned_queue) [
      | inl z ↦ absurd (omega arith)
      | inr (a, e, s) ↦ inr (
        a,
        init list.abandoned_queue,
        omega arith,
        s,
        rw
            (
              leb-of_lt list.max_abandoned (length list.abandoned_queue) (omega arith),
              e,
              session_list_prune_abandoned,
            )
            refl,
      )
    ]
  ]
