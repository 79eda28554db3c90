-- ===== src/Tests/Sessions.antt =====
-- A session list with two sessions, of the connections 7 and 8 (src/session-list.c).
use tpm2_abrmd.Prelude.{
  ℕ, ◌+◌, ◌≤◌, ◌<◌, Bool, true, false, List, [], ◌∷◌, ◌++◌, none, some, if◌then◌else◌, ◌==◌, ◌≡◌,
  ◌≢◌, ◌⊎◌, refl, arith,
}
use tpm2_abrmd.SessionEntry.{SessionEntry, loaded, saved_client, session_entry_compare_on_handle}
use tpm2_abrmd.SessionList.{
  SessionList, member, find_custom, session_list_new, session_list_insert, session_list_remove,
  session_list_connection_count, session_list_is_full, connection_counter,
  session_list_lookup_handle, session_list_lookup_context_client, session_list_abandon_handle,
  session_list_claim, session_list_prune_abandoned,
}
use tpm2_abrmd.SessionList.Lookup.{ArraysOf, SameContext, lookup_context_client_cases}
use tpm2_abrmd.SessionList.Quota.{WithinQuota, insert_cases, insert-WithinQuota}
use tpm2_abrmd.SessionList.Invariant.{
  IsValid, new-IsValid, abandoned, session_list_insert-IsValid, abandoned-IsValid, remove_dangles,
}
use tpm2_abrmd.SessionList.Abandon.{
  Abandoning, abandon_handle_cases, claim-abandon, prune_abandoned_cases,
}

abbrev session_of : ℕ → ℕ → SessionEntry
session_of connection handle = record {
  connection = connection;
  state = saved_client;
  handle = handle;
  context = record { size = 0; buf = 0 ∷ 0 ∷ [] };
  context_client = record { size = 1; buf = 9 ∷ 0 ∷ [] };
}

abbrev memory : ℕ → SessionEntry
memory a = if a == 1 then session_of 7 0x02000000 else session_of 8 0x03000000

abbrev no_sessions : SessionList
no_sessions = session_list_new memory 4 1

abbrev one_session : SessionList
one_session = record {
  objects = memory;
  abandoned_queue = [];
  max_abandoned = 1;
  max_per_connection = 4;
  session_entry_list = 1 ∷ [];
}

abbrev two_sessions : SessionList
two_sessions = record one_session { session_entry_list = 1 ∷ 2 ∷ [] }

no_sessions-IsValid : IsValid no_sessions
no_sessions-IsValid = new-IsValid memory 4 1

one_session-IsValid : IsValid one_session
unfolding session_list_new session_list_insert session_list_is_full session_list_connection_count
    connection_counter member
one_session-IsValid =
    session_list_insert-IsValid no_sessions 1 no_sessions-IsValid refl (λ p. omega arith)

two_sessions-IsValid : IsValid two_sessions
unfolding session_list_insert session_list_is_full session_list_connection_count connection_counter
    member
two_sessions-IsValid =
    session_list_insert-IsValid one_session 2 one_session-IsValid refl (λ p. omega arith)

new_member : member 2 one_session.session_entry_list ≡ false
unfolding member
new_member = refl

session_list_insert-IsValid_example : IsValid (session_list_insert one_session 2).0
session_list_insert-IsValid_example =
    session_list_insert-IsValid one_session 2 one_session-IsValid new_member (λ p. omega arith)

listed : member 1 two_sessions.session_entry_list ≡ true
unfolding member
listed = refl

queued : member 1 (abandoned two_sessions 1).abandoned_queue ≡ true
unfolding member
queued = refl

remove_dangles_example :
    (member 1 (session_list_remove (abandoned two_sessions 1) 1).abandoned_queue ≡ true)
    × (member 1 (session_list_remove (abandoned two_sessions 1) 1).session_entry_list ≡ false)
remove_dangles_example =
    remove_dangles (abandoned two_sessions 1) 1
      (abandoned-IsValid two_sessions 1 two_sessions-IsValid listed (λ p. omega arith)) queued

memory-ArraysOf : ArraysOf 2 memory
memory-ArraysOf a = ground arith

lookup_context_client_cases_example :
    ((a : ℕ) × (session_list_lookup_context_client two_sessions (9 ∷ []) 1 ≡ some (some a))
      × (member a two_sessions.session_entry_list ≡ true)
      × SameContext (memory a) (9 ∷ []) 1)
    ⊎ ((session_list_lookup_context_client two_sessions (9 ∷ []) 1 ≡ some none)
        × ((a : ℕ)
            → member a two_sessions.session_entry_list ≡ true
            → ¬ SameContext (memory a) (9 ∷ []) 1))
lookup_context_client_cases_example =
    lookup_context_client_cases two_sessions (9 ∷ []) 1 2 memory-ArraysOf (omega arith)

insert_cases_example :
    ((4 ≤ session_list_connection_count one_session 8)
      × (session_list_insert one_session 2 ≡ (one_session, false)))
    ⊎ ((list' : SessionList) × (session_list_connection_count one_session 8 < 4)
        × (session_list_insert one_session 2 ≡ (list', true))
        × (list'.session_entry_list ≡ (1 ∷ []) ++ 2 ∷ [])
        × (session_list_connection_count list' 8 ≡ session_list_connection_count one_session 8 + 1)
        × ((d : ℕ)
            → 8 ≢ d
            → session_list_connection_count list' d ≡ session_list_connection_count one_session d))
insert_cases_example = insert_cases one_session 2

no_sessions-WithinQuota : WithinQuota no_sessions
unfolding session_list_new session_list_connection_count connection_counter
no_sessions-WithinQuota c n = omega arith

insert-WithinQuota_example : WithinQuota (session_list_insert no_sessions 1).0
insert-WithinQuota_example = insert-WithinQuota no_sessions 1 no_sessions-WithinQuota

abandon_handle_cases_example :
    IsValid (session_list_abandon_handle two_sessions 7 0x02000000).0
    × Abandoning two_sessions 7 0x02000000 (session_list_abandon_handle two_sessions 7 0x02000000)
abandon_handle_cases_example =
    abandon_handle_cases two_sessions 7 0x02000000 two_sessions-IsValid (λ p. omega arith)

found_session : session_list_lookup_handle two_sessions 0x02000000 ≡ some 1
unfolding session_list_lookup_handle find_custom session_entry_compare_on_handle
found_session = refl

claim-abandon_example :
    let claimed_by_8 =
      session_list_claim (session_list_abandon_handle two_sessions 7 0x02000000).0 1 8 in
    (claimed_by_8.1 ≡ true)
    × (claimed_by_8.0.session_entry_list ≡ 1 ∷ 2 ∷ [])
    × (claimed_by_8.0.abandoned_queue ≡ [])
    × ((b : ℕ)
        → claimed_by_8.0.objects b
          ≡ (if b == 1 then record (memory 1) { connection = 8; state = loaded } else memory b))
claim-abandon_example =
    claim-abandon two_sessions 7 8 0x02000000 1 two_sessions-IsValid (λ p. omega arith)
      found_session refl

-- Two abandoned sessions where one is allowed.
abbrev crowded : SessionList
crowded = record two_sessions { abandoned_queue = 2 ∷ 1 ∷ [] }

-- A function that records the entry.
abbrev note_entry : SessionList → ℕ → ℕ → SessionList × ℕ × Bool
note_entry list d a = (list, a, true)

prune_abandoned_cases_example :
    ((2 ≤ 1) × (session_list_prune_abandoned crowded note_entry 0 ≡ (crowded, 0, true)))
    ⊎ ((a : ℕ) × (rest : List ℕ) × (1 < 2)
        × (2 ∷ 1 ∷ [] ≡ rest ++ a ∷ [])
        × (session_list_prune_abandoned crowded note_entry 0
            ≡ note_entry (record crowded { abandoned_queue = rest }) 0 a))
prune_abandoned_cases_example = prune_abandoned_cases crowded note_entry 0
