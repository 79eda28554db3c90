-- ===== src/SessionList.antt =====
-- src/session-list.c: the sessions that the daemon tracks, and the queue of those that a client
-- saved and whose connection was closed.
-- The entries are shared objects: `objects` is the memory in which they lie, by address, and the
-- list and the queue hold addresses. The list holds a reference to each of its entries and the
-- queue holds none, so an entry lives as long as it is in the list or a caller holds it. A lookup
-- that fails answers `none`, for NULL. The debug output is left out.
pub mod Glib
pub mod Lookup
pub mod Quota
pub mod Invariant
pub mod Abandon
unfoldable pub use Glib.{find_custom, remove_first, member, last, init}
use tpm2_abrmd.Prelude.{
  ℕ, suc, ◌+◌, ◌-◌, Bool, true, false, not, List, [], ◌∷◌, ◌++◌, Option, none, some, Ordering,
  if◌then◌else◌, leb, ◌==◌, length,
}
use tpm2_abrmd.SessionEntry.{
  SessionEntry, loaded, session_entry_set_state, session_entry_set_connection,
  session_entry_abandon, session_entry_compare_on_connection, session_entry_compare_on_handle,
  session_entry_compare_on_context_client,
}

pub record SessionList : Type 0 where
  pub objects : ℕ → SessionEntry
  pub abandoned_queue : List ℕ
  pub max_abandoned : ℕ
  pub max_per_connection : ℕ
  pub session_entry_list : List ℕ

-- The object at an address becomes another.
abbrev pub update : (ℕ → SessionEntry) → ℕ → SessionEntry → ℕ → SessionEntry
update objects entry e a = if a == entry then e else objects a

-- A write through a pointer to an entry.
abbrev pub write : SessionList → ℕ → SessionEntry → SessionList
write list entry e = record list { objects = update list.objects entry e }

-- `session_list_new` with `session_list_init`
unfoldable pub session_list_new : (ℕ → SessionEntry) → ℕ → ℕ → SessionList
session_list_new objects max_per_conn max_abandoned = record {
  objects = objects;
  abandoned_queue = [];
  max_abandoned = max_abandoned;
  max_per_connection = max_per_conn;
  session_entry_list = [];
}

-- `session_list_foreach` with `session_list_connection_counter`
unfoldable pub connection_counter : (ℕ → SessionEntry) → ℕ → List ℕ → ℕ → ℕ
connection_counter objects connection [] count = count
connection_counter objects connection (a ∷ entries) count =
    connection_counter objects connection entries
      (if connection == (objects a).connection then count + 1 else count)

unfoldable pub session_list_connection_count : SessionList → ℕ → ℕ
session_list_connection_count list connection =
    connection_counter list.objects connection list.session_entry_list 0

unfoldable pub session_list_is_full : SessionList → ℕ → Bool
session_list_is_full list connection =
    if leb list.max_per_connection (session_list_connection_count list connection)
    then true
    else false

unfoldable pub session_list_insert : SessionList → ℕ → SessionList × Bool
session_list_insert list entry =
    if session_list_is_full list (list.objects entry).connection
    then (list, false)
    else (record list { session_entry_list = list.session_entry_list ++ entry ∷ [] }, true)

unfoldable pub session_list_remove_custom :
    SessionList → (SessionEntry → Ordering) → SessionList × Bool
session_list_remove_custom list func =
    elim (find_custom (λ a. func (list.objects a)) list.session_entry_list) [
      | none ↦ (list, false)
      | some a ↦ (record list { session_entry_list = remove_first a list.session_entry_list }, true)
    ]

unfoldable pub session_list_remove_handle : SessionList → ℕ → SessionList × Bool
unfolding session_list_remove_custom
session_list_remove_handle list handle =
    session_list_remove_custom list λ e. session_entry_compare_on_handle e handle

unfoldable pub session_list_remove_connection : SessionList → ℕ → SessionList × Bool
unfolding session_list_remove_custom
session_list_remove_connection list connection =
    session_list_remove_custom list λ e. session_entry_compare_on_connection e connection

unfoldable pub session_list_remove : SessionList → ℕ → SessionList
session_list_remove list entry = record list {
  session_entry_list = remove_first entry list.session_entry_list;
}

unfoldable pub session_list_lookup_handle : SessionList → ℕ → Option ℕ
session_list_lookup_handle list handle =
    find_custom (λ a. session_entry_compare_on_handle (list.objects a) handle)
      list.session_entry_list

-- `session_list_compare_context`. A failed assertion on the size ends the program; the caller's
-- size is at most SIZE_BUF_MAX otherwise.
unfoldable pub find_context_client : (ℕ → SessionEntry) → List ℕ → List ℕ → ℕ → Option (Option ℕ)
find_context_client objects [] buf size = some none
find_context_client objects (a ∷ entries) buf size =
    let rest = find_context_client objects entries buf size in
    elim (session_entry_compare_on_context_client (objects a) buf size) [
      | none ↦ none
      | some Ordering.eq ↦ some (some a)
      | some Ordering.lt ↦ rest
      | some Ordering.gt ↦ rest
    ]

unfoldable pub session_list_lookup_context_client : SessionList → List ℕ → ℕ → Option (Option ℕ)
unfolding find_context_client
session_list_lookup_context_client list buf size =
    find_context_client list.objects list.session_entry_list buf size

unfoldable pub session_list_size : SessionList → ℕ
session_list_size list = length list.session_entry_list

-- The entry is pushed on the head of the queue.
unfoldable pub session_list_abandon_handle : SessionList → ℕ → ℕ → SessionList × Bool
unfolding session_entry_abandon session_entry_compare_on_connection
session_list_abandon_handle list connection handle = elim (session_list_lookup_handle list handle) [
  | none ↦ (list, false)
  | some a ↦ elim (session_entry_compare_on_connection (list.objects a) connection) [
    | Ordering.eq ↦ (
      record (write list a (session_entry_abandon (list.objects a))) {
        abandoned_queue = a ∷ list.abandoned_queue;
      },
      true,
    )
    | Ordering.lt ↦ (list, false)
    | Ordering.gt ↦ (list, false)
  ]
]

-- What `session_list_claim` does to the entry.
unfoldable pub take_over : SessionEntry → ℕ → SessionEntry
unfolding session_entry_set_connection session_entry_set_state
take_over e connection = session_entry_set_connection (session_entry_set_state e loaded) connection

unfoldable pub session_list_claim : SessionList → ℕ → ℕ → SessionList × Bool
unfolding take_over
session_list_claim list entry connection =
    let claimed = write list entry (take_over (list.objects entry) connection) in
    if member entry list.abandoned_queue
    then (record claimed { abandoned_queue = remove_first entry list.abandoned_queue }, true)
    else if member entry list.session_entry_list
    then (claimed, true)
    else (list, false)

-- The caller's function runs on the entry at the tail of the queue, with the caller's data `D`.
unfoldable pub session_list_prune_abandoned {ℓ} :
    {D : Type ℓ}
    → SessionList
    → (SessionList → D → ℕ → SessionList × D × Bool)
    → D
    → SessionList × D × Bool
session_list_prune_abandoned list func d =
    if leb (length list.abandoned_queue) list.max_abandoned
    then (list, d, true)
    else elim (last list.abandoned_queue) [
      | none ↦ (list, d, true)
      | some a ↦ func (record list { abandoned_queue = init list.abandoned_queue }) d a
    ]
