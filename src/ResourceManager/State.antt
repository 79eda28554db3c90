-- ===== src/ResourceManager/State.antt =====
-- The state of the resource manager, and the monad in which its functions run
-- (src/resource-manager.c). What ends the program, a failed assertion, g_error or the use of freed
-- memory, is `none`.
use tpm2_abrmd.Prelude.{
  ℕ, zero, suc, List, [], ◌∷◌, Option, none, some, if◌then◌else◌, ◌==◌, length,
}
use tpm2_abrmd.HandleMap.{HandleMap, HandleMapEntry}
use tpm2_abrmd.SessionEntry.{SessionEntry}
use tpm2_abrmd.SessionList.{SessionList, write, member}
use tpm2_abrmd.Tpm2.{Tpm2}
use tpm2_abrmd.Response.{Tpm2Response}

-- ControlCode of src/control-message.h
pub data ControlCode : Type 0 where
  check_cancel connection_removed : ControlCode

-- What goes to the sink: a response, or a control message with the connection that it is about.
pub data Message : Type 0 where
  response : Tpm2Response → Message
  control : ControlCode → ℕ → Message

-- `trans_map` is the transient map of the connection at an address, and `map_entries` the memory of the
-- HandleMapEntry objects. A new object lies at `next_address`. `size_buf_max` is
-- sizeof (TPMS_CONTEXT). `sent` is what the sink has been given, the latest first.
pub record ResMgr (S : Type 0) : Type 0 where
  pub tpm2 : Tpm2 S
  pub session_list : SessionList
  pub trans_map : ℕ → HandleMap
  pub map_entries : ℕ → HandleMapEntry
  pub next_address : ℕ
  pub size_buf_max : ℕ
  pub sent : List Message

abbrev pub M : Type 0 → Type 0 → Type 0
M S A = ResMgr S → Option (A × ResMgr S)

infixl 5 ◌>>=◌ ◌>>◌
unfoldable pub ◌>>=◌ : {S A B : Type 0} → M S A → (A → M S B) → M S B
◌>>=◌ m f s = elim (m s) [ none ↦ none | some (a, s') ↦ f a s' ]

abbrev pub ◌>>◌ : {S B : Type 0} → M S (Unit {0}) → M S B → M S B
m >> k = m >>= λ _. k

module _ {S : Type 0} where
  unfoldable pub return : {A : Type 0} → A → M S A
  return a s = some (a, s)

  unfoldable pub fault : {A : Type 0} → M S A
  fault s = none

  unfoldable pub gets : {A : Type 0} → (ResMgr S → A) → M S A
  gets f s = some (f s, s)

  unfoldable pub modify : (ResMgr S → ResMgr S) → M S (Unit {0})
  modify f s = some (tt, f s)

  unfoldable pub from_option : {A : Type 0} → Option A → M S A
  from_option none s = none
  from_option (some a) s = some (a, s)

  -- A call of an operation on the TPM.
  unfoldable pub on_tpm2 : {A : Type 0} → (Tpm2 S → Tpm2 S × A) → M S A
  on_tpm2 f s = let (t, a) = f s.tpm2 in some (a, record s { tpm2 = t })

  -- A call of an operation on the session list.
  unfoldable pub on_sessions : {A : Type 0} → (SessionList → SessionList × A) → M S A
  on_sessions f s = let (l, a) = f s.session_list in some (a, record s { session_list = l })

  -- The session entry at an address, and a write to it.
  abbrev pub entry_at : ResMgr S → ℕ → SessionEntry
  entry_at s a = s.session_list.objects a

  unfoldable pub put_entry : ℕ → (SessionEntry → SessionEntry) → M S (Unit {0})
  put_entry a f s = some (tt, record s { session_list = write s.session_list a (f (entry_at s a)) })

  -- The transient map of a connection, and a call of an operation on it.
  unfoldable pub on_map : {A : Type 0} → ℕ → (HandleMap → HandleMap × A) → M S A
  on_map c f s =
      let (m, a) = f (s.trans_map c) in
      some (a, record s { trans_map = λ d. if d == c then m else s.trans_map d })

  -- A write to the HandleMapEntry at an address.
  unfoldable pub put_map_entry : ℕ → (HandleMapEntry → HandleMapEntry) → M S (Unit {0})
  put_map_entry a f s =
      some (
        tt,
        record s { map_entries = λ b. if b == a then f (s.map_entries a) else s.map_entries b },
      )

  -- sink_enqueue
  unfoldable pub sink_enqueue : Message → M S (Unit {0})
  sink_enqueue m s = some (tt, record s { sent = m ∷ s.sent })

-- The pointer behind the first occurrence of one in a GList, `none` at the end.
unfoldable pub successor : ℕ → List ℕ → Option ℕ
successor a [] = none
successor a (b ∷ []) = none
successor a (b ∷ c ∷ l) = if b == a then some c else successor a (c ∷ l)

abbrev pub first : List ℕ → Option ℕ
first [] = none
first (a ∷ l) = some a

-- The end of a round of g_list_foreach, whose callback answered the data and the state: without a next
-- link that is the end, and else `rest` is what the other rounds answer. The next link was read before
-- the callback ran: where the callback has removed it, the next round uses freed memory.
unfoldable pub go_on :
    {S D : Type 0} → Option ℕ → D → ResMgr S → Option (D × ResMgr S) → Option (D × ResMgr S)
go_on none d s rest = some (d, s)
go_on (some b) d s rest = if member b s.session_list.session_entry_list then rest else none

-- g_list_foreach of GLib on the list of sessions, as it is documented (the callback may remove the link
-- that it was called on, and none behind it), for a callback that keeps data of type `D`. `n` is the number
-- of rounds left: the links are as many as the list had at the start, since no callback adds one.
module _ {S D : Type 0} (callback : ℕ → D → M S D) where
  unfoldable pub foreach_from : ℕ → Option ℕ → D → M S D
  unfolding go_on
  foreach_from n none d s = some (d, s)
  foreach_from zero (some a) d s = none
  foreach_from (suc n) (some a) d s =
      let next = successor a s.session_list.session_entry_list in
      elim (callback a d s) [
        | none ↦ none
        | some (d', s') ↦ go_on next d' s' (foreach_from n next d' s')
      ]

  unfoldable pub session_list_foreach : D → M S D
  unfolding foreach_from
  session_list_foreach d s =
      let l = s.session_list.session_entry_list in foreach_from (length l) (first l) d s
