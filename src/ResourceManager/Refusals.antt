-- ===== src/ResourceManager/Refusals.antt =====
-- src/resource-manager.c: what the resource manager refuses to load.
use tpm2_abrmd.Prelude.{
  ℕ, Bool, true, false, if◌then◌else◌, ◌==◌, Option, none, some, ◌≡◌, refl, arith,
}
use tpm2_abrmd.Constants.{rc_success}
use tpm2_abrmd.SessionEntry.{
  SessionEntry, SessionEntryState, loaded, saved_rm, saved_client, saved_client_closed,
}
use tpm2_abrmd.SessionList.{session_list_lookup_handle}
use tpm2_abrmd.Tpm2.{Env}
use tpm2_abrmd.ResourceManager.State.{ResMgr, M, ◌>>=◌, return, gets, entry_at}
use tpm2_abrmd.ResourceManager.Load.{is_saved_rm, load_entry, load_session_from_handle}

-- An entry is loadable by a connection that owns it, while the resource manager holds its context.
unfoldable pub IsLoadable : ℕ → SessionEntry → Type 0
IsLoadable c e = (c ≡ e.connection) × (e.state ≡ saved_rm)

is_saved_rm_iff : (x : SessionEntryState) → is_saved_rm x ≡ true → x ≡ saved_rm
unfolding is_saved_rm
is_saved_rm_iff loaded h = ground arith
is_saved_rm_iff saved_rm h = refl
is_saved_rm_iff saved_client h = ground arith
is_saved_rm_iff saved_client_closed h = ground arith

==-eq : (a b : ℕ) → (a == b) ≡ true → a ≡ b
==-eq a b h = ground arith

refused :
    {S : Type 0} (b b' : Bool) (m : M S ℕ) (s : ResMgr S)
    → (b ≡ true → b' ≡ true → ⊥)
    → (if b then (if b' then m else return rc_success) else return rc_success) s
      ≡ some (rc_success, s)
unfolding return
refused false b' m s n = refl
refused true false m s n = refl
refused true true m s n = absurd (n refl refl)

module _ {S : Type 0} (env : Env S) where
  load_entry-refuses :
      (c a : ℕ) (will_flush : Bool) (s : ResMgr S)
      → ¬ IsLoadable c (entry_at s a)
      → load_entry env c will_flush a s ≡ some (rc_success, s)
  unfolding load_entry ◌>>=◌ gets return IsLoadable
  load_entry-refuses c a will_flush s n =
      refused (c == (entry_at s a).connection) (is_saved_rm (entry_at s a).state) _ s
        λ p q. n (==-eq _ _ p, is_saved_rm_iff _ q)

  found_refused :
      (c : ℕ) (will_flush : Bool) (s : ResMgr S) (o : Option ℕ)
      → ((a : ℕ) → o ≡ some a → ¬ IsLoadable c (entry_at s a))
      → (elim o as (λ o. M S ℕ) [
        | none ↦ return rc_success
        | some a ↦ load_entry env c will_flush a
      ])
          s
        ≡ some (rc_success, s)
  unfolding return
  found_refused c will_flush s none n = refl
  found_refused c will_flush s (some a) n = load_entry-refuses c a will_flush s (n a refl)

  -- A handle whose first entry in the session list belongs to another connection, or is not in state
  -- SAVED_RM, is not loaded, and neither is one without an entry: the answer is a success, and
  -- nothing changes.
  pub load_session_from_handle-refuses :
      (c h : ℕ) (will_flush : Bool) (s : ResMgr S)
      → ((a : ℕ)
          → session_list_lookup_handle s.session_list h ≡ some a
          → ¬ IsLoadable c (entry_at s a))
      → load_session_from_handle env c h will_flush s ≡ some (rc_success, s)
  unfolding load_session_from_handle ◌>>=◌ gets return
  load_session_from_handle-refuses c h will_flush s n =
      found_refused c will_flush s (session_list_lookup_handle s.session_list h) n
