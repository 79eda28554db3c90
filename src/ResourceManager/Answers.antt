-- ===== src/ResourceManager/Answers.antt =====
-- src/resource-manager.c: the connection of the answers that the resource manager itself gives.
use mathlib.Core.Option.{none-ne-some}
use tpm2_abrmd.Prelude.{
  if◌then◌else◌, ◌==◌, replicate, take, ℕ, ◌+◌, Bool, true, false, List, Option, none, some, ◌≡◌,
  refl,
}
use tpm2_abrmd.Command.{Tpm2Command, command_get_code}
use tpm2_abrmd.Constants.{
  rc_success, tpm_header_size, handle_size, st_no_sessions, cc_start_auth_session,
}
use tpm2_abrmd.Bytes.{memcpy}
use tpm2_abrmd.Header.{header_init}
use tpm2_abrmd.Mu.{Mu}
use tpm2_abrmd.SessionEntry.{SessionEntry}
use tpm2_abrmd.Response.{
  Tpm2Response, response_new, response_new_context_save, response_new_context_load,
}
use tpm2_abrmd.Tpm2.{Env}
use tpm2_abrmd.ResourceManager.State.{ResMgr, from_option}
use tpm2_abrmd.ResourceManager.Triple.{
  Triple, Any, return_rule, gets_rule, bind_rule, if_rule, option_rule,
}
use tpm2_abrmd.ResourceManager.Frame.{
  IsFrame, step_rule, put_entry_rule, on_sessions_rule, from_option_rule,
}
use tpm2_abrmd.ResourceManager.Special.{
  save_context_session, save_context, answer_loaded, load_found, load_context_session, load_context,
  quota_check, loads_transient,
}

-- The response is for a connection, where there is one.
abbrev pub IsFor : ℕ → Option Tpm2Response → Type 0
IsFor c none = Unit {0}
IsFor c (some r) = r.connection ≡ c

-- What holds of the value, where there is one.
abbrev pub OnSome : {A : Type 0} → (A → Type 0) → Option A → Type 0
OnSome Q none = Unit {0}
OnSome Q (some a) = Q a

answer_lem :
    (c : ℕ) (b : Bool) (buf : List ℕ) (size attributes : ℕ)
    → OnSome (IsFor c) (if b then some (some (response_new c buf size attributes)) else some none)
unfolding response_new
answer_lem c true buf size attributes = refl
answer_lem c false buf size attributes = tt

header_lem :
    (c : ℕ) (o : Option (ℕ × List ℕ)) (size attributes : ℕ)
    → OnSome (IsFor c) (elim o [
      | none ↦ none
      | some (rc, buf) ↦
          if rc == rc_success then some (some (response_new c buf size attributes)) else some none
    ])
header_lem c none size attributes = tt
header_lem c (some (rc, buf)) size attributes = answer_lem c (rc == rc_success) buf size attributes

save-IsFor :
    (mu : Mu) (c : ℕ) (e : SessionEntry) → OnSome (IsFor c) (response_new_context_save mu c e)
unfolding response_new_context_save
save-IsFor mu c e =
    let size = tpm_header_size + e.context_client.size in
    header_lem c
      (header_init mu
        (memcpy (replicate size 0) tpm_header_size
          (take e.context_client.size e.context_client.buf))
        size st_no_sessions size rc_success)
      size 0x02000162

load-IsFor :
    (mu : Mu) (c : ℕ) (e : SessionEntry) → OnSome (IsFor c) (response_new_context_load mu c e)
unfolding response_new_context_load
load-IsFor mu c e =
    let m =
      mu.uint32 e.handle (replicate (tpm_header_size + handle_size) 0)
        (tpm_header_size + handle_size) tpm_header_size in
    elim (m.rc == rc_success)
      as (λ b. OnSome (IsFor c) (
        if b
        then elim (header_init mu m.buf m.offset st_no_sessions m.offset rc_success) [
          | none ↦ none
          | some (rc, buf) ↦
              if rc == rc_success
              then some (some (response_new c buf m.offset 0x10000161))
              else some none
        ]
        else some none)) [
          | true ↦
              header_lem c (header_init mu m.buf m.offset st_no_sessions m.offset rc_success)
                m.offset 0x10000161
          | false ↦ tt
        ]

module _ {S : Type 0} {R : ResMgr S → ResMgr S → Type 0} (frame : IsFrame R) (env : Env S) where
  answer_rule :
      (c : ℕ)
      → (o : Option (Option Tpm2Response)) → OnSome (IsFor c) o
      → Triple R (IsFor c) (from_option {S = S} o)
  unfolding from_option
  answer_rule c none q = record { run = λ s a s' e. absurd (none-ne-some _ e) }
  answer_rule c (some r) q = step_rule (IsFor c) _ _ _ (λ s. refl) λ s. (frame.is_run.run_refl s, q)

  pub save_context_session_rule :
      (c : Tpm2Command) → Triple R (IsFor c.connection) (save_context_session env c)
  unfolding save_context_session
  save_context_session_rule c = bind_rule frame.is_run _ _ (gets_rule frame.is_run _) λ found _.
      option_rule frame.is_run found _ _ (return_rule frame.is_run _ tt) λ a.
        bind_rule frame.is_run _ _ (gets_rule frame.is_run _) λ e _.
          if_rule frame.is_run _ _ _
            (bind_rule frame.is_run _ _ (put_entry_rule frame a _) λ _ _.
              bind_rule frame.is_run _ _ (gets_rule frame.is_run _)
                λ saved _. answer_rule c.connection _ (save-IsFor _ _ _))
            (return_rule frame.is_run _ tt)

  pub save_context_rule : (c : Tpm2Command) → Triple R (IsFor c.connection) (save_context env c)
  unfolding save_context
  save_context_rule c =
      if_rule frame.is_run _ _ _ (save_context_session_rule c) (return_rule frame.is_run _ tt)

  answer_loaded_rule :
      (c : Tpm2Command) (a : ℕ) → Triple R (IsFor c.connection) (answer_loaded env c a)
  unfolding answer_loaded
  answer_loaded_rule c a = bind_rule frame.is_run _ _ (put_entry_rule frame a _) λ _ _.
      bind_rule frame.is_run _ _ (gets_rule frame.is_run _)
        λ e _. answer_rule c.connection _ (load-IsFor env.mu c.connection e)

  load_found_rule : (c : Tpm2Command) (a : ℕ) → Triple R (IsFor c.connection) (load_found env c a)
  unfolding load_found
  load_found_rule c a = bind_rule frame.is_run _ _ (gets_rule frame.is_run _) λ e _.
      if_rule frame.is_run _ _ _ (answer_loaded_rule c a) (
        bind_rule frame.is_run _ _ (on_sessions_rule frame _) λ claimed _.
          if_rule frame.is_run _ _ _ (answer_loaded_rule c a) (return_rule frame.is_run _ tt))

  load_context_session_rule :
      (c : Tpm2Command) → Triple R (IsFor c.connection) (load_context_session env c)
  unfolding load_context_session
  load_context_session_rule c = bind_rule frame.is_run _ _ (gets_rule frame.is_run _) λ l _.
      bind_rule frame.is_run _ _ (from_option_rule frame _) λ found _.
        option_rule frame.is_run found _ _ (return_rule frame.is_run _ tt) λ a. load_found_rule c a

  pub load_context_rule : (c : Tpm2Command) → Triple R (IsFor c.connection) (load_context env c)
  unfolding load_context
  load_context_rule c =
      if_rule frame.is_run _ _ _ (load_context_session_rule c) (return_rule frame.is_run _ tt)

  pub quota_check_rule : (c : Tpm2Command) → Triple R Any (quota_check c)
  unfolding quota_check
  quota_check_rule c =
      if_rule frame.is_run (loads_transient (command_get_code c)) _ _
        (bind_rule frame.is_run _ _ (gets_rule frame.is_run _) λ full _.
          if_rule frame.is_run full _ _ (return_rule frame.is_run _ tt)
            (return_rule frame.is_run _ tt))
        (if_rule frame.is_run (command_get_code c == cc_start_auth_session) _ _
          (bind_rule frame.is_run _ _ (gets_rule frame.is_run _) λ full _.
            if_rule frame.is_run full _ _ (return_rule frame.is_run _ tt)
              (return_rule frame.is_run _ tt))
          (return_rule frame.is_run _ tt))
