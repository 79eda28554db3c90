-- ===== src/ResourceManager/Frame.antt =====
-- The rules for the functions of src/resource-manager.c that touch the TPM, the session list and the
-- objects only.
use mathlib.Core.Option.{some-injective, none-ne-some}
use tpm2_abrmd.Prelude.{ℕ, List, Option, none, some, ◌≡◌, refl, sym, subst, ◌∙◌, arith}
use tpm2_abrmd.HandleMap.{HandleMapEntry}
use tpm2_abrmd.SessionEntry.{SessionEntry}
use tpm2_abrmd.SessionList.{SessionList}
use tpm2_abrmd.Command.{Tpm2Command}
use tpm2_abrmd.Response.{response_new, response_new_rc}
use tpm2_abrmd.Tpm2.{Tpm2, Env, send_command, get_response}
use tpm2_abrmd.ResourceManager.State.{
  ResMgr, M, from_option, on_tpm2, on_sessions, put_entry, put_map_entry, modify,
}
use tpm2_abrmd.ResourceManager.Session.{send, flush_handle, forget_entry}
use tpm2_abrmd.ResourceManager.Load.{load_context_of}
use tpm2_abrmd.ResourceManager.Save.{saveflush}
use tpm2_abrmd.ResourceManager.Mapping.{new_object}
use tpm2_abrmd.ResourceManager.Triple.{Triple, IsRun, Any}

-- A relation that does not see the TPM, the session list and the objects
pub record IsFrame {S : Type 0} (R : ResMgr S → ResMgr S → Type 0) : Type 0 where
  pub is_run : IsRun R
  pub set_tpm2 : (s : ResMgr S) (t : Tpm2 S) → R s (record s { tpm2 = t })
  pub set_sessions : (s : ResMgr S) (l : SessionList) → R s (record s { session_list = l })
  pub set_map_entries : (s : ResMgr S) (e : ℕ → HandleMapEntry) → R s (record s { map_entries = e })
  pub set_next_address : (s : ResMgr S) (n : ℕ) → R s (record s { next_address = n })

-- A run that always returns, with the relation shown.
pub step_rule :
    {S A : Type 0}
    → {R : ResMgr S → ResMgr S → Type 0} → (Q : A → Type 0) → (m : M S A) → (a : ResMgr S → A)
    → (next : ResMgr S → ResMgr S) → ((s : ResMgr S) → m s ≡ some (a s, next s))
    → ((s : ResMgr S) → R s (next s) × Q (a s))
    → Triple R Q m
step_rule {R = R} Q m a next runs related = record {
  run =
      λ s b s' e. subst (λ r. R s r.1 × Q r.0) (some-injective _ _ (sym (runs s) ∙ e)) (related s);
}

module _ {S : Type 0} {R : ResMgr S → ResMgr S → Type 0} (frame : IsFrame R) where
  pub put_entry_rule : (a : ℕ) (f : SessionEntry → SessionEntry) → Triple R Any (put_entry a f)
  unfolding put_entry
  put_entry_rule a f = step_rule Any _ _ _ (λ s. refl) λ s. (frame.set_sessions s _, tt)

  pub put_map_entry_rule :
      (a : ℕ) (f : HandleMapEntry → HandleMapEntry) → Triple R Any (put_map_entry a f)
  unfolding put_map_entry
  put_map_entry_rule a f = step_rule Any _ _ _ (λ s. refl) λ s. (frame.set_map_entries s _, tt)

  pub on_sessions_rule :
      {A : Type 0} → (f : SessionList → SessionList × A) → Triple R Any (on_sessions f)
  unfolding on_sessions
  on_sessions_rule f = step_rule Any _ _ _ (λ s. refl) λ s. (frame.set_sessions s _, tt)

  pub new_object_rule : Triple R Any (new_object {S = S})
  unfolding new_object
  new_object_rule = step_rule Any _ _ _ (λ s. refl) λ s. (frame.set_next_address s _, tt)

  pub from_option_rule : {A : Type 0} → (o : Option A) → Triple R Any (from_option o)
  unfolding from_option
  from_option_rule none = record { run = λ s a s' e. absurd (none-ne-some _ e) }
  from_option_rule (some a) = step_rule Any _ _ _ (λ s. refl) λ s. (frame.is_run.run_refl s, tt)

  module _ (env : Env S) where
    pub forget_entry_rule : (a : ℕ) → Triple R Any (forget_entry env a)
    unfolding forget_entry modify
    forget_entry_rule a = step_rule Any _ _ _ (λ s. refl) λ s. (frame.set_sessions s _, tt)

    pub flush_handle_rule : (h : ℕ) → Triple R Any (flush_handle env h)
    unfolding flush_handle on_tpm2
    flush_handle_rule h = step_rule Any _ _ _ (λ s. refl) λ s. (frame.set_tpm2 s _, tt)

    pub load_context_of_rule : (c : List ℕ) → Triple R Any (load_context_of env c)
    unfolding load_context_of
    load_context_of_rule c = step_rule Any _ _ _ (λ s. refl) λ s. (frame.set_tpm2 s _, tt)

    pub saveflush_rule : (h : ℕ) → Triple R Any (saveflush env h)
    unfolding saveflush
    saveflush_rule h = step_rule Any _ _ _ (λ s. refl) λ s. (frame.set_tpm2 s _, tt)

    send_connection :
        (t : Tpm2 S) (c : Tpm2Command) → (send_command env t c).1.connection ≡ c.connection
    unfolding send_command get_response response_new response_new_rc
    send_connection t c = ground arith

    -- The response is for the connection of the command.
    pub send_rule : (c : Tpm2Command) → Triple R (λ r. r.0.connection ≡ c.connection) (send env c)
    unfolding send
    send_rule c = step_rule _ _ _ _ (λ s. refl) λ s. (frame.set_tpm2 s _, send_connection s.tpm2 c)
