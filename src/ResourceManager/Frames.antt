-- ===== src/ResourceManager/Frames.antt =====
-- The rules for the functions of src/resource-manager.c and src/resource-manager-session.c that load and
-- save sessions and transient objects.
use tpm2_abrmd.Prelude.{
  ℕ, ◌+◌, Bool, true, false, List, [], ◌∷◌, Option, none, some, ◌≡◌, refl, ◌∙◌, arith,
}
use tpm2_abrmd.Command.{Tpm2Command, command_set_handle, command_get_handles}
use tpm2_abrmd.Constants.{rc_success}
use tpm2_abrmd.Tpm2.{Env}
use tpm2_abrmd.ResourceManager.State.{ResMgr, M, ◌>>=◌, return, session_list_foreach}
use tpm2_abrmd.ResourceManager.Session.{
  load_with, load_session, flush_session, store_context, save_with, save_session, resave_session,
  regap_session,
}
use tpm2_abrmd.ResourceManager.Load.{
  command_max_handles, virt_to_phys, load_transient, regap_session_callback, handle_rc,
  load_or_flush, load_entry, load_session_from_handle, load_auth_callback, load_handles_from,
  load_handles,
}
use tpm2_abrmd.ResourceManager.Save.{flushsave_context, save_session_callback, for_each}
use tpm2_abrmd.ResourceManager.Triple.{
  Triple, Any, return_rule, gets_rule, fault_rule, bind_rule, if_rule, option_rule, foreach_rule,
}
use tpm2_abrmd.ResourceManager.Frame.{
  IsFrame, put_entry_rule, put_map_entry_rule, from_option_rule, forget_entry_rule,
  flush_handle_rule, load_context_of_rule, saveflush_rule, send_rule,
}

set_handle-connection :
    (c : Tpm2Command) (h i : ℕ) → (command_set_handle c h i).0.connection ≡ c.connection
unfolding command_set_handle
set_handle-connection c h i = ground arith

module _ {S : Type 0} {R : ResMgr S → ResMgr S → Type 0} (frame : IsFrame R) (env : Env S) where
  load_with_rule : (a : ℕ) (o : Option Tpm2Command) → Triple R Any (load_with env a o)
  unfolding load_with
  load_with_rule a none = return_rule frame.is_run _ tt
  load_with_rule a (some cmd) = bind_rule frame.is_run _ _ (send_rule frame env cmd) λ r _.
      if_rule frame.is_run _ _ _
        (if_rule frame.is_run _ _ _
          (bind_rule frame.is_run _ _ (put_entry_rule frame a _)
            λ _ _. return_rule frame.is_run _ tt)
          (return_rule frame.is_run _ tt))
        (return_rule frame.is_run _ tt)

  load_session_rule : (a : ℕ) → Triple R Any (load_session env a)
  unfolding load_session
  load_session_rule a =
      bind_rule frame.is_run _ _ (gets_rule frame.is_run _)
        λ c _. bind_rule frame.is_run _ _ (from_option_rule frame _) λ o _. load_with_rule a o

  flush_session_rule : (a : ℕ) → Triple R Any (flush_session env a)
  unfolding flush_session
  flush_session_rule a = bind_rule frame.is_run _ _ (gets_rule frame.is_run _) λ h _.
      bind_rule frame.is_run _ _ (flush_handle_rule frame env h) λ rc _.
        bind_rule frame.is_run _ _ (forget_entry_rule frame env a)
          λ _ _. return_rule frame.is_run _ tt

  store_context_rule : (a : ℕ) (r : _) → Triple R Any (store_context env a r)
  unfolding store_context
  store_context_rule a r =
      bind_rule frame.is_run _ _ (gets_rule frame.is_run _)
        λ e _. bind_rule frame.is_run _ _ (from_option_rule frame _) λ o _. put_entry_rule frame a _

  save_with_rule : (a : ℕ) (o : Option Tpm2Command) → Triple R Any (save_with env a o)
  unfolding save_with
  save_with_rule a none = return_rule frame.is_run _ tt
  save_with_rule a (some cmd) = bind_rule frame.is_run _ _ (send_rule frame env cmd) λ r _.
      if_rule frame.is_run _ _ _
        (if_rule frame.is_run _ _ _
          (bind_rule frame.is_run _ _ (store_context_rule a _) λ _ _. return_rule frame.is_run _ tt)
          (return_rule frame.is_run _ tt))
        (return_rule frame.is_run _ tt)

  save_session_rule : (a : ℕ) → Triple R Any (save_session env a)
  unfolding save_session
  save_session_rule a = bind_rule frame.is_run _ _ (gets_rule frame.is_run _) λ e _.
      if_rule frame.is_run _ _ _
        (bind_rule frame.is_run _ _ (from_option_rule frame _) λ o _. save_with_rule a o)
        (return_rule frame.is_run _ tt)

  -- Flushing a session, then answering a value
  flush_then :
      {A : Type 0} → (a : ℕ) → (b : A) → Triple R Any (flush_session env a >>= λ done. return b)
  flush_then a b =
      bind_rule frame.is_run _ _ (flush_session_rule a) λ _ _. return_rule frame.is_run _ tt

  resave_session_rule : (a : ℕ) → Triple R Any (resave_session env a)
  unfolding resave_session
  resave_session_rule a =
      bind_rule frame.is_run _ _ (save_session_rule a)
        λ r _. if_rule frame.is_run _ _ _ (return_rule frame.is_run _ tt) (flush_then a _)

  regap_session_rule : (a : ℕ) → Triple R Any (regap_session env a)
  unfolding regap_session
  regap_session_rule a = bind_rule frame.is_run _ _ (gets_rule frame.is_run _) λ e _.
      if_rule frame.is_run _ _ _ (return_rule frame.is_run _ tt) (
        bind_rule frame.is_run _ _ (load_session_rule a)
          λ r _. if_rule frame.is_run _ _ _ (resave_session_rule a) (flush_then a _))

  pub regap_all_rule : Triple R Any (session_list_foreach (regap_session_callback env) true)
  unfolding regap_session_callback
  regap_all_rule =
      foreach_rule frame.is_run _
        (λ a ret. if_rule frame.is_run _ _ _ (regap_session_rule a) (return_rule frame.is_run _ tt))
        true

  handle_rc_rule : (rc : ℕ) → Triple R Any (handle_rc env rc)
  unfolding handle_rc
  handle_rc_rule rc = if_rule frame.is_run _ _ _ regap_all_rule (return_rule frame.is_run _ tt)

  load_or_flush_rule : (a : ℕ) → Triple R Any (load_or_flush env a)
  unfolding load_or_flush
  load_or_flush_rule a = bind_rule frame.is_run _ _ (load_session_rule a) λ r _.
      if_rule frame.is_run _ _ _ (return_rule frame.is_run _ tt) (
        bind_rule frame.is_run _ _ (handle_rc_rule _) λ ret _.
          if_rule frame.is_run _ _ _
            (bind_rule frame.is_run _ _ (load_session_rule a) λ again _.
              if_rule frame.is_run _ _ _ (return_rule frame.is_run _ tt) (flush_then a _))
            (flush_then a _))

  load_entry_rule :
      (c : ℕ) (will_flush : Bool) (a : ℕ) → Triple R Any (load_entry env c will_flush a)
  unfolding load_entry
  load_entry_rule c will_flush a = bind_rule frame.is_run _ _ (gets_rule frame.is_run _) λ e _.
      if_rule frame.is_run _ _ _
        (if_rule frame.is_run _ _ _
          (bind_rule frame.is_run _ _ (load_or_flush_rule a) λ rc _.
            if_rule frame.is_run _ _ _
              (if_rule frame.is_run _ _ _
                (bind_rule frame.is_run _ _ (forget_entry_rule frame env a)
                  λ _ _. return_rule frame.is_run _ tt)
                (return_rule frame.is_run _ tt))
              (return_rule frame.is_run _ tt))
          (return_rule frame.is_run _ tt))
        (return_rule frame.is_run _ tt)

  load_session_from_handle_rule :
      (c h : ℕ) (will_flush : Bool) → Triple R Any (load_session_from_handle env c h will_flush)
  unfolding load_session_from_handle
  load_session_from_handle_rule c h will_flush =
      bind_rule frame.is_run _ _ (gets_rule frame.is_run _) λ found _.
        option_rule frame.is_run found _ _ (return_rule frame.is_run _ tt)
          λ a. load_entry_rule c will_flush a

  pub load_auth_callback_rule :
      (c : Tpm2Command) (o : ℕ) → Triple R Any (load_auth_callback env c o)
  unfolding load_auth_callback
  load_auth_callback_rule c o =
      if_rule frame.is_run _ _ _
        (bind_rule frame.is_run _ _ (load_session_from_handle_rule _ _ _)
          λ _ _. return_rule frame.is_run _ tt)
        (return_rule frame.is_run _ tt)

  -- The transient objects and the handles of a command keep its connection.
  abbrev Keeps : Tpm2Command → Tpm2Command × ℕ → Type 0
  Keeps c r = r.0.connection ≡ c.connection

  abbrev Loads : Tpm2Command → Tpm2Command × List ℕ × ℕ → Type 0
  Loads c r = r.0.connection ≡ c.connection

  virt_to_phys_rule : (c : Tpm2Command) (e i : ℕ) → Triple R (Keeps c) (virt_to_phys env c e i)
  unfolding virt_to_phys
  virt_to_phys_rule c e i = bind_rule frame.is_run _ _ (gets_rule frame.is_run _) λ entry _.
      if_rule frame.is_run _ _ _ (return_rule frame.is_run _ (set_handle-connection c _ i)) (
        bind_rule frame.is_run _ _ (load_context_of_rule frame env _) λ r _.
          if_rule frame.is_run _ _ _
            (bind_rule frame.is_run _ _ (put_map_entry_rule frame e _)
              λ _ _. return_rule frame.is_run _ (set_handle-connection c _ i))
            (return_rule frame.is_run _ refl))

  load_transient_rule :
      (c : Tpm2Command) → (l : List ℕ) → (h i : ℕ) → Triple R (Loads c) (load_transient env c l h i)
  unfolding load_transient
  load_transient_rule c l h i = bind_rule frame.is_run _ _ (gets_rule frame.is_run _) λ m _.
      option_rule frame.is_run _ _ _ (return_rule frame.is_run _ refl) λ e.
        bind_rule frame.is_run _ _ (virt_to_phys_rule c e i) λ r k.
          if_rule frame.is_run _ _ _ (return_rule frame.is_run _ k) (return_rule frame.is_run _ k)

  load_handles_from_rule :
      (b c : Tpm2Command)
      → (l handles : List ℕ) → (i rc : ℕ) → c.connection ≡ b.connection
      → Triple R (Loads b) (load_handles_from env c l handles i rc)
  unfolding load_handles_from
  load_handles_from_rule b c l [] i rc k = return_rule frame.is_run _ k
  load_handles_from_rule b c l (h ∷ handles) i rc k =
      if_rule frame.is_run _ _ _
        (bind_rule frame.is_run _ _ (load_transient_rule c l h i)
          λ r k'. load_handles_from_rule b r.0 r.1 handles _ r.2 (k' ∙ k))
        (if_rule frame.is_run _ _ _
          (bind_rule frame.is_run _ _ (load_session_from_handle_rule _ _ false)
            λ rc' _. load_handles_from_rule b c l handles (i + 1) rc' k)
          (load_handles_from_rule b c l handles (i + 1) rc k))

  pub load_handles_rule : (c : Tpm2Command) (l : List ℕ) → Triple R (Loads c) (load_handles env c l)
  unfolding load_handles
  load_handles_rule c l =
      option_rule frame.is_run (command_get_handles c command_max_handles) _ _
        (fault_rule frame.is_run) λ handles. load_handles_from_rule c c l handles 0 rc_success refl

  flushsave_context_rule : (e : ℕ) → Triple R Any (flushsave_context env e)
  unfolding flushsave_context
  flushsave_context_rule e = bind_rule frame.is_run _ _ (gets_rule frame.is_run _) λ h _.
      if_rule frame.is_run _ _ _
        (bind_rule frame.is_run _ _ (saveflush_rule frame env h) λ r _.
          bind_rule frame.is_run _ _ (put_map_entry_rule frame e _) λ _ _.
            if_rule frame.is_run _ _ _ (put_map_entry_rule frame e _)
              (return_rule frame.is_run _ tt))
        (return_rule frame.is_run _ tt)

  save_session_callback_rule : (a : ℕ) (d : Unit {0}) → Triple R Any (save_session_callback env a d)
  unfolding save_session_callback
  save_session_callback_rule a d = bind_rule frame.is_run _ _ (gets_rule frame.is_run _) λ e _.
      if_rule frame.is_run _ _ _ (return_rule frame.is_run _ tt) (
        bind_rule frame.is_run _ _ (save_session_rule a) λ r _.
          if_rule frame.is_run _ _ _ (return_rule frame.is_run _ tt) (
            bind_rule frame.is_run _ _ (handle_rc_rule _) λ ret _.
              if_rule frame.is_run _ _ _ (flush_then a _) (
                bind_rule frame.is_run _ _ (save_session_rule a) λ again _.
                  if_rule frame.is_run _ _ _ (return_rule frame.is_run _ tt) (flush_then a _))))

  pub save_sessions_rule : Triple R Any (session_list_foreach (save_session_callback env) tt)
  save_sessions_rule = foreach_rule frame.is_run _ save_session_callback_rule tt

  pub for_each_rule :
      (callback : ℕ → M S (Unit {0}))
      → ((a : ℕ) → Triple R Any (callback a))
      → (l : List ℕ) → Triple R Any (for_each env callback l)
  unfolding for_each
  for_each_rule callback calls [] = return_rule frame.is_run _ tt
  for_each_rule callback calls (a ∷ l) =
      bind_rule frame.is_run _ _ (calls a) λ _ _. for_each_rule callback calls l

  pub flushsave_all_rule : (l : List ℕ) → Triple R Any (for_each env (flushsave_context env) l)
  flushsave_all_rule l = for_each_rule _ flushsave_context_rule l
