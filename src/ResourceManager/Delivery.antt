-- ===== src/ResourceManager/Delivery.antt =====
-- src/resource-manager.c: a command from the loading of its objects to the mapping of its response, the
-- transient maps and the connection of the response.
use mathlib.Core.Option.{some-injective, none-ne-some}
use tpm2_abrmd.Prelude.{
  ℕ, suc, Bool, true, false, if◌then◌else◌, ltb, ◌==◌, List, [], ◌∷◌, Option, none, some, ◌≡◌, refl,
  subst, ◌∙◌, arith,
}
use tpm2_abrmd.Constants.{ht_transient, handle_type_of, cc_flushed}
use tpm2_abrmd.Command.{
  Tpm2Command, command_has_auths, command_get_handle_count, command_foreach_auth, foreach_call,
  auth_offsets, auth_area_first_offset, auth_area_end_offset,
}
use tpm2_abrmd.Response.{
  Tpm2Response, response_get_handle, response_has_handle, response_set_handle,
}
use tpm2_abrmd.Tpm2.{Env}
use tpm2_abrmd.ResourceManager.State.{ResMgr}
use tpm2_abrmd.ResourceManager.Triple.{
  Triple, Any, return_rule, gets_rule, fault_rule, bind_rule, if_rule, option_rule,
}
use tpm2_abrmd.ResourceManager.Frame.{
  put_entry_rule, put_map_entry_rule, on_sessions_rule, new_object_rule,
}
use tpm2_abrmd.ResourceManager.Frames.{
  load_auth_callback_rule, load_handles_rule, flushsave_all_rule, for_each_rule,
}
use tpm2_abrmd.ResourceManager.Answers.{IsFor, OnSome}
use tpm2_abrmd.ResourceManager.Load.{is_session, load_auth_callback}
use tpm2_abrmd.ResourceManager.Save.{
  for_each, remove_entry_from_handle_map, post_process_loaded_transients,
}
use tpm2_abrmd.ResourceManager.Mapping.{
  track_session, create_context_mapping_transient, create_context_mapping_session,
  create_context_mapping,
}
use tpm2_abrmd.ResourceManager.Process.{
  auth_step, after_auths, load_auths, load_objects, answer_or_send, execute,
}
use tpm2_abrmd.ResourceManager.Virtualized.{
  IsFrameOf, issues, inserts, removes, on_map_rule, special_rule, send_command_handle_rc_rule,
}

set_handle-connection :
    (r : Tpm2Response) (h : ℕ) → (response_set_handle r h).connection ≡ r.connection
unfolding response_set_handle
set_handle-connection r h = ground arith

-- An invariant of the callback holds after the walk through the authorizations.
module _ {T : Type 0} (P : T → Type 0) (cmd : Tpm2Command) (callback : T → ℕ → T)
    (keeps : (t : T) (o : ℕ) → P t → P (callback t o)) where
  foreach_call_inv : (t : T) (l : List ℕ) → P t → P (foreach_call callback t l)
  unfolding foreach_call
  foreach_call_inv t [] p = p
  foreach_call_inv t (o ∷ l) p = foreach_call_inv (callback t o) l (keeps t o p)

  guarded_inv :
      (b b' : Bool)
      → (o : Option (List ℕ)) → (t : T) → P t
      → OnSome {A = T × Bool}
          (λ r. P r.0)
          (if b
            then some (t, false)
            else if b'
            then some (t, false)
            else elim o [ none ↦ none | some l ↦ some (foreach_call callback t l, true) ])
  guarded_inv true b' o t p = p
  guarded_inv false true o t p = p
  guarded_inv false false none t p = tt
  guarded_inv false false (some l) t p = foreach_call_inv t l p

  foreach_auth_inv :
      (t : T) → P t → OnSome {A = T × Bool} (λ r. P r.0) (command_foreach_auth cmd callback t)
  unfolding command_foreach_auth
  foreach_auth_inv t p =
      guarded_inv (ltb cmd.buffer_size (auth_area_first_offset cmd))
        (ltb cmd.buffer_size (auth_area_end_offset cmd))
        (auth_offsets cmd (suc (auth_area_end_offset cmd)) (auth_area_first_offset cmd)) t p

module _ {S : Type 0} {R : ResMgr S → ResMgr S → Type 0} (c : ℕ) (of : IsFrameOf c R)
    (env : Env S) where
  create_context_mapping_transient_rule :
      (r : Tpm2Response)
      → (l : List ℕ) → r.connection ≡ c
      → Triple R (λ x. x.0.connection ≡ c) (create_context_mapping_transient r l)
  unfolding create_context_mapping_transient
  create_context_mapping_transient_rule r l p =
      bind_rule of.frame.is_run _ _ (on_map_rule c of env r.connection p _ λ m. issues) λ vhandle _.
        if_rule of.frame.is_run (vhandle == 0) _ _ (fault_rule of.frame.is_run) (
          bind_rule of.frame.is_run _ _ (new_object_rule of.frame) λ entry _.
            bind_rule of.frame.is_run _ _ (put_map_entry_rule of.frame entry _) λ _ _.
              bind_rule of.frame.is_run _ _ (on_map_rule c of env r.connection p _ λ m. inserts _ _)
                λ _ _. return_rule of.frame.is_run _ (set_handle-connection r vhandle ∙ p))

  track_session_rule : (r : Tpm2Response) (h : ℕ) → Triple R Any (track_session r h)
  unfolding track_session
  track_session_rule r h = bind_rule of.frame.is_run _ _ (new_object_rule of.frame) λ a _.
      bind_rule of.frame.is_run _ _ (gets_rule of.frame.is_run _) λ size _.
        bind_rule of.frame.is_run _ _ (put_entry_rule of.frame a _) λ _ _.
          bind_rule of.frame.is_run _ _ (on_sessions_rule of.frame _)
            λ _ _. return_rule of.frame.is_run _ tt

  create_context_mapping_session_rule :
      (r : Tpm2Response) (h : ℕ) → Triple R Any (create_context_mapping_session r h)
  unfolding create_context_mapping_session
  create_context_mapping_session_rule r h =
      bind_rule of.frame.is_run _ _ (gets_rule of.frame.is_run _) λ found _.
        option_rule of.frame.is_run found _ _ (track_session_rule r h)
          λ a. return_rule of.frame.is_run _ tt

  create_context_mapping_rule :
      (r : Tpm2Response)
      → (l : List ℕ) → r.connection ≡ c
      → Triple R (λ x. x.0.connection ≡ c) (create_context_mapping r l)
  unfolding create_context_mapping
  create_context_mapping_rule r l p =
      if_rule of.frame.is_run (response_has_handle r) _ _
        (if_rule of.frame.is_run (handle_type_of (response_get_handle r) == ht_transient) _ _
          (create_context_mapping_transient_rule r l p)
          (if_rule of.frame.is_run (is_session (response_get_handle r)) _ _
            (bind_rule of.frame.is_run _ _ (create_context_mapping_session_rule r _)
              λ _ _. return_rule of.frame.is_run _ p)
            (return_rule of.frame.is_run _ p)))
        (return_rule of.frame.is_run _ p)

  called_run :
      (s t : ResMgr S)
      → (o : Option (Unit {0} × ResMgr S)) → R s t
      → ((a : Unit {0}) (u : ResMgr S) → o ≡ some (a, u) → R t u × Any a)
      → OnSome (R s) (elim o [ none ↦ none | some (_, u) ↦ some u ])
  called_run s t none r call = tt
  called_run s t (some (a, u)) r call = of.frame.is_run.run_trans s t u r (call a u refl).0

  auth_step_run :
      (cmd : Tpm2Command)
      → (s : ResMgr S) → (o : Option (ResMgr S)) → (offset : ℕ) → OnSome (R s) o
      → OnSome (R s) (auth_step env cmd o offset)
  unfolding auth_step
  auth_step_run cmd s none offset r = tt
  auth_step_run cmd s (some t) offset r =
      called_run s t (load_auth_callback env cmd offset t) r
        ((load_auth_callback_rule of.frame env cmd offset).run t)

  auths_run :
      (s : ResMgr S)
      → (q : Option (Option (ResMgr S) × Bool))
      → OnSome {A = Option (ResMgr S) × Bool} (λ r. OnSome (R s) r.0) q
      → (a : Unit {0}) → (s' : ResMgr S) → after_auths q ≡ some (a, s')
      → R s s'
  unfolding after_auths
  auths_run s none r a s' p = absurd (none-ne-some _ p)
  auths_run s (some (none, b)) r a s' p = absurd (none-ne-some _ p)
  auths_run s (some (some t, b)) r a s' p = subst (λ x. R s x.1) (some-injective _ _ p) r

  load_auths_rule : (cmd : Tpm2Command) → Triple R Any (load_auths env cmd)
  unfolding load_auths
  load_auths_rule cmd = record {
    run = λ s a s' p. (
      auths_run s (command_foreach_auth cmd (auth_step env cmd) (some s))
          (foreach_auth_inv (OnSome (R s)) cmd (auth_step env cmd) (auth_step_run cmd s) (some s)
            (of.frame.is_run.run_refl s))
          a s' p,
      tt,
    );
  }

  load_objects_rule :
      (cmd : Tpm2Command)
      → Triple R
          (λ (x : Tpm2Command × List ℕ). x.0.connection ≡ cmd.connection)
          (load_objects env cmd)
  unfolding load_objects
  load_objects_rule cmd =
      bind_rule of.frame.is_run _ _
        (if_rule of.frame.is_run (ltb 0 (command_get_handle_count cmd)) _ _
          (bind_rule of.frame.is_run _ _ (load_handles_rule of.frame env cmd []) λ r p.
            return_rule of.frame.is_run
              {Q = λ (x : Tpm2Command × List ℕ). x.0.connection ≡ cmd.connection} _ p)
          (return_rule of.frame.is_run _ refl))
        λ r p.
          bind_rule of.frame.is_run _ _
            (if_rule of.frame.is_run (command_has_auths r.0) _ _ (load_auths_rule r.0)
              (return_rule of.frame.is_run _ tt))
            λ _ _. return_rule of.frame.is_run _ p

  special_or_tpm_rule :
      (cmd : Tpm2Command)
      → cmd.connection ≡ c
      → (o : Option Tpm2Response) → IsFor cmd.connection o
      → Triple R (λ (x : Tpm2Response × List ℕ). x.0.connection ≡ c) (answer_or_send env cmd o)
  unfolding answer_or_send
  special_or_tpm_rule cmd p (some r) q = return_rule of.frame.is_run _ (q ∙ p)
  special_or_tpm_rule cmd p none q = bind_rule of.frame.is_run _ _ (load_objects_rule cmd) λ x k.
      bind_rule of.frame.is_run _ _ (send_command_handle_rc_rule c of env x.0)
        λ r k'. create_context_mapping_rule r x.1 (k' ∙ k ∙ p)

  pub execute_rule :
      (cmd : Tpm2Command)
      → cmd.connection ≡ c
      → Triple R (λ (x : Tpm2Response × List ℕ). x.0.connection ≡ c) (execute env cmd)
  unfolding execute
  execute_rule cmd p =
      bind_rule of.frame.is_run _ _ (special_rule c of env cmd p)
        λ special q. special_or_tpm_rule cmd p special q

  remove_all_rule :
      (d : ℕ)
      → d ≡ c
      → (l : List ℕ) → Triple R Any (for_each env (remove_entry_from_handle_map env d) l)
  unfolding remove_entry_from_handle_map
  remove_all_rule d p l =
      for_each_rule of.frame env _
        (λ a. bind_rule of.frame.is_run _ _ (gets_rule of.frame.is_run _) λ h _.
          if_rule of.frame.is_run (handle_type_of h == ht_transient) _ _
            (bind_rule of.frame.is_run _ _ (on_map_rule c of env d p _ λ m. removes _)
              λ _ _. return_rule of.frame.is_run _ tt)
            (return_rule of.frame.is_run _ tt))
        l

  -- Everything of `finish` but the response
  pub post_process_rule :
      (d attrs : ℕ)
      → d ≡ c
      → (l : List ℕ) → Triple R Any (post_process_loaded_transients env l d attrs)
  unfolding post_process_loaded_transients
  post_process_rule d attrs p l =
      if_rule of.frame.is_run (cc_flushed attrs == 0) _ _ (flushsave_all_rule of.frame env l)
        (remove_all_rule d p l)
