-- ===== src/ResourceManager/Faults.antt =====
-- src/resource-manager.c: where a TPM2_GetCapability ends the program.
use tpm2_abrmd.Prelude.{
  Bool, true, false, if◌then◌else◌, ==-of_ne, Option, none, some, [], ◌≡◌, ◌≢◌, refl, ◌⊎◌, ◌∙◌, inl,
  inr,
}
use native.Mathlib.Decide.{ℕ_discrete}
use tpm2_abrmd.Constants.{rc_success, cap_handles, ht_transient, handle_type_of, cc_get_capability}
use tpm2_abrmd.Command.{
  Tpm2Command, command_get_cap, command_get_prop, command_get_prop_count, command_get_code,
  command_has_auths,
}
use tpm2_abrmd.Response.{Tpm2Response, response_new, response_get_code}
use tpm2_abrmd.Tpm2.{Env, Tpm2, send_command}
use tpm2_abrmd.ResourceManager.State.{ResMgr, M, ◌>>=◌, return, fault, gets}
use tpm2_abrmd.ResourceManager.Session.{send}
use tpm2_abrmd.ResourceManager.Special.{quota_check}
use tpm2_abrmd.ResourceManager.Process.{
  execute, command_special_processing, answer_or_send, finish, process_tpm2_command,
}
use tpm2_abrmd.ResourceManager.Capability.{
  get_cap_handles, build_cap_handles_response, cap_resp_size, get_cap_post_process, forward_get_cap,
  get_cap_gen_response,
}

either :
    (b : Bool) (x y : Tpm2Response) → (r : Tpm2Response) × ((if b then some x else some y) ≡ some r)
either true x y = (x, refl)
either false x y = (y, refl)

module _ {S A B : Type 0} (m : M S A) (f : A → M S B) (s : ResMgr S) where
  bind_none : m s ≡ none → (m >>= f) s ≡ none
  unfolding ◌>>=◌
  bind_none e = rw (e, ◌>>=◌) refl

  bind_some : {a : A} {s' : ResMgr S} → m s ≡ some (a, s') → (m >>= f) s ≡ f a s'
  unfolding ◌>>=◌
  bind_some e = rw (e, ◌>>=◌) refl

dec_and : {P Q : Type 0} → Dec P → Dec Q → Dec (P × Q)
dec_and (yes p) (yes q) = yes (p, q)
dec_and (yes p) (no n) = no λ h. n h.1
dec_and (no n) _ = no λ h. n h.0

module _ {S : Type 0} (env : Env S) where
  -- A capability that is passed on to the TPM: any but the transient handles.
  unfoldable pub IsForwarded : Tpm2Command → Type 0
  IsForwarded cmd = ¬ (
      (command_get_cap cmd ≡ cap_handles) × (handle_type_of (command_get_prop cmd) ≡ ht_transient))

  -- The TPM can be reached and answers a command with another response code than success.
  unfoldable pub IsTurnedDown : Tpm2Command → ResMgr S → Type 0
  IsTurnedDown cmd s =
      let (t, r, rc) = send_command env s.tpm2 cmd in
      (rc ≡ rc_success) × (response_get_code r ≢ rc_success)

  -- An outcome of a computation that ends the program where `E` holds, and else gives a value and
  -- changes nothing but the TPM.
  abbrev pub EndsWhere : {A : Type 0} → Type 0 → ResMgr S → Option (A × ResMgr S) → Type 0
  EndsWhere {A = A} E s o =
      (E × (o ≡ none)) ⊎ (¬ E × ((a : A) × (t : Tpm2 S) × (o ≡ some (a, record s { tpm2 = t }))))

  post_process_success :
      (r : Tpm2Response)
      → response_get_code r ≡ rc_success
      → (r' : Tpm2Response) × (get_cap_post_process env r ≡ some r')
  unfolding get_cap_post_process
  post_process_success r e = rw e (either _ _ _)

  post_process_failure :
      (r : Tpm2Response) → response_get_code r ≢ rc_success → get_cap_post_process env r ≡ none
  unfolding get_cap_post_process
  post_process_failure r n = rw (==-of_ne _ _ n) refl

  forward_get_cap_cases :
      (cmd : Tpm2Command) (s : ResMgr S)
      → EndsWhere (IsTurnedDown cmd s) s (forward_get_cap env cmd s)
  unfolding forward_get_cap send ◌>>=◌ return fault IsTurnedDown
  forward_get_cap_cases cmd s =
      let (t, r, rc) = send_command env s.tpm2 cmd in
      elim (ℕ_discrete rc rc_success) [
        | no n ↦ inr (λ p. n p.0, (r, t, rw (==-of_ne _ _ n) refl))
        | yes p ↦ elim (ℕ_discrete (response_get_code r) rc_success) [
          | no n ↦ inl ((p, n), rw (p, post_process_failure r n) refl)
          | yes q ↦
              let (r', e) = post_process_success r q in inr (λ h. h.1 q, (r', t, rw (p, e) refl))
        ]
      ]

  gen_response_forwards :
      (cmd : Tpm2Command) (s : ResMgr S)
      → IsForwarded cmd
      → get_cap_gen_response env cmd s ≡ forward_get_cap env cmd s
  unfolding get_cap_gen_response IsForwarded
  gen_response_forwards cmd s n = elim (ℕ_discrete (command_get_cap cmd) cap_handles) [
    | no m ↦ rw (==-of_ne _ _ m) refl
    | yes p ↦ elim (ℕ_discrete (handle_type_of (command_get_prop cmd)) ht_transient) [
      | no m ↦ rw (p, ==-of_ne _ _ m) refl
      | yes q ↦ absurd (n (p, q))
    ]
  ]

  gen_response_lists :
      (cmd : Tpm2Command) (s : ResMgr S)
      → command_get_cap cmd ≡ cap_handles
      → handle_type_of (command_get_prop cmd) ≡ ht_transient
      → (r : Tpm2Response) × (get_cap_gen_response env cmd s ≡ some (r, s))
  unfolding get_cap_gen_response ◌>>=◌ return gets
  gen_response_lists cmd s p q =
      let (handles, more_data) =
        get_cap_handles env.list_sort (s.trans_map cmd.connection) (command_get_prop cmd)
          (command_get_prop_count cmd) in
      (
        response_new cmd.connection (build_cap_handles_response handles more_data)
            (cap_resp_size handles) cmd.attributes,
        rw (p, q) refl,
      )

  get_cap_gen_response_cases :
      (cmd : Tpm2Command) (s : ResMgr S)
      → EndsWhere (IsForwarded cmd × IsTurnedDown cmd s) s (get_cap_gen_response env cmd s)
  unfolding IsForwarded
  get_cap_gen_response_cases cmd s =
      elim (dec_and (ℕ_discrete (command_get_cap cmd) cap_handles)
        (ℕ_discrete (handle_type_of (command_get_prop cmd)) ht_transient)) [
          | yes p ↦
              let (r, e) = gen_response_lists cmd s p.0 p.1 in inr (λ h. h.0 p, (r, s.tpm2, e))
          | no n ↦ elim (forward_get_cap_cases cmd s) [
            | inl (h, e) ↦ inl ((n, h), gen_response_forwards cmd s n ∙ e)
            | inr (m, (r, t, e)) ↦ inr (λ h. m h.1, (r, t, gen_response_forwards cmd s n ∙ e))
          ]
        ]

  special_lem :
      (cmd : Tpm2Command) (s : ResMgr S)
      → command_get_code cmd ≡ cc_get_capability
      → command_has_auths cmd ≡ false
      → command_special_processing env cmd s
        ≡ (get_cap_gen_response env cmd >>= λ r. return (some r)) s
  unfolding command_special_processing
  special_lem cmd s c a = rw (c, a) refl

  execute_get_capability :
      (cmd : Tpm2Command) (s : ResMgr S)
      → command_get_code cmd ≡ cc_get_capability
      → command_has_auths cmd ≡ false
      → (IsForwarded cmd × IsTurnedDown cmd s × (execute env cmd s ≡ none))
        ⊎ (¬ (IsForwarded cmd × IsTurnedDown cmd s)
            × ((r : Tpm2Response) × (t : Tpm2 S) × (execute env cmd s
                  ≡ some ((r, []), record s { tpm2 = t }))))
  unfolding execute answer_or_send return
  execute_get_capability cmd s c a = elim (get_cap_gen_response_cases cmd s) [
    | inl (h, e) ↦ inl (h.0, h.1, bind_none _ _ s (special_lem cmd s c a ∙ bind_none _ _ s e))
    | inr (n, (r, t, e)) ↦
        inr (n, (r, t, bind_some _ _ s (special_lem cmd s c a ∙ bind_some _ _ s e)))
  ]

  check_passes :
      (cmd : Tpm2Command) (s : ResMgr S)
      → command_get_code cmd ≡ cc_get_capability
      → quota_check cmd s ≡ some (rc_success, s)
  unfolding quota_check return
  check_passes cmd s c = rw c refl

  -- A TPM2_GetCapability without authorizations ends the program where it asks for anything but
  -- transient handles, the TPM can be reached, and the TPM answers with another response code than
  -- success. Everywhere else its execution gives a response and no transient object to be saved and
  -- changes nothing but the TPM, and the command ends with what `finish` does with this response.
  pub process_get_capability_cases :
      (cmd : Tpm2Command) (s : ResMgr S)
      → command_get_code cmd ≡ cc_get_capability
      → command_has_auths cmd ≡ false
      → (IsForwarded cmd × IsTurnedDown cmd s × (process_tpm2_command env cmd s ≡ none))
        ⊎ (¬ (IsForwarded cmd × IsTurnedDown cmd s)
            × ((r : Tpm2Response) × (t : Tpm2 S) × (execute env cmd s
                  ≡ some ((r, []), record s { tpm2 = t }))
                × (process_tpm2_command env cmd s ≡ finish env cmd r [] (record s { tpm2 = t }))))
  unfolding process_tpm2_command
  process_get_capability_cases cmd s c a = elim (execute_get_capability cmd s c a) [
    | inl (f, h, e) ↦ inl (f, h, bind_some _ _ s (check_passes cmd s c) ∙ bind_none _ _ s e)
    | inr (n, (r, t, e)) ↦
        inr (n, (r, t, e, bind_some _ _ s (check_passes cmd s c) ∙ bind_some _ _ s e))
  ]
