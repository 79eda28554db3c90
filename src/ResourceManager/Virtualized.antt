-- ===== src/ResourceManager/Virtualized.antt =====
-- src/resource-manager.c: the special processing of a command, the transient maps and the connection of
-- its answers.
use tpm2_abrmd.Prelude.{
  ℕ, ◌+◌, Bool, true, false, if◌then◌else◌, ◌==◌, List, Option, none, some, ◌≡◌, refl, sym, subst,
}
use tpm2_abrmd.Constants.{
  rc_success, rc_context_gap, tpm_header_size, cap_handles, ht_transient, handle_type_of,
  cc_flush_context, cc_context_save, cc_context_load, cc_get_capability,
}
use tpm2_abrmd.Command.{
  Tpm2Command, command_get_code, command_get_cap, command_get_prop, command_get_flush_handle,
}
use tpm2_abrmd.HandleMap.{HandleMap, handle_map_next_vhandle, handle_map_insert, handle_map_remove}
use tpm2_abrmd.Response.{
  Tpm2Response, response_new, response_new_rc, response_get_code, response_get_size,
}
use tpm2_abrmd.Tpm2.{Env}
use tpm2_abrmd.ResourceManager.State.{ResMgr, on_map, return, fault}
use tpm2_abrmd.ResourceManager.Triple.{
  Triple, Any, return_rule, gets_rule, fault_rule, bind_rule, if_rule,
}
use tpm2_abrmd.ResourceManager.Frame.{IsFrame, step_rule, on_sessions_rule, send_rule}
use tpm2_abrmd.ResourceManager.Frames.{regap_all_rule}
use tpm2_abrmd.ResourceManager.Answers.{IsFor, OnSome, save_context_rule, load_context_rule}
use tpm2_abrmd.ResourceManager.Load.{is_session}
use tpm2_abrmd.ResourceManager.Special.{flush_transient, flush_context}
use tpm2_abrmd.ResourceManager.Capability.{
  widen_gaps, get_cap_post_process, forward_get_cap, get_cap_gen_response,
}
use tpm2_abrmd.ResourceManager.Process.{command_special_processing, send_command_handle_rc}

-- What the resource manager does with a map: it issues a handle, inserts an entry or removes one.
pub data IsMapStep (m : HandleMap) : HandleMap → Type 0 where
  issues : IsMapStep m (handle_map_next_vhandle m).0
  inserts : (h e : ℕ) → IsMapStep m (handle_map_insert m h e).0
  removes : (h : ℕ) → IsMapStep m (handle_map_remove m h).0

-- A relation that does not see such a step on the map of a connection either
pub record IsFrameOf {S : Type 0} (c : ℕ) (R : ResMgr S → ResMgr S → Type 0) : Type 0 where
  pub frame : IsFrame R
  pub set_map :
      (s : ResMgr S) (m : HandleMap)
      → IsMapStep (s.trans_map c) m
      → R s (record s { trans_map = λ d. if d == c then m else s.trans_map d })

-- The response is for a connection.
abbrev pub Answers : ℕ → Tpm2Response → Type 0
Answers d r = r.connection ≡ d

processed_lem :
    (d : ℕ) (b b' : Bool) (r : Tpm2Response) (buf : List ℕ)
    → r.connection ≡ d
    → OnSome
        (Answers d)
        (if b then (if b' then some (record r { buffer = buf }) else some r) else none)
processed_lem d false b' r buf p = tt
processed_lem d true true r buf p = p
processed_lem d true false r buf p = p

post_process_connection :
    {S : Type 0} (env : Env S) (d : ℕ) (r : Tpm2Response)
    → r.connection ≡ d
    → OnSome (Answers d) (get_cap_post_process env r)
unfolding get_cap_post_process
post_process_connection env d r p =
    let size = response_get_size r in
    let u = env.unmarshal_capability r.buffer size (tpm_header_size + 1) in
    processed_lem d (response_get_code r == rc_success) (u.0 == rc_success) r
      (env.marshal_capability (widen_gaps u.1) r.buffer size (tpm_header_size + 1)).1 p

module _ {S : Type 0} {R : ResMgr S → ResMgr S → Type 0} (c : ℕ) (of : IsFrameOf c R)
    (env : Env S) where
  pub on_map_rule :
      {A : Type 0}
      → (d : ℕ) → d ≡ c
      → (f : HandleMap → HandleMap × A) → ((m : HandleMap) → IsMapStep m (f m).0)
      → Triple R Any (on_map d f)
  unfolding on_map
  on_map_rule {A} d p f steps =
      subst (λ d. Triple R (Any {A = A}) (on_map d f)) (sym p)
        (step_rule Any _ _ _ (λ s. refl) λ s. (of.set_map s _ (steps (s.trans_map c)), tt))

  flush_transient_rule :
      (d h : ℕ) → d ≡ c → (o : Option ℕ) → Triple R (IsFor d) (flush_transient d h o)
  unfolding flush_transient response_new_rc response_new
  flush_transient_rule d h p none = return_rule of.frame.is_run _ refl
  flush_transient_rule d h p (some e) =
      bind_rule of.frame.is_run _ _ (on_map_rule d p _ λ m. removes h)
        λ _ _. return_rule of.frame.is_run _ refl

  flush_context_rule :
      (cmd : Tpm2Command) → cmd.connection ≡ c → Triple R (IsFor cmd.connection) (flush_context cmd)
  unfolding flush_context response_new_rc response_new
  flush_context_rule cmd p =
      if_rule of.frame.is_run (command_get_code cmd == cc_flush_context) _ _
        (if_rule of.frame.is_run ((command_get_flush_handle cmd).0 == rc_success) _ _
          (if_rule of.frame.is_run (handle_type_of (command_get_flush_handle cmd).1 == ht_transient)
            _ _
            (bind_rule of.frame.is_run _ _ (gets_rule of.frame.is_run _)
              λ m _. flush_transient_rule cmd.connection _ p _)
            (if_rule of.frame.is_run (is_session (command_get_flush_handle cmd).1) _ _
              (bind_rule of.frame.is_run _ _ (on_sessions_rule of.frame _)
                λ _ _. return_rule of.frame.is_run _ tt)
              (return_rule of.frame.is_run _ tt)))
          (return_rule of.frame.is_run _ refl))
        (return_rule of.frame.is_run _ tt)

  processed_rule :
      (d : ℕ)
      → (o : Option Tpm2Response) → OnSome (Answers d) o
      → Triple R (Answers d) (elim o [ none ↦ fault | some r ↦ return r ])
  processed_rule d none q = fault_rule of.frame.is_run
  processed_rule d (some r) q = return_rule of.frame.is_run r q

  forward_get_cap_rule :
      (cmd : Tpm2Command) → Triple R (Answers cmd.connection) (forward_get_cap env cmd)
  unfolding forward_get_cap
  forward_get_cap_rule cmd = bind_rule of.frame.is_run _ _ (send_rule of.frame env cmd) λ r p.
      if_rule of.frame.is_run _ _ _
        (processed_rule cmd.connection (get_cap_post_process env r.0)
          (post_process_connection env cmd.connection r.0 p))
        (return_rule of.frame.is_run _ p)

  get_cap_gen_response_rule :
      (cmd : Tpm2Command) → Triple R (Answers cmd.connection) (get_cap_gen_response env cmd)
  unfolding get_cap_gen_response response_new
  get_cap_gen_response_rule cmd =
      if_rule of.frame.is_run (command_get_cap cmd == cap_handles) _ _
        (if_rule of.frame.is_run (handle_type_of (command_get_prop cmd) == ht_transient) _ _
          (bind_rule of.frame.is_run _ _ (gets_rule of.frame.is_run _)
            λ m _. return_rule of.frame.is_run _ refl)
          (forward_get_cap_rule cmd))
        (forward_get_cap_rule cmd)

  pub special_rule :
      (cmd : Tpm2Command)
      → cmd.connection ≡ c
      → Triple R (IsFor cmd.connection) (command_special_processing env cmd)
  unfolding command_special_processing
  special_rule cmd p =
      if_rule of.frame.is_run (command_get_code cmd == cc_flush_context) _ _
        (flush_context_rule cmd p)
        (if_rule of.frame.is_run (command_get_code cmd == cc_context_save) _ _
          (save_context_rule of.frame env cmd)
          (if_rule of.frame.is_run (command_get_code cmd == cc_context_load) _ _
            (load_context_rule of.frame env cmd)
            (if_rule of.frame.is_run (command_get_code cmd == cc_get_capability) _ _
              (if_rule of.frame.is_run _ _ _ (return_rule of.frame.is_run _ tt) (
                bind_rule of.frame.is_run _ _ (get_cap_gen_response_rule cmd)
                  λ r q. return_rule of.frame.is_run _ q))
              (return_rule of.frame.is_run _ tt))))

  pub send_command_handle_rc_rule :
      (cmd : Tpm2Command) → Triple R (Answers cmd.connection) (send_command_handle_rc env cmd)
  unfolding send_command_handle_rc
  send_command_handle_rc_rule cmd =
      bind_rule of.frame.is_run _ _ (send_rule of.frame env cmd) λ r p.
        if_rule of.frame.is_run (response_get_code r.0 == rc_context_gap) _ _
          (bind_rule of.frame.is_run _ _ (regap_all_rule of.frame env) λ _ _.
            bind_rule of.frame.is_run _ _ (send_rule of.frame env cmd)
              λ r' p'. return_rule of.frame.is_run _ p')
          (return_rule of.frame.is_run _ p)
