-- ===== src/ResourceManager/Isolation.antt =====
-- src/resource-manager.c, `resource_manager_process_tpm2_command`: what a command gives the sink, and what it
-- leaves as it is.
use tpm2_abrmd.Prelude.{
  ℕ, if◌then◌else◌, ◌==◌, ==-of_ne, List, [], ◌∷◌, some, ◌≡◌, ◌≢◌, refl, ap, ◌∙◌,
}
use tpm2_abrmd.Constants.{rc_success}
use tpm2_abrmd.Command.{Tpm2Command}
use tpm2_abrmd.Response.{Tpm2Response, response_new, response_new_rc}
use tpm2_abrmd.Tpm2.{Env}
use tpm2_abrmd.ResourceManager.State.{ResMgr, Message, response, sink_enqueue}
use tpm2_abrmd.ResourceManager.Triple.{Triple, Any, bind_rule, join_rule, branch_rule}
use tpm2_abrmd.ResourceManager.Frame.{step_rule}
use tpm2_abrmd.ResourceManager.Frames.{save_sessions_rule}
use tpm2_abrmd.ResourceManager.Answers.{quota_check_rule}
use tpm2_abrmd.ResourceManager.Virtualized.{IsFrameOf}
use tpm2_abrmd.ResourceManager.Delivery.{execute_rule, post_process_rule}
use tpm2_abrmd.ResourceManager.Process.{finish, process_tpm2_command}

new_rc-connection : (c rc : ℕ) → (response_new_rc c rc).connection ≡ c
unfolding response_new_rc response_new
new_rc-connection c rc = refl

-- The sink has been given nothing.
SameSent : {S : Type 0} → ResMgr S → ResMgr S → Type 0
SameSent s s' = s'.sent ≡ s.sent

SameSent-IsFrameOf : {S : Type 0} → (c : ℕ) → IsFrameOf c (SameSent {S = S})
unfolding SameSent
SameSent-IsFrameOf c = record {
  frame = record {
    is_run = record { run_refl = λ s. refl; run_trans = λ s t u p q. q ∙ p };
    set_tpm2 = λ s t. refl;
    set_sessions = λ s l. refl;
    set_map_entries = λ s e. refl;
    set_next_address = λ s n. refl;
  };
  set_map = λ s m step. refl;
}

-- The sink has been given one response, which is for a connection.
Delivers : {S : Type 0} → ℕ → ResMgr S → ResMgr S → Type 0
Delivers c s s' = (r : Tpm2Response) × (s'.sent ≡ response r ∷ s.sent) × (r.connection ≡ c)

after_nothing :
    {S : Type 0} (c : ℕ) (s t u : ResMgr S) → SameSent s t → Delivers c t u → Delivers c s u
unfolding SameSent Delivers
after_nothing c s t u q (r, d, k) = (r, d ∙ ap (λ l. response r ∷ l) q, k)

-- The transient maps of the other connections
SameMaps : {S : Type 0} → ℕ → ResMgr S → ResMgr S → Type 0
SameMaps c s s' = (d : ℕ) → d ≢ c → s'.trans_map d ≡ s.trans_map d

SameMaps-IsFrameOf : {S : Type 0} → (c : ℕ) → IsFrameOf c (SameMaps {S = S} c)
unfolding SameMaps
SameMaps-IsFrameOf c = record {
  frame = record {
    is_run = record { run_refl = λ s d n. refl; run_trans = λ s t u p q d n. q d n ∙ p d n };
    set_tpm2 = λ s t d n. refl;
    set_sessions = λ s l d n. refl;
    set_map_entries = λ s e d n. refl;
    set_next_address = λ s k d n. refl;
  };
  set_map = λ s m step d n. ap (λ b. if b then m else s.trans_map d) (==-of_ne d c n);
}

module _ {S : Type 0} (env : Env S) where
  finish-Delivers :
      (cmd : Tpm2Command) (r : Tpm2Response) (l : List ℕ)
      → r.connection ≡ cmd.connection
      → Triple (Delivers cmd.connection) Any (finish env cmd r l)
  unfolding finish SameSent Delivers sink_enqueue
  finish-Delivers cmd r l p =
      let of = SameSent-IsFrameOf {S = S} cmd.connection in
      join_rule {R = Delivers cmd.connection} {R' = SameSent} (λ s t u (r, d, k) q. (r, q ∙ d, k)) _
        _ (step_rule Any _ _ _ (λ s. refl) λ s. ((r, refl, p), tt))
        λ _ _.
          bind_rule of.frame.is_run _ _ (save_sessions_rule of.frame env)
            λ _ _. post_process_rule cmd.connection of env cmd.connection cmd.attributes refl l

  process-Delivers :
      (cmd : Tpm2Command) → Triple (Delivers cmd.connection) Any (process_tpm2_command env cmd)
  unfolding process_tpm2_command
  process-Delivers cmd =
      let of = SameSent-IsFrameOf {S = S} cmd.connection in
      join_rule {R = SameSent} {R' = Delivers cmd.connection} (after_nothing cmd.connection) _ _
        (quota_check_rule of.frame env cmd)
        λ rc _.
          branch_rule (rc == rc_success) _ _
            (join_rule (after_nothing cmd.connection) _ _
              (execute_rule cmd.connection of env cmd refl) λ x p. finish-Delivers cmd x.0 x.1 p)
            (finish-Delivers cmd _ [] (new_rc-connection cmd.connection rc))

-- A relation that does not see the sink either holds of the states before and after a command.
module _ {S : Type 0} {R : ResMgr S → ResMgr S → Type 0} (cmd : Tpm2Command)
    (of : IsFrameOf cmd.connection R)
    (set_sent : (s : ResMgr S) (l : List Message) → R s (record s { sent = l })) (env : Env S) where
  finish_rule : (r : Tpm2Response) (l : List ℕ) → Triple R Any (finish env cmd r l)
  unfolding finish sink_enqueue
  finish_rule r l =
      bind_rule of.frame.is_run _ _ (step_rule Any _ _ _ (λ s. refl) λ s. (set_sent s _, tt)) λ _ _.
        bind_rule of.frame.is_run _ _ (save_sessions_rule of.frame env)
          λ _ _. post_process_rule cmd.connection of env cmd.connection cmd.attributes refl l

  pub process_rule : Triple R Any (process_tpm2_command env cmd)
  unfolding process_tpm2_command
  process_rule = bind_rule of.frame.is_run _ _ (quota_check_rule of.frame env cmd) λ rc _.
      branch_rule (rc == rc_success) _ _
        (bind_rule of.frame.is_run _ _ (execute_rule cmd.connection of env cmd refl)
          λ x p. finish_rule x.0 x.1)
        (finish_rule _ [])

-- A command whose processing does not end the program has the sink given one response, and this
-- response is for the connection of the command.
pub process_tpm2_command-delivers :
    {S : Type 0} (env : Env S) (cmd : Tpm2Command) (s s' : ResMgr S)
    → process_tpm2_command env cmd s ≡ some (tt, s')
    → (r : Tpm2Response) × (s'.sent ≡ response r ∷ s.sent) × (r.connection ≡ cmd.connection)
unfolding Delivers
process_tpm2_command-delivers env cmd s s' e = ((process-Delivers env cmd).run s tt s' e).0

-- A command whose processing does not end the program leaves the transient maps of all other
-- connections as they are.
pub process_tpm2_command-isolates :
    {S : Type 0} (env : Env S) (cmd : Tpm2Command) (s s' : ResMgr S) (d : ℕ)
    → process_tpm2_command env cmd s ≡ some (tt, s')
    → d ≢ cmd.connection
    → s'.trans_map d ≡ s.trans_map d
unfolding SameMaps
process_tpm2_command-isolates {S} env cmd s s' d e n =
    ((process_rule cmd (SameMaps-IsFrameOf {S = S} cmd.connection) (λ s l d n. refl) env).run s tt
        s' e).0
      d n
