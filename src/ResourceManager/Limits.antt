-- ===== src/ResourceManager/Limits.antt =====
-- src/resource-manager.c, `resource_manager_process_tpm2_command`: the limits of the transient maps.
use tpm2_abrmd.Prelude.{
  ℕ, ◌+◌, ◌/◌, ◌^◌, ◌≤◌, ◌≡◌, refl, ◌∙◌, ==-of_ne, Bool, true, if◌then◌else◌, ◌==◌, some, arith,
}
use native.Mathlib.Decide.{ℕ_discrete}
use tpm2_abrmd.Table.{size, remove}
use tpm2_abrmd.Table.Laws.{Distinct, insert-Distinct, remove-Distinct, size-insert}
use tpm2_abrmd.Command.{Tpm2Command}
use tpm2_abrmd.HandleMap.{HandleMap, handle_map_next_vhandle, handle_map_remove}
use tpm2_abrmd.HandleMap.Invariant.{Inserts, refuses, skips, adds, insert-Inserts, size-remove_le}
use tpm2_abrmd.Tpm2.{Env}
use tpm2_abrmd.ResourceManager.State.{ResMgr}
use tpm2_abrmd.ResourceManager.Virtualized.{IsFrameOf, IsMapStep, issues, inserts, removes}
use tpm2_abrmd.ResourceManager.Isolation.{process_rule}
use tpm2_abrmd.ResourceManager.Process.{process_tpm2_command}

-- No handle is twice in a map, and its entries are at most one more than its limit.
pub record IsWithinLimit (m : HandleMap) : Type 0 where
  pub bounded : size m.vhandle_to_entry_table ≤ m.max_entries + 1
  pub distinct : Distinct m.vhandle_to_entry_table

-- A later state of a map: of the same type and limit, whose counter has not gone back.
pub record IsLater (m m' : HandleMap) : Type 0 where
  pub same_type : m'.handle_type ≡ m.handle_type
  pub same_limit : m'.max_entries ≡ m.max_entries
  pub counts_on : m.handle_count ≤ m'.handle_count
  pub stays_within : IsWithinLimit m → IsWithinLimit m'

IsLater-refl : (m : HandleMap) → IsLater m m
IsLater-refl m = record {
  same_type = refl;
  same_limit = refl;
  counts_on = omega arith;
  stays_within = λ w. w;
}

IsLater-trans : (m n o : HandleMap) → IsLater m n → IsLater n o → IsLater m o
IsLater-trans m n o p q = record {
  same_type = q.same_type ∙ p.same_type;
  same_limit = q.same_limit ∙ p.same_limit;
  counts_on = omega (arith, p.counts_on, q.counts_on);
  stays_within = λ w. q.stays_within (p.stays_within w);
}

next_vhandle-IsLater : (m : HandleMap) → IsLater m (handle_map_next_vhandle m).0
unfolding handle_map_next_vhandle
next_vhandle-IsLater m = elim (ℕ_discrete (m.handle_count / 2 ^ 24) 0) [
  | yes p ↦ rw p record {
    same_type = refl;
    same_limit = refl;
    counts_on = omega (arith, p);
    stays_within = λ w. record { bounded = w.bounded; distinct = w.distinct };
  }
  | no n ↦ rw (==-of_ne _ _ n) (IsLater-refl m)
]

insert-IsLater : (m : HandleMap) (h e : ℕ) {r : HandleMap × Bool} → Inserts m h e r → IsLater m r.0
insert-IsLater m h e (refuses full) = IsLater-refl m
insert-IsLater m h e (skips room) = IsLater-refl m
insert-IsLater m h e (adds room new) =
    let t = m.vhandle_to_entry_table in
    record {
      same_type = refl;
      same_limit = refl;
      counts_on = omega arith;
      stays_within = λ w. record {
        bounded = ground (arith, size-insert h e t);
        distinct = insert-Distinct h e t w.distinct;
      };
    }

remove-IsLater : (m : HandleMap) (h : ℕ) → IsLater m (handle_map_remove m h).0
unfolding handle_map_remove remove
remove-IsLater m h =
    let t = m.vhandle_to_entry_table in
    record {
      same_type = refl;
      same_limit = refl;
      counts_on = omega arith;
      stays_within = λ w. record {
        bounded = omega (arith, size-remove_le h t, w.bounded);
        distinct = remove-Distinct h t w.distinct;
      };
    }

step-IsLater : (m : HandleMap) {m' : HandleMap} → IsMapStep m m' → IsLater m m'
step-IsLater m issues = next_vhandle-IsLater m
step-IsLater m (inserts h e) = insert-IsLater m h e (insert-Inserts m h e)
step-IsLater m (removes h) = remove-IsLater m h

same : (c : ℕ) → (c == c) ≡ true
same c = ground arith

-- Every transient map is a later state of what it was.
Later : {S : Type 0} → ResMgr S → ResMgr S → Type 0
Later s s' = (d : ℕ) → IsLater (s.trans_map d) (s'.trans_map d)

set_map-Later :
    {S : Type 0} (c : ℕ) (s : ResMgr S) (m : HandleMap)
    → IsMapStep (s.trans_map c) m
    → Later s (record s { trans_map = λ d. if d == c then m else s.trans_map d })
unfolding Later
set_map-Later c s m step d = elim (ℕ_discrete d c) [
  | yes p ↦ rw (p, same c) (step-IsLater (s.trans_map c) step)
  | no n ↦ rw (==-of_ne _ _ n) (IsLater-refl (s.trans_map d))
]

Later-IsFrameOf : {S : Type 0} → (c : ℕ) → IsFrameOf c (Later {S = S})
unfolding Later
Later-IsFrameOf c = record {
  frame = record {
    is_run = record {
      run_refl = λ s d. IsLater-refl (s.trans_map d);
      run_trans = λ s t u p q d. IsLater-trans _ _ _ (p d) (q d);
    };
    set_tpm2 = λ s t d. IsLater-refl (s.trans_map d);
    set_sessions = λ s l d. IsLater-refl (s.trans_map d);
    set_map_entries = λ s e d. IsLater-refl (s.trans_map d);
    set_next_address = λ s k d. IsLater-refl (s.trans_map d);
  };
  set_map = set_map-Later c;
}

-- A command whose processing does not end the program leaves the transient map of every connection
-- with its type and its limit, with a counter of handles that has not gone back, and with no more entries than one above the limit and no handle twice, where that held of
-- the map before.
pub process_tpm2_command-IsLater :
    {S : Type 0} (env : Env S) (cmd : Tpm2Command) (s s' : ResMgr S) (d : ℕ)
    → process_tpm2_command env cmd s ≡ some (tt, s')
    → IsLater (s.trans_map d) (s'.trans_map d)
unfolding Later
process_tpm2_command-IsLater {S} env cmd s s' d e =
    ((process_rule cmd (Later-IsFrameOf {S = S} cmd.connection)
          (λ s l d. IsLater-refl (s.trans_map d)) env).run
        s tt s' e).0
      d
