-- ===== src/ResourceManager/Triple.antt =====
-- Reasoning about the functions of src/resource-manager.c: how the states before and after a run are
-- related, and what holds of the value returned.
use mathlib.Core.Option.{some-injective, none-ne-some}
use tpm2_abrmd.Prelude.{
  ℕ, zero, suc, Bool, true, false, Option, none, some, if◌then◌else◌, ◌≡◌, refl, subst,
}
use tpm2_abrmd.SessionList.{member}
use tpm2_abrmd.ResourceManager.State.{
  ResMgr, M, ◌>>=◌, return, fault, gets, go_on, foreach_from, session_list_foreach, successor,
}

-- Where a run of `m` returns, the states are related by `R` and the value satisfies `Q`.
pub record Triple {S A : Type 0} (R : ResMgr S → ResMgr S → Type 0) (Q : A → Type 0) (m : M S A)
    : Type 0 where
  pub run : (s : ResMgr S) (a : A) (s' : ResMgr S) → m s ≡ some (a, s') → R s s' × Q a

-- A relation that holds of a state and itself, and along two runs.
pub record IsRun {S : Type 0} (R : ResMgr S → ResMgr S → Type 0) : Type 0 where
  pub run_refl : (s : ResMgr S) → R s s
  pub run_trans : (s t u : ResMgr S) → R s t → R t u → R s u

-- No condition on a value
abbrev pub Any : {A : Type 0} → A → Type 0
Any a = Unit {0}

bind_step :
    {S A B : Type 0}
    → (R R' R'' : ResMgr S → ResMgr S → Type 0) → ((s t u : ResMgr S) → R s t → R' t u → R'' s u)
    → (P : A → Type 0) → (Q : B → Type 0) → (f : A → M S B) → (s : ResMgr S)
    → (o : Option (A × ResMgr S)) → ((a : A) (t : ResMgr S) → o ≡ some (a, t) → R s t × P a)
    → ((a : A) → P a → Triple R' Q (f a))
    → (b : B) → (s' : ResMgr S) → elim o [ none ↦ none | some (a, t) ↦ f a t ] ≡ some (b, s')
    → R'' s s' × Q b
bind_step R R' R'' join P Q f s none tm tf b s' e = absurd (none-ne-some _ e)
bind_step R R' R'' join P Q f s (some (a, t)) tm tf b s' e =
    let (r, p) = tm a t refl in let (r', q) = (tf a p).run t b s' e in (join s t s' r r', q)

-- A run after another, whose relations join to a third one.
pub join_rule :
    {S A B : Type 0}
    → {R R' R'' : ResMgr S → ResMgr S → Type 0} → ((s t u : ResMgr S) → R s t → R' t u → R'' s u)
    → {P : A → Type 0} → {Q : B → Type 0} → (m : M S A) → (f : A → M S B) → Triple R P m
    → ((a : A) → P a → Triple R' Q (f a))
    → Triple R'' Q (m >>= f)
unfolding ◌>>=◌
join_rule {R = R} {R'} {R''} join {P} {Q} m f tm tf = record {
  run = λ s b s' e. bind_step R R' R'' join P Q f s (m s) (tm.run s) tf b s' e;
}

pub branch_rule :
    {S A : Type 0}
    → {R : ResMgr S → ResMgr S → Type 0} → {Q : A → Type 0} → (b : Bool) → (m n : M S A)
    → Triple R Q m
    → Triple R Q n
    → Triple R Q (if b then m else n)
branch_rule true m n tm tn = tm
branch_rule false m n tm tn = tn

module _ {S : Type 0} {R : ResMgr S → ResMgr S → Type 0} (is_run : IsRun R) where
  returns :
      {A : Type 0}
      → (Q : A → Type 0) → (a b : A) → (s s' : ResMgr S) → Q a
      → ◌≡◌ {A = Option (A × ResMgr S)} (some (a, s)) (some (b, s'))
      → R s s' × Q b
  returns Q a b s s' q e =
      subst (λ r. R s r.1 × Q r.0) (some-injective _ _ e) (is_run.run_refl s, q)

  pub return_rule : {A : Type 0} → {Q : A → Type 0} → (a : A) → Q a → Triple R Q (return a)
  unfolding return
  return_rule {Q = Q} a q = record { run = λ s b s' e. returns Q a b s s' q e }

  pub gets_rule : {A : Type 0} → (f : ResMgr S → A) → Triple R Any (gets f)
  unfolding gets
  gets_rule f = record { run = λ s b s' e. returns Any (f s) b s s' tt e }

  pub fault_rule : {A : Type 0} → {Q : A → Type 0} → Triple R Q (fault {S = S} {A = A})
  unfolding fault
  fault_rule = record { run = λ s b s' e. absurd (none-ne-some _ e) }

  pub bind_rule :
      {A B : Type 0}
      → {P : A → Type 0} → {Q : B → Type 0} → (m : M S A) → (f : A → M S B) → Triple R P m
      → ((a : A) → P a → Triple R Q (f a))
      → Triple R Q (m >>= f)
  bind_rule m f tm tf = join_rule is_run.run_trans m f tm tf

  pub if_rule :
      {A : Type 0}
      → {Q : A → Type 0} → (b : Bool) → (m n : M S A) → Triple R Q m
      → Triple R Q n
      → Triple R Q (if b then m else n)
  if_rule b m n tm tn = branch_rule b m n tm tn

  foreach_step :
      {D : Type 0}
      → (next : Option ℕ) → (d : D) → (s s' : ResMgr S) → (rest : Option (D × ResMgr S))
      → ((e : D) (t : ResMgr S) → rest ≡ some (e, t) → R s t × Any e)
      → (e : D) → go_on next d s rest ≡ some (e, s')
      → R s s' × Any e
  unfolding go_on
  foreach_step none d s s' rest follow e p = returns Any d e s s' tt p
  foreach_step (some b) d s s' rest follow e p =
      elim (member b s.session_list.session_entry_list)
          as (λ b. (if b then rest else none) ≡ some (e, s') → R s s' × Any e) [
            | true ↦ λ q. follow e s' q
            | false ↦ λ q. absurd (none-ne-some _ q)
          ]
        p

  -- A walk through the session list is a run where each call of the callback is.
  module _ {D : Type 0} (callback : ℕ → D → M S D)
      (calls : (a : ℕ) (d : D) → Triple R Any (callback a d)) where
    foreach_round :
        (n : ℕ)
        → (next : Option ℕ) → (s : ResMgr S) → (o : Option (D × ResMgr S))
        → ((d : D) (t : ResMgr S) → o ≡ some (d, t) → R s t × Any d)
        → ((d : D) (t : ResMgr S) (e : D) (u : ResMgr S)
            → foreach_from callback n next d t ≡ some (e, u)
            → R t u × Any e)
        → (e : D) → (s' : ResMgr S)
        → elim o [
          | none ↦ none
          | some (d', t) ↦ go_on next d' t (foreach_from callback n next d' t)
        ]
          ≡ some (e, s')
        → R s s' × Any e
    foreach_round n next s none call follow e s' p = absurd (none-ne-some _ p)
    foreach_round n next s (some (d, t)) call follow e s' p =
        let (r, u) = call d t refl in
        let (r', u') = foreach_step next d t s' _ (follow d t) e p in
        (is_run.run_trans s t s' r r', tt)

    foreach_run :
        (n : ℕ)
        → (a : Option ℕ) → (d : D) → (s : ResMgr S) → (e : D) → (s' : ResMgr S)
        → foreach_from callback n a d s ≡ some (e, s')
        → R s s' × Any e
    unfolding foreach_from
    foreach_run n none d s e s' p = returns Any d e s s' tt p
    foreach_run zero (some a) d s e s' p = absurd (none-ne-some _ p)
    foreach_run (suc n) (some a) d s e s' p =
        foreach_round n (successor a s.session_list.session_entry_list) s (callback a d s)
          ((calls a d).run s) (foreach_run n _) e s' p

    pub foreach_rule : (d : D) → Triple R Any (session_list_foreach callback d)
    unfolding session_list_foreach
    foreach_rule d = record { run = λ s e s' p. foreach_run _ _ d s e s' p }

  pub option_rule :
      {A B : Type 0}
      → {Q : B → Type 0} → (o : Option A) → (m : M S B) → (f : A → M S B) → Triple R Q m
      → ((a : A) → Triple R Q (f a))
      → Triple R Q (elim o [ none ↦ m | some a ↦ f a ])
  option_rule none m f tm tf = tm
  option_rule (some a) m f tm tf = tf a
