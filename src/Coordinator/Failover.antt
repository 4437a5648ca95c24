-- ===== src/Coordinator/Failover.antt =====
-- `execute_with_failover` returns the first success, and fails only when all candidates have failed.
use mathlib.Core.List.{append-nil}
use infer_platform.Base.{
  ℕ, suc, ◌+◌, ◌≡◌, ◌≢◌, inl, inr, refl, sym, ap, ◌∙◌, List, [], ◌∷◌, ◌++◌, Result, ok, err, Run,
  returns, panics, arith, length, Option-cases, Run-cases,
}
use infer_platform.Planner.{ShardPlan, controller}
use infer_platform.Coordinator.Execution.{
  ExecError, all_candidates_failed, try_candidates, execute_with_failover, HasController, AllFail,
}

module _ {Json : Type 0} (attempt : ℕ → ShardPlan → Run (Result ExecError Json)) where
  module _ (i : ℕ) (before : ExecError) (plan : ShardPlan) (rest : List ShardPlan)
      (led : HasController attempt plan) where
    try_failed :
        (e : ExecError)
        → attempt i plan ≡ returns (err e)
        → try_candidates attempt i before (plan ∷ rest) ≡ try_candidates attempt (suc i) e rest
    unfolding try_candidates
    try_failed e f = elim (Option-cases (controller plan)) [
      | inl missing ↦ absurd (led missing)
      | inr (node, found) ↦ rw (found, f, try_candidates) refl
    ]

    try_succeeded :
        (v : Json)
        → attempt i plan ≡ returns (ok v)
        → try_candidates attempt i before (plan ∷ rest) ≡ returns (ok v)
    unfolding try_candidates
    try_succeeded v f = elim (Option-cases (controller plan)) [
      | inl missing ↦ absurd (led missing)
      | inr (node, found) ↦ rw (found, f, try_candidates) refl
    ]

  try_past :
      (i : ℕ) (before e : ExecError) (failed later : List ShardPlan)
      → AllFail attempt i before failed e
      → try_candidates attempt i before (failed ++ later)
        ≡ try_candidates attempt (i + length failed) e later
  try_past i before e [] later f =
      ap (λ k. try_candidates attempt k before later) (omega arith)
      ∙ ap (λ x. try_candidates attempt (i + 0) x later) f
  try_past i before e (plan ∷ rest) later (led, (own, fails, f)) =
      try_failed i before plan (rest ++ later) led own fails
      ∙ try_past (suc i) own e rest later f
      ∙ ap (λ k. try_candidates attempt k e later) (omega arith)

  unfolded :
      (candidates : List ShardPlan)
      → candidates ≢ []
      → execute_with_failover attempt candidates
        ≡ try_candidates attempt 0 all_candidates_failed candidates
  unfolding execute_with_failover
  unfolded [] some_plan = absurd (some_plan refl)
  unfolded (plan ∷ rest) some_plan = refl

  append_nonempty : (xs : List ShardPlan) (p : ShardPlan) (ys : List ShardPlan) → xs ++ p ∷ ys ≢ []
  append_nonempty [] p ys e = cc
  append_nonempty (x ∷ xs) p ys e = cc

  -- After candidates whose attempts all fail, a successful attempt is the answer; the later
  -- candidates are not tried.
  pub failover_succeeds :
      (failed later : List ShardPlan) (plan : ShardPlan) (e : ExecError) (v : Json)
      → AllFail attempt 0 all_candidates_failed failed e
      → HasController attempt plan
      → attempt (length failed) plan ≡ returns (ok v)
      → execute_with_failover attempt (failed ++ plan ∷ later) ≡ returns (ok v)
  failover_succeeds failed later plan e v f led hit =
      unfolded (failed ++ plan ∷ later) (append_nonempty failed plan later)
      ∙ try_past 0 all_candidates_failed e failed (plan ∷ later) f
      ∙ try_succeeded (0 + length failed) e plan later led v
          (ap (λ k. attempt k plan) (omega arith) ∙ hit)

  -- When every attempt fails, the answer is the error of the last.
  pub failover_exhausted :
      (candidates : List ShardPlan) (e : ExecError)
      → candidates ≢ []
      → AllFail attempt 0 all_candidates_failed candidates e
      → execute_with_failover attempt candidates ≡ returns (err e)
  unfolding try_candidates
  failover_exhausted candidates e some_plan f =
      unfolded candidates some_plan
      ∙ ap (try_candidates attempt 0 all_candidates_failed) (sym (append-nil candidates))
      ∙ try_past 0 all_candidates_failed e candidates [] f

  -- How an answer comes about.
  pub record FirstSuccess (i : ℕ) (before : ExecError) (plans : List ShardPlan) (v : Json)
      : Type 0 where
    pub failed : List ShardPlan
    pub plan : ShardPlan
    pub later : List ShardPlan
    pub last : ExecError
    pub split : plans ≡ failed ++ plan ∷ later
    pub fails : AllFail attempt i before failed last
    pub succeeds : attempt (i + length failed) plan ≡ returns (ok v)

  later_success :
      (i : ℕ) (before : ExecError) (plan : ShardPlan) (rest : List ShardPlan) (v : Json)
      (own : ExecError)
      → HasController attempt plan
      → attempt i plan ≡ returns (err own)
      → FirstSuccess (suc i) own rest v
      → FirstSuccess i before (plan ∷ rest) v
  later_success i before plan rest v own led fail s = record {
    failed = plan ∷ s.failed;
    plan = s.plan;
    later = s.later;
    last = s.last;
    split = ap (◌∷◌ plan) s.split;
    fails = (led, (own, fail, s.fails));
    succeeds = ap (λ k. attempt k s.plan) (omega arith) ∙ s.succeeds;
  }

  tried :
      (i : ℕ) (before : ExecError) (plans : List ShardPlan) (v : Json)
      → try_candidates attempt i before plans ≡ returns (ok v)
      → FirstSuccess i before plans v
  unfolding try_candidates
  tried i before [] v e = absurd (cc)
  tried i before (plan ∷ rest) v e = elim (Option-cases (controller plan)) [
    | inl missing ↦
        absurd (let bad : panics ≡ returns (ok v) = rw (missing, try_candidates) at e in cc)
    | inr (node, found) ↦ elim (Run-cases (attempt i plan)) [
      | inl p ↦ absurd (ground arith)
      | inr (inl (w, hit)) ↦ record {
        failed = [];
        plan = plan;
        later = rest;
        last = before;
        split = refl;
        fails = refl;
        succeeds = ap (λ k. attempt k plan) (omega arith) ∙ hit ∙ ground arith;
      }
      | inr (inr (own, fail)) ↦
          let led : HasController attempt plan = λ missing. ground arith in
          later_success i before plan rest v own led fail
            (tried (suc i) own rest v (sym (try_failed i before plan rest led own fail) ∙ e))
    ]
  ]

  -- An answer is the success of some candidate after the failure of all before it.
  pub failover_first :
      (candidates : List ShardPlan) (v : Json)
      → execute_with_failover attempt candidates ≡ returns (ok v)
      → FirstSuccess 0 all_candidates_failed candidates v
  unfolding execute_with_failover
  failover_first [] v e = absurd (cc)
  failover_first (plan ∷ rest) v e = tried 0 all_candidates_failed (plan ∷ rest) v e
