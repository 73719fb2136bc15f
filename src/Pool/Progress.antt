-- ===== src/Pool/Progress.antt =====
-- A pool with a worker never gets stuck, and comes to its end after a bounded number of steps.

use mathlib.Core.List.{Perm}
use nsg_parser.Pool.Safety.{
  works, IsRun, fails, Kept, length_taken, Steps-Kept, new_pool-Kept, fails-perm, has_errors-fails,
}
use nsg_parser.Pool.{Task, Pool, new_pool, has_errors, Step, Steps, send, finish, here, next}
use nsg_parser.Prelude.{
  ℕ, suc, ◌+◌, ◌*◌, ◌≤◌, ◌<◌, ◌≡◌, refl, ap, inl, inr, Option, List, [], ◌∷◌, arith, length, All,
  sym, ◌∙◌, subst, ◌⊎◌, ◌++◌,
}

List-cases : {A : Type 0} (xs : List A) → (xs ≡ []) ⊎ ((x : A) × (ys : List A) × (xs ≡ x ∷ ys))
List-cases [] = inl refl
List-cases (x ∷ xs) = inr (x, xs, refl)

module _ {F E : Type 0} (call : F → Option E) where
  -- Two steps for each task that waits, one for each that runs.
  abbrev pub steps_left : Pool F E → ℕ
  steps_left p = 2 * length p.waiting + length p.running

  Step-steps_left : {p q : Pool F E} → Step call p q → steps_left p ≡ suc (steps_left q)
  Step-steps_left (send p t ts w idle) = let e = ap length w in omega arith
  Step-steps_left (finish p ts us t r) =
      let e = ap length r in let l = length_taken call ts us t in omega arith

  pub Steps-steps_left :
      {n : ℕ} {p q : Pool F E} → Steps call n p q → steps_left p ≡ n + steps_left q
  Steps-steps_left here = omega arith
  Steps-steps_left {n = suc n} (next ss s) =
      let e = Steps-steps_left ss in let l = Step-steps_left s in omega arith

  -- Without a step to take, nothing waits and nothing runs, if there is a worker.
  pub stuck_running : (p : Pool F E) → ((q : Pool F E) → ¬ Step call p q) → p.running ≡ []
  stuck_running p h = elim (List-cases p.running) [
    | inl e ↦ e
    | inr (t, ts, e) ↦ absurd (h _ (finish p [] ts t e))
  ]

  pub stuck_waiting :
      (p : Pool F E) → 0 < p.concurrency → ((q : Pool F E) → ¬ Step call p q) → p.waiting ≡ []
  stuck_waiting p worker h = elim (List-cases p.waiting) [
    | inl e ↦ e
    | inr (t, ts, e) ↦
        let l = ap length (stuck_running p h) in absurd (h _ (send p t ts e (omega arith)))
  ]

  Step-concurrency : {p q : Pool F E} → Step call p q → p.concurrency ≡ q.concurrency
  Step-concurrency (send p t ts w idle) = refl
  Step-concurrency (finish p ts us t r) = refl

  Steps-concurrency : {n : ℕ} {p q : Pool F E} → Steps call n p q → p.concurrency ≡ q.concurrency
  Steps-concurrency here = refl
  Steps-concurrency (next ss s) = Steps-concurrency ss ∙ Step-concurrency s

  Step-worker : {p q : Pool F E} → Step call p q → p.running ≡ [] → 0 < p.concurrency
  Step-worker (send p t ts w idle) h = omega arith
  Step-worker (finish p ts us t r) h =
      let e = ap length (sym r ∙ h) in let l = length_taken call ts us t in omega arith

  nothing_left :
      (tasks : List (Task F E)) (p : Pool F E)
      → Kept call tasks p
      → p.running ≡ []
      → p.waiting ≡ []
      → Perm (works call p.finished) (works call tasks)
  nothing_left tasks p k r w =
      subst (λ ws. Perm (works call ws ++ works call p.finished) (works call tasks)) w
        (subst
          (λ rs.
            Perm (works call p.waiting ++ (works call rs ++ works call p.finished))
              (works call tasks))
          r k.same)

  -- A pool with no task that waits and none that runs has no step.
  pub ended : (p q : Pool F E) → p.waiting ≡ [] → p.running ≡ [] → ¬ Step call p q
  ended p q w r (send _ t ts e idle) = let l = ap length (sym e ∙ w) in omega arith
  ended p q w r (finish _ ts us t e) =
      let l = ap length (sym e ∙ r) in let m = length_taken call ts us t in omega arith

  -- From a new pool no sequence of steps has more than twice as many steps as there are tasks.
  pub run_bounded :
      (tasks : List (Task F E)) (concurrency n : ℕ) (p : Pool F E)
      → Steps call n (new_pool tasks concurrency) p
      → n ≤ 2 * length tasks
  run_bounded tasks concurrency n p ss = let left = Steps-steps_left ss in omega arith

  -- Where a schedule of a new pool with at least one worker has come to its end, each task has been
  -- run exactly once and has the result of its own work, and HasErrors tells whether the work of
  -- some task of the pool fails.
  pub pool_complete :
      (tasks : List (Task F E)) (concurrency n : ℕ) (p : Pool F E)
      → 0 < concurrency
      → Steps call n (new_pool tasks concurrency) p
      → ((q : Pool F E) → ¬ Step call p q)
      → Perm (works call p.finished) (works call tasks)
        × All (IsRun call) p.finished
        × (has_errors p.finished ≡ fails call (works call tasks))
  pool_complete tasks concurrency n p worker ss stuck =
      let k = Steps-Kept call (new_pool-Kept call tasks concurrency) ss in
      let c = Steps-concurrency ss in
      let none_left =
        nothing_left tasks p k (stuck_running p stuck) (stuck_waiting p (omega arith) stuck) in
      (none_left, k.run_all, has_errors-fails call p.finished k.run_all ∙ fails-perm call none_left)

  -- With no worker and a task to run, Run waits for ever: there is no step.
  pub no_worker :
      (t : Task F E) (ts : List (Task F E)) (q : Pool F E) → ¬ Step call (new_pool (t ∷ ts) 0) q
  no_worker t ts q s = let w = Step-worker s refl in omega arith
