-- ===== src/Pool/Single.antt =====
-- A pool of one worker, as parser/job.go makes it: it does what a loop over the tasks does.

use nsg_parser.Prelude.{
  ℕ, ◌≤◌, ◌≡◌, refl, ap, Option, List, [], ◌∷◌, ◌++◌, map, arith, length, ◌<◌, sym, ◌∙◌, append-nil,
  append_assoc,
}
use mathlib.Core.List.{reverse, reverse-cons}
use nsg_parser.Pool.{Task, Pool, new_pool, run_task, Step, Steps, send, finish, here, next}
use nsg_parser.Pool.Safety.{length_taken}
use nsg_parser.Pool.Progress.{stuck_running, stuck_waiting}

module _ {F E : Type 0} (call : F → Option E) where
  abbrev runs_of : List (Task F E) → List (Task F E)
  runs_of tasks = map (run_task call) tasks

  -- What is finished, in its order, and what the rest will give, are the runs of the tasks.
  record InTurn (tasks : List (Task F E)) (p : Pool F E) : Type 0 where
    order : reverse p.finished ++ runs_of (p.running ++ p.waiting) ≡ runs_of tasks
    single : p.concurrency ≡ 1
    few : length p.running ≤ 1

  -- One running task.
  only :
      (ts us : List (Task F E)) (t : Task F E) (rs : List (Task F E))
      → rs ≡ ts ++ t ∷ us
      → length rs ≤ 1
      → (ts ≡ []) × (us ≡ [])
  only [] [] t rs e h = (refl, refl)
  only [] (u ∷ us) t rs e h = absurd (omega (arith, ap length e, h))
  only (x ∷ ts) us t rs e h = absurd (omega (arith, ap length e, length_taken call ts us t, h))

  idle_worker : (rs : List (Task F E)) → length rs < 1 → rs ≡ []
  idle_worker [] h = refl
  idle_worker (r ∷ rs) h = absurd (omega (arith, h))

  Step-InTurn :
      {tasks : List (Task F E)} {p q : Pool F E} → Step call p q → InTurn tasks p → InTurn tasks q
  Step-InTurn (send p t ts w idle) k =
      let free = idle_worker p.running (omega (arith, idle, k.single)) in
      let taken : (t ∷ p.running) ++ ts ≡ p.running ++ p.waiting =
        ap (λ rs. (t ∷ rs) ++ ts) free ∙ sym (ap (λ rs. rs ++ p.waiting) free ∙ w) in
      record {
        order = ap (λ l. reverse p.finished ++ runs_of l) taken ∙ k.order;
        single = k.single;
        few = omega (arith, ap length free);
      }
  Step-InTurn (finish p ts us t r) k =
      let (no_ts, no_us) = only ts us t p.running r k.few in
      let rest_free : ts ++ us ≡ [] = ap (λ l. l ++ us) no_ts ∙ no_us in
      let one_runs : p.running ≡ t ∷ [] =
        r ∙ (ap (λ l. l ++ t ∷ us) no_ts ∙ ap (λ l. t ∷ l) no_us) in
      let left = runs_of ((ts ++ us) ++ p.waiting) in
      let taken : run_task call t ∷ left ≡ runs_of (p.running ++ p.waiting) =
        ap (λ l. run_task call t ∷ runs_of (l ++ p.waiting)) rest_free
        ∙ sym (ap (λ rs. runs_of (rs ++ p.waiting)) one_runs) in
      record {
        order =
            ap (λ l. l ++ left) (reverse-cons (run_task call t) p.finished)
            ∙ (append_assoc (reverse p.finished) (run_task call t ∷ []) left
                ∙ (ap (λ l. reverse p.finished ++ l) taken ∙ k.order));
        single = k.single;
        few = omega (arith, ap length rest_free);
      }

  Steps-InTurn :
      {tasks : List (Task F E)} {n : ℕ} {p q : Pool F E}
      → InTurn tasks p
      → Steps call n p q
      → InTurn tasks q
  Steps-InTurn k here = k
  Steps-InTurn k (next ss s) = Step-InTurn s (Steps-InTurn k ss)

  -- Where a schedule of a new pool with one worker, as a job makes it, has come to its end, it has
  -- done what a loop over the tasks does: the finished tasks, in their order, are the runs of the
  -- given ones in theirs.
  pub pool_in_turn :
      (tasks : List (Task F E)) (n : ℕ) (p : Pool F E)
      → Steps call n (new_pool tasks 1) p
      → ((q : Pool F E) → ¬ Step call p q)
      → reverse p.finished ≡ map (run_task call) tasks
  pool_in_turn tasks n p ss stuck =
      let k = Steps-InTurn (record { order = refl; single = refl; few = omega arith }) ss in
      let done : p.running ++ p.waiting ≡ [] =
        ap (λ l. l ++ p.waiting) (stuck_running call p stuck)
        ∙ stuck_waiting call p (omega (arith, k.single)) stuck in
      sym (append-nil (reverse p.finished))
      ∙ (ap (λ l. reverse p.finished ++ runs_of l) (sym done) ∙ k.order)
