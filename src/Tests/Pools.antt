-- ===== src/Tests/Pools.antt =====
-- A pool of two tasks with two workers, whose second task comes to its end first.

use mathlib.Core.List.{Perm, reverse}
use nsg_parser.Pool.Single.{pool_in_turn}
use nsg_parser.Pool.Safety.{works, IsRun, fails}
use nsg_parser.Pool.Progress.{ended, run_bounded, pool_complete}
use nsg_parser.Pool.{
  Task, Pool, new_task, new_pool, has_errors, run_task, Steps, send, finish, here, next,
}
use nsg_parser.Prelude.{
  ℕ, ◌*◌, ◌≤◌, ◌≡◌, refl, Option, none, some, List, [], ◌∷◌, arith, length, All, map,
}

-- The work is given by its error.
abbrev id_call : Option ℕ → Option ℕ
id_call e = e

abbrev good_task : Task (Option ℕ) ℕ
good_task = new_task none

abbrev bad_task : Task (Option ℕ) ℕ
bad_task = new_task (some 7)

abbrev pool_of :
    List (Task (Option ℕ) ℕ)
    → List (Task (Option ℕ) ℕ)
    → List (Task (Option ℕ) ℕ)
    → Pool (Option ℕ) ℕ
pool_of ws rs ds = record { waiting = ws; running = rs; finished = ds; concurrency = 2 }

abbrev two_tasks : List (Task (Option ℕ) ℕ)
two_tasks = bad_task ∷ good_task ∷ []

abbrev ended_pool : Pool (Option ℕ) ℕ
ended_pool = pool_of [] [] (run_task id_call bad_task ∷ run_task id_call good_task ∷ [])

two-Steps : Steps id_call 4 (new_pool two_tasks 2) ended_pool
two-Steps =
    next
      (next
        (next
          (next here (send (pool_of two_tasks [] []) bad_task (good_task ∷ []) refl (omega arith)))
          (send (pool_of (good_task ∷ []) (bad_task ∷ []) []) good_task [] refl (omega arith)))
        (finish (pool_of [] (good_task ∷ bad_task ∷ []) []) [] (bad_task ∷ []) good_task refl))
      (finish (pool_of [] (bad_task ∷ []) (run_task id_call good_task ∷ [])) [] [] bad_task refl)

pool_complete_example :
    Perm (works id_call ended_pool.finished) (works id_call two_tasks)
    × All (IsRun id_call) ended_pool.finished
    × (has_errors ended_pool.finished ≡ fails id_call (works id_call two_tasks))
pool_complete_example =
    pool_complete id_call two_tasks 2 4 ended_pool (omega arith) two-Steps
      (λ q. ended id_call ended_pool q refl refl)

run_bounded_example : 4 ≤ 2 * length two_tasks
run_bounded_example = run_bounded id_call two_tasks 2 4 ended_pool two-Steps

-- The same tasks with one worker.
abbrev single_of :
    List (Task (Option ℕ) ℕ)
    → List (Task (Option ℕ) ℕ)
    → List (Task (Option ℕ) ℕ)
    → Pool (Option ℕ) ℕ
single_of ws rs ds = record { waiting = ws; running = rs; finished = ds; concurrency = 1 }

abbrev single_ended : Pool (Option ℕ) ℕ
single_ended = single_of [] [] (run_task id_call good_task ∷ run_task id_call bad_task ∷ [])

single-Steps : Steps id_call 4 (new_pool two_tasks 1) single_ended
single-Steps =
    next
      (next
        (next
          (next here
            (send (single_of two_tasks [] []) bad_task (good_task ∷ []) refl (omega arith)))
          (finish (single_of (good_task ∷ []) (bad_task ∷ []) []) [] [] bad_task refl))
        (send (single_of (good_task ∷ []) [] (run_task id_call bad_task ∷ [])) good_task [] refl
          (omega arith)))
      (finish (single_of [] (good_task ∷ []) (run_task id_call bad_task ∷ [])) [] [] good_task refl)

pool_in_turn_example : reverse single_ended.finished ≡ map (run_task id_call) two_tasks
pool_in_turn_example =
    pool_in_turn id_call two_tasks 4 single_ended single-Steps
      (λ q. ended id_call single_ended q refl refl)
