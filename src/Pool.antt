-- ===== src/Pool.antt =====
-- pool/pool.go: a pool hands its tasks to workers over an unbuffered channel, and waits for them.
-- The scheduler is a step relation: which worker goes on, and when, is any choice of steps.
pub mod Safety
pub mod Progress
pub mod Single
use nsg_parser.Prelude.{
  ℕ, ◌≡◌, ◌<◌, Bool, false, ◌||◌, Option, none, some, List, [], ◌∷◌, ◌++◌, length, suc, true,
}

-- A task's work is `f`, of any type of function; `call` is its call.
pub record Task (F E : Type 0) : Type 0 where
  pub err : Option E
  pub f : F

-- The tasks that are still to be sent on the channel, those that a worker has taken, and those
-- that have called `wg.Done`, the last one first.
pub record Pool (F E : Type 0) : Type 0 where
  pub waiting : List (Task F E)
  pub running : List (Task F E)
  pub finished : List (Task F E)
  pub concurrency : ℕ

abbrev pub new_task : {F E : Type 0} → F → Task F E
new_task f = record { err = none; f = f }

-- `NewPool`, at the point where `Run` has started its workers.
abbrev pub new_pool : {F E : Type 0} → List (Task F E) → ℕ → Pool F E
new_pool tasks concurrency = record {
  waiting = tasks;
  running = [];
  finished = [];
  concurrency = concurrency;
}

abbrev pub is_some : {A : Type 0} → Option A → Bool
is_some none = false
is_some (some x) = true

-- `HasErrors`.
unfoldable pub has_errors : {F E : Type 0} → List (Task F E) → Bool
has_errors [] = false
has_errors (task ∷ tasks) = is_some task.err || has_errors tasks

module _ {F E : Type 0} (call : F → Option E) where
  -- `Task.Run`, without `wg.Done`.
  abbrev pub run_task : Task F E → Task F E
  run_task task = record task { err = call task.f }

  -- A send meets an idle worker; or some running task comes to its end.
  pub data Step : Pool F E → Pool F E → Type 0 where
    send :
        (p : Pool F E) (t : Task F E) (ts : List (Task F E))
        → p.waiting ≡ t ∷ ts
        → length p.running < p.concurrency
        → Step p (record p { waiting = ts; running = t ∷ p.running })
    finish :
        (p : Pool F E) (ts us : List (Task F E)) (t : Task F E)
        → p.running ≡ ts ++ t ∷ us
        → Step p (record p { running = ts ++ us; finished = run_task t ∷ p.finished })

  -- `Steps n p q`: `n` steps lead from `p` to `q`.
  pub data Steps : ℕ → Pool F E → Pool F E → Type 0 where
    here : {p : Pool F E} → Steps 0 p p
    next : {n : ℕ} {p q r : Pool F E} → Steps n p q → Step q r → Steps (suc n) p r
