-- ===== src/Job/Runs.antt =====
-- What a run leaves of the tasks that fail, and of the job itself.

use nsg_parser.Outcome.{returned, panicked, exited, Outcome, ◌>>=◌}
use nsg_parser.Status.{create_process_status_from_logfile}
use nsg_parser.Client.{Processed}
use nsg_parser.LogFile.{LogFile}
use nsg_parser.Dict.{lookup, lookup-put_ne}
use nsg_parser.Job.{Job, Services, Ran, after_task, run_tasks, run, run_closed_tasks}
use nsg_parser.Prelude.{
  ◌≡◌, refl, ◌∙◌, ◌≢◌, ◌⊎◌, inl, inr, false, List, [], ◌∷◌, Bool-cases, All, Text,
}

-- Each of the tasks returns, and no log file of the name `k` goes to the channel.
module _ {R W Files Bytes : Type 0} (services : Services R W Files Bytes) (k : Text) where
  abbrev pub Spares : LogFile R → Type 0
  Spares f =
      (p : Processed R (List W)) × (services.process_azure_log_file f ≡ returned p)
      × ((p.sent ≡ false) ⊎ (p.log_file.name ≢ k))

  spares-status :
      (ran : Ran W) (p : Processed R (List W))
      → (p.sent ≡ false) ⊎ (p.log_file.name ≢ k)
      → lookup k (after_task services ran p).status ≡ lookup k ran.status
  spares-status ran p (inl unsent) = rw unsent
  spares-status ran p (inr ne) = elim (Bool-cases p.sent) [
    | inr unsent ↦ rw unsent
    | inl sent ↦ rw sent (
        lookup-put_ne p.log_file.name k (create_process_status_from_logfile p.log_file) ran.status
          ne)
  ]

  -- If each task returns and no task sends a log file of the name k to the channel, the run returns
  -- and keeps the entry that the status has for k.
  pub run_tasks-keeps :
      (fs : List (LogFile R)) (ran : Ran W)
      → All Spares fs
      → (out : Ran W) × (run_tasks services fs ran ≡ returned out)
        × (lookup k out.status ≡ lookup k ran.status)
  unfolding run_tasks
  run_tasks-keeps [] ran h = (ran, refl, refl)
  run_tasks-keeps (f ∷ fs) ran ((p, e, s), h) =
      let (out, run, kept) = run_tasks-keeps fs (after_task services ran p) h in
      (out, rw e run, kept ∙ spares-status ran p s)

-- A step that does not return does not let the steps in front of it return.
abbrev Ended : {A : Type 0} → Outcome A → Type 0
Ended o = (o ≡ panicked) ⊎ (o ≡ exited)

Ended->>= :
    {A B : Type 0} (o : Outcome A) (k : A → Outcome B) → ((a : A) → Ended (k a)) → Ended (o >>= k)
Ended->>= (returned a) k h = h a
Ended->>= panicked k h = inl refl
Ended->>= exited k h = inr refl

module _ {R W Files Bytes : Type 0} (services : Services R W Files Bytes) where
  run_closed_tasks-Ended : (fs : List (LogFile R)) → Ended (run_closed_tasks services fs)
  unfolding run_closed_tasks
  run_closed_tasks-Ended [] = inl refl
  run_closed_tasks-Ended (f ∷ fs) = Ended->>= (services.process_azure_log_file f) _ (λ p.
      elim (Bool-cases p.sent) [
        | inl e ↦ rw e (inl refl)
        | inr e ↦ rw e (run_closed_tasks-Ended fs)
      ])

  pub run_closed_tasks-ne :
      (fs : List (LogFile R)) (ran : Ran W) → run_closed_tasks services fs ≢ returned ran
  run_closed_tasks-ne fs ran e = elim (run_closed_tasks-Ended fs) [ inl p ↦ cc | inr x ↦ cc ]
