-- ===== src/Job/Settled.antt =====
-- After a run whose tasks all send their log files, the same blobs are not taken up again. A task of
-- the file client without events returns no error and sends nothing, so it is none of these.

use nsg_parser.LogFile.Kinds.{same_file}
use nsg_parser.Job.Select.{chosen, selected}
use nsg_parser.Outcome.{returned}
use nsg_parser.Status.{LogFileProcessStatus, ProcessStatus, create_process_status_from_logfile}
use nsg_parser.Time.{Time, after, after_irrefl}
use nsg_parser.Client.{Processed}
use nsg_parser.LogFile.{Blob, LogFile}
use nsg_parser.Dict.{lookup, lookup-put_self, lookup-put_ne, put}
use nsg_parser.Prelude.{
  ◌≡◌, refl, ◌∙◌, ◌≢◌, ◌⊎◌, inl, inr, true, false, some, List, [], ◌∷◌, Bool-cases, Option-cases,
  All, Text, sym, subst, ◌++◌, ap,
}
use nsg_parser.Job.{Ran, Services, after_task, carry_over, run_tasks, run, create_azure_log_file}

module _ {R : Type 0} (start : Time) where
  abbrev ChosenCases : ProcessStatus → LogFile R → Type 0
  ChosenCases status f =
      (chosen start status f ≡ [])
      ⊎ ((g : LogFile R) × (chosen start status f ≡ g ∷ [])
          × (g.name ≡ f.name)
          × (g.last_modified ≡ f.last_modified))

  chosen-cases : (status : ProcessStatus) (f : LogFile R) → ChosenCases status f
  chosen-cases status f = elim (Bool-cases (after f.log_time start)) [
    | inr e ↦ inl (rw e)
    | inl e ↦ elim (Option-cases (lookup f.blob.name status)) [
      | inl n ↦ inr (f, rw (e, n), refl, refl)
      | inr (s, k) ↦ elim (Bool-cases (after f.last_modified s.last_modified)) [
        | inl m ↦ inr (carry_over f s, rw (e, k, m), refl, refl)
        | inr m ↦ inl (rw (e, k, m))
      ]
    ]
  ]

  -- Only the entry of the blob's name decides.
  chosen-cong :
      (st st' : ProcessStatus) (f : LogFile R)
      → lookup f.blob.name st ≡ lookup f.blob.name st'
      → chosen start st f ≡ chosen start st' f
  chosen-cong st st' f h = rw h

  chosen_unmodified :
      (st : ProcessStatus) (f : LogFile R) (s : LogFileProcessStatus)
      → lookup f.blob.name st ≡ some s
      → after f.last_modified s.last_modified ≡ false
      → chosen start st f ≡ []
  chosen_unmodified st f s h k = elim (Bool-cases (after f.log_time start)) [
    | inr e ↦ rw e
    | inl e ↦ rw (e, h, k)
  ]

-- The entry that is written under an equal name.
lookup-put_other :
    (n m k : Text) (s : LogFileProcessStatus) (st : ProcessStatus)
    → n ≡ m
    → m ≢ k
    → lookup k (put n s st) ≡ lookup k st
lookup-put_other n m k s st e h = rw e (lookup-put_ne m k s st h)

lookup-put_same :
    (n m : Text) (s : LogFileProcessStatus) (st : ProcessStatus)
    → n ≡ m
    → lookup m (put n s st) ≡ some s
lookup-put_same n m s st e = rw e (lookup-put_self m s st)

-- No blob of the list has the name.
abbrev pub LacksName : Text → List Blob → Type 0
LacksName k = All (λ b. b.name ≢ k)

abbrev pub Distinct : List Blob → Type 0
Distinct [] = Unit
Distinct (b ∷ bs) = LacksName b.name bs × Distinct bs

-- What a log file takes from its blob.
record FromBlob (R : Type 0) (b : Blob) : Type 0 where
  name_is : (create_azure_log_file {R = R} b).0.name ≡ b.name
  blob_name_is : (create_azure_log_file {R = R} b).0.blob.name ≡ b.name

from_blob : (R : Type 0) (b : Blob) → FromBlob R b
from_blob R b = record {
  name_is = ap (λ x. x.0.name) (same_file R b);
  blob_name_is = ap (λ x. x.0.blob.name) (same_file R b);
}

module _ {R W Files Bytes : Type 0} (services : Services R W Files Bytes) where
  -- The task returns, its log file goes to the channel, and keeps its name and its time stamp.
  abbrev pub Delivers : LogFile R → Type 0
  Delivers f =
      (p : Processed R (List W)) × (services.process_azure_log_file f ≡ returned p)
      × (p.sent ≡ true)
      × (p.log_file.name ≡ f.name)
      × (p.log_file.last_modified ≡ f.last_modified)

  module _ (start : Time) (st : ProcessStatus) where
    -- What a run over the selected files of the blobs leaves.
    record Left (bs : List Blob) (ran out : Ran W) : Type 0 where
      kept : (k : Text) → LacksName k bs → lookup k out.status ≡ lookup k ran.status
      settled : All (λ b. chosen start out.status (create_azure_log_file {R = R} b).0 ≡ []) bs

    abbrev files_of : List Blob → List (LogFile R)
    files_of = selected (create_azure_log_file {R = R}) start st

    run-unchosen :
        (b : Blob) (bs : List Blob) (ran out : Ran W)
        → LacksName b.name bs
        → lookup b.name ran.status ≡ lookup b.name st
        → chosen start st (create_azure_log_file {R = R} b).0 ≡ []
        → Left bs ran out
        → Left (b ∷ bs) ran out
    run-unchosen b bs ran out lacks same e left = record {
      kept = λ k h. left.kept k h.1;
      settled = (
        chosen-cong start out.status st (create_azure_log_file {R = R} b).0
              (rw (from_blob R b).blob_name_is (left.kept b.name lacks ∙ same))
            ∙ e,
        left.settled,
      );
    }

    run-chosen :
        (b : Blob) (bs : List Blob) (ran out : Ran W) (p : Processed R (List W))
        → LacksName b.name bs
        → p.sent ≡ true
        → p.log_file.name ≡ b.name
        → p.log_file.last_modified ≡ (create_azure_log_file {R = R} b).0.last_modified
        → Left bs (after_task services ran p) out
        → Left (b ∷ bs) ran out
    run-chosen b bs ran out p lacks sent name modified left =
        let f = (create_azure_log_file {R = R} b).0 in
        let s = create_process_status_from_logfile p.log_file in
        record {
          kept = λ k h.
              left.kept k h.1
              ∙ rw sent (lookup-put_other p.log_file.name b.name k s ran.status name h.0);
          settled = (
            chosen_unmodified start out.status f s
                (rw (from_blob R b).blob_name_is (
                  left.kept b.name lacks
                  ∙ rw sent (lookup-put_same p.log_file.name b.name s ran.status name)))
                (rw modified (after_irrefl f.last_modified)),
            left.settled,
          );
        }

    -- The tasks return, and what they leave is settled.
    abbrev RunsTo : List (LogFile R) → List Blob → Ran W → Type 0
    RunsTo fs bs ran = (out : Ran W) × (run_tasks services fs ran ≡ returned out) × Left bs ran out

    -- The invariant over the blobs that are still to come: their entries are those of the start.
    abbrev Untouched : List Blob → Ran W → Type 0
    Untouched bs ran = All (λ b. lookup b.name ran.status ≡ lookup b.name st) bs

    Untouched-step :
        (n : Text) (bs : List Blob) (ran : Ran W) (p : Processed R (List W))
        → LacksName n bs
        → p.sent ≡ true
        → p.log_file.name ≡ n
        → Untouched bs ran
        → Untouched bs (after_task services ran p)
    Untouched-step n [] ran p lacks sent name h = tt
    Untouched-step n (b ∷ bs) ran p (ne, lacks) sent name (hb, h) = (
      rw sent (
          lookup-put_other p.log_file.name n b.name (create_process_status_from_logfile p.log_file)
            ran.status name (λ e. ne (sym e))
          ∙ hb),
      Untouched-step n bs ran p lacks sent name h,
    )

    run-selected :
        (bs : List Blob) (ran : Ran W)
        → Distinct bs
        → All Delivers (files_of bs)
        → Untouched bs ran
        → RunsTo (files_of bs) bs ran
    unfolding run_tasks
    run-selected [] ran ds ok same = (ran, refl, record { kept = λ k h. refl; settled = tt })
    run-selected (b ∷ bs) ran (lacks, ds) ok (same, sames) =
        elim (chosen-cases start st (create_azure_log_file {R = R} b).0) [
          | inl e ↦
              let (out, run, left) =
                run-selected bs ran ds (subst (λ fs. All Delivers (fs ++ files_of bs)) e ok)
                  sames in
              (out, rw e run, run-unchosen b bs ran out lacks same e left)
          | inr (g, e, name, modified) ↦
              let (ok_g, oks) = subst (λ fs. All Delivers (fs ++ files_of bs)) e ok in
              let (p, run_g, sent, name_p, modified_p) = ok_g in
              let n = name_p ∙ name ∙ (from_blob R b).name_is in
              let (out, run, left) =
                run-selected bs (after_task services ran p) ds oks
                  (Untouched-step b.name bs ran p lacks sent n sames) in
              (
                out,
                rw e (rw run_g run),
                run-chosen b bs ran out p lacks sent n (modified_p ∙ modified) left,
              )
        ]

    unchosen-selected :
        (status : ProcessStatus) (bs : List Blob)
        → All (λ b. chosen start status (create_azure_log_file {R = R} b).0 ≡ []) bs
        → selected (create_azure_log_file {R = R}) start status bs ≡ []
    unchosen-selected status [] h = refl
    unchosen-selected status (b ∷ bs) (hb, h) = rw hb (unchosen-selected status bs h)

untouched_refl :
    (st : ProcessStatus) (bs : List Blob) → All (λ b. lookup b.name st ≡ lookup b.name st) bs
untouched_refl st [] = tt
untouched_refl st (b ∷ bs) = (refl, untouched_refl st bs)

-- If each task of the files selected from blobs of distinct names returns and sends its log file,
-- with the name and the time of modification unchanged, to the channel, the run of the tasks
-- returns, and with the status that it leaves nothing is selected from the same blobs.
pub run_tasks-settled :
    {R W Files Bytes : Type 0} (services : Services R W Files Bytes) (start : Time) (bs : List Blob)
    (ran : Ran W)
    → Distinct bs
    → All (Delivers services) (selected (create_azure_log_file {R = R}) start ran.status bs)
    → (out : Ran W) × (run_tasks services
          (selected (create_azure_log_file {R = R}) start ran.status bs)
          ran
        ≡ returned out)
      × (selected (create_azure_log_file {R = R}) start out.status bs ≡ [])
run_tasks-settled services start bs ran ds ok =
    let (out, run, left) =
      run-selected services start ran.status bs ran ds ok (untouched_refl ran.status bs) in
    (out, run, unchosen-selected services start ran.status out.status bs left.settled)
