-- ===== src/Job/Stored.antt =====
-- What the JSON of a status keeps (parser/job.go): the entries, with each time as an instant.
use nsg_parser.Dict.{lookup, put, lookup-put}
use nsg_parser.Job.{Ran, Services, after_task, run_tasks, create_azure_log_file}
use nsg_parser.Job.Select.{chosen, chosen_known, selected}
use nsg_parser.Job.Settled.{Delivers}
use nsg_parser.LogFile.{Blob, LogFile}
use nsg_parser.Outcome.{◌>>=◌, returned, returned-injective}
use nsg_parser.Prelude.Int.{pos, ltb_ℤ}
use nsg_parser.Status.{LogFileProcessStatus, ProcessStatus, create_process_status_from_logfile}
use nsg_parser.Time.{Time, after}
use nsg_parser.Prelude.{
  ◌≡◌, refl, sym, ◌∙◌, subst, true, false, Bool-cases, Option, none, some, List, [], ◌∷◌, ◌++◌, All,
  Text, text_eq, inl, inr, ap, if◌then◌else◌,
}

-- encoding/json refuses a time whose year is not of four digits. The seconds stand a day off the end
-- of the year 9999, since the year is that of the time's zone.
abbrev pub IsJsonTime : Time → Type 0
IsJsonTime t = (ltb_ℤ t.sec (pos 0) ≡ false) × (ltb_ℤ t.sec (pos 315537811200) ≡ true)

pub record IsStorable (v : LogFileProcessStatus) : Type 0 where
  pub modified_fits : IsJsonTime v.last_modified
  pub processed_fits : IsJsonTime v.last_processed
  pub record_fits : IsJsonTime v.last_processed_record
  pub log_time_fits : IsJsonTime v.log_time

-- The entries of a status can be written.
abbrev pub AllStorable : ProcessStatus → Type 0
AllStorable status = (k : Text) (v : LogFileProcessStatus) → lookup k status ≡ some v → IsStorable v

-- The same instant, maybe in another zone.
pub record SameInstant (t u : Time) : Type 0 where
  pub same_sec : t.sec ≡ u.sec
  pub same_nsec : t.nsec ≡ u.nsec

pub record SameEntry (v w : LogFileProcessStatus) : Type 0 where
  pub same_name : v.name ≡ w.name
  pub same_etag : v.etag ≡ w.etag
  pub same_modified : SameInstant v.last_modified w.last_modified
  pub same_processed : SameInstant v.last_processed w.last_processed
  pub same_record : SameInstant v.last_processed_record w.last_processed_record
  pub same_stamp : v.last_processed_time_stamp ≡ w.last_processed_time_stamp
  pub same_count : v.last_record_count ≡ w.last_record_count
  pub same_range : v.last_processed_range ≡ w.last_processed_range
  pub same_log_time : SameInstant v.log_time w.log_time
  pub same_nsg_name : v.nsg_name ≡ w.nsg_name

abbrev pub SameOption : Option LogFileProcessStatus → Option LogFileProcessStatus → Type 0
SameOption none none = Unit
SameOption (some v) (some w) = SameEntry v w
SameOption _ _ = ⊥

abbrev pub SameEntries : ProcessStatus → ProcessStatus → Type 0
SameEntries s s' = (k : Text) → SameOption (lookup k s) (lookup k s')

IsJsonTime-same : (t u : Time) → SameInstant t u → IsJsonTime u → IsJsonTime t
IsJsonTime-same t u same fits = rw same.same_sec fits

IsStorable-same : (v w : LogFileProcessStatus) → SameEntry v w → IsStorable w → IsStorable v
IsStorable-same v w same fits = record {
  modified_fits =
      IsJsonTime-same v.last_modified w.last_modified same.same_modified fits.modified_fits;
  processed_fits =
      IsJsonTime-same v.last_processed w.last_processed same.same_processed fits.processed_fits;
  record_fits =
      IsJsonTime-same v.last_processed_record w.last_processed_record same.same_record
        fits.record_fits;
  log_time_fits = IsJsonTime-same v.log_time w.log_time same.same_log_time fits.log_time_fits;
}

SameOption-some :
    (w : LogFileProcessStatus) (o : Option LogFileProcessStatus)
    → SameOption (some w) o
    → (v : LogFileProcessStatus) × (o ≡ some v) × SameEntry w v
SameOption-some w none h = absurd h
SameOption-some w (some v) h = (v, refl, h)

pub AllStorable-same : (s s' : ProcessStatus) → SameEntries s s' → AllStorable s' → AllStorable s
AllStorable-same s s' same fits k w e =
    let (v, found, entry) =
      SameOption-some w (lookup k s') (subst (λ o. SameOption o (lookup k s')) e (same k)) in
    IsStorable-same w v entry (fits k v found)

abbrev value_or : LogFileProcessStatus → Option LogFileProcessStatus → LogFileProcessStatus
value_or v none = v
value_or v (some w) = w

pub AllStorable-put :
    (n : Text) (v : LogFileProcessStatus) (s : ProcessStatus)
    → IsStorable v
    → AllStorable s
    → AllStorable (put n v s)
AllStorable-put n v s fits all k w e =
    let found : (if text_eq n k then some v else lookup k s) ≡ some w =
      sym (lookup-put n k v s) ∙ e in
    elim (Bool-cases (text_eq n k)) [
      | inl t ↦
          let same : some v ≡ some w =
            subst (λ b. (if b then some v else lookup k s) ≡ some w) t found in
          subst IsStorable (ap (value_or v) same) fits
      | inr t ↦ all k w (subst (λ b. (if b then some v else lookup k s) ≡ some w) t found)
    ]

module _ {R W Files Bytes : Type 0} (services : Services R W Files Bytes) where
  -- A task that delivers an entry that can be written.
  abbrev pub Saves : LogFile R → Type 0
  Saves f = (d : Delivers services f) × IsStorable (create_process_status_from_logfile d.0.log_file)

  pub Saves-Delivers : (fs : List (LogFile R)) → All Saves fs → All (Delivers services) fs
  Saves-Delivers [] h = tt
  Saves-Delivers (f ∷ fs) (d, h) = (d.0, Saves-Delivers fs h)

  pub run_tasks-AllStorable :
      (fs : List (LogFile R)) (ran out : Ran W)
      → AllStorable ran.status
      → All Saves fs
      → run_tasks services fs ran ≡ returned out
      → AllStorable out.status
  unfolding run_tasks
  run_tasks-AllStorable [] ran out fits h e =
      subst (λ (x : Ran W). AllStorable x.status) (returned-injective ran out e) fits
  run_tasks-AllStorable (f ∷ fs) ran out fits (s, h) e =
      let ((p, run, sent, _, _), entry) = s in
      run_tasks-AllStorable fs (after_task services ran p) out
        (rw sent (
          AllStorable-put p.log_file.name (create_process_status_from_logfile p.log_file) ran.status
            entry fits))
        h
        (subst (λ o. (o >>= λ q. run_tasks services fs (after_task services ran q)) ≡ returned out)
          run e)

-- Of statuses with the same entries the one selects nothing where the other does.
after_same : (t u v : Time) → SameInstant u v → after t u ≡ after t v
after_same t u v same = rw (same.same_sec, same.same_nsec) refl

append-nil_inv : {A : Type 0} (xs ys : List A) → xs ++ ys ≡ [] → (xs ≡ []) × (ys ≡ [])
append-nil_inv [] ys h = (refl, h)
append-nil_inv (x ∷ xs) ys h = cc

module _ {R : Type 0} (start : Time) (st st' : ProcessStatus) where
  known_nothing :
      (f : LogFile R) (o o' : Option LogFileProcessStatus)
      → SameOption o o'
      → chosen_known start st' f o' ≡ []
      → chosen_known start st f o ≡ []
  known_nothing f none none same h = h
  known_nothing f none (some w) same h = absurd same
  known_nothing f (some v) none same h = absurd same
  known_nothing f (some v) (some w) same h =
      elim (Bool-cases (after f.last_modified w.last_modified)) [
        | inl e ↦ absurd cc
        | inr e ↦
            rw (after_same f.last_modified v.last_modified w.last_modified same.same_modified)
              (rw e refl)
      ]

  chosen_nothing :
      (f : LogFile R) → SameEntries st st' → chosen start st' f ≡ [] → chosen start st f ≡ []
  chosen_nothing f same h = elim (Bool-cases (after f.log_time start)) [
    | inl e ↦ rw e (
        known_nothing f (lookup f.blob.name st) (lookup f.blob.name st') (same f.blob.name) (
          subst (λ b. (if b then chosen_known start st' f (lookup f.blob.name st') else []) ≡ []) e
            h))
    | inr e ↦ rw e refl
  ]

  pub selected_nothing :
      (cs : List Blob)
      → SameEntries st st'
      → selected (create_azure_log_file {R = R}) start st' cs ≡ []
      → selected (create_azure_log_file {R = R}) start st cs ≡ []
  selected_nothing [] same h = refl
  selected_nothing (c ∷ cs) same h =
      let f = (create_azure_log_file {R = R} c).0 in
      let (hc, hcs) = append-nil_inv (chosen start st' f) _ h in
      rw (chosen_nothing f same hc) (selected_nothing cs same hcs)
