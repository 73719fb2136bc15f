-- ===== src/Process/Rounds.antt =====
-- The loop of the process command (cmd/process_commands.go) over a container whose listing stays.
use nsg_parser.Process.BeginTime.{begin_time_of}
use nsg_parser.Prelude.Int.{ℤ, ◌*ℤ◌, wrap64, pos}
use nsg_parser.Outcome.{returned}
use nsg_parser.LogFile.{Blob}
use nsg_parser.Process.{
  Done, after_poll, process_once, sleep_for, daemon_rounds, started, process_loop,
}
use nsg_parser.Azure.{Listing, AzureClient}
use nsg_parser.Job.{Services}
use nsg_parser.Prelude.{
  ℕ, zero, suc, ◌≡◌, refl, List, [], ◌∷◌, Text, sym, ◌∙◌, ◌++◌, append-nil, ap, true, false,
  append_assoc, All,
}
use nsg_parser.Azure.Polls.{
  Connected, Watched, Idle, poll-Settles, poll-Idle, Settles-Idle, poll_selection, LoadsStorable,
}
use nsg_parser.Job.Stored.{Saves}
use nsg_parser.Job.Saved.{Storage}

-- The sleeps of a daemon's first `n` rounds.
unfoldable pub pauses : ℤ → ℕ → List ℤ
pauses interval zero = []
pauses interval (suc n) = wrap64 (interval *ℤ pos 1000000000) ∷ pauses interval n

module _ {R W Files Bytes : Type 0} (services : Services R W Files Bytes) (listing : Listing)
    (interval : ℤ) (begin_time job_name container : Text) (bs : List Blob) where
  -- The files of a client on which the next poll finds nothing to do.
  abbrev pub Resting : Done R W Files → Type 0
  Resting d =
      Idle services listing job_name (begin_time_of begin_time) container bs d.client d.files

  -- One idle round: the same output and the same logged errors, and idle again.
  idle_round :
      (d : Done R W Files)
      → Storage services
      → Resting d
      → (d' : Done R W Files) × (process_once services listing begin_time job_name d ≡ returned d')
        × Resting d'
        × (d'.written ≡ d.written)
        × (d'.logged ≡ d.logged)
        × (d'.sleeps ≡ d.sleeps)
  unfolding process_once
  idle_round d s i =
      let (p, e, i', no_error, none_written, no_errors) =
        poll-Idle services listing job_name (begin_time_of begin_time) container bs d.client d.files
          s i in
      (
        after_poll services listing d p,
        rw (process_once, e) refl,
        i',
        rw none_written (append-nil d.written),
        rw (no_errors, no_error) (append-nil d.logged),
        refl,
      )

  -- What holds after rounds in which nothing was left to do.
  record After (n : ℕ) (d d' : Done R W Files) : Type 0 where
    runs : daemon_rounds services listing n interval begin_time job_name d ≡ returned d'
    same_written : d'.written ≡ d.written
    same_logged : d'.logged ≡ d.logged
    paused : d'.sleeps ≡ d.sleeps ++ pauses interval n

  idle_rounds :
      (n : ℕ) (d : Done R W Files)
      → Storage services
      → Resting d
      → (d' : Done R W Files) × After n d d'
  unfolding daemon_rounds pauses
  idle_rounds zero d s i = (
    d,
    record {
      runs = refl;
      same_written = refl;
      same_logged = refl;
      paused = sym (append-nil d.sleeps);
    },
  )
  idle_rounds (suc n) d s i =
      let (d1, e, i1, w1, l1, s1) = idle_round d s i in
      let (d2, a) = idle_rounds n (sleep_for services listing interval d1) s i1 in
      (
        d2,
        record {
          runs = rw (daemon_rounds, e) a.runs;
          same_written = a.same_written ∙ w1;
          same_logged = a.same_logged ∙ l1;
          paused =
              a.paused
              ∙ append_assoc d1.sleeps (wrap64 (interval *ℤ pos 1000000000) ∷ [])
                  (pauses interval n)
              ∙ ap (λ l. l ++ pauses interval (suc n)) s1;
        },
      )

  -- A first poll that settles its container, as a round.
  module _ (client : AzureClient R) (files : Files) where
    abbrev pub start : Done R W Files
    start = started client files

    -- What `n` further rounds of a daemon add to one round.
    pub record Steady (n : ℕ) (once d : Done R W Files) : Type 0 where
      pub runs_once :
          process_loop services listing n false interval begin_time job_name start ≡ returned once
      pub runs :
          process_loop services listing (suc n) true interval begin_time job_name start ≡ returned d
      pub same_written : d.written ≡ once.written
      pub same_logged : d.logged ≡ once.logged
      pub paused : d.sleeps ≡ pauses interval (suc n)

    pub process_loop-Steady :
        Connected client container
        → Storage services
        → Watched services listing job_name (begin_time_of begin_time) container bs client
        → LoadsStorable services listing job_name
            (begin_time_of begin_time)
            container
            bs
            client
            files
        → All (Saves services) (
            poll_selection services listing job_name
              (begin_time_of begin_time)
              container
              bs
              client
              files)
        → (n : ℕ) → (once : Done R W Files) × (d : Done R W Files) × Steady n once d
    unfolding process_loop process_once daemon_rounds pauses
    process_loop-Steady c s w fits ok n =
        let (p, t) =
          poll-Settles services listing job_name (begin_time_of begin_time) container bs client
            files c s w fits ok in
        let once = after_poll services listing start p in
        let (d, a) = idle_rounds n (sleep_for services listing interval once) s (
          Settles-Idle services listing job_name (begin_time_of begin_time) container bs client
            files p t w) in
        (
          once,
          d,
          record {
            runs_once = rw (process_once, t.returns) refl;
            runs = rw (daemon_rounds, process_once, t.returns) a.runs;
            same_written = a.same_written;
            same_logged = a.same_logged;
            paused = a.paused;
          },
        )
