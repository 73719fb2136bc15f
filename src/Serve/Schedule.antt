-- ===== src/Serve/Schedule.antt =====
-- `ServeClient` of parser/serve.go beside the loop of a daemon: the server runs in a thread of its
-- own, and a request may come between any two polls.
use nsg_parser.Prelude.Int.{ℤ, pos}
use nsg_parser.Outcome.{Outcome, returned, >>=-eq-returned, returned-injective}
use nsg_parser.Azure.{AzureClient, Listing}
use nsg_parser.Job.{Services}
use nsg_parser.Process.{Done, process_once, daemon_rounds, sleep_for}
use nsg_parser.Serve.{Build, NsgParserStatus, Response, respond, load_status, get_process_status}
use nsg_parser.Prelude.{
  ℕ, zero, suc, ◌≡◌, refl, sym, ◌∙◌, ◌⊎◌, Bool, true, false, if◌then◌else◌, Option, none, some,
  List, [], ◌∷◌, ◌++◌, Text, codes, All, All-append,
}

-- How far the thread of the server has come.
pub data Phase : Type 0 where
  not_started assigned routed listening closed : Phase

-- `httpStatusClient` is nil, or it points to the variable of the package that holds the client of
-- the polls; the routes are those of the default mux.
pub record Server : Type 0 where
  pub phase : Phase
  pub points : Bool
  pub routes : List Text

abbrev pub stopped_server : Server
stopped_server = record { phase = not_started; points = false; routes = [] }

-- The three statements of `ServeClient`. The error of `ListenAndServe` is dropped by its caller.
abbrev pub assign_client : Server → Server
assign_client server = record server { phase = assigned; points = true }

abbrev pub handle_func : Server → Server
handle_func server = record server { phase = routed; routes = codes "/status" ∷ server.routes }

abbrev pub listen_and_serve : Bool → Server → Server
listen_and_serve listens server = record server { phase = if listens then listening else closed }

-- The process: the polls up to now, the server, and what it has answered.
pub record Serving (R W Files : Type 0) : Type 0 where
  pub polls : Done R W Files
  pub server : Server
  pub answers : List Response

-- The client that the pointer reaches is the one of the last poll.
abbrev pub pointed_client : {R W Files : Type 0} → Serving R W Files → Option (AzureClient R)
pointed_client s = if s.server.points then some s.polls.client else none

module _ {R W Files Bytes : Type 0} (services : Services R W Files Bytes) (listing : Listing)
    (marshal : NsgParserStatus R → List ℕ ⊎ List ℕ) (build : Build) (serve_http listens : Bool)
    (interval : ℤ) (begin_time job_name : Text) where
  -- A poll of the loop, a statement of `ServeClient`, or a request. A poll is one step: what a
  -- request would see in the middle of one is left out.
  pub data Step (s : Serving R W Files) : Serving R W Files → Type 0 where
    poll :
        {d : Done R W Files}
        → process_once services listing begin_time job_name s.polls ≡ returned d
        → Step s (record s { polls = sleep_for services listing interval d })
    assign :
        serve_http ≡ true
        → s.server.phase ≡ not_started
        → Step s (record s { server = assign_client s.server })
    route : s.server.phase ≡ assigned → Step s (record s { server = handle_func s.server })
    listen :
        s.server.phase ≡ routed → Step s (record s { server = listen_and_serve listens s.server })
    request :
        {answer : Response}
        → s.server.phase ≡ listening
        → get_process_status marshal build (pointed_client s) (pos s.polls.counted)
          ≡ returned answer
        → Step s (record s { answers = s.answers ++ answer ∷ [] })

  pub data Reach (s : Serving R W Files) : Serving R W Files → Type 0 where
    here : Reach s s
    next : {t u : Serving R W Files} → Reach s t → Step t u → Reach s u

  -- The page of the client and the counter that the polls have left.
  abbrev pub page_of : Done R W Files → Response
  page_of d = respond (
      marshal (record {
        build = build;
        jobs = d.client.registered_jobs;
        processed_flow_count = pos d.counted;
      }))

  abbrev pub rounds : ℕ → Done R W Files → Outcome (Done R W Files)
  rounds n d = daemon_rounds services listing n interval begin_time job_name d

  rounds-suc :
      (n : ℕ) (d e f : Done R W Files)
      → rounds n d ≡ returned e
      → process_once services listing begin_time job_name e ≡ returned f
      → rounds (suc n) d ≡ returned (sleep_for services listing interval f)
  unfolding daemon_rounds
  rounds-suc zero d e f h p = rw (returned-injective d e h) (rw p refl)
  rounds-suc (suc n) d e f h p =
      let (d', once, rest) =
        >>=-eq-returned (process_once services listing begin_time job_name d)
          (λ x. rounds n (sleep_for services listing interval x)) h in
      rw once (rounds-suc n (sleep_for services listing interval d') e f rest p)

  module _ (d₀ : Done R W Files) where
    -- An answer that is the page after some of the polls.
    abbrev pub Shown : Response → Type 0
    Shown r = (n : ℕ) × (d : Done R W Files) × (rounds n d₀ ≡ returned d) × (r ≡ page_of d)

    -- From its first statement on the server has its client.
    abbrev pub Pointing : Phase → Bool → Type 0
    Pointing not_started b = Unit
    Pointing assigned b = b ≡ true
    Pointing routed b = b ≡ true
    Pointing listening b = b ≡ true
    Pointing closed b = b ≡ true

    pub record Follows (s : Serving R W Files) : Type 0 where
      pub count : ℕ
      pub after : rounds count d₀ ≡ returned s.polls
      pub shown : All Shown s.answers
      pub pointing : Pointing s.server.phase s.server.points

    closed-Pointing :
        (b : Bool) (points : Bool)
        → points ≡ true
        → Pointing (if b then listening else closed) points
    closed-Pointing true points h = h
    closed-Pointing false points h = h

    page_is :
        (s : Serving R W Files)
        → Pointing s.server.phase s.server.points
        → s.server.phase ≡ listening
        → get_process_status marshal build (pointed_client s) (pos s.polls.counted)
          ≡ returned (page_of s.polls)
    unfolding get_process_status load_status
    page_is s h e = let points : s.server.points ≡ true = rw e at h in rw points refl

    Step-Follows : {s t : Serving R W Files} → Step s t → Follows s → Follows t
    Step-Follows {s} (poll {d = d} h) f = record {
      count = suc f.count;
      after = rounds-suc f.count d₀ s.polls d f.after h;
      shown = f.shown;
      pointing = f.pointing;
    }
    Step-Follows (assign h e) f = record {
      count = f.count;
      after = f.after;
      shown = f.shown;
      pointing = refl;
    }
    Step-Follows (route e) f = record {
      count = f.count;
      after = f.after;
      shown = f.shown;
      pointing = rw e at f.pointing;
    }
    Step-Follows {s} (listen e) f = record {
      count = f.count;
      after = f.after;
      shown = f.shown;
      pointing = closed-Pointing listens s.server.points (rw e at f.pointing);
    }
    Step-Follows {s} (request {answer = answer} e h) f =
        let page = page_is s f.pointing e in
        let is_page = returned-injective (page_of s.polls) answer (sym page ∙ h) in
        record {
          count = f.count;
          after = f.after;
          shown =
              All-append Shown s.answers (answer ∷ []) f.shown
                ((f.count, s.polls, f.after, sym is_page), tt);
          pointing = f.pointing;
        }

    abbrev pub beginning : Serving R W Files
    beginning = record { polls = d₀; server = stopped_server; answers = [] }

    Reach-Follows : {s : Serving R W Files} → Reach beginning s → Follows s
    unfolding daemon_rounds
    Reach-Follows here = record { count = 0; after = refl; shown = tt; pointing = tt }
    Reach-Follows (next r step) = Step-Follows step (Reach-Follows r)

    -- What a request would get.
    abbrev pub Answers : Phase → Serving R W Files → Type 0
    Answers listening s =
        get_process_status marshal build (pointed_client s) (pos s.polls.counted)
        ≡ returned (page_of s.polls)
    Answers not_started s = Unit
    Answers assigned s = Unit
    Answers routed s = Unit
    Answers closed s = Unit

    Answers-phase :
        (s : Serving R W Files) (phase : Phase)
        → s.server.phase ≡ phase
        → Follows s
        → Answers phase s
    Answers-phase s listening e f = page_is s f.pointing e
    Answers-phase s not_started e f = tt
    Answers-phase s assigned e f = tt
    Answers-phase s routed e f = tt
    Answers-phase s closed e f = tt

    -- In every order of the polls of a daemon, the statements of ServeClient and the requests
    -- between the polls, the requests change no poll: the polls have come as far as some number of
    -- rounds of the daemon alone. Each answer is the page of the client after some number of
    -- rounds, and while the server listens a request does not panic but gets the page of the client
    -- of the last poll.
    pub Reach-rounds :
        {s : Serving R W Files}
        → Reach beginning s
        → (n : ℕ) × (rounds n d₀ ≡ returned s.polls)
          × All Shown s.answers
          × Answers s.server.phase s
    Reach-rounds {s} r =
        let f = Reach-Follows r in
        (f.count, f.after, f.shown, Answers-phase s s.server.phase refl f)
