-- ===== src/Client/Collect.antt =====
-- What the loop over `GetRecords()` collects.
use nsg_parser.Nsg.Flow.{nothing}
use nsg_parser.LogFile.Records.{get_records_last}
use nsg_parser.Outcome.{returned, returned-injective}
use nsg_parser.Time.{after}
use nsg_parser.LogFile.{EventRecord, EventLog, get_records, deref}
use nsg_parser.Cef.{CefEvent, GetCefEventListOptions}
use nsg_parser.Prelude.{
  ℕ, zero, suc, ◌≡◌, refl, sym, ap, ◌∙◌, false, none, some, List, [], ◌∷◌, ◌++◌, append-nil,
  append_assoc, length, get_elem?, set, replicate, last_or, subst,
}
use nsg_parser.Client.{collect, last_record}

abbrev pub copies {ℓ} : {A : Type ℓ} → ℕ → List A → List A
copies zero xs = []
copies (suc n) xs = xs ++ copies n xs

-- The events of one record.
abbrev pub events_of : {R : Type 0} ⦃e : EventRecord R⦄ → R → GetCefEventListOptions → List CefEvent
events_of ⦃e⦄ r o = (e.cef_list_total r o).0.events

get_elem?-set :
    {R : Type 0} (xs : List R) (i : ℕ) (v w : R)
    → get_elem? xs i ≡ some w
    → get_elem? (set xs i v) i ≡ some v
get_elem?-set [] i v w h = cc
get_elem?-set (x ∷ xs) zero v w h = refl
get_elem?-set (x ∷ xs) (suc i) v w h = get_elem?-set xs i v w h

module _ {R : Type 0} ⦃e : EventRecord R⦄ (o : GetCefEventListOptions) (r : R) where
  -- The record converts as `r` does, and has its time.
  abbrev Like : R → Type 0
  Like s = (e.cef_list s o ≡ e.cef_list r o) × (e.get_time s ≡ e.get_time r)

  Like-ready : (s : R) → Like s → Like (e.ready s)
  Like-ready s (h, k) = (e.cef_list-ready s o ∙ h, e.time_ready s ∙ k)

  events-Like : (s : R) → Like s → (e.cef_list_total s o).0.events ≡ events_of r o
  events-Like s (h, k) =
      let x = e.cef_list_total s o in
      let y = e.cef_list_total r o in
      ap (λ c. c.1.events)
        (returned-injective (e.ready s, x.0) (e.ready r, y.0) (sym x.1 ∙ h ∙ y.1))

  collect_step :
      (p : ℕ) (ps : List ℕ) (log : EventLog R) (events : List CefEvent) (s : R)
      → deref log p ≡ some s
      → Like s
      → collect o log (p ∷ ps) events
        ≡ collect o
            (record log { cells = set log.cells p (e.ready s) })
            ps
            (events ++ events_of r o)
  unfolding collect
  collect_step p ps log events s h l =
      rw (h, collect) (rw ((e.cef_list_total s o).1, events-Like s l))

  -- A loop over pointers to one cell converts its record at each of them.
  collect-replicate :
      (n p : ℕ) (log : EventLog R) (events : List CefEvent) (s : R)
      → deref log p ≡ some s
      → Like s
      → (out : EventLog R) × (s' : R) × (collect o log (replicate n p) events
          ≡ returned (out, events ++ copies n (events_of r o)))
        × (deref out p ≡ some s')
        × Like s'
  unfolding collect
  collect-replicate zero p log events s h l = (log, s, rw append-nil, h, l)
  collect-replicate (suc n) p log events s h l =
      let (out, s', q, d, l') =
        collect-replicate n p (record log { cells = set log.cells p (e.ready s) })
          (events ++ events_of r o) (e.ready s) (get_elem?-set log.cells p (e.ready s) s h)
          (Like-ready s l) in
      (
        out,
        s',
        collect_step p (replicate n p) log events s h l
            ∙ q
            ∙ ap (λ z. returned (out, z)) (append_assoc events _ _),
        d,
        l',
      )

last_or-replicate : {A : Type 0} (n : ℕ) (a : A) → last_or a (replicate n a) ≡ a
last_or-replicate zero a = refl
last_or-replicate (suc n) a = last_or-replicate n a

last_record-replicate :
    {R : Type 0} (log : EventLog R) (n p : ℕ) (s : R)
    → deref log p ≡ some s
    → last_record log (replicate (suc n) p) ≡ some s
last_record-replicate log n p s h = rw (last_or-replicate n p) h

-- For a fresh event log with records, the loop collects the events of the last record, once for
-- each record, and the last pointer reaches a record with the last record's time.
pub collect_last :
    {R : Type 0} ⦃e : EventRecord R⦄ (o : GetCefEventListOptions) (log : EventLog R) (r : R)
    (rs : List R)
    → log.azure_event_records ≡ none
    → log.records ≡ r ∷ rs
    → (out : EventLog R) × (s : R) × (collect o (get_records log).0 (get_records log).1 []
        ≡ returned (out, copies (length log.records) (events_of (last_or r rs) o)))
      × (last_record out (get_records log).1 ≡ some s)
      × (e.get_time s ≡ e.get_time (last_or r rs))
collect_last {R} ⦃e⦄ o log r rs fresh h =
    let (ptrs, cell) = get_records_last log r rs fresh h in
    let (out, s, q, d, l) =
      collect-replicate o (last_or r rs) (length log.records) (length log.cells) (get_records log).0
        [] (last_or r rs) cell (refl, refl) in
    (
      out,
      s,
      rw ptrs q,
      subst (λ ps. last_record out ps ≡ some s)
          (sym (ptrs ∙ ap (λ l. replicate (length l) (length log.cells)) h))
          (last_record-replicate out (length rs) (length log.cells) s d),
      l.1,
    )

-- The events of a record that is not later than the start time.
pub events_of_early :
    {R : Type 0} ⦃e : EventRecord R⦄ (r : R) (o : GetCefEventListOptions)
    → after (e.get_time r) o.start_time ≡ false
    → events_of r o ≡ []
events_of_early {R} ⦃e⦄ r o h =
    let x = e.cef_list_total r o in
    ap (λ c. c.1.events)
      (returned-injective (e.ready r, x.0) (e.ready r, nothing) (sym x.1 ∙ e.cef_list_early r o h))

pub copies-nil {ℓ} : {A : Type ℓ} (n : ℕ) → copies {A = A} n [] ≡ []
copies-nil zero = refl
copies-nil (suc n) = copies-nil n
