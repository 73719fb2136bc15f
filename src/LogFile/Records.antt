-- ===== src/LogFile/Records.antt =====
-- The slice that `GetRecords` builds: the loop stores the address of its one variable each time.
use nsg_parser.Prelude.{
  ℕ, zero, suc, ◌≡◌, refl, sym, none, some, List, [], ◌∷◌, ◌++◌, append-nil, append_assoc, length,
  get_elem?, set, replicate, last_or, arith,
}
use nsg_parser.LogFile.{EventLog, get_records, range_loop, deref}

module _ {R : Type 0} where
  range_loop-pointers :
      (p : ℕ) (rs cells : List R) (ptrs : List ℕ)
      → (range_loop p rs cells ptrs).1 ≡ ptrs ++ replicate (length rs) p
  unfolding range_loop
  range_loop-pointers p [] cells ptrs = sym (append-nil ptrs)
  range_loop-pointers p (r ∷ rs) cells ptrs =
      rw (range_loop-pointers p rs (set cells p r) (ptrs ++ p ∷ [])) (append_assoc ptrs (p ∷ []) _)

  get_elem?-set_self :
      (xs : List R) (i : ℕ) (v w : R) → get_elem? xs i ≡ some w → get_elem? (set xs i v) i ≡ some v
  get_elem?-set_self [] i v w h = cc
  get_elem?-set_self (x ∷ xs) zero v w h = refl
  get_elem?-set_self (x ∷ xs) (suc i) v w h = get_elem?-set_self xs i v w h

  range_loop-cell :
      (p : ℕ) (rs cells : List R) (ptrs : List ℕ) (x : R)
      → get_elem? cells p ≡ some x
      → get_elem? (range_loop p rs cells ptrs).0 p ≡ some (last_or x rs)
  unfolding range_loop
  range_loop-cell p [] cells ptrs x h = h
  range_loop-cell p (r ∷ rs) cells ptrs x h =
      range_loop-cell p rs (set cells p r) (ptrs ++ p ∷ []) r (get_elem?-set_self cells p r x h)

  get_elem?-concat : (xs : List R) (x : R) → get_elem? (xs ++ x ∷ []) (length xs) ≡ some x
  get_elem?-concat [] x = refl
  get_elem?-concat (y ∷ xs) x = get_elem?-concat xs x

  -- For a fresh event log with records, GetRecords returns as many pointers as there are records,
  -- and each of them points to the one cell that holds the last record.
  pub get_records_last :
      (log : EventLog R) (r : R) (rs : List R)
      → log.azure_event_records ≡ none
      → log.records ≡ r ∷ rs
      → ((get_records log).1 ≡ replicate (length log.records) (length log.cells))
        × (deref (get_records log).0 (length log.cells) ≡ some (last_or r rs))
  unfolding get_records
  get_records_last log r rs fresh e =
      rw (fresh, e)
        (
          range_loop-pointers (length log.cells) (r ∷ rs) (log.cells ++ r ∷ []) [],
          range_loop-cell (length log.cells) (r ∷ rs) (log.cells ++ r ∷ []) [] r
              (get_elem?-concat log.cells r),
        )

  -- A second call of GetRecords returns the slice of the first, and changes nothing.
  pub get_records-get_records :
      (log : EventLog R) → get_records (get_records log).0 ≡ get_records log
  unfolding get_records
  get_records-get_records log = ground arith
