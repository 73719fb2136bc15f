-- ===== src/Client/Loads.antt =====
-- When a blob is loaded: the premise that the clients' theorems share.
use nsg_parser.Outcome.{returned}
use nsg_parser.LogFile.{EventLog, LogFile, get_unprocessed_blob_range, Source, load_blob_range}
use nsg_parser.Prelude.{◌≡◌, none, some, List, ◌∷◌}

-- The payload of the range is loaded into a fresh event log with the records `r ∷ rs`.
pub record Loads {R : Type 0} (source : Source R) (f : LogFile R) (r : R) (rs : List R)
    (g : LogFile R) (log : EventLog R) : Type 0 where
  pub loaded : load_blob_range source f (get_unprocessed_blob_range f) ≡ returned (g, none)
  pub has_log : g.event_log ≡ some log
  pub fresh : log.azure_event_records ≡ none
  pub records_are : log.records ≡ r ∷ rs
