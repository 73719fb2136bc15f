-- ===== src/LogFile/Ranges.antt =====
-- What loading a part of a blob leaves of a log file, and the range that comes next.
use nsg_parser.FileName.{Error}
use nsg_parser.Outcome.{returned, returned-injective}
use nsg_parser.LogFile.{
  BlobRange, LogFile, Source, load_azure_nsg_event_records, load_payload, load_blob_range,
  uint64_of, get_unprocessed_blob_range, from_index, load_answer,
}
use nsg_parser.Prelude.{◌≡◌, refl, subst, Option, none, some, Text, ℕ, ap, List, arith, codes}

-- The fields that a load does not touch, the event log aside.
pub record SameFile {R : Type 0} (f g : LogFile R) : Type 0 where
  pub name_same : g.name ≡ f.name
  pub modified_same : g.last_modified ≡ f.last_modified
  pub log_time_same : g.log_time ≡ f.log_time
  pub blob_same : g.blob ≡ f.blob
  pub range_same : g.last_processed_range ≡ f.last_processed_range
  pub record_same : g.last_processed_record ≡ f.last_processed_record

module _ {R : Type 0} (source : Source R) where
  load_payload-SameFile :
      (f : LogFile R) (payload : Option Text) → SameFile f (load_payload source f payload).0
  unfolding load_azure_nsg_event_records
  load_payload-SameFile f none = record {
    name_same = refl;
    modified_same = refl;
    log_time_same = refl;
    blob_same = refl;
    range_same = refl;
    record_same = refl;
  }
  load_payload-SameFile f (some bytes) = record {
    name_same = refl;
    modified_same = refl;
    log_time_same = refl;
    blob_same = refl;
    range_same = refl;
    record_same = refl;
  }

  load_answer-SameFile :
      (f g : LogFile R) (answer : Option (List ℕ)) (err : Option Error)
      → load_answer source f answer ≡ returned (g, err)
      → SameFile f g
  load_answer-SameFile f g none err h = cc
  load_answer-SameFile f g (some bytes) err h =
      subst (SameFile f) (ap (λ x. x.0) (returned-injective _ _ h))
        (load_payload-SameFile f (from_index (codes "\"time\"") bytes))

  -- A load that returns, with an error or without one, leaves the log file's name, its blob, its
  -- time of modification, its log time, its last range and its last record.
  pub load_blob_range-SameFile :
      (f g : LogFile R) (span : BlobRange) (err : Option Error)
      → load_blob_range source f span ≡ returned (g, err)
      → SameFile f g
  unfolding load_blob_range
  load_blob_range-SameFile f g span err h =
      load_answer-SameFile f g (source.get_range f.blob span) err h

-- The next range starts where the last one stopped, and stops where the blob ends now; where the
-- last one stopped at 0, it is the whole blob.
pub get_unprocessed_blob_range-start :
    {R : Type 0} (f : LogFile R)
    → get_unprocessed_blob_range f
      ≡ record { start = f.last_processed_range.stop; stop = uint64_of f.blob.content_length }
unfolding get_unprocessed_blob_range
get_unprocessed_blob_range-start f = ground arith
