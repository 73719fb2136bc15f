-- ===== src/LogFile/Kinds.antt =====
-- `CrreateAzureLogFile` of parser/job.go, and the constructors of the log files of application
-- gateways (parser/appgw_access_log_file.go, parser/appgw_firewall_log_file.go). The log files
-- themselves are those of LogFile, for other records.
use nsg_parser.Prelude.Int.{pos}
use nsg_parser.FileName.{
  Error, logged_resource_file_regexp, name_tokens, get_logged_resource_name, log_time_of,
  get_log_time_from_name, bad_date,
}
use nsg_parser.Time.{Time, zero_time}
use nsg_parser.LogFile.{
  Blob, LogFile, whole_range, get_unprocessed_blob_range, new_azure_nsg_log_file,
}
use nsg_parser.Regex.{Regex, find_submatch}
use nsg_parser.Prelude.{
  ◌≡◌, refl, sym, ap, ◌∙◌, subst, inl, inr, Option, none, some, if◌then◌else◌, Bool-cases, Text,
  codes, text_eq,
}

-- The type of log file behind the interface.
pub data LogFileKind : Type 0 where
  nsg_log app_gw_access_log app_gw_firewall_log : LogFileKind

-- The two patterns are written again in the source, with the same text.
abbrev pub app_gw_file_regexp : Regex
app_gw_file_regexp = logged_resource_file_regexp

abbrev pub app_gw_firewall_file_regexp : Regex
app_gw_firewall_file_regexp = logged_resource_file_regexp

unfoldable pub get_app_gw_log_time_from_name : Text → Time × Option Error
get_app_gw_log_time_from_name name = log_time_of (find_submatch app_gw_file_regexp name)

unfoldable pub get_app_gw_firewall_log_time_from_name : Text → Time × Option Error
get_app_gw_firewall_log_time_from_name name =
    log_time_of (find_submatch app_gw_firewall_file_regexp name)

module _ {R : Type 0} where
  -- What the constructors share: the error of the log time is overwritten by that of the name.
  abbrev pub blank_log_file : Blob → Time → Text → LogFile R
  blank_log_file blob log_time resource = record {
    name = blob.name;
    etag = blob.etag;
    last_modified = blob.last_modified;
    last_processed = zero_time;
    last_processed_record = zero_time;
    last_processed_time_stamp = pos 0;
    last_record_count = 0;
    last_processed_range = record { start = 0; stop = 0 };
    log_time = log_time;
    blob = blob;
    event_log = none;
    nsg_name = resource;
  }

  unfoldable pub new_azure_app_gw_log_file : Blob → LogFile R × Option Error
  new_azure_app_gw_log_file blob =
      let log_time = get_app_gw_log_time_from_name blob.name in
      let resource = get_logged_resource_name blob.name in
      (blank_log_file blob log_time.0 resource.0, resource.1)

  unfoldable pub new_azure_app_gw_firewall_log_file : Blob → LogFile R × Option Error
  new_azure_app_gw_firewall_log_file blob =
      let log_time = get_app_gw_firewall_log_time_from_name blob.name in
      let resource = get_logged_resource_name blob.name in
      (blank_log_file blob log_time.0 resource.0, resource.1)

  unfoldable pub crreate_azure_log_file : Blob → LogFileKind × (LogFile R × Option Error)
  crreate_azure_log_file blob =
      if text_eq blob.container_name (codes "insights-logs-applicationgatewayaccesslog")
      then (app_gw_access_log, new_azure_app_gw_log_file blob)
      else if text_eq blob.container_name (codes "insights-logs-applicationgatewayfirewalllog")
      then (app_gw_firewall_log, new_azure_app_gw_firewall_log_file blob)
      else (nsg_log, new_azure_nsg_log_file blob)

module _ (R : Type 0) where
  -- Whatever container a blob is of, its log file is that of its name and times.
  pub same_file :
      (blob : Blob)
      → (crreate_azure_log_file {R = R} blob).1 ≡ (
        blank_log_file blob
            (get_log_time_from_name blob.name).0
            (get_logged_resource_name blob.name).0,
        (get_logged_resource_name blob.name).1,
      )
  unfolding crreate_azure_log_file new_azure_nsg_log_file new_azure_app_gw_log_file
      new_azure_app_gw_firewall_log_file get_app_gw_log_time_from_name
      get_app_gw_firewall_log_time_from_name get_log_time_from_name name_tokens
  same_file blob =
      elim (Bool-cases
        (text_eq blob.container_name (codes "insights-logs-applicationgatewayaccesslog"))) [
          | inl e ↦ rw e refl
          | inr e ↦
              elim (Bool-cases (
                text_eq blob.container_name
                  (codes "insights-logs-applicationgatewayfirewalllog"))) [
                    | inl f ↦ rw (e, f) refl
                    | inr f ↦ rw (e, f) refl
                  ]
        ]

  -- Of whichever container a blob is, its log file has the blob's name and time of modification,
  -- counts no record, and is read from the blob's start to its end.
  pub crreate_azure_log_file_whole :
      (blob : Blob)
      → ((crreate_azure_log_file {R = R} blob).1.0.name ≡ blob.name)
        × ((crreate_azure_log_file {R = R} blob).1.0.last_modified ≡ blob.last_modified)
        × ((crreate_azure_log_file {R = R} blob).1.0.last_record_count ≡ 0)
        × (get_unprocessed_blob_range (crreate_azure_log_file {R = R} blob).1.0
            ≡ whole_range blob.content_length)
  unfolding get_unprocessed_blob_range
  crreate_azure_log_file_whole blob =
      subst
        (λ x.
          (x.0.name ≡ blob.name)
          × (x.0.last_modified ≡ blob.last_modified)
          × (x.0.last_record_count ≡ 0)
          × (get_unprocessed_blob_range x.0 ≡ whole_range blob.content_length))
        (sym (same_file blob)) (refl, refl, refl, refl)

  -- A blob whose name has the right form but an impossible date is made into a log file without an
  -- error, whose log time is the zero time.
  pub crreate_azure_log_file_bad_date :
      (blob : Blob)
      → (get_logged_resource_name blob.name).1 ≡ none
      → get_log_time_from_name blob.name ≡ (zero_time, some bad_date)
      → ((crreate_azure_log_file {R = R} blob).1.1 ≡ none)
        × ((crreate_azure_log_file {R = R} blob).1.0.log_time ≡ zero_time)
  crreate_azure_log_file_bad_date blob n d = (
    ap (λ x. x.1) (same_file blob) ∙ n,
    ap (λ x. x.0.log_time) (same_file blob) ∙ ap (λ x. x.0) d,
  )
