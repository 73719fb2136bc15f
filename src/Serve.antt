-- ===== src/Serve.antt =====
-- parser/serve.go: the page that shows the status of the registered jobs.
pub mod Page
pub mod Schedule
pub mod Messages
use nsg_parser.Prelude.Int.{ℤ}
use nsg_parser.Outcome.{Outcome, ◌>>=◌, returned, panicked}
use nsg_parser.Dict.{Dict}
use nsg_parser.Azure.{AzureClient}
use nsg_parser.Job.{Job}
use nsg_parser.Prelude.{ℕ, ◌⊎◌, inl, inr, Option, none, some, List, [], ◌∷◌, ◌++◌, Text, codes}
use nsg_parser.Azure

-- The strings are the values of the runtime and of the build.
pub record Build : Type 0 where
  pub go_version : Text
  pub version : Text
  pub build_date : Text
  pub build_user : Text
  pub revision : Text

pub record NsgParserStatus (R : Type 0) : Type 0 where
  pub build : Build
  pub jobs : Option (Dict (Job R))
  pub processed_flow_count : ℤ

-- What goes to the `http.ResponseWriter`. `http.Error` sets its own type of content.
pub record Response : Type 0 where
  pub status_code : ℕ
  pub content_type : Text
  pub body : List ℕ

abbrev pub status_ok : ℕ
status_ok = 200

abbrev pub internal_server_error : ℕ
internal_server_error = 500

-- The text of a marshalling error comes from outside, as do the bytes.
abbrev pub respond : List ℕ ⊎ List ℕ → Response
respond (inl error) = record {
  status_code = internal_server_error;
  content_type = codes "text/plain; charset=utf-8";
  body = error ++ b'\n' ∷ [];
}
respond (inr js) = record {
  status_code = status_ok;
  content_type = codes "application/json";
  body = js;
}

module _ {R : Type 0} where
  -- `loadStatus`; `httpStatusClient` is nil until `ServeClient` has run, and its error is always nil.
  unfoldable pub load_status : Build → Option (AzureClient R) → ℤ → Outcome (NsgParserStatus R)
  load_status build none count = panicked
  load_status build (some client) count =
      returned
        (record { build = build; jobs = client.registered_jobs; processed_flow_count = count })

  unfoldable pub get_process_status :
      (NsgParserStatus R → List ℕ ⊎ List ℕ) → Build → Option (AzureClient R) → ℤ → Outcome Response
  get_process_status marshal build client count = do
    status ← load_status build client count
    returned (respond (marshal status))
