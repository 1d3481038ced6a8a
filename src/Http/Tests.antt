-- ===== src/Http/Tests.antt =====
-- Concrete retrievals (src/mx_bank_monitor/ingestion/http.py).
use mexican_banking_monitor.Base.{
  ℕ, suc, ◌≡◌, refl, false, Option, none, some, List, [], ◌∷◌, Text, codes, text_eq, contains, ok,
  err, if◌then◌else◌,
}
use mexican_banking_monitor.Base.Int.{pos}
use mexican_banking_monitor.Base.Regex.{fullmatch}
use mexican_banking_monitor.Discovery.Errors.{Checked, url_unofficial, too_large}
use mexican_banking_monitor.Discovery.Summary.{
  is_control_character, is_space, strip, lstrip, rstrip, is_blank,
}
use mexican_banking_monitor.Discovery.Records.{Datetime, require_aware, check_http_observation}
use mexican_banking_monitor.Http.Headers.{
  discovery, Headers, contains_control_character, safe_observational_header, is_digits,
  int_of_digits, parse_content_length, optional_content_length, required_content_length,
  optional_content_encoding, identity_encoding_accepted,
}
use mexican_banking_monitor.Http.Network.{Network, Response, responded, finished}
use mexican_banking_monitor.Http.Body.{read_body}
use mexican_banking_monitor.Http.Bounded.{is_exhausted}
use mexican_banking_monitor.Http.Client.{
  DownloadedArtifact, is_redirect, is_retried, redirect_location, status_error, observation_of, now,
  observation, redirect_target, received, artifact_from_response, after_send, exchange, follow,
  retrieve,
}
use mexican_banking_monitor.Http.Retrieval.{retrieve-err}
use mexican_banking_monitor.Http.Contacted.{IsAuthorized, retrieve-IsAuthorized}

abbrev page : Text
page = codes "https://cnbv.gob.mx/a.zip"

abbrev moved : Text
moved = codes "https://cnbv.gob.mx/b.zip"

abbrev moved_headers : Headers
moved_headers name = if text_eq name (codes "location") then some moved else none

abbrev body_headers : Headers
body_headers name = if text_eq name (codes "content-length") then some (codes "3") else none

abbrev answer : Text → Response
answer url =
    if text_eq url page
    then record { status_code = 302; headers = moved_headers; chunks = []; ending = finished }
    else record {
      status_code = 200;
      headers = body_headers;
      chunks = (80 ∷ 75 ∷ []) ∷ (3 ∷ []) ∷ [];
      ending = finished;
    }

abbrev instant : Datetime
instant = record { instant = 7; utcoffset = some (pos 0) }

-- The state is the log of the requests.
abbrev site : Network
site = record {
  State = List Text;
  send = λ url log. (responded (answer url), url ∷ log);
  sleep = λ delay log. log;
  clock = λ log. (instant, log);
}

abbrev authority : Text → Checked Unit
authority url = if contains url (page ∷ moved ∷ []) then ok tt else err url_unofficial

-- Every location here is absolute.
abbrev join : Text → Text → Option Text
join base location = some location

abbrev same : Text → Text
same text = text

abbrev downloaded : DownloadedArtifact
downloaded = record {
  url = moved;
  content = 80 ∷ 75 ∷ 3 ∷ [];
  content_type = [];
  observation = record {
    requested_url = page;
    final_url = moved;
    redirect_chain = moved ∷ [];
    status_code = 200;
    content_type = none;
    content_length = some 3;
    content_encoding = none;
    etag = none;
    last_modified = none;
    content_disposition = none;
    observed_at = instant;
  };
}

-- A network that counts the looks at its clock; its answers do not declare their length.
abbrev undeclared : Network
undeclared = record {
  State = ℕ;
  send = λ url looks. (
    responded (record {
      status_code = 200;
      headers = λ name. none;
      chunks = (80 ∷ 75 ∷ []) ∷ (3 ∷ []) ∷ [];
      ending = finished;
    }),
    looks,
  );
  sleep = λ delay looks. looks;
  clock = λ looks. (instant, suc looks);
}

-- A body over the limit is refused, and its response observed a second time.
refused_body :
    retrieve undeclared authority join same page 3 (some 2) 0 ≡ (err (discovery too_large), 2)
unfolding retrieve follow exchange after_send is_retried is_redirect redirect_target
    artifact_from_response observation now observation_of redirect_location status_error received
    read_body identity_encoding_accepted optional_content_encoding required_content_length
    optional_content_length parse_content_length int_of_digits is_digits safe_observational_header
    contains_control_character check_http_observation require_aware is_blank strip lstrip rstrip
    is_space is_control_character fullmatch text_eq contains
refused_body = refl

-- A target that is not authorized is not contacted.
refused :
    (retrieve site authority join same (codes "https://example.com/") 3 none []).0
    ≡ err (discovery url_unofficial)
unfolding retrieve text_eq contains
refused = refl

retrieve-err_example : is_exhausted (discovery url_unofficial) ≡ false
retrieve-err_example =
    retrieve-err site authority join same (codes "https://example.com/") 3 none []
      (discovery url_unofficial) refused

retrieve-IsAuthorized_example :
    IsAuthorized site authority join same
      (λ log. log)
      (λ url s. refl)
      (λ delay s. refl)
      (λ s. refl)
      (retrieve site authority join same page 3 (some 10) []).1
retrieve-IsAuthorized_example =
    retrieve-IsAuthorized site authority join same (λ log. log) (λ url s. refl) (λ delay s. refl)
      (λ s. refl) page 3 (some 10) [] tt
