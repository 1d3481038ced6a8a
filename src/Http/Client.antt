-- ===== src/Http/Client.antt =====
-- `HttpArtifactClient.retrieve` (src/mx_bank_monitor/ingestion/http.py) over a network. `urljoin`, the
-- authority's `authorize` and `str.casefold` are parameters. The closing of responses, and what an
-- error carries beside its class, are left out.
use mexican_banking_monitor.Base.{
  ℕ, zero, suc, ◌-◌, ◌^◌, Bool, true, false, not, ◌&&◌, ◌||◌, Option, none, some, List, [], ◌∷◌,
  ◌++◌, Text, codes, contains, length, Result, ok, err, require, if◌then◌else◌, ltb, between, ◌==◌,
}
use mexican_banking_monitor.Base.Effects.{Action, ◌>>=◌, ◌>>◌, lift}
use mexican_banking_monitor.Discovery.Errors.{
  ErrorKind, Checked, tls_untrusted, http_status, not_found, redirect_invalid,
  content_encoding_unsupported, too_large, length_mismatch,
}
use mexican_banking_monitor.Discovery.Summary.{is_space, strip, is_blank}
use mexican_banking_monitor.Discovery.Records.{Datetime, HttpObservation, check_http_observation}
use mexican_banking_monitor.Http.Headers.{
  HttpError, discovery, value_error, exhausted, contains_control_character,
  safe_observational_header, etag_max_length, last_modified_max_length, optional_content_length,
  required_content_length, optional_content_encoding, identity_encoding_accepted,
}
use mexican_banking_monitor.Http.Body.{
  Body, complete, over_limit, failed, read_body, declared_within, is_declared,
}
use mexican_banking_monitor.Http.Network.{
  Network, Response, Sent, responded, decoding_failed, protocol_failed, request_failed,
}

pub record DownloadedArtifact : Type 0 where
  pub url : Text
  pub content : List ℕ
  pub content_type : Text
  pub observation : HttpObservation

-- What an exchange returns: the artifact, or the next target.
pub data Outcome : Type 0 where
  artifact : DownloadedArtifact → Outcome
  target : Text → Outcome

-- The arguments of `_exchange` that stay the same over its attempts.
pub record Hop : Type 0 where
  pub requested_url : Text
  pub current : Text
  pub redirect_chain : List Text
  pub visited : List Text
  pub max_redirects : ℕ
  pub max_bytes : Option ℕ

abbrev pub max_attempts : ℕ
max_attempts = 3

unfoldable pub retry_backoff_seconds : ℕ → ℕ
retry_backoff_seconds failed_attempt =
    let delay = 2 ^ (failed_attempt - 1) in
    let least = if ltb delay 1 then 1 else delay in if ltb 8 least then 8 else least

-- status in _REDIRECT_STATUSES
unfoldable pub is_redirect : ℕ → Bool
is_redirect status = (between 301 303 status) || ((status == 307) || (status == 308))

unfoldable pub is_retried : ℕ → Bool
is_retried status = (status == 429) || between 500 599 status

abbrev pub checked : {A : Type 0} → Checked A → Result HttpError A
checked (ok a) = ok a
checked (err kind) = err (discovery kind)

abbrev pub or_empty : Option Text → Text
or_empty none = []
or_empty (some value) = value

-- Whether a text starts with another, and whether it holds one.
abbrev starts_with : Text → Text → Bool
starts_with [] value = true
starts_with (p ∷ part) [] = false
starts_with (p ∷ part) (c ∷ value) = (p == c) && starts_with part value

abbrev holds : Text → Text → Bool
holds part [] = starts_with part []
holds part (c ∷ value) = starts_with part (c ∷ value) || holds part value

-- Whether `_redirect_protocol_summary` gives a summary.
unfoldable pub is_redirect_protocol : (Text → Text) → Text → Bool
is_redirect_protocol casefold message = holds (codes "location header") (casefold message)

abbrev pub any_space : Text → Bool
any_space [] = false
any_space (c ∷ value) = is_space c || any_space value

unfoldable pub redirect_location : Option Text → Result HttpError Text
unfolding contains_control_character is_blank strip is_space
redirect_location none = err (discovery redirect_invalid)
redirect_location (some raw_location) =
    if contains_control_character raw_location || is_blank raw_location
    then err (discovery redirect_invalid)
    else if any_space (strip raw_location)
    then err (discovery redirect_invalid)
    else ok (strip raw_location)

-- `urljoin` raises a `ValueError` for what is no URL.
abbrev pub joined_url : Option Text → Result HttpError Text
joined_url none = err value_error
joined_url (some url) = ok url

unfoldable pub status_error : ℕ → HttpError
status_error status = if status == 404 then discovery not_found else discovery http_status

unfoldable pub observation_of : Response → Hop → Option ℕ → Datetime → HttpObservation
unfolding safe_observational_header optional_content_encoding
observation_of response hop content_length now = record {
  requested_url = hop.requested_url;
  final_url = hop.current;
  redirect_chain = hop.redirect_chain;
  status_code = response.status_code;
  content_type = safe_observational_header (response.headers (codes "content-type")) none;
  content_length = content_length;
  content_encoding = optional_content_encoding (response.headers (codes "content-encoding"));
  etag = safe_observational_header (response.headers (codes "etag")) (some etag_max_length);
  last_modified =
      safe_observational_header (response.headers (codes "last-modified"))
        (some last_modified_max_length);
  content_disposition =
      safe_observational_header (response.headers (codes "content-disposition")) none;
  observed_at = now;
}

module _ (network : Network) (authorize : Text → Checked Unit) (urljoin : Text → Text → Option Text)
    (casefold : Text → Text) where
  abbrev pub Exchange : Type 0 → Type 0
  Exchange A = Action HttpError network.State A

  unfoldable pub now : Exchange Datetime
  now s = (ok (network.clock s).0, (network.clock s).1)

  unfoldable pub observation : Response → Hop → Exchange HttpObservation
  unfolding now observation_of
  observation response hop = do
    content_length ← lift (optional_content_length (response.headers (codes "content-length")))
    observed_at ← now
    lift (checked (check_http_observation (observation_of response hop content_length observed_at)))
    lift (ok (observation_of response hop content_length observed_at))

  unfoldable pub redirect_target : Response → Hop → Exchange Outcome
  unfolding observation redirect_location
  redirect_target response hop = do
    observed ← observation response hop
    location ← lift (redirect_location (response.headers (codes "location")))
    url ← lift (joined_url (urljoin hop.current location))
    lift (checked (authorize url))
    lift (require (not (contains url hop.visited)) (discovery redirect_invalid))
    lift (require (ltb (length hop.redirect_chain) hop.max_redirects) (discovery redirect_invalid))
    lift (ok (target url))

  -- Where there are more bytes than the limit, the response is observed once more.
  unfoldable pub received : Response → Hop → Body → Exchange (List ℕ)
  unfolding observation
  received response hop (complete content) s = (ok content, s)
  received response hop over_limit s =
      (observation response hop >>= λ observed. lift (err (discovery too_large))) s
  received response hop (failed e) s = (err e, s)

  unfoldable pub artifact_from_response : Response → Hop → Exchange Outcome
  unfolding observation received status_error identity_encoding_accepted read_body
  artifact_from_response response hop = do
    observed ← observation response hop
    lift (require (response.status_code == 200) (status_error response.status_code))
    lift (
        require (identity_encoding_accepted casefold (response.headers (codes "content-encoding")))
          (discovery content_encoding_unsupported))
    declared ← lift (required_content_length (response.headers (codes "content-length")))
    lift (require (declared_within declared hop.max_bytes) (discovery too_large))
    content ← received response hop (read_body hop.max_bytes 0 response.chunks response.ending)
    lift (require (is_declared declared content) (discovery length_mismatch))
    lift (
        ok (
          artifact (record {
            url = hop.current;
            content = content;
            content_type =
                or_empty (safe_observational_header (response.headers (codes "content-type")) none);
            observation = observed;
          })))

  -- Behind a failed attempt, with the number of attempts that are left.
  unfoldable pub retry : ℕ → ℕ → Exchange Outcome → Exchange Outcome → Exchange Outcome
  unfolding retry_backoff_seconds
  retry zero attempt last next s = last s
  retry (suc left) attempt last next s = next (network.sleep (retry_backoff_seconds attempt) s)

  abbrev pub transport_error : Exchange Outcome
  transport_error = lift (err (discovery ErrorKind.transport_failed))

  -- The last answer is observed, and its status is raised.
  unfoldable pub raise_status : Response → Hop → Exchange Outcome
  unfolding observation status_error
  raise_status response hop =
      observation response hop >>= λ observed. lift (err (status_error response.status_code))

  unfoldable pub after_send : Hop → ℕ → ℕ → Exchange Outcome → Sent → Exchange Outcome
  unfolding retry raise_status redirect_target artifact_from_response is_retried is_redirect
      is_redirect_protocol
  after_send hop left attempt next decoding_failed s =
      (err (discovery content_encoding_unsupported), s)
  after_send hop left attempt next (protocol_failed message) s =
      if is_redirect_protocol casefold message
      then (err (discovery redirect_invalid), s)
      else retry left attempt transport_error next s
  after_send hop left attempt next (Sent.transport_failed untrusted) s =
      if untrusted
      then (err (discovery tls_untrusted), s)
      else retry left attempt transport_error next s
  after_send hop left attempt next request_failed s = transport_error s
  after_send hop left attempt next (responded response) s =
      if is_retried response.status_code
      then retry left attempt (raise_status response hop) next s
      else if is_redirect response.status_code
      then redirect_target response hop s
      else artifact_from_response response hop s

  -- `_exchange` from an attempt on, with the number of attempts that are left, this one included.
  unfoldable pub exchange : ℕ → ℕ → Hop → Exchange Outcome
  unfolding after_send
  exchange zero attempt hop s = (err exhausted, s)
  exchange (suc left) attempt hop s =
      after_send hop left attempt (exchange left (suc attempt) hop) (network.send hop.current s).0
        (network.send hop.current s).1

  -- The next round's arguments.
  abbrev pub next_hop : Hop → Text → Hop
  next_hop hop outcome = record {
    requested_url = hop.requested_url;
    current = outcome;
    redirect_chain = hop.redirect_chain ++ outcome ∷ [];
    visited = outcome ∷ hop.visited;
    max_redirects = hop.max_redirects;
    max_bytes = hop.max_bytes;
  }

  abbrev pub after_exchange :
      (Hop → Exchange DownloadedArtifact)
      → Hop
      → Result HttpError Outcome × network.State
      → Result HttpError DownloadedArtifact × network.State
  after_exchange next hop (ok (artifact found), s) = (ok found, s)
  after_exchange next hop (ok (target url), s) = next (next_hop hop url) s
  after_exchange next hop (err e, s) = (err e, s)

  -- The loop of `retrieve`, on fuel.
  unfoldable pub follow : ℕ → Hop → Exchange DownloadedArtifact
  unfolding exchange
  follow zero hop s = (err exhausted, s)
  follow (suc fuel) hop s = after_exchange (follow fuel) hop (exchange max_attempts 1 hop s)

  abbrev pub first_hop : Text → ℕ → Option ℕ → Hop
  first_hop url max_redirects max_bytes = record {
    requested_url = url;
    current = url;
    redirect_chain = [];
    visited = url ∷ [];
    max_redirects = max_redirects;
    max_bytes = max_bytes;
  }

  -- `retrieve`, with the limit that applies.
  unfoldable pub retrieve : Text → ℕ → Option ℕ → Exchange DownloadedArtifact
  unfolding follow
  retrieve url max_redirects max_bytes =
      lift (checked (authorize url))
      >> follow (suc max_redirects) (first_hop url max_redirects max_bytes)
