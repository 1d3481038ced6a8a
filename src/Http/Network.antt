-- ===== src/Http/Network.antt =====
-- The network below the HTTP client (src/mx_bank_monitor/ingestion/http.py): the requests of httpx, the
-- pauses and the clock.
use mexican_banking_monitor.Base.{ℕ, Bool, List, Text}
use mexican_banking_monitor.Discovery.Records.{Datetime}
use mexican_banking_monitor.Http.Headers.{Headers}

-- How a body's stream ends.
pub data Ending : Type 0 where
  finished broken undecodable : Ending

pub record Response : Type 0 where
  pub status_code : ℕ
  pub headers : Headers
  pub chunks : List (List ℕ)
  pub ending : Ending

-- A response, or the exception of `client.send`: a `TransportError` may be caused by an untrusted
-- certificate; a `RemoteProtocolError` is kept apart, with its message.
pub data Sent : Type 0 where
  responded : Response → Sent
  decoding_failed : Sent
  protocol_failed : Text → Sent
  transport_failed : Bool → Sent
  request_failed : Sent

pub record Network : Type 1 where
  pub State : Type 0
  pub send : Text → State → Sent × State
  pub sleep : ℕ → State → State
  pub clock : State → Datetime × State
