-- ===== src/Http/Contacted.antt =====
-- Which URLs `retrieve` contacts (src/mx_bank_monitor/ingestion/http.py).
use mexican_banking_monitor.Base.{
  ℕ, zero, suc, ◌≡◌, refl, sym, subst, inl, inr, true, false, Option, List, ◌∷◌, Text, All, Result,
  ok, err, Bool-cases,
}
use mexican_banking_monitor.Base.Effects.{Action, ◌>>◌, lift}
use mexican_banking_monitor.Discovery.Errors.{Checked}
use mexican_banking_monitor.Http.Headers.{HttpError}
use mexican_banking_monitor.Http.Network.{
  Network, Sent, responded, decoding_failed, protocol_failed, request_failed,
}
use mexican_banking_monitor.Http.Client.{
  DownloadedArtifact, Outcome, artifact, target, Hop, max_attempts, is_redirect, is_retried,
  checked, is_redirect_protocol, retry_backoff_seconds, Exchange, retry, transport_error,
  raise_status, after_send, exchange, next_hop, after_exchange, follow, first_hop, retrieve,
}
use mexican_banking_monitor.Http.Outcome.{IsOutcome}
use mexican_banking_monitor.Http.Hops.{exchange-IsOutcome}
use mexican_banking_monitor.Http.Quiet.{
  Quiet, redirect_target-Quiet, artifact_from_response-Quiet, raise_status-Quiet,
}

-- A log of the requests: a request adds its URL, and nothing else does.
module _ (network : Network) (authorize : Text → Checked Unit) (urljoin : Text → Text → Option Text)
    (casefold : Text → Text) (contacted : network.State → List Text)
    (send_log : (url : Text) (s : network.State)
      → contacted (network.send url s).1 ≡ url ∷ contacted s)
    (sleep_log : (delay : ℕ) (s : network.State) → contacted (network.sleep delay s) ≡ contacted s)
    (clock_log : (s : network.State) → contacted (network.clock s).1 ≡ contacted s) where
  -- Every URL that was contacted is authorized.
  abbrev pub IsAuthorized : network.State → Type 0
  IsAuthorized s = All (λ u. authorize u ≡ ok tt) (contacted s)

  IsAuthorized-Quiet :
      (s s' : network.State)
      → Quiet network authorize urljoin casefold contacted clock_log s s'
      → IsAuthorized s
      → IsAuthorized s'
  IsAuthorized-Quiet s s' q v = subst (All (λ u. authorize u ≡ ok tt)) (sym q) v

  retry-IsAuthorized :
      (left attempt : ℕ) (last next : Exchange network authorize urljoin casefold Outcome)
      (s : network.State)
      → IsAuthorized (last s).1
      → ((w : network.State) → IsAuthorized w → IsAuthorized (next w).1)
      → IsAuthorized s
      → IsAuthorized (retry network authorize urljoin casefold left attempt last next s).1
  unfolding retry
  retry-IsAuthorized zero attempt last next s q n v = q
  retry-IsAuthorized (suc left) attempt last next s q n v =
      n _ (IsAuthorized-Quiet s _ (sleep_log (retry_backoff_seconds attempt) s) v)

  after_send-IsAuthorized :
      (hop : Hop) (left attempt : ℕ) (next : Exchange network authorize urljoin casefold Outcome)
      (sent : Sent) (s : network.State)
      → ((w : network.State) → IsAuthorized w → IsAuthorized (next w).1)
      → IsAuthorized s
      → IsAuthorized (after_send network authorize urljoin casefold hop left attempt next sent s).1
  unfolding after_send
  after_send-IsAuthorized hop left attempt next decoding_failed s n v = v
  after_send-IsAuthorized hop left attempt next (protocol_failed message) s n v =
      elim (Bool-cases (is_redirect_protocol casefold message)) [
        | inl e ↦ rw e v
        | inr e ↦ rw e (
            retry-IsAuthorized left attempt (transport_error network authorize urljoin casefold)
              next s v n v)
      ]
  after_send-IsAuthorized hop left attempt next (Sent.transport_failed true) s n v = v
  after_send-IsAuthorized hop left attempt next (Sent.transport_failed false) s n v =
      retry-IsAuthorized left attempt (transport_error network authorize urljoin casefold) next s v
        n v
  after_send-IsAuthorized hop left attempt next request_failed s n v = v
  after_send-IsAuthorized hop left attempt next (responded response) s n v =
      elim (Bool-cases (is_retried response.status_code)) [
        | inl a ↦ rw a (
            retry-IsAuthorized left attempt
              (raise_status network authorize urljoin casefold response hop) next s
              (IsAuthorized-Quiet s _
                (raise_status-Quiet network authorize urljoin casefold contacted clock_log response
                  hop s)
                v)
              n v)
        | inr a ↦ elim (Bool-cases (is_redirect response.status_code)) [
          | inl b ↦
              rw (a, b)
                (IsAuthorized-Quiet s _
                  (redirect_target-Quiet network authorize urljoin casefold contacted clock_log
                    response hop s)
                  v)
          | inr b ↦
              rw (a, b)
                (IsAuthorized-Quiet s _
                  (artifact_from_response-Quiet network authorize urljoin casefold contacted
                    clock_log response hop s)
                  v)
        ]
      ]

  exchange-IsAuthorized :
      (left attempt : ℕ) (hop : Hop) (s : network.State)
      → authorize hop.current ≡ ok tt
      → IsAuthorized s
      → IsAuthorized (exchange network authorize urljoin casefold left attempt hop s).1
  unfolding exchange
  exchange-IsAuthorized zero attempt hop s allowed v = v
  exchange-IsAuthorized (suc left) attempt hop s allowed v =
      after_send-IsAuthorized hop left attempt
        (exchange network authorize urljoin casefold left (suc attempt) hop)
        (network.send hop.current s).0 (network.send hop.current s).1
        (λ w k. exchange-IsAuthorized left (suc attempt) hop w allowed k)
        (subst (All (λ u. authorize u ≡ ok tt)) (sym (send_log hop.current s)) (allowed, v))

  after_exchange-IsAuthorized :
      (next : Hop → Action HttpError network.State DownloadedArtifact) (hop : Hop)
      (step : Result HttpError Outcome × network.State)
      → IsOutcome network authorize urljoin casefold hop step
      → ((url : Text) (w : network.State)
          → authorize url ≡ ok tt
          → IsAuthorized w
          → IsAuthorized (next (next_hop network authorize urljoin casefold hop url) w).1)
      → IsAuthorized step.1
      → IsAuthorized (after_exchange network authorize urljoin casefold next hop step).1
  after_exchange-IsAuthorized next hop (ok (artifact a), s) o n v = v
  after_exchange-IsAuthorized next hop (ok (target url), s) o n v = n url s o.authorized v
  after_exchange-IsAuthorized next hop (err e, s) o n v = v

  follow-IsAuthorized :
      (fuel : ℕ) (hop : Hop) (s : network.State)
      → authorize hop.current ≡ ok tt
      → IsAuthorized s
      → IsAuthorized (follow network authorize urljoin casefold fuel hop s).1
  unfolding follow
  follow-IsAuthorized zero hop s allowed v = v
  follow-IsAuthorized (suc fuel) hop s allowed v =
      after_exchange-IsAuthorized (follow network authorize urljoin casefold fuel) hop
        (exchange network authorize urljoin casefold max_attempts 1 hop s)
        (exchange-IsOutcome network authorize urljoin casefold 2 1 hop s)
        (λ url w a k.
          follow-IsAuthorized fuel (next_hop network authorize urljoin casefold hop url) w a k)
        (exchange-IsAuthorized max_attempts 1 hop s allowed v)

  first-IsAuthorized :
      (url : Text) (max_redirects : ℕ) (max_bytes : Option ℕ) (first : Checked Unit)
      (s : network.State)
      → authorize url ≡ first
      → IsAuthorized s
      → IsAuthorized
          ((lift (checked first)
              >> follow network authorize urljoin casefold
                  (suc max_redirects)
                  (first_hop network authorize urljoin casefold url max_redirects max_bytes))
            s).1
  first-IsAuthorized url max_redirects max_bytes (ok tt) s e v =
      follow-IsAuthorized (suc max_redirects)
        (first_hop network authorize urljoin casefold url max_redirects max_bytes) s e v
  first-IsAuthorized url max_redirects max_bytes (err kind) s e v = v

  -- Where each request is logged and nothing else is, `retrieve` adds to a log of authorized
  -- URLs only authorized ones, over all redirects and retries and whatever the network answers.
  pub retrieve-IsAuthorized :
      (url : Text) (max_redirects : ℕ) (max_bytes : Option ℕ) (s : network.State)
      → IsAuthorized s
      → IsAuthorized (retrieve network authorize urljoin casefold url max_redirects max_bytes s).1
  unfolding retrieve
  retrieve-IsAuthorized url max_redirects max_bytes s v =
      first-IsAuthorized url max_redirects max_bytes (authorize url) s refl v
