-- ===== src/Http/Hops.antt =====
-- What one exchange of the HTTP client returns (src/mx_bank_monitor/ingestion/http.py).
use mexican_banking_monitor.Base.{
  ℕ, zero, suc, ◌≡◌, refl, Option, inl, inr, true, false, Text, Bool-cases,
}
use mexican_banking_monitor.Discovery.Errors.{Checked}
use mexican_banking_monitor.Http.Network.{
  Network, Sent, responded, decoding_failed, protocol_failed, request_failed,
}
use mexican_banking_monitor.Http.Client.{
  Outcome, Hop, is_redirect, is_retried, is_redirect_protocol, Exchange, retry, transport_error,
  raise_status, after_send, exchange,
}
use mexican_banking_monitor.Http.Outcome.{IsAnswer, IsOutcome}
use mexican_banking_monitor.Http.Steps.{
  redirect_target-IsOutcome, artifact_from_response-IsOutcome, raise_status-IsOutcome,
}

module _ (network : Network) (authorize : Text → Checked Unit) (urljoin : Text → Text → Option Text)
    (casefold : Text → Text) where
  after_send-IsOutcome :
      (hop : Hop) (left attempt : ℕ) (next : Exchange network authorize urljoin casefold Outcome)
      (sent : Sent) (s before : network.State)
      → network.send hop.current before ≡ (sent, s)
      → ((last : Exchange network authorize urljoin casefold Outcome) (w : network.State)
          → IsOutcome network authorize urljoin casefold hop (last w)
          → IsOutcome network authorize urljoin casefold hop
              (retry network authorize urljoin casefold left attempt last next w))
      → IsOutcome network authorize urljoin casefold hop
          (after_send network authorize urljoin casefold hop left attempt next sent s)
  unfolding after_send
  after_send-IsOutcome hop left attempt next decoding_failed s before e again = refl
  after_send-IsOutcome hop left attempt next (protocol_failed message) s before e again =
      elim (Bool-cases (is_redirect_protocol casefold message)) [
        | inl a ↦ rw a refl
        | inr a ↦ rw a (again (transport_error network authorize urljoin casefold) s refl)
      ]
  after_send-IsOutcome hop left attempt next (Sent.transport_failed true) s before e again = refl
  after_send-IsOutcome hop left attempt next (Sent.transport_failed false) s before e again =
      again (transport_error network authorize urljoin casefold) s refl
  after_send-IsOutcome hop left attempt next request_failed s before e again = refl
  after_send-IsOutcome hop left attempt next (responded response) s before e again =
      let answer : IsAnswer network authorize urljoin casefold hop.current response s = record {
        before = before;
        sent = e;
      } in
      elim (Bool-cases (is_retried response.status_code)) [
        | inl a ↦ rw a (
            again (raise_status network authorize urljoin casefold response hop) s
              (raise_status-IsOutcome network authorize urljoin casefold response hop s))
        | inr a ↦ elim (Bool-cases (is_redirect response.status_code)) [
          | inl b ↦
              rw (a, b)
                (redirect_target-IsOutcome network authorize urljoin casefold response hop s answer
                  b)
          | inr b ↦
              rw (a, b)
                (artifact_from_response-IsOutcome network authorize urljoin casefold response hop s
                  answer)
        ]
      ]

  pub exchange-IsOutcome :
      (left attempt : ℕ) (hop : Hop) (s : network.State)
      → IsOutcome network authorize urljoin casefold hop
          (exchange network authorize urljoin casefold (suc left) attempt hop s)
  unfolding exchange retry
  exchange-IsOutcome zero attempt hop s =
      after_send-IsOutcome hop 0 attempt
        (exchange network authorize urljoin casefold 0 (suc attempt) hop)
        (network.send hop.current s).0 (network.send hop.current s).1 s refl (λ last w good. good)
  exchange-IsOutcome (suc left) attempt hop s =
      after_send-IsOutcome hop (suc left) attempt
        (exchange network authorize urljoin casefold (suc left) (suc attempt) hop)
        (network.send hop.current s).0 (network.send hop.current s).1 s refl
        (λ last w good. exchange-IsOutcome left (suc attempt) hop _)
