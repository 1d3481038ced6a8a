-- ===== src/Http/Quiet.antt =====
-- The handling of a response contacts nothing (src/mx_bank_monitor/ingestion/http.py).
use mexican_banking_monitor.Base.{
  ◌≡◌, refl, ◌∙◌, not, Option, List, Text, codes, contains, length, ok, err, require, ltb, ◌==◌,
}
use mexican_banking_monitor.Base.Effects.{Action, ◌>>=◌, ◌>>◌, lift, Relates, >>=-Relates}
use mexican_banking_monitor.Discovery.Errors.{
  Checked, redirect_invalid, content_encoding_unsupported, too_large, length_mismatch,
}
use mexican_banking_monitor.Discovery.Records.{check_http_observation}
use mexican_banking_monitor.Http.Headers.{
  HttpError, discovery, optional_content_length, required_content_length,
  identity_encoding_accepted,
}
use mexican_banking_monitor.Http.Network.{Network, Response}
use mexican_banking_monitor.Http.Body.{
  Body, complete, over_limit, failed, read_body, declared_within, is_declared,
}
use mexican_banking_monitor.Http.Client.{
  target, Hop, checked, redirect_location, status_error, observation_of, now, observation,
  redirect_target, joined_url, received, artifact_from_response, raise_status,
}

-- A log of the requests: looking at the clock adds nothing.
module _ (network : Network) (authorize : Text → Checked Unit) (urljoin : Text → Text → Option Text)
    (casefold : Text → Text) (contacted : network.State → List Text)
    (clock_log : (s : network.State) → contacted (network.clock s).1 ≡ contacted s) where
  -- Nothing is contacted.
  abbrev pub Quiet : network.State → network.State → Type 0
  Quiet s s' = contacted s' ≡ contacted s

  chain :
      {A B : Type 0} (action : Action HttpError network.State A)
      (next : A → Action HttpError network.State B)
      → Relates Quiet action
      → ((a : A) → Relates Quiet (next a))
      → Relates Quiet (action >>= next)
  chain action next f g = >>=-Relates Quiet action next (λ x y z p q. q ∙ p) f g

  observation-Quiet :
      (response : Response) (hop : Hop)
      → Relates Quiet (observation network authorize urljoin casefold response hop)
  unfolding observation now
  observation-Quiet response hop =
      chain (lift (optional_content_length (response.headers (codes "content-length")))) _
        (λ s. refl)
        (λ n.
          chain (now network authorize urljoin casefold)
            (λ d.
              lift (checked (check_http_observation (observation_of response hop n d)))
              >> lift (ok (observation_of response hop n d)))
            clock_log
            (λ d.
              chain (lift (checked (check_http_observation (observation_of response hop n d))))
                (λ _. lift (ok (observation_of response hop n d))) (λ s. refl) (λ _ s. refl)))

  pub redirect_target-Quiet :
      (response : Response) (hop : Hop)
      → Relates Quiet (redirect_target network authorize urljoin casefold response hop)
  unfolding redirect_target
  redirect_target-Quiet response hop =
      chain (observation network authorize urljoin casefold response hop) _
        (observation-Quiet response hop)
        (λ o.
          chain (lift (redirect_location (response.headers (codes "location")))) _ (λ s. refl)
            (λ location.
              chain (lift (joined_url (urljoin hop.current location))) _ (λ s. refl)
                (λ url.
                  chain (lift (checked (authorize url))) _ (λ s. refl)
                    (λ _.
                      chain
                        (lift
                          (require (not (contains url hop.visited)) (discovery redirect_invalid)))
                        _ (λ s. refl)
                        (λ _.
                          chain
                            (lift (
                              require (ltb (length hop.redirect_chain) hop.max_redirects)
                                (discovery redirect_invalid)))
                            (λ _. lift (ok (target url))) (λ s. refl) (λ _ s. refl))))))

  received-Quiet :
      (response : Response) (hop : Hop) (body : Body)
      → Relates Quiet (received network authorize urljoin casefold response hop body)
  unfolding received
  received-Quiet response hop (complete content) s = refl
  received-Quiet response hop over_limit s =
      chain (observation network authorize urljoin casefold response hop)
        (λ o. lift (err (discovery too_large))) (observation-Quiet response hop) (λ o w. refl) s
  received-Quiet response hop (failed e) s = refl

  pub artifact_from_response-Quiet :
      (response : Response) (hop : Hop)
      → Relates Quiet (artifact_from_response network authorize urljoin casefold response hop)
  unfolding artifact_from_response
  artifact_from_response-Quiet response hop =
      chain (observation network authorize urljoin casefold response hop) _
        (observation-Quiet response hop)
        (λ o.
          chain (lift (require (response.status_code == 200) (status_error response.status_code))) _
            (λ s. refl)
            (λ _.
              chain
                (lift (
                  require
                    (identity_encoding_accepted casefold
                      (response.headers (codes "content-encoding")))
                    (discovery content_encoding_unsupported)))
                _ (λ s. refl)
                (λ _.
                  chain (lift (required_content_length (response.headers (codes "content-length"))))
                    _ (λ s. refl)
                    (λ declared.
                      chain
                        (lift
                          (require (declared_within declared hop.max_bytes) (discovery too_large)))
                        _ (λ s. refl)
                        (λ _.
                          chain
                            (received network authorize urljoin casefold response hop
                              (read_body hop.max_bytes 0 response.chunks response.ending))
                            _
                            (received-Quiet response hop
                              (read_body hop.max_bytes 0 response.chunks response.ending))
                            (λ content.
                              chain
                                (lift (
                                  require (is_declared declared content)
                                    (discovery length_mismatch)))
                                _ (λ s. refl) (λ _ s. refl)))))))

  pub raise_status-Quiet :
      (response : Response) (hop : Hop)
      → Relates Quiet (raise_status network authorize urljoin casefold response hop)
  unfolding raise_status
  raise_status-Quiet response hop =
      chain (observation network authorize urljoin casefold response hop)
        (λ o. lift (err (status_error response.status_code))) (observation-Quiet response hop)
        (λ o s. refl)
