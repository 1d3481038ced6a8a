-- ===== src/Http/Steps.antt =====
-- What the handling of a response returns (src/mx_bank_monitor/ingestion/http.py).
use mexican_banking_monitor.Base.{
  ℕ, ◌≡◌, ◌∙◌, refl, List, Option, none, some, ==_iff, subst, Bool, true, false, not, Text, codes,
  contains, length, Result, ok, err, require, ltb, ◌==◌, require-eq-ok,
}
use mexican_banking_monitor.Base.Effects.{lift}
use mexican_banking_monitor.Discovery.Errors.{
  Checked, redirect_invalid, content_encoding_unsupported, too_large, length_mismatch,
}
use mexican_banking_monitor.Discovery.Records.{Datetime, HttpObservation, check_http_observation}
use mexican_banking_monitor.Http.Headers.{
  HttpError, discovery, optional_content_length, required_content_length,
  identity_encoding_accepted,
}
use mexican_banking_monitor.Http.Network.{Network, Response}
use mexican_banking_monitor.Http.Body.{
  Body, complete, over_limit, failed, read_body, read_body-ok, declared_within, is_declared,
}
use mexican_banking_monitor.Http.Bounded.{
  is_exhausted, checked-err, checked-ok, require-err, Bounded-err, optional_content_length-Bounded,
  required_content_length-Bounded, redirect_location-Bounded, status_error-not_exhausted,
  IsBoundedBody, read_body-IsBoundedBody, joined_url-Bounded,
}
use mexican_banking_monitor.Http.Client.{
  target, Hop, is_redirect, checked, redirect_location, status_error, observation_of, now,
  observation, redirect_target, joined_url, received, artifact_from_response, raise_status,
}
use mexican_banking_monitor.Http.Outcome.{chain, lifted, IsAnswer, IsOutcome}

false_of_not : (b : Bool) → not b ≡ true → b ≡ false
false_of_not true h = cc h
false_of_not false h = refl

joined_url-ok : (o : Option Text) (url : Text) → joined_url o ≡ ok url → o ≡ some url
joined_url-ok none url h = cc h
joined_url-ok (some u) url h = cc h

module _ (network : Network) (authorize : Text → Checked Unit) (urljoin : Text → Text → Option Text)
    (casefold : Text → Text) where
  -- What is observed is of the response, and takes one look at the clock.
  abbrev IsObserved :
      Response → Hop → network.State → Result HttpError HttpObservation × network.State → Type 0
  IsObserved response hop s (ok o, w) =
      (w ≡ (network.clock s).1)
      × (n : Option ℕ) × (d : Datetime) × (o ≡ observation_of response hop n d)
  IsObserved response hop s (err e, w) = is_exhausted e ≡ false

  observation-IsObserved :
      (response : Response) (hop : Hop) (s : network.State)
      → IsObserved response hop s (observation network authorize urljoin casefold response hop s)
  unfolding observation now
  observation-IsObserved response hop s =
      let P = IsObserved response hop s in
      let header = response.headers (codes "content-length") in
      let d = (network.clock s).0 in
      lifted P (optional_content_length header) s _
        (λ e h.
          Bounded-err (optional_content_length header) e (optional_content_length-Bounded header) h)
        (λ n a.
          lifted P (checked (check_http_observation (observation_of response hop n d)))
            (network.clock s).1 (λ _. lift (ok (observation_of response hop n d)))
            (λ e h. checked-err (check_http_observation (observation_of response hop n d)) e h)
            (λ u b. (refl, n, d, refl)))

  observation_err :
      (response : Response) (hop : Hop) (s : network.State) (e : HttpError) (w : network.State)
      → observation network authorize urljoin casefold response hop s ≡ (err e, w)
      → is_exhausted e ≡ false
  observation_err response hop s e w h =
      subst (IsObserved response hop s) h (observation-IsObserved response hop s)

  observation_ok :
      (response : Response) (hop : Hop) (s : network.State) (o : HttpObservation)
      (w : network.State)
      → observation network authorize urljoin casefold response hop s ≡ (ok o, w)
      → IsObserved response hop s (ok o, w)
  observation_ok response hop s o w h =
      subst (IsObserved response hop s) h (observation-IsObserved response hop s)

  pub redirect_target-IsOutcome :
      (response : Response) (hop : Hop) (s : network.State)
      → IsAnswer network authorize urljoin casefold hop.current response s
      → is_redirect response.status_code ≡ true
      → IsOutcome network authorize urljoin casefold hop
          (redirect_target network authorize urljoin casefold response hop s)
  unfolding redirect_target
  redirect_target-IsOutcome response hop s answer status =
      let P = IsOutcome network authorize urljoin casefold hop in
      let header = response.headers (codes "location") in
      chain P (observation network authorize urljoin casefold response hop s) _
        (observation_err response hop s)
        (λ o s1 a.
          lifted P (redirect_location header) s1 _
            (λ e h. Bounded-err (redirect_location header) e (redirect_location-Bounded header) h)
            (λ location b.
              lifted P (joined_url (urljoin hop.current location)) s1 _
                (λ e h.
                  Bounded-err (joined_url (urljoin hop.current location)) e
                    (joined_url-Bounded (urljoin hop.current location)) h)
                (λ url g.
                  let new = not (contains url hop.visited) in
                  let room = ltb (length hop.redirect_chain) hop.max_redirects in
                  lifted P (checked (authorize url)) s1 _ (λ e h. checked-err (authorize url) e h)
                    (λ u c.
                      lifted P (require new (discovery redirect_invalid)) s1 _
                        (λ e h. require-err new (discovery redirect_invalid) e refl h)
                        (λ v d.
                          lifted P (require room (discovery redirect_invalid)) s1
                            (λ _. lift (ok (target url)))
                            (λ e h. require-err room (discovery redirect_invalid) e refl h)
                            (λ w f. record {
                              redirect = record {
                                response = response;
                                state = s;
                                answer = answer;
                                status = status;
                                location = location;
                                header = b;
                                resolved = joined_url-ok (urljoin hop.current location) url g;
                              };
                              authorized = checked-ok (authorize url) c;
                              new =
                                  false_of_not (contains url hop.visited)
                                    (require-eq-ok new (discovery redirect_invalid) d);
                              room = require-eq-ok room (discovery redirect_invalid) f;
                            }))))))

  -- The reading of a body gives its content without a further step, or raises what is bounded.
  abbrev IsRead : Body → network.State → Result HttpError (List ℕ) × network.State → Type 0
  IsRead b s (ok content, w) = (b ≡ complete content) × (w ≡ s)
  IsRead b s (err e, w) = is_exhausted e ≡ false

  received-IsRead :
      (response : Response) (hop : Hop) (b : Body) (s : network.State)
      → IsBoundedBody b
      → IsRead b s (received network authorize urljoin casefold response hop b s)
  unfolding received
  received-IsRead response hop (complete content) s k = (refl, refl)
  received-IsRead response hop over_limit s k =
      chain (IsRead over_limit s) (observation network authorize urljoin casefold response hop s)
        (λ o. lift (err (discovery too_large))) (observation_err response hop s) (λ o w a. refl)
  received-IsRead response hop (failed e) s k = k

  pub artifact_from_response-IsOutcome :
      (response : Response) (hop : Hop) (s : network.State)
      → IsAnswer network authorize urljoin casefold hop.current response s
      → IsOutcome network authorize urljoin casefold hop
          (artifact_from_response network authorize urljoin casefold response hop s)
  unfolding artifact_from_response
  artifact_from_response-IsOutcome response hop s answer =
      let P = IsOutcome network authorize urljoin casefold hop in
      let found = response.status_code == 200 in
      let plain =
        identity_encoding_accepted casefold (response.headers (codes "content-encoding")) in
      let header = response.headers (codes "content-length") in
      let body = read_body hop.max_bytes 0 response.chunks response.ending in
      let bounded = read_body-IsBoundedBody hop.max_bytes 0 response.chunks response.ending in
      chain P (observation network authorize urljoin casefold response hop s) _
        (observation_err response hop s)
        (λ o s1 a.
          let (clocked, n, d, observed) = observation_ok response hop s o s1 a in
          lifted P (require found (status_error response.status_code)) s1 _
            (λ e h.
              require-err found (status_error response.status_code) e
                (status_error-not_exhausted response.status_code) h)
            (λ u b.
              lifted P (require plain (discovery content_encoding_unsupported)) s1 _
                (λ e h. require-err plain (discovery content_encoding_unsupported) e refl h)
                (λ v c.
                  lifted P (required_content_length header) s1 _
                    (λ e h.
                      Bounded-err (required_content_length header) e
                        (required_content_length-Bounded header) h)
                    (λ declared g.
                      lifted P
                        (require (declared_within declared hop.max_bytes) (discovery too_large)) s1
                        _
                        (λ e h.
                          require-err (declared_within declared hop.max_bytes) (discovery too_large)
                            e refl h)
                        (λ x k.
                          chain P (received network authorize urljoin casefold response hop body s1)
                            _
                            (λ e w h.
                              subst (IsRead body s1) h
                                (received-IsRead response hop body s1 bounded))
                            (λ content w h.
                              let (read, stayed) =
                                subst (IsRead body s1) h
                                  (received-IsRead response hop body s1 bounded) in
                              let (all, end, small) =
                                read_body-ok hop.max_bytes response.chunks response.ending content
                                  read in
                              lifted P
                                (require (is_declared declared content) (discovery length_mismatch))
                                w _
                                (λ e h.
                                  require-err (is_declared declared content)
                                    (discovery length_mismatch) e refl h)
                                (λ y m. record {
                                  response = response;
                                  state = s;
                                  answer = answer;
                                  last = stayed ∙ clocked;
                                  status =
                                      (==_iff response.status_code 200).0
                                        (require-eq-ok found (status_error response.status_code) b);
                                  ending = end;
                                  content = all;
                                  declared = declared;
                                  header = g;
                                  whole =
                                      require-eq-ok (is_declared declared content)
                                        (discovery length_mismatch) m;
                                  small = small;
                                  url = refl;
                                  length_header = n;
                                  now = d;
                                  observation = observed;
                                })))))))

  pub raise_status-IsOutcome :
      (response : Response) (hop : Hop) (s : network.State)
      → IsOutcome network authorize urljoin casefold hop
          (raise_status network authorize urljoin casefold response hop s)
  unfolding raise_status
  raise_status-IsOutcome response hop s =
      chain (IsOutcome network authorize urljoin casefold hop)
        (observation network authorize urljoin casefold response hop s)
        (λ o. lift (err (status_error response.status_code))) (observation_err response hop s)
        (λ o s1 a. status_error-not_exhausted response.status_code)
