-- ===== src/Http/Outcome.antt =====
-- What an exchange of the HTTP client is to return (src/mx_bank_monitor/ingestion/http.py).
use mexican_banking_monitor.Base.{
  ℕ, ◌≡◌, refl, Option, some, true, false, Text, codes, contains, length, Result, ok, err, ltb,
}
use mexican_banking_monitor.Base.Effects.{Action, continue}
use mexican_banking_monitor.Discovery.Errors.{Checked}
use mexican_banking_monitor.Discovery.Records.{Datetime}
use mexican_banking_monitor.Http.Headers.{HttpError, required_content_length}
use mexican_banking_monitor.Http.Network.{Network, Response, responded, finished}
use mexican_banking_monitor.Http.Body.{joined, within, is_declared}
use mexican_banking_monitor.Http.Bounded.{is_exhausted}
use mexican_banking_monitor.Http.Client.{
  DownloadedArtifact, Outcome, artifact, target, Hop, is_redirect, redirect_location,
  observation_of,
}

-- A chain has a property of results, if its first step's errors have it and its rest does.
pub chain :
    {S A B : Type 0} (P : Result HttpError B × S → Type 0) (step : Result HttpError A × S)
    (next : A → Action HttpError S B)
    → ((e : HttpError) (w : S) → step ≡ (err e, w) → P (err e, w))
    → ((a : A) (w : S) → step ≡ (ok a, w) → P (next a w))
    → P (continue step next)
chain P (ok a, w) next f g = g a w refl
chain P (err e, w) next f g = f e w refl

-- The same, where the first step needs nothing of the world.
pub lifted :
    {S A B : Type 0} (P : Result HttpError B × S → Type 0) (x : Result HttpError A) (s : S)
    (next : A → Action HttpError S B)
    → ((e : HttpError) → x ≡ err e → P (err e, s))
    → ((a : A) → x ≡ ok a → P (next a s))
    → P (continue (x, s) next)
lifted P (ok a) s next f g = g a refl
lifted P (err e) s next f g = f e refl

module _ (network : Network) (authorize : Text → Checked Unit) (urljoin : Text → Text → Option Text)
    (casefold : Text → Text) where
  -- The answer to a request for a URL, with the states before and behind it.
  pub record IsAnswer (url : Text) (response : Response) (s : network.State) : Type 0 where
    pub before : network.State
    pub sent : network.send url before ≡ (responded response, s)

  -- The artifact is the whole body of an answer with status 200 from the current URL, within the limit
  -- and of the declared length; nothing is sent behind that answer, and the observation is of it.
  pub record IsArtifact (hop : Hop) (a : DownloadedArtifact) (s' : network.State) : Type 0 where
    pub response : Response
    pub state : network.State
    pub answer : IsAnswer hop.current response state
    pub last : s' ≡ (network.clock state).1
    pub status : response.status_code ≡ 200
    pub ending : response.ending ≡ finished
    pub content : a.content ≡ joined response.chunks
    pub declared : Option ℕ
    pub header : required_content_length (response.headers (codes "content-length")) ≡ ok declared
    pub whole : is_declared declared a.content ≡ true
    pub small : within hop.max_bytes (length a.content) ≡ true
    pub url : a.url ≡ hop.current
    pub length_header : Option ℕ
    pub now : Datetime
    pub observation : a.observation ≡ observation_of response hop length_header now

  -- An answer from the first URL redirects to the second.
  pub record IsRedirect (current url : Text) : Type 0 where
    pub response : Response
    pub state : network.State
    pub answer : IsAnswer current response state
    pub status : is_redirect response.status_code ≡ true
    pub location : Text
    pub header : redirect_location (response.headers (codes "location")) ≡ ok location
    pub resolved : urljoin current location ≡ some url

  -- The target is what a redirect names, it is authorized and new, and there is room for it.
  pub record IsTarget (hop : Hop) (url : Text) : Type 0 where
    pub redirect : IsRedirect hop.current url
    pub authorized : authorize url ≡ ok tt
    pub new : contains url hop.visited ≡ false
    pub room : ltb (length hop.redirect_chain) hop.max_redirects ≡ true

  -- What is returned is as it should be, and what is raised is not the end of a loop.
  abbrev pub IsOutcome : Hop → Result HttpError Outcome × network.State → Type 0
  IsOutcome hop (ok (artifact a), s) = IsArtifact hop a s
  IsOutcome hop (ok (target url), s) = IsTarget hop url
  IsOutcome hop (err e, s) = is_exhausted e ≡ false
