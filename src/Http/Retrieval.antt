-- ===== src/Http/Retrieval.antt =====
-- What `retrieve` returns, and that its loop ends (src/mx_bank_monitor/ingestion/http.py).
use mexican_banking_monitor.Base.{
  ℕ, zero, suc, ◌+◌, ◌≤◌, ◌≡◌, refl, sym, subst, ◌∙◌, true, false, Option, List, [], ◌∷◌, ◌++◌,
  Text, contains, length, length-append, All, All-append, Result, ok, err, if◌then◌else◌, arith,
  text_eq, text_eq_iff,
}
use mexican_banking_monitor.Base.Distinct.{IsDistinct}
use mexican_banking_monitor.Base.Effects.{Action, ◌>>◌, lift}
use mexican_banking_monitor.Discovery.Errors.{Checked}
use mexican_banking_monitor.Http.Headers.{HttpError}
use mexican_banking_monitor.Http.Network.{Network}
use mexican_banking_monitor.Http.Bounded.{is_exhausted}
use mexican_banking_monitor.Http.Client.{
  DownloadedArtifact, Outcome, artifact, target, Hop, max_attempts, checked, exchange, next_hop,
  after_exchange, follow, first_hop, retrieve,
}
use mexican_banking_monitor.Http.Outcome.{IsArtifact, IsRedirect, IsTarget, IsOutcome}
use mexican_banking_monitor.Http.Hops.{exchange-IsOutcome}

contains-snoc :
    (a x : Text) (xs : List Text)
    → contains a (xs ++ x ∷ []) ≡ (if text_eq a x then true else contains a xs)
unfolding contains
contains-snoc a x [] = ground arith
contains-snoc a x (y ∷ xs) = ground (arith, contains-snoc a x xs)

-- A text that is new at the end of a list without repetition.
IsDistinct-snoc :
    (x : Text) (xs : List Text) → IsDistinct xs → contains x xs ≡ false → IsDistinct (xs ++ x ∷ [])
unfolding contains
IsDistinct-snoc x [] d n = (refl, tt)
IsDistinct-snoc x (y ∷ xs) d n = (
  ground (arith, contains-snoc y x xs, d.0, n, text_eq_iff x y, text_eq_iff y x),
  IsDistinct-snoc x xs d.1 (ground (arith, n)),
)

-- The last of a chain, or where it began.
abbrev pub last_of : Text → List Text → Text
last_of url [] = url
last_of url (x ∷ xs) = last_of x xs

last_of-snoc : (url x : Text) (xs : List Text) → last_of url (xs ++ x ∷ []) ≡ x
last_of-snoc url x [] = refl
last_of-snoc url x (y ∷ xs) = last_of-snoc y x xs

module _ (network : Network) (authorize : Text → Checked Unit) (urljoin : Text → Text → Option Text)
    (casefold : Text → Text) where
  -- Each URL of a chain is where an answer from the one before it redirects to.
  abbrev pub Linked : Text → List Text → Type 0
  Linked url [] = Unit
  Linked url (x ∷ xs) = IsRedirect network authorize urljoin casefold url x × Linked x xs

  Linked-snoc :
      (url x : Text) (xs : List Text)
      → Linked url xs
      → IsRedirect network authorize urljoin casefold (last_of url xs) x
      → Linked url (xs ++ x ∷ [])
  Linked-snoc url x [] l r = (r, tt)
  Linked-snoc url x (y ∷ xs) l r = (l.0, Linked-snoc y x xs l.1 r)

  -- The chain from a URL is what answers redirect to, is authorized, without a repetition, and no
  -- longer than allowed.
  pub record IsChain (url : Text) (max_redirects : ℕ) (chain : List Text) : Type 0 where
    pub linked : Linked url chain
    pub authorized : All (λ u. authorize u ≡ ok tt) (url ∷ chain)
    pub distinct : IsDistinct (url ∷ chain)
    pub short : length chain ≤ max_redirects

  record IsHop (hop : Hop) : Type 0 where
    chained : IsChain hop.requested_url hop.max_redirects hop.redirect_chain
    seen : (a : Text) → contains a hop.visited ≡ contains a (hop.requested_url ∷ hop.redirect_chain)
    last : last_of hop.requested_url hop.redirect_chain ≡ hop.current

  -- The artifact of a URL: the hop is the one from which its last exchange started.
  pub record IsRetrieved (url : Text) (max_redirects : ℕ) (max_bytes : Option ℕ)
      (a : DownloadedArtifact) (s : network.State) : Type 0 where
    pub hop : Hop
    pub requested : hop.requested_url ≡ url
    pub limit : hop.max_bytes ≡ max_bytes
    pub chained : IsChain url max_redirects hop.redirect_chain
    pub current : hop.current ≡ last_of url hop.redirect_chain
    pub served : IsArtifact network authorize urljoin casefold hop a s

  next_hop-IsHop :
      (hop : Hop) (url : Text)
      → IsHop hop
      → IsTarget network authorize urljoin casefold hop url
      → IsHop (next_hop network authorize urljoin casefold hop url)
  unfolding contains
  next_hop-IsHop hop url v t = record {
    chained = record {
      linked = Linked-snoc hop.requested_url url hop.redirect_chain v.chained.linked (
          subst (λ u. IsRedirect network authorize urljoin casefold u url) (sym v.last) t.redirect);
      authorized =
          All-append (λ u. authorize u ≡ ok tt) (hop.requested_url ∷ hop.redirect_chain) (url ∷ [])
            v.chained.authorized (t.authorized, tt);
      distinct =
          IsDistinct-snoc url (hop.requested_url ∷ hop.redirect_chain) v.chained.distinct
            (sym (v.seen url) ∙ t.new);
      short = ground (arith, t.room, length-append hop.redirect_chain (url ∷ []));
    };
    seen = λ a. ground (arith, v.seen a, contains-snoc a url hop.redirect_chain);
    last = last_of-snoc hop.requested_url url hop.redirect_chain;
  }

  abbrev IsEnd : Text → ℕ → Option ℕ → Result HttpError DownloadedArtifact × network.State → Type 0
  IsEnd url max_redirects max_bytes (ok a, s) = IsRetrieved url max_redirects max_bytes a s
  IsEnd url max_redirects max_bytes (err e, s) = is_exhausted e ≡ false

  after_exchange-IsEnd :
      (next : Hop → Action HttpError network.State DownloadedArtifact) (hop : Hop)
      (step : Result HttpError Outcome × network.State)
      → IsHop hop
      → IsOutcome network authorize urljoin casefold hop step
      → ((url : Text) (w : network.State)
          → IsTarget network authorize urljoin casefold hop url
          → IsEnd hop.requested_url hop.max_redirects hop.max_bytes
              (next (next_hop network authorize urljoin casefold hop url) w))
      → IsEnd hop.requested_url hop.max_redirects hop.max_bytes
          (after_exchange network authorize urljoin casefold next hop step)
  after_exchange-IsEnd next hop (ok (artifact a), s) v o n = record {
    hop = hop;
    requested = refl;
    limit = refl;
    chained = v.chained;
    current = sym v.last;
    served = o;
  }
  after_exchange-IsEnd next hop (ok (target url), s) v o n = n url s o
  after_exchange-IsEnd next hop (err e, s) v o n = o

  follow-IsEnd :
      (fuel : ℕ) (hop : Hop) (s : network.State)
      → IsHop hop
      → suc hop.max_redirects ≤ fuel + length hop.redirect_chain
      → IsEnd hop.requested_url hop.max_redirects hop.max_bytes
          (follow network authorize urljoin casefold fuel hop s)
  unfolding follow
  follow-IsEnd zero hop s v enough = absurd (omega (arith, v.chained.short, enough))
  follow-IsEnd (suc fuel) hop s v enough =
      after_exchange-IsEnd (follow network authorize urljoin casefold fuel) hop
        (exchange network authorize urljoin casefold max_attempts 1 hop s) v
        (exchange-IsOutcome network authorize urljoin casefold 2 1 hop s)
        (λ url w t.
          follow-IsEnd fuel (next_hop network authorize urljoin casefold hop url) w
            (next_hop-IsHop hop url v t)
            (omega (arith, enough, length-append hop.redirect_chain (url ∷ []))))

  first_hop-IsHop :
      (url : Text) (max_redirects : ℕ) (max_bytes : Option ℕ)
      → authorize url ≡ ok tt
      → IsHop (first_hop network authorize urljoin casefold url max_redirects max_bytes)
  unfolding contains
  first_hop-IsHop url max_redirects max_bytes allowed = record {
    chained = record {
      linked = tt;
      authorized = (allowed, tt);
      distinct = (refl, tt);
      short = omega arith;
    };
    seen = λ a. refl;
    last = refl;
  }

  -- Behind the first authorization.
  authorized-IsEnd :
      (url : Text) (max_redirects : ℕ) (max_bytes : Option ℕ) (first : Checked Unit)
      (s : network.State)
      → authorize url ≡ first
      → IsEnd url max_redirects max_bytes (
          (lift (checked first)
              >> follow network authorize urljoin casefold
                  (suc max_redirects)
                  (first_hop network authorize urljoin casefold url max_redirects max_bytes))
            s)
  authorized-IsEnd url max_redirects max_bytes (ok tt) s e =
      follow-IsEnd (suc max_redirects)
        (first_hop network authorize urljoin casefold url max_redirects max_bytes) s
        (first_hop-IsHop url max_redirects max_bytes e) (omega arith)
  authorized-IsEnd url max_redirects max_bytes (err kind) s e = refl

  retrieve-IsEnd :
      (url : Text) (max_redirects : ℕ) (max_bytes : Option ℕ) (s : network.State)
      → IsEnd url max_redirects max_bytes
          (retrieve network authorize urljoin casefold url max_redirects max_bytes s)
  unfolding retrieve
  retrieve-IsEnd url max_redirects max_bytes s =
      authorized-IsEnd url max_redirects max_bytes (authorize url) s refl

  end_err :
      (url : Text) (max_redirects : ℕ) (max_bytes : Option ℕ)
      (end : Result HttpError DownloadedArtifact × network.State) (e : HttpError)
      → IsEnd url max_redirects max_bytes end
      → end.0 ≡ err e
      → is_exhausted e ≡ false
  end_err url max_redirects max_bytes (ok a, s) e good h = cc h
  end_err url max_redirects max_bytes (err f, s) e good h = cc (good, h)

  -- What `retrieve` raises is never the end of its loops: the fuel of the redirects and of the
  -- attempts is enough.
  pub retrieve-err :
      (url : Text) (max_redirects : ℕ) (max_bytes : Option ℕ) (s : network.State) (e : HttpError)
      → (retrieve network authorize urljoin casefold url max_redirects max_bytes s).0 ≡ err e
      → is_exhausted e ≡ false
  retrieve-err url max_redirects max_bytes s e h =
      end_err url max_redirects max_bytes _ e (retrieve-IsEnd url max_redirects max_bytes s) h
