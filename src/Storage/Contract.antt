-- ===== src/Storage/Contract.antt =====
-- What the stores of src/mx_bank_monitor/ingestion/artifacts.py promise a client, over a map from
-- digests to contents; the local and the Supabase store keep the promise.
pub mod Local
pub mod Remote
use mexican_banking_monitor.Base.{
  ℕ, ◌≡◌, refl, sym, ◌∙◌, ap, Option, none, some, List, Text, length, ok, err,
}
use mexican_banking_monitor.Storage.Errors.{StoreError, Stored}
use mexican_banking_monitor.Storage.Keys.{key_of, sha256_from_key}
use mexican_banking_monitor.Storage.Keys.RoundTrip.{sha256_from_key-key_of}
use mexican_banking_monitor.Storage.Payloads.{
  ArtifactPayload, StoredArtifactLocation, StoredArtifact, PutArtifactResult,
}
use mexican_banking_monitor.Storage.Payloads.Laws.{IsPayload}
use mexican_banking_monitor.Storage.Action.{Action}

-- The protocol `ArtifactStore`, with the content that a state holds under a digest.
pub record ArtifactStore : Type 1 where
  pub State : Type 0
  pub holds : State → Text → Option (List ℕ)
  pub put_if_absent : ArtifactPayload → Action State PutArtifactResult
  pub get : StoredArtifactLocation → Action State (List ℕ)
  pub verify : StoredArtifact → Action State (Unit {0})

-- A store of content under its own digest, from which nothing is lost and in which nothing changes.
pub record IsContentAddressed (hexdigest : List ℕ → Text) (store : ArtifactStore) : Type 0 where
  pub put_valid :
      (payload : ArtifactPayload) (s s' : store.State) (r : PutArtifactResult)
      → store.put_if_absent payload s ≡ (ok r, s')
      → IsPayload hexdigest payload
  pub put_names :
      (payload : ArtifactPayload) (s s' : store.State) (r : PutArtifactResult)
      → store.put_if_absent payload s ≡ (ok r, s')
      → r.artifact.location.storage_key ≡ key_of payload.sha256
  pub put_holds :
      (payload : ArtifactPayload) (s s' : store.State) (r : PutArtifactResult)
      → store.put_if_absent payload s ≡ (ok r, s')
      → store.holds s' payload.sha256 ≡ some payload.content
  pub put_keeps :
      (payload : ArtifactPayload) (s : store.State) (digest : Text) (c : List ℕ)
      → store.holds s digest ≡ some c
      → store.holds (store.put_if_absent payload s).1 digest ≡ some c
  pub get_digest :
      (location : StoredArtifactLocation) (s s' : store.State) (c : List ℕ)
      → store.get location s ≡ (ok c, s')
      → sha256_from_key location.storage_key ≡ ok (hexdigest c)
  pub get_holds :
      (location : StoredArtifactLocation) (s s' : store.State) (c : List ℕ)
      → store.get location s ≡ (ok c, s')
      → store.holds s' (hexdigest c) ≡ some c
  pub get_keeps :
      (location : StoredArtifactLocation) (s : store.State) (digest : Text) (c : List ℕ)
      → store.holds s digest ≡ some c
      → store.holds (store.get location s).1 digest ≡ some c
  pub verify_holds :
      (artifact : StoredArtifact) (s s' : store.State)
      → store.verify artifact s ≡ (ok tt, s')
      → (c : List ℕ) × (sha256_from_key artifact.location.storage_key ≡ ok (hexdigest c))
        × (store.holds s' (hexdigest c) ≡ some c)
        × (length c ≡ artifact.byte_length)
  pub verify_keeps :
      (artifact : StoredArtifact) (s : store.State) (digest : Text) (c : List ℕ)
      → store.holds s digest ≡ some c
      → store.holds (store.verify artifact s).1 digest ≡ some c

module _ (store : ArtifactStore) where
  -- One call of a client, whatever comes of it.
  pub data Step : store.State → store.State → Type 0 where
    putting :
        (payload : ArtifactPayload) (s : store.State) → Step s (store.put_if_absent payload s).1
    getting :
        (location : StoredArtifactLocation) (s : store.State) → Step s (store.get location s).1
    verifying : (artifact : StoredArtifact) (s : store.State) → Step s (store.verify artifact s).1

  -- Calls, in any order.
  pub data Reaches : store.State → store.State → Type 0 where
    at_once : (s : store.State) → Reaches s s
    after : (s t u : store.State) → Reaches s t → Step t u → Reaches s u

module _ (hexdigest : List ℕ → Text) (store : ArtifactStore)
    (v : IsContentAddressed hexdigest store) where
  Step-keeps :
      (s t : store.State) (digest : Text) (c : List ℕ)
      → Step store s t
      → store.holds s digest ≡ some c
      → store.holds t digest ≡ some c
  Step-keeps _ _ digest c (putting payload s) h = v.put_keeps payload s digest c h
  Step-keeps _ _ digest c (getting location s) h = v.get_keeps location s digest c h
  Step-keeps _ _ digest c (verifying artifact s) h = v.verify_keeps artifact s digest c h

  Reaches-keeps :
      (s t : store.State) (digest : Text) (c : List ℕ)
      → Reaches store s t
      → store.holds s digest ≡ some c
      → store.holds t digest ≡ some c
  Reaches-keeps _ _ digest c (at_once s) h = h
  Reaches-keeps _ _ digest c (after s t u p step) h =
      Step-keeps t u digest c step (Reaches-keeps s t digest c p h)

  -- In a content-addressed store, behind a `put_if_absent` that returned and whatever calls
  -- follow it, a `get` at the returned location that returns a content returns the one that was
  -- put.
  pub get-put_content :
      (payload : ArtifactPayload) (s t u w : store.State) (r : PutArtifactResult) (c : List ℕ)
      → store.put_if_absent payload s ≡ (ok r, t)
      → Reaches store t u
      → store.get r.artifact.location u ≡ (ok c, w)
      → c ≡ payload.content
  get-put_content payload s t u w r c put calls got =
      let named = ap sha256_from_key (v.put_names payload s t r put) in
      let key = sha256_from_key-key_of payload.sha256 (v.put_valid payload s t r put).form in
      let digest : hexdigest c ≡ payload.sha256 =
        cc (v.get_digest r.artifact.location u w c got, named, key) in
      let kept =
        Reaches-keeps t u payload.sha256 payload.content calls (v.put_holds payload s t r put) in
      let still = v.get_keeps r.artifact.location u payload.sha256 payload.content kept in
      let world = ap (λ (x : Stored (List ℕ) × store.State). store.holds x.1 payload.sha256) got in
      let found = v.get_holds r.artifact.location u w c got in
      cc (found, still, world, ap (store.holds w) digest)
