-- ===== src/Storage/Contract/Remote.antt =====
-- `SupabaseArtifactStore` (src/mx_bank_monitor/ingestion/artifacts.py) keeps the stores' promise.
use mexican_banking_monitor.Base.{
  ℕ, ◌≡◌, sym, ap, subst, ◌∙◌, some, List, Text, length, ok, require, require-eq-ok, ◌==◌, ==_iff,
}
use mexican_banking_monitor.Storage.Errors.{corruption}
use mexican_banking_monitor.Storage.Keys.{key_of}
use mexican_banking_monitor.Storage.Payloads.{
  regulatory_artifacts_bucket, supabase, ArtifactPayload, PutArtifactResult, StoredArtifactLocation,
  StoredArtifact, validate_location,
}
use mexican_banking_monitor.Storage.Payloads.Laws.{
  own_bucket, validate_location_unique, validate_location-digest,
}
use mexican_banking_monitor.Storage.Action.{lift, >>=-ok, lift-eq-ok}
use mexican_banking_monitor.Storage.Urls.{quoted_location}
use mexican_banking_monitor.Storage.Server.{Server, IsServer}
use mexican_banking_monitor.Storage.Remote.{Settings, put_if_absent, get, verify}
use mexican_banking_monitor.Storage.Remote.Keeps.{
  put_if_absent-KeepsObjects, get-KeepsObjects, verify-KeepsObjects,
}
use mexican_banking_monitor.Storage.Remote.Sound.{get-HoldsAt, put_if_absent-IsStoredRemotely}
use mexican_banking_monitor.Storage.Contract.{
  ArtifactStore, IsContentAddressed, Reaches, get-put_content,
}

abbrev location_of : Text → StoredArtifactLocation
location_of digest = record {
  storage_backend = supabase;
  storage_bucket = some regulatory_artifacts_bucket;
  storage_key = key_of digest;
}

-- The content of the object that a digest's location names.
abbrev pub remote_store : (List ℕ → Text) → Server → Settings → ArtifactStore
remote_store hexdigest server self = record {
  State = server.State;
  holds = λ s digest. server.content s (quoted_location (location_of digest));
  put_if_absent = put_if_absent hexdigest server self;
  get = get hexdigest server self;
  verify = verify hexdigest server self;
}

-- A location from which `get` returns is the one of the content's digest.
get-location :
    (hexdigest : List ℕ → Text) (server : Server) (self : Settings)
    → IsServer self.supabase_url server
    → (location : StoredArtifactLocation) (s s' : server.State) (c : List ℕ)
    → get hexdigest server self location s ≡ (ok c, s')
    → location ≡ location_of (hexdigest c)
unfolding get
get-location hexdigest server self v location s s' c h =
    let (found, held) = get-HoldsAt hexdigest server self v location s s' c h in
    let (digest, s1, e, k) = >>=-ok (lift (validate_location supabase location)) _ s h in
    let valid : validate_location supabase location ≡ ok digest = cc e in
    let same : digest ≡ hexdigest c =
      cc (found, validate_location-digest supabase location digest valid) in
    validate_location_unique supabase (some regulatory_artifacts_bucket) location digest own_bucket
      valid
    ∙ ap location_of same

-- What `get` returns is held under its digest.
get_content :
    (hexdigest : List ℕ → Text) (server : Server) (self : Settings)
    (v : IsServer self.supabase_url server) (location : StoredArtifactLocation)
    (s s' : server.State) (c : List ℕ)
    → get hexdigest server self location s ≡ (ok c, s')
    → server.content s' (quoted_location (location_of (hexdigest c))) ≡ some c
get_content hexdigest server self v location s s' c h =
    ap (λ l. server.content s' (quoted_location l))
      (sym (get-location hexdigest server self v location s s' c h))
    ∙ (get-HoldsAt hexdigest server self v location s s' c h).1

-- What `verify` accepts, `get` returns, with the length of the artifact.
verify-ok :
    (hexdigest : List ℕ → Text) (server : Server) (self : Settings) (artifact : StoredArtifact)
    (s s' : server.State)
    → verify hexdigest server self artifact s ≡ (ok tt, s')
    → (c : List ℕ) × (get hexdigest server self artifact.location s ≡ (ok c, s'))
      × (length c ≡ artifact.byte_length)
unfolding verify
verify-ok hexdigest server self artifact s s' h =
    let (d, e0, k0) = lift-eq-ok (validate_location supabase artifact.location) _ s h in
    let (c, w, e, k) =
      >>=-ok (get hexdigest server self artifact.location)
        (λ content. lift (require (length content == artifact.byte_length) corruption)) s k0 in
    let test : require (length c == artifact.byte_length) corruption ≡ ok tt = cc k in
    let world : w ≡ s' = cc k in
    (
      c,
      subst (λ x. get hexdigest server self artifact.location s ≡ (ok c, x)) world e,
      (==_iff (length c) artifact.byte_length).0
          (require-eq-ok (length c == artifact.byte_length) corruption test),
    )

-- Over a service that keeps its promises, the Supabase store is content-addressed, whichever
-- requests the service fails to answer.
pub remote_store-IsContentAddressed :
    (hexdigest : List ℕ → Text) (server : Server) (self : Settings)
    → IsServer self.supabase_url server
    → IsContentAddressed hexdigest (remote_store hexdigest server self)
remote_store-IsContentAddressed hexdigest server self v = record {
  put_valid = λ payload s s' r h.
      (put_if_absent-IsStoredRemotely hexdigest server self v payload s s' r h).valid;
  put_names = λ payload s s' r h.
      ap (λ (a : StoredArtifact). a.location.storage_key)
        (put_if_absent-IsStoredRemotely hexdigest server self v payload s s' r h).artifact;
  put_holds = λ payload s s' r h.
      let w = put_if_absent-IsStoredRemotely hexdigest server self v payload s s' r h in
      ap (λ (a : StoredArtifact). server.content s' (quoted_location a.location)) (sym w.artifact)
      ∙ w.held;
  put_keeps = λ payload s digest c h.
      put_if_absent-KeepsObjects hexdigest server self v payload s
        (quoted_location (location_of digest)) c h;
  get_digest = λ location s s' c h. (get-HoldsAt hexdigest server self v location s s' c h).0;
  get_holds = λ location s s' c h. get_content hexdigest server self v location s s' c h;
  get_keeps = λ location s digest c h.
      get-KeepsObjects hexdigest server self v location s (quoted_location (location_of digest)) c
        h;
  verify_holds = λ artifact s s' h.
      let (c, got, whole) = verify-ok hexdigest server self artifact s s' h in
      (
        c,
        (get-HoldsAt hexdigest server self v artifact.location s s' c got).0,
        get_content hexdigest server self v artifact.location s s' c got,
        whole,
      );
  verify_keeps = λ artifact s digest c h.
      verify-KeepsObjects hexdigest server self v artifact s (quoted_location (location_of digest))
        c h;
}

-- Over a service that keeps its promises, behind a `put_if_absent` of the Supabase store that
-- returned, and whatever calls of `put_if_absent`, `get` and `verify` follow it, a `get` at the
-- returned location that returns a content returns the one that was put.
pub remote_get-put_if_absent :
    (hexdigest : List ℕ → Text) (server : Server) (self : Settings)
    (v : IsServer self.supabase_url server) (payload : ArtifactPayload) (s t u w : server.State)
    (r : PutArtifactResult) (c : List ℕ)
    → put_if_absent hexdigest server self payload s ≡ (ok r, t)
    → Reaches (remote_store hexdigest server self) t u
    → get hexdigest server self r.artifact.location u ≡ (ok c, w)
    → c ≡ payload.content
remote_get-put_if_absent hexdigest server self v =
    get-put_content hexdigest (remote_store hexdigest server self)
      (remote_store-IsContentAddressed hexdigest server self v)
