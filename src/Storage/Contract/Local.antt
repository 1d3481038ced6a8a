-- ===== src/Storage/Contract/Local.antt =====
-- `LocalArtifactStore` (src/mx_bank_monitor/ingestion/artifacts.py) keeps the stores' promise.
use mexican_banking_monitor.Base.{
  ℕ, ◌≡◌, sym, ap, subst, ◌∙◌, Option, none, some, List, Text, length, ok, require, require-eq-ok,
  ◌==◌, ==_iff,
}
use mexican_banking_monitor.Storage.Errors.{corruption}
use mexican_banking_monitor.Storage.Action.{lift, >>=-ok, lift-eq-ok}
use mexican_banking_monitor.Storage.Keys.{key_of}
use mexican_banking_monitor.Storage.Keys.RoundTrip.{key_of-sha256_from_key}
use mexican_banking_monitor.Storage.Payloads.{
  local, ArtifactPayload, StoredArtifactLocation, StoredArtifact, PutArtifactResult,
  validate_location,
}
use mexican_banking_monitor.Storage.FileSystem.{FileSystem, IsFileSystem}
use mexican_banking_monitor.Storage.Local.{put_if_absent, get, verify}
use mexican_banking_monitor.Storage.Local.Keeps.{
  put_if_absent-KeepsFiles, get-KeepsFiles, verify-KeepsFiles,
}
use mexican_banking_monitor.Storage.Local.RoundTrip.{put_if_absent-IsStored, get-IsContent}
use mexican_banking_monitor.Storage.Contract.{
  ArtifactStore, IsContentAddressed, Reaches, get-put_content,
}

abbrev content_at : (fs : FileSystem) → fs.State → Option Text → Option (List ℕ)
content_at fs s none = none
content_at fs s (some target) = fs.content s target

-- The content of the file that a digest's key resolves to.
abbrev pub local_store : (List ℕ → Text) → FileSystem → ArtifactStore
local_store hexdigest fs = record {
  State = fs.State;
  holds = λ s digest. content_at fs s (fs.resolve (key_of digest));
  put_if_absent = put_if_absent hexdigest fs;
  get = get hexdigest fs;
  verify = verify hexdigest fs;
}

content_at-keeps :
    (fs : FileSystem) (s s' : fs.State) (o : Option Text) (c : List ℕ)
    → ((p : Text) (b : List ℕ) → fs.content s p ≡ some b → fs.content s' p ≡ some b)
    → content_at fs s o ≡ some c
    → content_at fs s' o ≡ some c
content_at-keeps fs s s' none c k h = h
content_at-keeps fs s s' (some target) c k h = k target c h

-- What `verify` accepts, `get` returns, with the length of the artifact.
verify-ok :
    (hexdigest : List ℕ → Text) (fs : FileSystem) (artifact : StoredArtifact) (s s' : fs.State)
    → verify hexdigest fs artifact s ≡ (ok tt, s')
    → (c : List ℕ) × (get hexdigest fs artifact.location s ≡ (ok c, s'))
      × (length c ≡ artifact.byte_length)
unfolding verify
verify-ok hexdigest fs artifact s s' h =
    let (d, e0, k0) = lift-eq-ok (validate_location local artifact.location) _ s h in
    let (c, w, e, k) =
      >>=-ok (get hexdigest fs artifact.location)
        (λ content. lift (require (length content == artifact.byte_length) corruption)) s k0 in
    let test : require (length c == artifact.byte_length) corruption ≡ ok tt = cc k in
    let world : w ≡ s' = cc k in
    (
      c,
      subst (λ x. get hexdigest fs artifact.location s ≡ (ok c, x)) world e,
      (==_iff (length c) artifact.byte_length).0
          (require-eq-ok (length c == artifact.byte_length) corruption test),
    )

-- What `get` returns is held under its digest.
get_content :
    (hexdigest : List ℕ → Text) (fs : FileSystem) (v : IsFileSystem fs)
    (location : StoredArtifactLocation) (s s' : fs.State) (c : List ℕ)
    → get hexdigest fs location s ≡ (ok c, s')
    → content_at fs s' (fs.resolve (key_of (hexdigest c))) ≡ some c
get_content hexdigest fs v location s s' c h =
    let (w, same) = get-IsContent hexdigest fs v location s s' c h in
    let key = (key_of-sha256_from_key location.storage_key (hexdigest c) w.digest).1 in
    ap (λ k. content_at fs s' (fs.resolve k)) (sym key)
    ∙ ap (content_at fs s') w.resolves
    ∙ ap (λ x. fs.content x w.target) same
    ∙ w.held

-- Over file operations that keep their promises, the local store is content-addressed: it holds
-- what it returned as stored under its digest, `get` returns what it holds, and no call removes
-- or changes a content.
pub local_store-IsContentAddressed :
    (hexdigest : List ℕ → Text) (fs : FileSystem)
    → IsFileSystem fs
    → IsContentAddressed hexdigest (local_store hexdigest fs)
local_store-IsContentAddressed hexdigest fs v = record {
  put_valid = λ payload s s' r h. (put_if_absent-IsStored hexdigest fs v payload s s' r h).valid;
  put_names = λ payload s s' r h.
      ap (λ (a : StoredArtifact). a.location.storage_key)
        (put_if_absent-IsStored hexdigest fs v payload s s' r h).artifact;
  put_holds = λ payload s s' r h.
      let w = put_if_absent-IsStored hexdigest fs v payload s s' r h in
      ap (content_at fs s') w.resolves ∙ w.held;
  put_keeps = λ payload s digest c h.
      content_at-keeps fs s _ (fs.resolve (key_of digest)) c
        (put_if_absent-KeepsFiles hexdigest fs v payload s) h;
  get_digest = λ location s s' c h. (get-IsContent hexdigest fs v location s s' c h).0.digest;
  get_holds = λ location s s' c h. get_content hexdigest fs v location s s' c h;
  get_keeps = λ location s digest c h.
      content_at-keeps fs s _ (fs.resolve (key_of digest)) c
        (get-KeepsFiles hexdigest fs v location s) h;
  verify_holds = λ artifact s s' h.
      let (c, got, whole) = verify-ok hexdigest fs artifact s s' h in
      let (w, same) = get-IsContent hexdigest fs v artifact.location s s' c got in
      (c, w.digest, get_content hexdigest fs v artifact.location s s' c got, whole);
  verify_keeps = λ artifact s digest c h.
      content_at-keeps fs s _ (fs.resolve (key_of digest)) c
        (verify-KeepsFiles hexdigest fs v artifact s) h;
}

-- Over file operations that keep their promises, behind a `put_if_absent` of the local store
-- that returned, and whatever calls of `put_if_absent`, `get` and `verify` follow it, a `get`
-- at the returned location that returns a content returns the one that was put.
pub local_get-put_if_absent :
    (hexdigest : List ℕ → Text) (fs : FileSystem) (v : IsFileSystem fs) (payload : ArtifactPayload)
    (s t u w : fs.State) (r : PutArtifactResult) (c : List ℕ)
    → put_if_absent hexdigest fs payload s ≡ (ok r, t)
    → Reaches (local_store hexdigest fs) t u
    → get hexdigest fs r.artifact.location u ≡ (ok c, w)
    → c ≡ payload.content
local_get-put_if_absent hexdigest fs v =
    get-put_content hexdigest (local_store hexdigest fs)
      (local_store-IsContentAddressed hexdigest fs v)
