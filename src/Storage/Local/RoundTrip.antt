-- ===== src/Storage/Local/RoundTrip.antt =====
-- What `put_if_absent` stored is what `get` returns (src/mx_bank_monitor/ingestion/artifacts.py).
use mexican_banking_monitor.Base.{
  ℕ, ◌≡◌, refl, sym, subst, ◌∙◌, inl, inr, ◌⊎◌, Option, none, some, List, Text, text_eq, text_eq→,
  text_eq_refl, ok, err, require, require-eq-ok,
}
use mexican_banking_monitor.Storage.Errors.{corruption, backend_failed}
use mexican_banking_monitor.Storage.Keys.{key_of, sha256_from_key}
use mexican_banking_monitor.Storage.Keys.RoundTrip.{sha256_from_key-key_of}
use mexican_banking_monitor.Storage.Payloads.{
  local, ArtifactPayload, check_artifact_payload, StoredArtifactLocation, validate_location,
  StoredArtifact, PutArtifactResult, artifact_at, artifact_for,
}
use mexican_banking_monitor.Storage.Payloads.Laws.{
  IsPayload, check_artifact_payload-IsPayload, artifact_for-ok, own_files, validate_location-own,
}
use mexican_banking_monitor.Storage.Action.{◌>>=◌, ◌>>◌, lift, >>=-ok, lift-eq-ok}
use mexican_banking_monitor.Storage.FileSystem.{
  FileSystem, IsFileSystem, ReadOutcome, bytes, missing, read_failed,
}
use mexican_banking_monitor.Storage.Local.{
  store_at, resolved, target_path, prepare_parent, prepared_target_path, put_if_absent,
  read_content, read_bytes, get,
}
use mexican_banking_monitor.Storage.Local.Sound.{store_at-Holds}

module _ (hexdigest : List ℕ → Text) (fs : FileSystem) (v : IsFileSystem fs) where
  -- The stored artifact of a payload, and the file that holds it.
  pub record IsStored (payload : ArtifactPayload) (r : PutArtifactResult) (s : fs.State)
      : Type 0 where
    pub valid : IsPayload hexdigest payload
    pub artifact : r.artifact ≡ artifact_at local none payload (key_of payload.sha256)
    pub target : Text
    pub resolves : fs.resolve (key_of payload.sha256) ≡ some target
    pub held : fs.content s target ≡ some payload.content

  resolved-ok :
      (o : Option Text) (target : Text) → resolved hexdigest fs o ≡ ok target → o ≡ some target
  unfolding resolved
  resolved-ok none target h = cc h
  resolved-ok (some t) target h = cc h

  prepared_target_path-ok :
      (location : StoredArtifactLocation) (s s' : fs.State) (target : Text)
      → prepared_target_path hexdigest fs location s ≡ (ok target, s')
      → fs.resolve location.storage_key ≡ some target
  unfolding prepared_target_path
  prepared_target_path-ok location s s' target h =
      let (d, s1, e1, k1) = >>=-ok (lift (validate_location local location)) _ s h in
      let (u, s2, e2, k2) =
        >>=-ok (prepare_parent hexdigest fs location.storage_key)
          (λ _. lift (resolved hexdigest fs (fs.resolve location.storage_key))) s1 k1 in
      resolved-ok (fs.resolve location.storage_key) target (cc k2)

  -- Over file operations that keep their promises, where `put_if_absent` returns, the payload
  -- is sound, the artifact is named by its digest, and the file of that name holds the
  -- payload's content.
  pub put_if_absent-IsStored :
      (payload : ArtifactPayload) (s s' : fs.State) (r : PutArtifactResult)
      → put_if_absent hexdigest fs payload s ≡ (ok r, s')
      → IsStored payload r s'
  unfolding put_if_absent
  put_if_absent-IsStored payload s s' r h =
      let (u, s1, e1, k1) = >>=-ok (lift (check_artifact_payload hexdigest payload)) _ s h in
      let (artifact, s2, e2, k2) = >>=-ok (lift (artifact_for local none payload)) _ s1 k1 in
      let (target, s3, e3, k3) =
        >>=-ok (prepared_target_path hexdigest fs artifact.location)
          (λ t. store_at hexdigest fs t payload artifact) s2 k2 in
      let (held, same) = store_at-Holds hexdigest fs v target payload artifact r s3 s' k3 in
      let expected = artifact_for-ok local none payload artifact (cc e2) in
      record {
        valid = check_artifact_payload-IsPayload hexdigest payload (cc e1);
        artifact = same ∙ expected;
        target = target;
        resolves =
            subst (λ (a : StoredArtifact). fs.resolve a.location.storage_key ≡ some target) expected
              (prepared_target_path-ok artifact.location s2 s3 target e3);
        held = held;
      }

  -- A content that `get` returns is what the key's file holds, and has the key's digest; nothing has
  -- changed.
  pub record IsContent (location : StoredArtifactLocation) (s : fs.State) (content : List ℕ)
      : Type 0 where
    pub digest : sha256_from_key location.storage_key ≡ ok (hexdigest content)
    pub target : Text
    pub resolves : fs.resolve location.storage_key ≡ some target
    pub held : fs.content s target ≡ some content

  read_content-ok :
      (o : ReadOutcome) (c : List ℕ) → read_content hexdigest fs o ≡ ok c → o ≡ bytes c
  unfolding read_content
  read_content-ok (bytes b) c h = cc h
  read_content-ok missing c h = cc h
  read_content-ok read_failed c h = cc h

  pub get-IsContent :
      (location : StoredArtifactLocation) (s s' : fs.State) (content : List ℕ)
      → get hexdigest fs location s ≡ (ok content, s')
      → IsContent location s content × (s' ≡ s)
  unfolding get target_path read_bytes
  get-IsContent location s s' content h =
      let (target, s1, e1, k1) = >>=-ok (target_path hexdigest fs location) _ s h in
      let (d, e0, k0) =
        lift-eq-ok (validate_location local location)
          (λ _. lift (resolved hexdigest fs (fs.resolve location.storage_key))) s e1 in
      let (c, s2, e2, k2) = >>=-ok (read_bytes hexdigest fs target) _ s1 k1 in
      let (expected, found, k3) = lift-eq-ok (sha256_from_key location.storage_key) _ s2 k2 in
      let (u, test, k4) =
        lift-eq-ok (require (text_eq (hexdigest c) expected) corruption) (λ _. lift (ok c)) s2 k3 in
      let same : c ≡ content = cc k4 in
      let read_at : s1 ≡ s2 = cc e2 in
      let resolved_at : s ≡ s1 = cc in
      let ended : s2 ≡ s' = cc k4 in
      let world = resolved_at ∙ read_at ∙ ended in
      let digest : hexdigest c ≡ expected =
        text_eq→ _ _ (require-eq-ok (text_eq (hexdigest c) expected) corruption test) in
      let was_read : fs.read target s1 ≡ bytes c = read_content-ok (fs.read target s1) c (cc e2) in
      (
        record {
          digest = cc (found, digest, same);
          target = target;
          resolves = resolved-ok (fs.resolve location.storage_key) target cc;
          held =
              subst (λ (x : fs.State). fs.content x target ≡ some content) (sym resolved_at)
                (subst (λ (x : List ℕ). fs.content s1 target ≡ some x) same
                  (v.read_bytes target s1 c was_read));
        },
        sym world,
      )

  after_read :
      (payload : ArtifactPayload) (valid : IsPayload hexdigest payload) (s : fs.State)
      (target : Text) (o : ReadOutcome)
      → fs.read target s ≡ o
      → fs.content s target ≡ some payload.content
      → (get hexdigest fs (artifact_at local none payload (key_of payload.sha256)).location s ≡ (
          (lift (read_content hexdigest fs o) >>= λ content.
          lift (sha256_from_key (key_of payload.sha256)) >>= λ expected.
          lift (require (text_eq (hexdigest content) expected) corruption) >> lift (ok content))
            s))
      → (get hexdigest fs (artifact_at local none payload (key_of payload.sha256)).location s
          ≡ (ok payload.content, s))
        ⊎ (get hexdigest fs (artifact_at local none payload (key_of payload.sha256)).location s
            ≡ (err backend_failed, s))
  unfolding read_content
  after_read payload valid s target (bytes b) e held g =
      let same : b ≡ payload.content = cc (v.read_bytes target s b e, held) in
      inl (
        g
        ∙ rw (
          sha256_from_key-key_of payload.sha256 valid.form,
          same,
          valid.digest,
          text_eq_refl payload.sha256,
        ))
  after_read payload valid s target missing e held g = cc (v.read_missing target s e, held)
  after_read payload valid s target read_failed e held g = inr g

  -- Over file operations that keep their promises, behind a `put_if_absent` that returned,
  -- `get` at the location of its artifact returns the payload's content, unless the read itself
  -- fails.
  pub get-put_if_absent :
      (payload : ArtifactPayload) (s s' : fs.State) (r : PutArtifactResult)
      → put_if_absent hexdigest fs payload s ≡ (ok r, s')
      → (get hexdigest fs r.artifact.location s' ≡ (ok payload.content, s'))
        ⊎ (get hexdigest fs r.artifact.location s' ≡ (err backend_failed, s'))
  unfolding get target_path read_bytes resolved
  get-put_if_absent payload s s' r h =
      let w = put_if_absent-IsStored payload s s' r h in
      rw w.artifact (
        after_read payload w.valid s' w.target (fs.read w.target s') refl w.held
          (rw (validate_location-own local none payload own_files w.valid.form, w.resolves)))
