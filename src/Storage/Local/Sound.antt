-- ===== src/Storage/Local/Sound.antt =====
-- What the local store's results say of the files behind them
-- (src/mx_bank_monitor/ingestion/artifacts.py).
use mexican_banking_monitor.Base.{
  ℕ, ◌≡◌, ◌≢◌, refl, sym, subst, ap, ◌∙◌, inl, inr, Bool, true, false, Option, none, some, List,
  Text, text_eq→, arith, ok, err, require-eq-ok, Bool-cases,
}
use mexican_banking_monitor.Storage.Errors.{Stored}
use mexican_banking_monitor.Storage.Payloads.{ArtifactPayload, StoredArtifact, PutArtifactResult}
use mexican_banking_monitor.Storage.Action.{◌>>◌, lift, >>=-ok}
use mexican_banking_monitor.Storage.FileSystem.{
  FileSystem, IsFileSystem, LinkOutcome, linked, file_exists, link_failed, ReadOutcome, bytes,
  missing, read_failed,
}
use mexican_banking_monitor.Storage.Local.{
  is_exact, conflict_error, exact_payload, assert_exact_payload, reuse_existing, after_link,
  link_and_check, after_write, write_and_link, removing, publish, store_at,
}

module _ (hexdigest : List ℕ → Text) (fs : FileSystem) (v : IsFileSystem fs) where
  -- The file holds the payload, and the result is the artifact's.
  abbrev pub Holds : Text → ArtifactPayload → StoredArtifact → PutArtifactResult → fs.State → Type 0
  Holds target payload artifact r s =
      (fs.content s target ≡ some payload.content) × (r.artifact ≡ artifact)

  pub exact_payload-ok :
      (payload : ArtifactPayload) (c : Bool) (o : ReadOutcome)
      → exact_payload hexdigest fs payload c o ≡ ok tt
      → o ≡ bytes payload.content
  unfolding exact_payload is_exact
  exact_payload-ok payload c (bytes existing) h =
      let e = require-eq-ok (is_exact hexdigest existing payload) (conflict_error c) h in
      ap bytes (text_eq→ existing payload.content (ground (arith, e)))
  exact_payload-ok payload c missing h = cc h
  exact_payload-ok payload c read_failed h = cc h

  -- An exact file, and the result that follows.
  checked-Holds :
      (target : Text) (payload : ArtifactPayload) (c : Bool) (artifact : StoredArtifact)
      (result r : PutArtifactResult) (s s' : fs.State)
      → result.artifact ≡ artifact
      → (assert_exact_payload hexdigest fs target payload c >> lift (ok result)) s ≡ (ok r, s')
      → Holds target payload artifact r s'
  unfolding assert_exact_payload
  checked-Holds target payload c artifact result r s s' a h =
      let (u, w, e, k) =
        >>=-ok (assert_exact_payload hexdigest fs target payload c) (λ _. lift (ok result)) s h in
      let checked : exact_payload hexdigest fs payload c (fs.read target s) ≡ ok tt = cc e in
      let same_world : s ≡ s' = cc (e, k) in
      let same : result ≡ r = cc k in
      (
        subst (λ (x : fs.State). fs.content x target ≡ some payload.content) same_world
            (v.read_bytes target s payload.content
              (exact_payload-ok payload c (fs.read target s) checked)),
        ap (λ (x : PutArtifactResult). x.artifact) (sym same) ∙ a,
      )

  after_link-Holds :
      (outcome : LinkOutcome) (target : Text) (payload : ArtifactPayload)
      (artifact : StoredArtifact) (r : PutArtifactResult) (s s' : fs.State)
      → after_link hexdigest fs outcome target payload artifact s ≡ (ok r, s')
      → Holds target payload artifact r s'
  unfolding after_link reuse_existing
  after_link-Holds linked target payload artifact r s s' h =
      checked-Holds target payload false artifact _ r s s' refl h
  after_link-Holds file_exists target payload artifact r s s' h =
      checked-Holds target payload true artifact _ r s s' refl h
  after_link-Holds link_failed target payload artifact r s s' h = cc h

  after_write-Holds :
      (done : Bool) (t target : Text) (payload : ArtifactPayload) (artifact : StoredArtifact)
      (r : PutArtifactResult) (s s' : fs.State)
      → after_write hexdigest fs done t target payload artifact s ≡ (ok r, s')
      → Holds target payload artifact r s'
  unfolding after_write link_and_check
  after_write-Holds true t target payload artifact r s s' h =
      after_link-Holds (fs.link t target s).0 target payload artifact r (fs.link t target s).1 s' h
  after_write-Holds false t target payload artifact r s s' h = cc h

  removing-Holds :
      (t target : Text) (payload : ArtifactPayload) (artifact : StoredArtifact)
      (r : PutArtifactResult) (step : Stored PutArtifactResult × fs.State) (s' : fs.State)
      → t ≢ target
      → ((r' : PutArtifactResult) (w : fs.State)
          → step ≡ (ok r', w)
          → Holds target payload artifact r' w)
      → removing hexdigest fs t step ≡ (ok r, s')
      → Holds target payload artifact r s'
  unfolding removing
  removing-Holds t target payload artifact r (ok r', w) s' n before h =
      let (held, same) = before r' w refl in
      let world : fs.unlink t w ≡ s' = cc h in
      let result : r' ≡ r = cc h in
      (
        subst (λ (x : fs.State). fs.content x target ≡ some payload.content) world
            (v.unlink_keeps t target w n ∙ held),
        ap (λ (x : PutArtifactResult). x.artifact) (sym result) ∙ same,
      )
  removing-Holds t target payload artifact r (err e, w) s' n before h = cc h

  publish-Holds :
      (temporary : Option Text) (target : Text) (payload : ArtifactPayload)
      (artifact : StoredArtifact) (r : PutArtifactResult) (s s' : fs.State)
      → (fs.make_temporary target s).0 ≡ temporary
      → publish hexdigest fs temporary target payload artifact (fs.make_temporary target s).1
        ≡ (ok r, s')
      → Holds target payload artifact r s'
  unfolding publish write_and_link
  publish-Holds none target payload artifact r s s' e h = cc h
  publish-Holds (some t) target payload artifact r s s' e h =
      removing-Holds t target payload artifact r _ s' (v.temporary_fresh target t s e).1
        (λ r' w k. after_write-Holds _ t target payload artifact r' _ w k) h

  pub store_at-Holds :
      (target : Text) (payload : ArtifactPayload) (artifact : StoredArtifact)
      (r : PutArtifactResult) (s s' : fs.State)
      → store_at hexdigest fs target payload artifact s ≡ (ok r, s')
      → Holds target payload artifact r s'
  unfolding store_at reuse_existing
  store_at-Holds target payload artifact r s s' h = elim (Bool-cases (fs.exists target s)) [
    | inl e ↦ checked-Holds target payload true artifact _ r s s' refl (rw e at h)
    | inr e ↦
        publish-Holds (fs.make_temporary target s).0 target payload artifact r s s' refl (rw e at h)
  ]
