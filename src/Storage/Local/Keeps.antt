-- ===== src/Storage/Local/Keeps.antt =====
-- The local store never changes or removes a file that is there
-- (src/mx_bank_monitor/ingestion/artifacts.py).
use mexican_banking_monitor.Base.{
  ℕ, ◌≡◌, ◌≢◌, refl, ap, ◌∙◌, inl, inr, Bool, true, false, Option, none, some, List, Text, text_eq,
  ok, err, require, Bool-cases,
}
use mexican_banking_monitor.Storage.Errors.{Stored, corruption}
use mexican_banking_monitor.Storage.Keys.{sha256_from_key}
use mexican_banking_monitor.Storage.Payloads.{
  local, ArtifactPayload, check_artifact_payload, StoredArtifactLocation, validate_location,
  StoredArtifact, artifact_for,
}
use mexican_banking_monitor.Storage.Action.{Action, ◌>>=◌, lift, Relates, >>=-Relates}
use mexican_banking_monitor.Storage.FileSystem.{
  FileSystem, IsFileSystem, LinkOutcome, linked, file_exists, link_failed,
}
use mexican_banking_monitor.Storage.Local.{
  reuse_existing, after_link, link_and_check, after_write, write_and_link, publish, store_at,
  target_path, prepare_parent, prepared_target_path, put_if_absent, read_bytes, get, verify,
}

module _ (hexdigest : List ℕ → Text) (fs : FileSystem) (v : IsFileSystem fs) where
  -- What holds a content before holds it behind.
  abbrev pub KeepsFiles : fs.State → fs.State → Type 0
  KeepsFiles s s' = (p : Text) (b : List ℕ) → fs.content s p ≡ some b → fs.content s' p ≡ some b

  KeepsFiles-refl : (s : fs.State) → KeepsFiles s s
  KeepsFiles-refl s p b h = h

  KeepsFiles-trans : (x y z : fs.State) → KeepsFiles x y → KeepsFiles y z → KeepsFiles x z
  KeepsFiles-trans x y z f g p b h = g p b (f p b h)

  continue-lift_state :
      {A B : Type 0} (x : Stored A) (w : Stored B) (s : fs.State)
      → ((lift x >>= λ _. lift w) s).1 ≡ s
  continue-lift_state (ok a) w s = refl
  continue-lift_state (err e) w s = refl

  after_link-eq_state :
      (outcome : LinkOutcome) (target : Text) (payload : ArtifactPayload)
      (artifact : StoredArtifact) (s : fs.State)
      → (after_link hexdigest fs outcome target payload artifact s).1 ≡ s
  unfolding after_link
  after_link-eq_state linked target payload artifact s = continue-lift_state _ _ s
  after_link-eq_state file_exists target payload artifact s = continue-lift_state _ _ s
  after_link-eq_state link_failed target payload artifact s = refl

  link_and_check-KeepsFiles :
      (t target : Text) (payload : ArtifactPayload) (artifact : StoredArtifact) (s : fs.State)
      → KeepsFiles s (link_and_check hexdigest fs t target payload artifact s).1
  unfolding link_and_check
  link_and_check-KeepsFiles t target payload artifact s p b h =
      ap (λ (w : fs.State). fs.content w p)
        (after_link-eq_state (fs.link t target s).0 target payload artifact (fs.link t target s).1)
      ∙ v.link_keeps t target p s b h

  after_write-KeepsFiles :
      (done : Bool) (t target : Text) (payload : ArtifactPayload) (artifact : StoredArtifact)
      (s : fs.State)
      → KeepsFiles s (after_write hexdigest fs done t target payload artifact s).1
  unfolding after_write
  after_write-KeepsFiles true t target payload artifact s =
      link_and_check-KeepsFiles t target payload artifact s
  after_write-KeepsFiles false t target payload artifact s = KeepsFiles-refl s

  -- Up to the removal, only the file of the temporary name changes.
  write_and_link_keeps :
      (t target : Text) (payload : ArtifactPayload) (artifact : StoredArtifact) (s : fs.State)
      (p : Text) (b : List ℕ)
      → fs.inode s t ≢ fs.inode s p
      → fs.content s p ≡ some b
      → fs.content (write_and_link hexdigest fs t target payload artifact s).1 p ≡ some b
  unfolding write_and_link
  write_and_link_keeps t target payload artifact s p b n h =
      after_write-KeepsFiles (fs.write t payload.content s).0 t target payload artifact
        (fs.write t payload.content s).1 p b (v.write_keeps t p payload.content s n ∙ h)

  publish-KeepsFiles :
      (temporary : Option Text) (target : Text) (payload : ArtifactPayload)
      (artifact : StoredArtifact) (s : fs.State)
      → (fs.make_temporary target s).0 ≡ temporary
      → KeepsFiles s
          (publish hexdigest fs temporary target payload artifact (fs.make_temporary target s).1).1
  unfolding publish
  publish-KeepsFiles none target payload artifact s e p b h = v.temporary_keeps target p s b h
  publish-KeepsFiles (some t) target payload artifact s e p b h =
      let n : t ≢ p = λ same. cc ((v.temporary_fresh target t s e).0, h, same) in
      v.unlink_keeps t p _ n
      ∙ write_and_link_keeps t target payload artifact (fs.make_temporary target s).1 p b
          (v.temporary_alone target t p s e n) (v.temporary_keeps target p s b h)

  store_at-KeepsFiles :
      (target : Text) (payload : ArtifactPayload) (artifact : StoredArtifact)
      → Relates KeepsFiles (store_at hexdigest fs target payload artifact)
  unfolding store_at reuse_existing
  store_at-KeepsFiles target payload artifact s p b h = elim (Bool-cases (fs.exists target s)) [
    | inl e ↦ rw e (ap (λ (w : fs.State). fs.content w p) (continue-lift_state _ _ s) ∙ h)
    | inr e ↦
        rw e
          (publish-KeepsFiles (fs.make_temporary target s).0 target payload artifact s refl p b h)
  ]

  chain-KeepsFiles :
      {A B : Type 0} (action : Action fs.State A) (next : A → Action fs.State B)
      → Relates KeepsFiles action
      → ((a : A) → Relates KeepsFiles (next a))
      → Relates KeepsFiles (action >>= next)
  chain-KeepsFiles action next f g = >>=-Relates KeepsFiles action next KeepsFiles-trans f g

  prepared_target_path-KeepsFiles :
      (location : StoredArtifactLocation)
      → Relates KeepsFiles (prepared_target_path hexdigest fs location)
  unfolding prepared_target_path
  prepared_target_path-KeepsFiles location =
      chain-KeepsFiles (lift (validate_location local location)) _ KeepsFiles-refl (λ digest.
        chain-KeepsFiles (prepare_parent hexdigest fs location.storage_key) _
          (λ s p b h. unfold prepare_parent in (v.directory_keeps location.storage_key p s ∙ h))
          (λ _. KeepsFiles-refl))

  -- Over file operations that keep their promises, whatever they refuse and whatever comes of
  -- it, `put_if_absent` leaves each file that was there before with its content.
  pub put_if_absent-KeepsFiles :
      (payload : ArtifactPayload) → Relates KeepsFiles (put_if_absent hexdigest fs payload)
  unfolding put_if_absent
  put_if_absent-KeepsFiles payload =
      chain-KeepsFiles (lift (check_artifact_payload hexdigest payload)) _ KeepsFiles-refl (λ _.
        chain-KeepsFiles (lift (artifact_for local none payload)) _ KeepsFiles-refl (λ artifact.
          chain-KeepsFiles (prepared_target_path hexdigest fs artifact.location) _
            (prepared_target_path-KeepsFiles artifact.location)
            (λ target. store_at-KeepsFiles target payload artifact)))

  target_path-KeepsFiles :
      (location : StoredArtifactLocation) → Relates KeepsFiles (target_path hexdigest fs location)
  unfolding target_path
  target_path-KeepsFiles location =
      chain-KeepsFiles (lift (validate_location local location)) _ KeepsFiles-refl
        (λ digest. KeepsFiles-refl)

  -- `get` changes no file.
  pub get-KeepsFiles :
      (location : StoredArtifactLocation) → Relates KeepsFiles (get hexdigest fs location)
  unfolding get read_bytes
  get-KeepsFiles location =
      chain-KeepsFiles (target_path hexdigest fs location) _ (target_path-KeepsFiles location)
        (λ target. chain-KeepsFiles (read_bytes hexdigest fs target) _ KeepsFiles-refl (λ content.
          chain-KeepsFiles (lift (sha256_from_key location.storage_key)) _ KeepsFiles-refl
            (λ expected.
              chain-KeepsFiles (lift (require (text_eq (hexdigest content) expected) corruption))
                (λ _. lift (ok content)) KeepsFiles-refl (λ _. KeepsFiles-refl))))

  -- Neither does `verify`.
  pub verify-KeepsFiles :
      (artifact : StoredArtifact) → Relates KeepsFiles (verify hexdigest fs artifact)
  unfolding verify
  verify-KeepsFiles artifact =
      chain-KeepsFiles (lift (validate_location local artifact.location)) _ KeepsFiles-refl
        (λ digest.
          chain-KeepsFiles (get hexdigest fs artifact.location) _ (get-KeepsFiles artifact.location)
            (λ content. KeepsFiles-refl))
