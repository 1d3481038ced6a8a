-- ===== src/Storage/Remote/Raised.antt =====
-- What `SupabaseArtifactStore` raises (src/mx_bank_monitor/ingestion/artifacts.py).
use mexican_banking_monitor.Base.{
  ℕ, zero, suc, ◌≡◌, refl, sym, Bool, true, false, inl, inr, Option, none, some, List, Text,
  text_eq, ok, err, require, require-eq-err, arith, subst, Bool-cases,
}
use mexican_banking_monitor.Storage.Errors.{
  StoreError, Stored, corruption, is_integrity_error, is_store_error,
}
use mexican_banking_monitor.Storage.Keys.{key_of, sha256_from_key}
use mexican_banking_monitor.Storage.Payloads.{
  regulatory_artifacts_bucket, supabase, stored, reused, ArtifactPayload, check_artifact_payload,
  StoredArtifactLocation, validate_location, StoredArtifact, PutArtifactResult, put_result,
  artifact_at,
}
use mexican_banking_monitor.Storage.Payloads.Laws.{
  check_artifact_payload-IsPayload, own_bucket, validate_location-own, validate_location-digest,
  artifact_for-own,
}
use mexican_banking_monitor.Storage.Action.{Action, ◌>>=◌, lift, continue}
use mexican_banking_monitor.Storage.Urls.{quoted_location, download_url}
use mexican_banking_monitor.Storage.Server.{
  Response, Server, is_success, is_transient_status, error_code, code_among, duplicate_codes,
  response_error,
}
use mexican_banking_monitor.Storage.Local.{conflict_error}
use mexican_banking_monitor.Storage.Remote.{
  Settings, is_transient, is_not_found, unresolved, read_response, read_once, backoff, after_read,
  read_from, get, assert_remote_payload, handled, raising_unresolved, retrying, resolve_ambiguous,
  after_post, upload, create, put_if_absent,
}

-- An error of the store that its clients know: no defect of the payload or of the location, and not the
-- class for transient failures that the module keeps to itself.
abbrev pub is_public : StoreError → Bool
is_public StoreError.invalid_payload = false
is_public StoreError.invalid_location = false
is_public StoreError.transient_failure = false
is_public _ = true

unresolved-is_public : (e : StoreError) → is_public e ≡ true → is_public (unresolved e) ≡ true
unfolding unresolved is_integrity_error is_store_error
unresolved-is_public StoreError.invalid_payload h = cc
unresolved-is_public StoreError.invalid_location h = cc
unresolved-is_public StoreError.transient_failure h = cc
unresolved-is_public StoreError.not_found h = refl
unresolved-is_public StoreError.collision h = refl
unresolved-is_public StoreError.corruption h = refl
unresolved-is_public StoreError.backend_failed h = refl
unresolved-is_public StoreError.unauthorized h = refl
unresolved-is_public StoreError.write_outcome_unknown h = refl

response_error-is_public : (r : Response) → is_public (response_error r) ≡ true
unfolding response_error
response_error-is_public r = ground arith

conflict_error-is_public : (c : Bool) → is_public (conflict_error c) ≡ true
unfolding conflict_error
conflict_error-is_public true = refl
conflict_error-is_public false = refl

-- A read that fails does so transiently or with a public error.
read_response-eq-err :
    (o : Option Response) (e : StoreError)
    → read_response o ≡ err e
    → is_transient e ≡ false
    → is_public e ≡ true
unfolding read_response
read_response-eq-err none e h n =
    let t : StoreError.transient_failure ≡ e = cc h in
    let no : true ≡ false = subst (λ x. is_transient x ≡ false) (sym t) n in cc no
read_response-eq-err (some r) e h n = elim (Bool-cases (is_success r)) [
  | inl a ↦ let no : ◌≡◌ {A = Stored (List ℕ)} (ok r.content) (err e) = rw a at h in cc no
  | inr a ↦ elim (Bool-cases (is_transient_status r.status_code)) [
    | inl b ↦
        let raised : ◌≡◌ {A = Stored (List ℕ)} (err StoreError.transient_failure) (err e) =
          rw (a, b) at h in
        let t : StoreError.transient_failure ≡ e = cc raised in
        let no : true ≡ false = subst (λ x. is_transient x ≡ false) (sym t) n in cc no
    | inr b ↦
        let raised : ◌≡◌ {A = Stored (List ℕ)} (err (response_error r)) (err e) = rw (a, b) at h in
        let t : e ≡ response_error r = cc raised in rw t (response_error-is_public r)
  ]
]

module _ (hexdigest : List ℕ → Text) (server : Server) (self : Settings) where
  -- What the action raises is public.
  abbrev pub RaisesPublic : {A : Type 0} → Action server.State A → Type 0
  RaisesPublic action =
      (s s' : server.State) (e : StoreError) → action s ≡ (err e, s') → is_public e ≡ true

  continue-is_public :
      {A B : Type 0} (step : Stored A × server.State) (next : A → Action server.State B)
      (s' : server.State) (e : StoreError)
      → ((w : server.State) (x : StoreError) → step ≡ (err x, w) → is_public x ≡ true)
      → ((a : A) → RaisesPublic (next a))
      → continue step next ≡ (err e, s')
      → is_public e ≡ true
  continue-is_public (ok a, w) next s' e f g h = g a w s' e h
  continue-is_public (err x, w) next s' e f g h = f s' e (cc h)

  chain :
      {A B : Type 0} (action : Action server.State A) (next : A → Action server.State B)
      → RaisesPublic action
      → ((a : A) → RaisesPublic (next a))
      → RaisesPublic (action >>= next)
  chain action next f g s s' e h = continue-is_public (action s) next s' e (f s) g h

  lift-RaisesPublic :
      {A : Type 0} (x : Stored A)
      → ((e : StoreError) → x ≡ err e → is_public e ≡ true)
      → RaisesPublic (lift x)
  lift-RaisesPublic x f s s' e h = f e (cc h)

  after_read-is_public :
      (next : Action server.State (List ℕ)) (pause : server.State → server.State)
      (step : Stored (List ℕ) × server.State) (s' : server.State) (e : StoreError)
      → RaisesPublic next
      → ((w : server.State) (x : StoreError)
          → step ≡ (err x, w)
          → is_transient x ≡ false
          → is_public x ≡ true)
      → after_read hexdigest server self next pause step ≡ (err e, s')
      → is_public e ≡ true
  unfolding after_read
  after_read-is_public next pause (ok content, w) s' e n f h = cc h
  after_read-is_public next pause (err x, w) s' e n f h = elim (Bool-cases (is_transient x)) [
    | inl a ↦ n (pause w) s' e (rw a at h)
    | inr a ↦
        let raised : ◌≡◌ {A = Stored (List ℕ) × server.State} (err x, w) (err e, s') = rw a at h in
        let same : e ≡ x = cc raised in rw same (f w x refl a)
  ]

  read_from-RaisesPublic :
      (left attempt : ℕ) (location : StoredArtifactLocation)
      → RaisesPublic (read_from hexdigest server self left attempt location)
  unfolding read_from read_once
  read_from-RaisesPublic zero attempt location s s' e h =
      let same : e ≡ StoreError.backend_failed = cc h in rw same refl
  read_from-RaisesPublic (suc left) attempt location s s' e h =
      after_read-is_public (read_from hexdigest server self left (suc attempt) location)
        (backoff hexdigest server self left attempt) (read_once hexdigest server self location s) s'
        e (read_from-RaisesPublic left (suc attempt) location)
        (λ w x k n.
          read_response-eq-err
            (server.fetch (download_url self.supabase_url (quoted_location location))
              self.secret_key s).0
            x (cc k) n)
        h

  require-RaisesPublic :
      (c : Bool) (x : StoreError) → is_public x ≡ true → RaisesPublic (lift (require c x))
  require-RaisesPublic c x p =
      lift-RaisesPublic (require c x) (λ e h. rw (require-eq-err c x e h) p)

  -- At a location of the store.
  pub get-RaisesPublic :
      (location : StoredArtifactLocation) (digest : Text)
      → validate_location supabase location ≡ ok digest
      → RaisesPublic (get hexdigest server self location)
  unfolding get
  get-RaisesPublic location digest valid =
      chain (lift (validate_location supabase location)) _
        (lift-RaisesPublic (validate_location supabase location) (λ e h. cc (valid, h)))
        (λ d.
          chain (read_from hexdigest server self self.read_attempts 1 location) _
            (read_from-RaisesPublic self.read_attempts 1 location)
            (λ content.
              chain (lift (sha256_from_key location.storage_key)) _
                (lift-RaisesPublic (sha256_from_key location.storage_key)
                  (λ e h. cc (validate_location-digest supabase location digest valid, h)))
                (λ expected.
                  chain (lift (require (text_eq (hexdigest content) expected) corruption))
                    (λ _. lift (ok content))
                    (require-RaisesPublic (text_eq (hexdigest content) expected) corruption refl)
                    (λ _. lift-RaisesPublic (ok content) (λ e h. cc h)))))

  assert_remote_payload-RaisesPublic :
      (location : StoredArtifactLocation) (digest : Text) (payload : ArtifactPayload) (c : Bool)
      → validate_location supabase location ≡ ok digest
      → RaisesPublic (assert_remote_payload hexdigest server self location payload c)
  unfolding assert_remote_payload
  assert_remote_payload-RaisesPublic location digest payload c valid =
      chain (get hexdigest server self location) _ (get-RaisesPublic location digest valid)
        (λ existing. require-RaisesPublic _ (conflict_error c) (conflict_error-is_public c))

  handled-is_public :
      (handler : StoreError → Action server.State PutArtifactResult) (r : PutArtifactResult)
      (step : Stored Unit × server.State) (s' : server.State) (e : StoreError)
      → ((w : server.State) (x : StoreError) → step ≡ (err x, w) → is_public x ≡ true)
      → ((x : StoreError) → is_public x ≡ true → RaisesPublic (handler x))
      → handled hexdigest server self handler r step ≡ (err e, s')
      → is_public e ≡ true
  handled-is_public handler r (ok done, w) s' e f g h = cc h
  handled-is_public handler r (err x, w) s' e f g h = g x (f w x refl) w s' e h

  raising_unresolved-RaisesPublic :
      (x : StoreError)
      → is_public x ≡ true
      → RaisesPublic (raising_unresolved hexdigest server self x)
  raising_unresolved-RaisesPublic x p s s' e h =
      let same : e ≡ unresolved x = cc h in rw same (unresolved-is_public x p)

  retrying-RaisesPublic :
      (again : Action server.State PutArtifactResult) (x : StoreError)
      → RaisesPublic again
      → is_public x ≡ true
      → RaisesPublic (retrying hexdigest server self again x)
  retrying-RaisesPublic again x n p s s' e h = elim (Bool-cases (is_not_found x)) [
    | inl a ↦ n s s' e (rw a at h)
    | inr a ↦ raising_unresolved-RaisesPublic x p s s' e (rw a at h)
  ]

  module _ (payload : ArtifactPayload) (artifact : StoredArtifact) (digest : Text)
      (valid : validate_location supabase artifact.location ≡ ok digest) where
    resolve_ambiguous-RaisesPublic :
        (again : Action server.State PutArtifactResult)
        → RaisesPublic again
        → RaisesPublic (resolve_ambiguous hexdigest server self again payload artifact)
    unfolding resolve_ambiguous
    resolve_ambiguous-RaisesPublic again n s s' e h =
        handled-is_public (retrying hexdigest server self again) (put_result artifact reused) _ s' e
          (assert_remote_payload-RaisesPublic artifact.location digest payload false valid s)
          (λ x p. retrying-RaisesPublic again x n p) h

    after_post-RaisesPublic :
        (again : Action server.State PutArtifactResult) (o : Option Response)
        → RaisesPublic again
        → RaisesPublic (after_post hexdigest server self again payload artifact o)
    unfolding after_post
    after_post-RaisesPublic again none n s s' e h = resolve_ambiguous-RaisesPublic again n s s' e h
    after_post-RaisesPublic again (some response) n s s' e h =
        elim (Bool-cases (is_success response)) [
          | inl a ↦
              handled-is_public (raising_unresolved hexdigest server self)
                (put_result artifact stored) _ s' e
                (assert_remote_payload-RaisesPublic artifact.location digest payload false valid s)
                raising_unresolved-RaisesPublic (rw a at h)
          | inr a ↦ elim (Bool-cases (code_among duplicate_codes (error_code response.json))) [
            | inl b ↦
                chain (assert_remote_payload hexdigest server self artifact.location payload true)
                  (λ _. lift (ok (put_result artifact reused)))
                  (assert_remote_payload-RaisesPublic artifact.location digest payload true valid)
                  (λ _. lift-RaisesPublic (ok (put_result artifact reused)) (λ e h. cc h)) s s' e
                  (rw (a, b) at h)
            | inr b ↦ elim (Bool-cases (is_transient_status response.status_code)) [
              | inl c ↦ resolve_ambiguous-RaisesPublic again n s s' e (rw (a, b, c) at h)
              | inr c ↦
                  lift-RaisesPublic {A = PutArtifactResult} (err (response_error response))
                    (λ x k.
                      let same : x ≡ response_error response = cc k in
                      rw same (response_error-is_public response))
                    s s' e (rw (a, b, c) at h)
            ]
          ]
        ]

    create-RaisesPublic :
        (left : ℕ) → RaisesPublic (create hexdigest server self left payload artifact)
    unfolding create
    create-RaisesPublic zero s s' e h =
        let same : e ≡ StoreError.write_outcome_unknown = cc h in rw same refl
    create-RaisesPublic (suc left) s s' e h =
        after_post-RaisesPublic (create hexdigest server self left payload artifact)
          (upload hexdigest server self payload artifact s).0 (create-RaisesPublic left)
          (upload hexdigest server self payload artifact s).1 s' e h

  -- Given a sound payload, what `put_if_absent` raises is neither an invalid payload or
  -- location nor the internal class of transient failures.
  pub put_if_absent-RaisesPublic :
      (payload : ArtifactPayload)
      → check_artifact_payload hexdigest payload ≡ ok tt
      → RaisesPublic (put_if_absent hexdigest server self payload)
  unfolding put_if_absent
  put_if_absent-RaisesPublic payload sound s s' e h =
      let valid = check_artifact_payload-IsPayload hexdigest payload sound in
      let bucket = some regulatory_artifacts_bucket in
      let artifact = artifact_at supabase bucket payload (key_of payload.sha256) in
      create-RaisesPublic payload artifact payload.sha256
        (validate_location-own supabase bucket payload own_bucket valid.form) self.create_attempts s
        s' e (rw (sound, artifact_for-own hexdigest supabase bucket payload own_bucket valid) at h)
