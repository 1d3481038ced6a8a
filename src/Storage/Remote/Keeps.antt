-- ===== src/Storage/Remote/Keeps.antt =====
-- `SupabaseArtifactStore` never changes or removes an object
-- (src/mx_bank_monitor/ingestion/artifacts.py).
use mexican_banking_monitor.Base.{
  ℕ, zero, suc, ◌≡◌, Bool, true, false, inl, inr, Option, none, some, List, Text, ok, err, require,
  text_eq, Bool-cases,
}
use mexican_banking_monitor.Storage.Errors.{StoreError, Stored, corruption}
use mexican_banking_monitor.Storage.Keys.{sha256_from_key}
use mexican_banking_monitor.Storage.Payloads.{
  regulatory_artifacts_bucket, supabase, reused, ArtifactPayload, check_artifact_payload,
  StoredArtifactLocation, validate_location, StoredArtifact, PutArtifactResult, put_result,
  artifact_for,
}
use mexican_banking_monitor.Storage.Action.{Action, ◌>>=◌, lift, Relates, >>=-Relates}
use mexican_banking_monitor.Storage.Server.{
  Response, Server, IsServer, is_success, is_transient_status, error_code, code_among,
  duplicate_codes,
}
use mexican_banking_monitor.Storage.Remote.{
  Settings, is_transient, is_not_found, read_once, sleep_unless_zero, backoff, after_read,
  read_from, get, verify, assert_remote_payload, handled, retrying, resolve_ambiguous, after_post,
  upload, create, put_if_absent,
}

-- A relation of states that every request and every pause respects is respected by the store.
module _ (hexdigest : List ℕ → Text) (server : Server) (self : Settings)
    (R : server.State → server.State → Type 0) (R_refl : (s : server.State) → R s s)
    (R_trans : (x y z : server.State) → R x y → R y z → R x z)
    (post_R : (url key mime : Text) (body : List ℕ) (s : server.State)
      → R s (server.post url key mime body s).1)
    (fetch_R : (url key : Text) (s : server.State) → R s (server.fetch url key s).1)
    (sleep_R : (delay : ℕ) (s : server.State) → R s (server.sleep delay s)) where
  chain :
      {A B : Type 0} (action : Action server.State A) (next : A → Action server.State B)
      → Relates R action
      → ((a : A) → Relates R (next a))
      → Relates R (action >>= next)
  chain action next f g = >>=-Relates R action next R_trans f g

  sleep_unless_zero-R :
      (delay : ℕ) (s : server.State) → R s (sleep_unless_zero hexdigest server self delay s)
  sleep_unless_zero-R zero s = R_refl s
  sleep_unless_zero-R (suc delay) s = sleep_R (suc delay) s

  backoff-R :
      (left attempt : ℕ) (s : server.State) → R s (backoff hexdigest server self left attempt s)
  unfolding backoff
  backoff-R zero attempt s = R_refl s
  backoff-R (suc left) attempt s = sleep_unless_zero-R _ s

  read_once-R :
      (location : StoredArtifactLocation) → Relates R (read_once hexdigest server self location)
  unfolding read_once
  read_once-R location s = fetch_R _ _ s

  after_read-R :
      (next : Action server.State (List ℕ)) (pause : server.State → server.State) (s : server.State)
      (step : Stored (List ℕ) × server.State)
      → Relates R next
      → ((w : server.State) → R w (pause w))
      → R s step.1
      → R s (after_read hexdigest server self next pause step).1
  unfolding after_read
  after_read-R next pause s (ok content, w) n p h = h
  after_read-R next pause s (err e, w) n p h = elim (Bool-cases (is_transient e)) [
    | inl a ↦ rw a (R_trans s w _ h (R_trans w (pause w) _ (p w) (n (pause w))))
    | inr a ↦ rw a h
  ]

  read_from-R :
      (left attempt : ℕ) (location : StoredArtifactLocation)
      → Relates R (read_from hexdigest server self left attempt location)
  unfolding read_from
  read_from-R zero attempt location s = R_refl s
  read_from-R (suc left) attempt location s =
      after_read-R (read_from hexdigest server self left (suc attempt) location)
        (backoff hexdigest server self left attempt) s _ (read_from-R left (suc attempt) location)
        (backoff-R left attempt) (read_once-R location s)

  pub get-Relates :
      (location : StoredArtifactLocation) → Relates R (get hexdigest server self location)
  unfolding get
  get-Relates location = chain (lift (validate_location supabase location)) _ R_refl (λ digest.
      chain (read_from hexdigest server self self.read_attempts 1 location) _
        (read_from-R self.read_attempts 1 location)
        (λ content. chain (lift (sha256_from_key location.storage_key)) _ R_refl (λ expected.
          chain (lift (require (text_eq (hexdigest content) expected) corruption))
            (λ _. lift (ok content)) R_refl (λ _. R_refl))))

  pub verify-Relates :
      (artifact : StoredArtifact) → Relates R (verify hexdigest server self artifact)
  unfolding verify
  verify-Relates artifact =
      chain (lift (validate_location supabase artifact.location)) _ R_refl (λ digest.
        chain (get hexdigest server self artifact.location) _ (get-Relates artifact.location)
          (λ content. R_refl))

  assert_remote_payload-R :
      (location : StoredArtifactLocation) (payload : ArtifactPayload) (c : Bool)
      → Relates R (assert_remote_payload hexdigest server self location payload c)
  unfolding assert_remote_payload
  assert_remote_payload-R location payload c =
      chain (get hexdigest server self location) _ (get-Relates location) (λ existing. R_refl)

  handled-R :
      (handler : StoreError → Action server.State PutArtifactResult) (r : PutArtifactResult)
      (s : server.State) (step : Stored Unit × server.State)
      → ((e : StoreError) → Relates R (handler e))
      → R s step.1
      → R s (handled hexdigest server self handler r step).1
  handled-R handler r s (ok done, w) n h = h
  handled-R handler r s (err e, w) n h = R_trans s w _ h (n e w)

  retrying-R :
      (again : Action server.State PutArtifactResult) (e : StoreError)
      → Relates R again
      → Relates R (retrying hexdigest server self again e)
  retrying-R again e n s = elim (Bool-cases (is_not_found e)) [
    | inl a ↦ rw a (n s)
    | inr a ↦ rw a (R_refl s)
  ]

  resolve_ambiguous-R :
      (again : Action server.State PutArtifactResult) (payload : ArtifactPayload)
      (artifact : StoredArtifact)
      → Relates R again
      → Relates R (resolve_ambiguous hexdigest server self again payload artifact)
  unfolding resolve_ambiguous
  resolve_ambiguous-R again payload artifact n s =
      handled-R _ _ s _ (λ e. retrying-R again e n)
        (assert_remote_payload-R artifact.location payload false s)

  after_post-R :
      (again : Action server.State PutArtifactResult) (payload : ArtifactPayload)
      (artifact : StoredArtifact) (o : Option Response)
      → Relates R again
      → Relates R (after_post hexdigest server self again payload artifact o)
  unfolding after_post
  after_post-R again payload artifact none n s = resolve_ambiguous-R again payload artifact n s
  after_post-R again payload artifact (some response) n s =
      elim (Bool-cases (is_success response)) [
        | inl a ↦ rw a (
            handled-R _ _ s _ (λ e. R_refl)
              (assert_remote_payload-R artifact.location payload false s))
        | inr a ↦ elim (Bool-cases (code_among duplicate_codes (error_code response.json))) [
          | inl b ↦
              rw (a, b)
                (chain (assert_remote_payload hexdigest server self artifact.location payload true)
                  (λ _. lift (ok (put_result artifact reused)))
                  (assert_remote_payload-R artifact.location payload true) (λ _. R_refl) s)
          | inr b ↦ elim (Bool-cases (is_transient_status response.status_code)) [
            | inl c ↦ rw (a, b, c) (resolve_ambiguous-R again payload artifact n s)
            | inr c ↦ rw (a, b, c) (R_refl s)
          ]
        ]
      ]

  create-R :
      (left : ℕ) (payload : ArtifactPayload) (artifact : StoredArtifact)
      → Relates R (create hexdigest server self left payload artifact)
  unfolding create upload
  create-R zero payload artifact s = R_refl s
  create-R (suc left) payload artifact s = R_trans s _ _ (post_R _ _ _ _ s) (
      after_post-R (create hexdigest server self left payload artifact) payload artifact
        (upload hexdigest server self payload artifact s).0 (create-R left payload artifact)
        (upload hexdigest server self payload artifact s).1)

  pub put_if_absent-Relates :
      (payload : ArtifactPayload) → Relates R (put_if_absent hexdigest server self payload)
  unfolding put_if_absent
  put_if_absent-Relates payload =
      chain (lift (check_artifact_payload hexdigest payload)) _ R_refl (λ _.
        chain (lift (artifact_for supabase (some regulatory_artifacts_bucket) payload)) _ R_refl
          (λ artifact. create-R self.create_attempts payload artifact))

module _ (hexdigest : List ℕ → Text) (server : Server) (self : Settings)
    (v : IsServer self.supabase_url server) where
  abbrev pub KeepsObjects : server.State → server.State → Type 0
  KeepsObjects s s' =
      (p : Text) (c : List ℕ) → server.content s p ≡ some c → server.content s' p ≡ some c

  pub put_if_absent-KeepsObjects :
      (payload : ArtifactPayload)
      → Relates KeepsObjects (put_if_absent hexdigest server self payload)
  put_if_absent-KeepsObjects =
      put_if_absent-Relates hexdigest server self KeepsObjects (λ s p c h. h)
        (λ x y z f g p c h. g p c (f p c h))
        (λ url key mime body s p c h. v.post_keeps url key mime p body c s h)
        (λ url key s p c h. v.fetch_keeps url key p c s h)
        (λ delay s p c h. v.sleep_keeps delay p c s h)

  pub get-KeepsObjects :
      (location : StoredArtifactLocation)
      → Relates KeepsObjects (get hexdigest server self location)
  get-KeepsObjects =
      get-Relates hexdigest server self KeepsObjects (λ s p c h. h)
        (λ x y z f g p c h. g p c (f p c h))
        (λ url key mime body s p c h. v.post_keeps url key mime p body c s h)
        (λ url key s p c h. v.fetch_keeps url key p c s h)
        (λ delay s p c h. v.sleep_keeps delay p c s h)

  pub verify-KeepsObjects :
      (artifact : StoredArtifact) → Relates KeepsObjects (verify hexdigest server self artifact)
  verify-KeepsObjects =
      verify-Relates hexdigest server self KeepsObjects (λ s p c h. h)
        (λ x y z f g p c h. g p c (f p c h))
        (λ url key mime body s p c h. v.post_keeps url key mime p body c s h)
        (λ url key s p c h. v.fetch_keeps url key p c s h)
        (λ delay s p c h. v.sleep_keeps delay p c s h)
