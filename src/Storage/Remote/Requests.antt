-- ===== src/Storage/Remote/Requests.antt =====
-- How many requests `SupabaseArtifactStore` sends at most
-- (src/mx_bank_monitor/ingestion/artifacts.py).
use mexican_banking_monitor.Base.{
  ℕ, zero, suc, ◌+◌, ◌*◌, ◌≤◌, Bool, true, false, inl, inr, Option, none, some, List, Text, text_eq,
  ok, err, require, Bool-cases, arith,
}
use mexican_banking_monitor.Storage.Errors.{StoreError, Stored, corruption}
use mexican_banking_monitor.Storage.Keys.{sha256_from_key}
use mexican_banking_monitor.Storage.Payloads.{
  regulatory_artifacts_bucket, supabase, stored, reused, ArtifactPayload, check_artifact_payload,
  StoredArtifactLocation, validate_location, StoredArtifact, PutArtifactResult, put_result,
  artifact_for,
}
use mexican_banking_monitor.Storage.Action.{Action, ◌>>=◌, lift, continue}
use mexican_banking_monitor.Storage.Server.{
  Response, Server, is_success, is_transient_status, error_code, code_among, duplicate_codes,
}
use mexican_banking_monitor.Storage.Remote.{
  Settings, is_transient, is_not_found, read_once, sleep_unless_zero, backoff, after_read,
  read_from, get, assert_remote_payload, handled, raising_unresolved, retrying, resolve_ambiguous,
  after_post, upload, create, put_if_absent,
}

-- A counter of the requests: a request raises it by at most one, and a pause does not.
module _ (hexdigest : List ℕ → Text) (server : Server) (self : Settings) (sent : server.State → ℕ)
    (post_sent : (url key mime : Text) (body : List ℕ) (s : server.State)
      → sent (server.post url key mime body s).1 ≤ suc (sent s))
    (fetch_sent : (url key : Text) (s : server.State)
      → sent (server.fetch url key s).1 ≤ suc (sent s))
    (sleep_sent : (delay : ℕ) (s : server.State) → sent (server.sleep delay s) ≤ sent s) where
  -- The action sends at most n requests.
  abbrev pub Sends : {A : Type 0} → ℕ → Action server.State A → Type 0
  Sends n action = (s : server.State) → sent (action s).1 ≤ sent s + n

  Sends-lift : {A : Type 0} (x : Stored A) → Sends 0 (lift x)
  Sends-lift x s = omega arith

  continue-Sends :
      {A B : Type 0} (n m : ℕ) (step : Stored A × server.State) (next : A → Action server.State B)
      (s : server.State)
      → sent step.1 ≤ sent s + n
      → ((a : A) → Sends m (next a))
      → sent (continue step next).1 ≤ sent s + (n + m)
  continue-Sends n m (ok a, w) next s h k = omega (arith, h, k a w)
  continue-Sends n m (err e, w) next s h k = omega (arith, h)

  -- The rest costs what the chain does, where the first step sends nothing.
  lift-Sends :
      {A B : Type 0} (m : ℕ) (x : Stored A) (next : A → Action server.State B)
      → ((a : A) → Sends m (next a))
      → Sends m (lift x >>= next)
  lift-Sends m x next g s = omega (arith, continue-Sends 0 m (lift x s) next s (Sends-lift x s) g)

  -- The first step costs what the chain does, where the rest sends nothing.
  chain-Sends :
      {A B : Type 0} (n : ℕ) (action : Action server.State A) (next : A → Action server.State B)
      → Sends n action
      → ((a : A) → Sends 0 (next a))
      → Sends n (action >>= next)
  chain-Sends n action next f g s = omega (arith, continue-Sends n 0 (action s) next s (f s) g)

  sleep_unless_zero-Sends :
      (delay : ℕ) (s : server.State)
      → sent (sleep_unless_zero hexdigest server self delay s) ≤ sent s
  sleep_unless_zero-Sends zero s = omega arith
  sleep_unless_zero-Sends (suc delay) s = sleep_sent (suc delay) s

  backoff-Sends :
      (left attempt : ℕ) (s : server.State)
      → sent (backoff hexdigest server self left attempt s) ≤ sent s
  unfolding backoff
  backoff-Sends zero attempt s = omega arith
  backoff-Sends (suc left) attempt s = sleep_unless_zero-Sends _ s

  after_read-Sends :
      (n : ℕ) (next : Action server.State (List ℕ)) (pause : server.State → server.State)
      (s : server.State) (step : Stored (List ℕ) × server.State)
      → Sends n next
      → ((w : server.State) → sent (pause w) ≤ sent w)
      → sent step.1 ≤ suc (sent s)
      → sent (after_read hexdigest server self next pause step).1 ≤ sent s + suc n
  unfolding after_read
  after_read-Sends n next pause s (ok content, w) k p h = omega (arith, h)
  after_read-Sends n next pause s (err e, w) k p h = elim (Bool-cases (is_transient e)) [
    | inl a ↦ rw a (omega (arith, h, p w, k (pause w)))
    | inr a ↦ rw a (omega (arith, h))
  ]

  read_from-Sends :
      (left attempt : ℕ) (location : StoredArtifactLocation)
      → Sends left (read_from hexdigest server self left attempt location)
  unfolding read_from read_once
  read_from-Sends zero attempt location s = omega arith
  read_from-Sends (suc left) attempt location s =
      after_read-Sends left (read_from hexdigest server self left (suc attempt) location)
        (backoff hexdigest server self left attempt) s (read_once hexdigest server self location s)
        (read_from-Sends left (suc attempt) location) (backoff-Sends left attempt)
        (fetch_sent _ _ s)

  pub get-Sends :
      (location : StoredArtifactLocation)
      → Sends self.read_attempts (get hexdigest server self location)
  unfolding get
  get-Sends location =
      lift-Sends self.read_attempts (validate_location supabase location) _ (λ digest.
        chain-Sends self.read_attempts
          (read_from hexdigest server self self.read_attempts 1 location) _
          (read_from-Sends self.read_attempts 1 location)
          (λ content. lift-Sends 0 (sha256_from_key location.storage_key) _ (λ expected.
            lift-Sends 0 (require (text_eq (hexdigest content) expected) corruption)
              (λ _. lift (ok content)) (λ _. Sends-lift (ok content)))))

  assert_remote_payload-Sends :
      (location : StoredArtifactLocation) (payload : ArtifactPayload) (c : Bool)
      → Sends self.read_attempts (assert_remote_payload hexdigest server self location payload c)
  unfolding assert_remote_payload
  assert_remote_payload-Sends location payload c =
      chain-Sends self.read_attempts (get hexdigest server self location) _ (get-Sends location)
        (λ existing s. omega arith)

  handled-Sends :
      (n m : ℕ) (handler : StoreError → Action server.State PutArtifactResult)
      (r : PutArtifactResult) (s : server.State) (step : Stored Unit × server.State)
      → ((e : StoreError) → Sends m (handler e))
      → sent step.1 ≤ sent s + n
      → sent (handled hexdigest server self handler r step).1 ≤ sent s + (n + m)
  handled-Sends n m handler r s (ok done, w) k h = omega (arith, h)
  handled-Sends n m handler r s (err e, w) k h = omega (arith, h, k e w)

  retrying-Sends :
      (m : ℕ) (again : Action server.State PutArtifactResult) (e : StoreError)
      → Sends m again
      → Sends m (retrying hexdigest server self again e)
  retrying-Sends m again e n s = elim (Bool-cases (is_not_found e)) [
    | inl a ↦ rw a (n s)
    | inr a ↦ rw a (omega arith)
  ]

  resolve_ambiguous-Sends :
      (m : ℕ) (again : Action server.State PutArtifactResult) (payload : ArtifactPayload)
      (artifact : StoredArtifact)
      → Sends m again
      → Sends
          (self.read_attempts + m)
          (resolve_ambiguous hexdigest server self again payload artifact)
  unfolding resolve_ambiguous
  resolve_ambiguous-Sends m again payload artifact n s =
      handled-Sends self.read_attempts m (retrying hexdigest server self again)
        (put_result artifact reused) s _ (λ e. retrying-Sends m again e n)
        (assert_remote_payload-Sends artifact.location payload false s)

  after_post-Sends :
      (m : ℕ) (again : Action server.State PutArtifactResult) (payload : ArtifactPayload)
      (artifact : StoredArtifact) (o : Option Response)
      → Sends m again
      → Sends (self.read_attempts + m) (after_post hexdigest server self again payload artifact o)
  unfolding after_post
  after_post-Sends m again payload artifact none n s =
      resolve_ambiguous-Sends m again payload artifact n s
  after_post-Sends m again payload artifact (some response) n s =
      elim (Bool-cases (is_success response)) [
        | inl a ↦
            let verified =
              handled-Sends self.read_attempts 0 (raising_unresolved hexdigest server self)
                (put_result artifact stored) s
                (assert_remote_payload hexdigest server self artifact.location payload false s)
                (λ e s. omega arith)
                (assert_remote_payload-Sends artifact.location payload false s) in
            rw a (omega (arith, verified))
        | inr a ↦ elim (Bool-cases (code_among duplicate_codes (error_code response.json))) [
          | inl b ↦
              let compared =
                chain-Sends self.read_attempts
                  (assert_remote_payload hexdigest server self artifact.location payload true)
                  (λ _. lift (ok (put_result artifact reused)))
                  (assert_remote_payload-Sends artifact.location payload true)
                  (λ _. Sends-lift (ok (put_result artifact reused))) s in
              rw (a, b) (omega (arith, compared))
          | inr b ↦ elim (Bool-cases (is_transient_status response.status_code)) [
            | inl c ↦ rw (a, b, c) (resolve_ambiguous-Sends m again payload artifact n s)
            | inr c ↦ rw (a, b, c) (omega arith)
          ]
        ]
      ]

  create-Sends :
      (left : ℕ) (payload : ArtifactPayload) (artifact : StoredArtifact)
      → Sends (left * suc self.read_attempts) (create hexdigest server self left payload artifact)
  unfolding create upload
  create-Sends zero payload artifact s = omega arith
  create-Sends (suc left) payload artifact s = omega (
    arith,
    post_sent _ _ _ _ s,
    after_post-Sends (left * suc self.read_attempts)
        (create hexdigest server self left payload artifact) payload artifact
        (upload hexdigest server self payload artifact s).0 (create-Sends left payload artifact)
        (upload hexdigest server self payload artifact s).1,
  )

  -- Where a request counts for at most one and a pause for none, `put_if_absent` sends at most
  -- as many requests as there are uploads to attempt, each with its reads.
  pub put_if_absent-Sends :
      (payload : ArtifactPayload)
      → Sends
          (self.create_attempts * suc self.read_attempts)
          (put_if_absent hexdigest server self payload)
  unfolding put_if_absent
  put_if_absent-Sends payload =
      let most = self.create_attempts * suc self.read_attempts in
      lift-Sends most (check_artifact_payload hexdigest payload) _ (λ _.
        lift-Sends most (artifact_for supabase (some regulatory_artifacts_bucket) payload) _
          (λ artifact. create-Sends self.create_attempts payload artifact))
