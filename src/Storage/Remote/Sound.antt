-- ===== src/Storage/Remote/Sound.antt =====
-- What the results of `SupabaseArtifactStore` say of the objects that the service holds
-- (src/mx_bank_monitor/ingestion/artifacts.py).
use mexican_banking_monitor.Base.{
  ℕ, zero, suc, ◌≡◌, refl, sym, subst, ap, ◌∙◌, Bool, true, false, ◌&&◌, inl, inr, Option, none,
  some, List, Text, text_eq, text_eq→, length, ok, err, require, require-eq-ok, Bool-cases,
  and_parts, ◌==◌,
}
use mexican_banking_monitor.Storage.Errors.{StoreError, Stored, corruption}
use mexican_banking_monitor.Storage.Keys.{key_of, sha256_from_key}
use mexican_banking_monitor.Storage.Payloads.{
  regulatory_artifacts_bucket, supabase, stored, reused, ArtifactPayload, check_artifact_payload,
  StoredArtifactLocation, validate_location, StoredArtifact, PutArtifactResult, put_result,
  artifact_at, artifact_for,
}
use mexican_banking_monitor.Storage.Payloads.Laws.{
  IsPayload, check_artifact_payload-IsPayload, artifact_for-ok,
}
use mexican_banking_monitor.Storage.Action.{Action, lift, >>=-ok}
use mexican_banking_monitor.Storage.Urls.{quoted_location, download_url}
use mexican_banking_monitor.Storage.Server.{
  Response, Server, IsServer, is_success, is_transient_status, error_code, code_among,
  duplicate_codes, response_error,
}
use mexican_banking_monitor.Storage.Local.{conflict_error}
use mexican_banking_monitor.Storage.Remote.{
  Settings, is_transient, is_not_found, unresolved, read_response, read_once, backoff, after_read,
  read_from, get, assert_remote_payload, handled, raising_unresolved, retrying, resolve_ambiguous,
  after_post, upload, create, put_if_absent,
}

pub read_response-ok :
    (o : Option Response) (c : List ℕ)
    → read_response o ≡ ok c
    → (r : Response) × (o ≡ some r) × (is_success r ≡ true) × (r.content ≡ c)
unfolding read_response
read_response-ok none c h = cc h
read_response-ok (some r) c h = elim (Bool-cases (is_success r)) [
  | inl a ↦
      let same : ◌≡◌ {A = Stored (List ℕ)} (ok r.content) (ok c) = rw a at h in
      (r, refl, a, cc same)
  | inr a ↦ elim (Bool-cases (is_transient_status r.status_code)) [
    | inl b ↦
        let no : ◌≡◌ {A = Stored (List ℕ)} (err StoreError.transient_failure) (ok c) =
          rw (a, b) at h in
        cc no
    | inr b ↦
        let no : ◌≡◌ {A = Stored (List ℕ)} (err (response_error r)) (ok c) = rw (a, b) at h in cc no
  ]
]

module _ (hexdigest : List ℕ → Text) (server : Server) (self : Settings)
    (v : IsServer self.supabase_url server) where
  -- The service holds the content under the location's name.
  abbrev pub HoldsAt : StoredArtifactLocation → List ℕ → server.State → Type 0
  HoldsAt location c s = server.content s (quoted_location location) ≡ some c

  read_once-HoldsAt :
      (location : StoredArtifactLocation) (s s' : server.State) (c : List ℕ)
      → read_once hexdigest server self location s ≡ (ok c, s')
      → HoldsAt location c s'
  unfolding read_once
  read_once-HoldsAt location s s' c h =
      let url = download_url self.supabase_url (quoted_location location) in
      let (r, e, a, same) = read_response-ok (server.fetch url self.secret_key s).0 c (cc h) in
      let world : (server.fetch url self.secret_key s).1 ≡ s' = cc h in
      subst (λ w. HoldsAt location c w) world
        (v.fetch_content self.secret_key (quoted_location location) r s e a ∙ ap some same)

  after_read-HoldsAt :
      (next : Action server.State (List ℕ)) (pause : server.State → server.State)
      (step : Stored (List ℕ) × server.State) (location : StoredArtifactLocation)
      (s' : server.State) (c : List ℕ)
      → ((w w' : server.State) → next w ≡ (ok c, w') → HoldsAt location c w')
      → ((w : server.State) → step ≡ (ok c, w) → HoldsAt location c w)
      → after_read hexdigest server self next pause step ≡ (ok c, s')
      → HoldsAt location c s'
  unfolding after_read
  after_read-HoldsAt next pause (ok content, w) location s' c n f h = f s' h
  after_read-HoldsAt next pause (err e, w) location s' c n f h =
      elim (Bool-cases (is_transient e)) [
        | inl a ↦ n (pause w) s' (rw a at h)
        | inr a ↦
            let no : ◌≡◌ {A = Stored (List ℕ) × server.State} (err e, w) (ok c, s') = rw a at h in
            cc no
      ]

  read_from-HoldsAt :
      (left attempt : ℕ) (location : StoredArtifactLocation) (s s' : server.State) (c : List ℕ)
      → read_from hexdigest server self left attempt location s ≡ (ok c, s')
      → HoldsAt location c s'
  unfolding read_from
  read_from-HoldsAt zero attempt location s s' c h = cc h
  read_from-HoldsAt (suc left) attempt location s s' c h =
      after_read-HoldsAt (read_from hexdigest server self left (suc attempt) location)
        (backoff hexdigest server self left attempt) (read_once hexdigest server self location s)
        location s' c (λ w w' k. read_from-HoldsAt left (suc attempt) location w w' c k)
        (λ w k. read_once-HoldsAt location s w c k) h

  pub get-HoldsAt :
      (location : StoredArtifactLocation) (s s' : server.State) (content : List ℕ)
      → get hexdigest server self location s ≡ (ok content, s')
      → (sha256_from_key location.storage_key ≡ ok (hexdigest content))
        × HoldsAt location content s'
  unfolding get
  get-HoldsAt location s s' content h =
      let (d, s1, e1, k1) = >>=-ok (lift (validate_location supabase location)) _ s h in
      let (c, s2, e2, k2) =
        >>=-ok (read_from hexdigest server self self.read_attempts 1 location) _ s1 k1 in
      let (expected, s3, e3, k3) = >>=-ok (lift (sha256_from_key location.storage_key)) _ s2 k2 in
      let (u, s4, e4, k4) =
        >>=-ok (lift (require (text_eq (hexdigest c) expected) corruption)) (λ _. lift (ok c)) s3
          k3 in
      let same : c ≡ content = cc k4 in
      let world : s2 ≡ s' = cc (e3, e4, k4) in
      let test : require (text_eq (hexdigest c) expected) corruption ≡ ok tt = cc e4 in
      let digest : hexdigest c ≡ expected =
        text_eq→ _ _ (require-eq-ok (text_eq (hexdigest c) expected) corruption test) in
      let found : sha256_from_key location.storage_key ≡ ok expected = cc e3 in
      (
        cc (found, digest, same),
        subst (λ x. HoldsAt location x s') same
            (subst (λ w. HoldsAt location c w) world
              (read_from-HoldsAt self.read_attempts 1 location s1 s2 c e2)),
      )

  assert_remote_payload-HoldsAt :
      (location : StoredArtifactLocation) (payload : ArtifactPayload) (b : Bool)
      (s s' : server.State)
      → assert_remote_payload hexdigest server self location payload b s ≡ (ok tt, s')
      → HoldsAt location payload.content s'
  unfolding assert_remote_payload
  assert_remote_payload-HoldsAt location payload b s s' h =
      let test : List ℕ → Bool =
        λ c. (length c == payload.byte_length) && text_eq c payload.content in
      let (c, s1, e1, k1) =
        >>=-ok (get hexdigest server self location)
          (λ c. lift (require (test c) (conflict_error b))) s h in
      let passed : require (test c) (conflict_error b) ≡ ok tt = cc k1 in
      let world : s1 ≡ s' = cc k1 in
      let same =
        text_eq→ c payload.content
          (and_parts _ _ (require-eq-ok (test c) (conflict_error b) passed)).1 in
      subst (λ w. HoldsAt location payload.content w) world
        (subst (λ x. HoldsAt location x s1) same (get-HoldsAt location s s1 c e1).1)

  -- The service holds the payload, and the result is the artifact's.
  abbrev pub IsPut : ArtifactPayload → StoredArtifact → PutArtifactResult → server.State → Type 0
  IsPut payload artifact r s = HoldsAt artifact.location payload.content s × (r.artifact ≡ artifact)

  handled-IsPut :
      (handler : StoreError → Action server.State PutArtifactResult) (result : PutArtifactResult)
      (b : Bool) (payload : ArtifactPayload) (artifact : StoredArtifact) (s s' : server.State)
      (step : Stored Unit × server.State) (r : PutArtifactResult)
      → result.artifact ≡ artifact
      → assert_remote_payload hexdigest server self artifact.location payload b s ≡ step
      → ((e : StoreError) (w : server.State)
          → handler e w ≡ (ok r, s')
          → IsPut payload artifact r s')
      → handled hexdigest server self handler result step ≡ (ok r, s')
      → IsPut payload artifact r s'
  handled-IsPut handler result b payload artifact s s' (ok u, w) r own e n h =
      let world : w ≡ s' = cc h in
      let same : result ≡ r = cc h in
      (
        assert_remote_payload-HoldsAt artifact.location payload b s s' (
            subst
              (λ x.
                assert_remote_payload hexdigest server self artifact.location payload b s
                ≡ (ok tt, x))
              world e),
        ap (λ (x : PutArtifactResult). x.artifact) (sym same) ∙ own,
      )
  handled-IsPut handler result b payload artifact s s' (err x, w) r own e n h = n x w h

  Sound : ArtifactPayload → StoredArtifact → Action server.State PutArtifactResult → Type 0
  Sound payload artifact action =
      (s s' : server.State) (r : PutArtifactResult)
      → action s ≡ (ok r, s')
      → IsPut payload artifact r s'

  retrying-IsPut :
      (again : Action server.State PutArtifactResult) (payload : ArtifactPayload)
      (artifact : StoredArtifact) (e : StoreError)
      → Sound payload artifact again
      → Sound payload artifact (retrying hexdigest server self again e)
  unfolding Sound
  retrying-IsPut again payload artifact e n s s' r h = elim (Bool-cases (is_not_found e)) [
    | inl a ↦ n s s' r (rw a at h)
    | inr a ↦
        let no : ◌≡◌ {A = Stored PutArtifactResult × server.State} (err (unresolved e), s)
            (ok r, s') =
          rw a at h in
        cc no
  ]

  resolve_ambiguous-IsPut :
      (again : Action server.State PutArtifactResult) (payload : ArtifactPayload)
      (artifact : StoredArtifact)
      → Sound payload artifact again
      → Sound payload artifact (resolve_ambiguous hexdigest server self again payload artifact)
  unfolding resolve_ambiguous Sound
  resolve_ambiguous-IsPut again payload artifact n s s' r h =
      handled-IsPut (retrying hexdigest server self again) (put_result artifact reused) false
        payload artifact s s' _ r refl refl
        (λ e w k. retrying-IsPut again payload artifact e n w s' r k) h

  after_post-IsPut :
      (again : Action server.State PutArtifactResult) (payload : ArtifactPayload)
      (artifact : StoredArtifact) (o : Option Response)
      → Sound payload artifact again
      → Sound payload artifact (after_post hexdigest server self again payload artifact o)
  unfolding after_post Sound
  after_post-IsPut again payload artifact none n s s' r h =
      resolve_ambiguous-IsPut again payload artifact n s s' r h
  after_post-IsPut again payload artifact (some response) n s s' r h =
      elim (Bool-cases (is_success response)) [
        | inl a ↦
            handled-IsPut (raising_unresolved hexdigest server self) (put_result artifact stored)
              false payload artifact s s' _ r refl refl (λ e w k. cc k) (rw a at h)
        | inr a ↦ elim (Bool-cases (code_among duplicate_codes (error_code response.json))) [
          | inl b ↦
              let (u, w, e, k) =
                >>=-ok (assert_remote_payload hexdigest server self artifact.location payload true)
                  (λ _. lift (ok (put_result artifact reused))) s (rw (a, b) at h) in
              handled-IsPut (raising_unresolved hexdigest server self) (put_result artifact reused)
                true payload artifact s s' (ok tt, w) r refl e (λ e w k. cc k) k
          | inr b ↦ elim (Bool-cases (is_transient_status response.status_code)) [
            | inl c ↦ resolve_ambiguous-IsPut again payload artifact n s s' r (rw (a, b, c) at h)
            | inr c ↦
                let no : ◌≡◌ {A = Stored PutArtifactResult × server.State}
                    (err (response_error response), s) (ok r, s') =
                  rw (a, b, c) at h in
                cc no
          ]
        ]
      ]

  create-IsPut :
      (left : ℕ) (payload : ArtifactPayload) (artifact : StoredArtifact)
      → Sound payload artifact (create hexdigest server self left payload artifact)
  unfolding create Sound
  create-IsPut zero payload artifact s s' r h = cc h
  create-IsPut (suc left) payload artifact s s' r h =
      after_post-IsPut (create hexdigest server self left payload artifact) payload artifact
        (upload hexdigest server self payload artifact s).0 (create-IsPut left payload artifact)
        (upload hexdigest server self payload artifact s).1 s' r h

  -- Where `put_if_absent` returns, whatever the answers were.
  pub record IsStoredRemotely (payload : ArtifactPayload) (r : PutArtifactResult) (s : server.State)
      : Type 0 where
    pub valid : IsPayload hexdigest payload
    pub artifact :
        r.artifact
        ≡ artifact_at supabase (some regulatory_artifacts_bucket) payload (key_of payload.sha256)
    pub held : HoldsAt r.artifact.location payload.content s

  -- Over a service that keeps its promises, where `put_if_absent` returns, the payload is
  -- sound, the artifact is named by its digest, and the service holds the payload's content
  -- under that name.
  pub put_if_absent-IsStoredRemotely :
      (payload : ArtifactPayload) (s s' : server.State) (r : PutArtifactResult)
      → put_if_absent hexdigest server self payload s ≡ (ok r, s')
      → IsStoredRemotely payload r s'
  unfolding put_if_absent Sound
  put_if_absent-IsStoredRemotely payload s s' r h =
      let bucket = some regulatory_artifacts_bucket in
      let (u, s1, e1, k1) = >>=-ok (lift (check_artifact_payload hexdigest payload)) _ s h in
      let (artifact, s2, e2, k2) =
        >>=-ok (lift (artifact_for supabase bucket payload))
          (λ a. create hexdigest server self self.create_attempts payload a) s1 k1 in
      let (held, same) = create-IsPut self.create_attempts payload artifact s2 s' r k2 in
      record {
        valid = check_artifact_payload-IsPayload hexdigest payload (cc e1);
        artifact = same ∙ artifact_for-ok supabase bucket payload artifact (cc e2);
        held =
            subst (λ (a : StoredArtifact). HoldsAt a.location payload.content s') (sym same) held;
      }
