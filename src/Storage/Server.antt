-- ===== src/Storage/Server.antt =====
-- The storage service below `SupabaseArtifactStore` (src/mx_bank_monitor/ingestion/artifacts.py): the
-- HTTP requests that the store sends, any of which may fail, and what the service promises.
use mexican_banking_monitor.Base.{
  ℕ, ◌≡◌, Bool, true, false, ◌||◌, Option, none, some, List, [], ◌∷◌, Text, codes, text_eq,
  contains, ◌==◌, between, if◌then◌else◌,
}
use mexican_banking_monitor.Base.Json.{Json, string, object, Fields, end, field}
use mexican_banking_monitor.Storage.Errors.{StoreError, not_found, backend_failed, unauthorized}
use mexican_banking_monitor.Storage.Urls.{download_url}

-- `json` is `response.json()`, none where it raises.
pub record Response : Type 0 where
  pub status_code : ℕ
  pub content : List ℕ
  pub json : Option Json

-- A request that fails with a timeout or a transport error has no response. `content` is what the
-- service holds of an object, named by its bucket and key.
pub record Server : Type 1 where
  pub State : Type 0
  pub content : State → Text → Option (List ℕ)
  pub post : Text → Text → Text → List ℕ → State → Option Response × State
  pub fetch : Text → Text → State → Option Response × State
  pub sleep : ℕ → State → State

unfoldable pub is_success : Response → Bool
is_success response = between 200 299 response.status_code

unfoldable pub is_transient_status : ℕ → Bool
is_transient_status status = (status == 408) || ((status == 429) || between 500 599 status)

-- Objects stay as they are, since no request asks for an upsert; a successful download is of the object.
pub record IsServer (supabase_url : Text) (server : Server) : Type 0 where
  pub post_keeps :
      (url secret_key content_type object : Text) (body c : List ℕ) (s : server.State)
      → server.content s object ≡ some c
      → server.content (server.post url secret_key content_type body s).1 object ≡ some c
  pub fetch_keeps :
      (url secret_key object : Text) (c : List ℕ) (s : server.State)
      → server.content s object ≡ some c
      → server.content (server.fetch url secret_key s).1 object ≡ some c
  pub sleep_keeps :
      (delay : ℕ) (object : Text) (c : List ℕ) (s : server.State)
      → server.content s object ≡ some c
      → server.content (server.sleep delay s) object ≡ some c
  pub fetch_content :
      (secret_key object : Text) (response : Response) (s : server.State)
      → (server.fetch (download_url supabase_url object) secret_key s).0 ≡ some response
      → is_success response ≡ true
      → server.content (server.fetch (download_url supabase_url object) secret_key s).1 object
        ≡ some response.content

-- body.get(name), of a dictionary.
abbrev field_value : Text → Fields → Option Json
field_value name end = none
field_value name (field key value rest) =
    if text_eq key name then some value else field_value name rest

abbrev non_empty : Option Json → Option Text
non_empty (some (string (c ∷ value))) = some (c ∷ value)
non_empty _ = none

abbrev or_else : Option Text → Option Text → Option Text
or_else none other = other
or_else (some value) other = some value

-- `_error_code`
unfoldable pub error_code : Option Json → Option Text
error_code (some (object body)) =
    or_else (non_empty (field_value (codes "code") body))
      (non_empty (field_value (codes "error") body))
error_code _ = none

-- code in codes
abbrev pub code_among : List Text → Option Text → Bool
code_among allowed none = false
code_among allowed (some code) = contains code allowed

abbrev pub duplicate_codes : List Text
duplicate_codes =
    codes "ResourceAlreadyExists" ∷ codes "KeyAlreadyExists" ∷ codes "already_exists" ∷ []

abbrev pub authorization_codes : List Text
authorization_codes = codes "AccessDenied" ∷ codes "InvalidJWT" ∷ codes "unauthorized" ∷ []

-- The exception that `_raise_response_error` raises.
unfoldable pub response_error : Response → StoreError
unfolding error_code
response_error response =
    let code = error_code response.json in
    if ((response.status_code == 401) || (response.status_code == 403))
      || code_among authorization_codes code
    then unauthorized
    else if code_among (codes "NoSuchKey" ∷ []) code
    then not_found
    else backend_failed
