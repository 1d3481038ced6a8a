-- ===== src/Storage/Tests/Service.antt =====
-- A storage service in memory, on which the Supabase store of
-- src/mx_bank_monitor/ingestion/artifacts.py runs in the tests.
use mexican_banking_monitor.Base.{
  ℕ, suc, ◌≤◌, ◌≡◌, ◌≢◌, refl, text_eq, text_eq→, if◌then◌else◌, sym, ap, ◌∙◌, true, Option, none,
  some, List, [], ◌++◌, Text, codes, arith,
}
use mexican_banking_monitor.Base.Json.{string, object, field, end}
use mexican_banking_monitor.Storage.Keys.{strip_prefix}
use mexican_banking_monitor.Storage.Keys.RoundTrip.{strip_prefix-append}
use mexican_banking_monitor.Storage.Urls.{download_url}
use mexican_banking_monitor.Storage.Server.{Response, Server, IsServer, is_success}

abbrev pub Contents : Type 0
Contents = Text → Option (List ℕ)

-- The contents with another one under a name.
unfoldable pub update : Text → Option (List ℕ) → Contents → Contents
update name c contents p = if text_eq name p then c else contents p

update-other :
    (name p : Text) (c : Option (List ℕ)) (contents : Contents)
    → name ≢ p
    → update name c contents p ≡ contents p
unfolding update
update-other name p c contents n = ground (arith, text_eq→ name p)

-- Where the name is new.
pub update-keeps :
    (name p : Text) (c : Option (List ℕ)) (b : List ℕ) (contents : Contents)
    → contents name ≡ none
    → contents p ≡ some b
    → update name c contents p ≡ some b
update-keeps name p c b contents free h =
    update-other name p c contents (λ same. cc (free, h, ap contents same)) ∙ h

abbrev pub base_url : Text
base_url = codes "https://example.supabase.co"

-- A status, a body and a code.
abbrev answer : ℕ → List ℕ → Text → Response
answer status body code = record {
  status_code = status;
  content = body;
  json = some (object (field (codes "code") (string code) end));
}

abbrev behind : Text → Option Text → Option Text
behind path none = none
behind path (some rest) = strip_prefix path rest

abbrev object_of : Text → Text → Option Text
object_of path url = behind path (strip_prefix base_url url)

abbrev found : Option (List ℕ) → Response
found none = answer 400 [] (codes "NoSuchKey")
found (some c) = answer 200 c (codes "ok")

abbrev fetched : Option Text → Contents → Response
fetched none contents = answer 404 [] (codes "NotFound")
fetched (some name) contents = found (contents name)

-- Contents and the number of requests.
abbrev create : Option (List ℕ) → Text → List ℕ → Contents → Response × Contents
create (some b) name body contents = (answer 409 [] (codes "KeyAlreadyExists"), contents)
create none name body contents = (answer 200 [] (codes "ok"), update name (some body) contents)

abbrev posted : Option Text → List ℕ → Contents → Response × Contents
posted none body contents = (answer 404 [] (codes "NotFound"), contents)
posted (some name) body contents = create (contents name) name body contents

abbrev counted : ℕ → Response × Contents → Option Response × (Contents × ℕ)
counted n (response, contents) = (some response, (contents, suc n))

abbrev download_path : Text
download_path = codes "/storage/v1/object/authenticated/"

abbrev pub memory_service : Server
memory_service = record {
  State = Contents × ℕ;
  content = λ s name. s.0 name;
  post = λ url key mime body s.
      counted s.1 (posted (object_of (codes "/storage/v1/object/") url) body s.0);
  fetch = λ url key s. (some (fetched (object_of download_path url) s.0), (s.0, suc s.1));
  sleep = λ delay s. s;
}

create-keeps :
    (o : Option (List ℕ)) (name p : Text) (body b : List ℕ) (contents : Contents)
    → contents name ≡ o
    → contents p ≡ some b
    → (create o name body contents).1 p ≡ some b
create-keeps (some x) name p body b contents e h = h
create-keeps none name p body b contents e h = update-keeps name p (some body) b contents e h

posted-keeps :
    (o : Option Text) (p : Text) (body b : List ℕ) (contents : Contents)
    → contents p ≡ some b
    → (posted o body contents).1 p ≡ some b
posted-keeps none p body b contents h = h
posted-keeps (some name) p body b contents h =
    create-keeps (contents name) name p body b contents refl h

found-content :
    (o : Option (List ℕ)) (r : Response) → found o ≡ r → is_success r ≡ true → o ≡ some r.content
unfolding is_success
found-content none r e h = cc (h, ap is_success e)
found-content (some c) r e h = ap (λ (x : Response). some x.content) e

object_of-download_url :
    (name : Text) → object_of download_path (download_url base_url name) ≡ some name
object_of-download_url name =
    ap (behind download_path) (strip_prefix-append base_url (download_path ++ name))
    ∙ strip_prefix-append download_path name

pub memory_service-IsServer : IsServer base_url memory_service
memory_service-IsServer = record {
  post_keeps = λ url key mime name body c s h.
      posted-keeps (object_of (codes "/storage/v1/object/") url) name body c s.0 h;
  fetch_keeps = λ url key name c s h. h;
  sleep_keeps = λ delay name c s h. h;
  fetch_content = λ key name r s e h.
      let came : fetched (object_of download_path (download_url base_url name)) s.0 ≡ r = cc e in
      found-content (s.0 name) r
        (sym (ap (λ o. fetched o s.0) (object_of-download_url name)) ∙ came) h;
}

pub post-sent :
    (url key mime : Text) (body : List ℕ) (s : Contents × ℕ)
    → (memory_service.post url key mime body s).1.1 ≤ suc s.1
post-sent url key mime body s = omega arith

pub fetch-sent :
    (url key : Text) (s : Contents × ℕ) → (memory_service.fetch url key s).1.1 ≤ suc s.1
fetch-sent url key s = omega arith

-- No request is answered; the state counts them.
abbrev pub unreachable_service : Server
unreachable_service = record {
  State = ℕ;
  content = λ s name. none;
  post = λ url key mime body s. (none, suc s);
  fetch = λ url key s. (none, suc s);
  sleep = λ delay s. s;
}
