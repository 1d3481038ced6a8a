-- ===== src/Lib.antt =====
-- The Mexican banking monitor observes the releases that a regulator publishes, decides what each
-- one is in its family, keeps an editorial configuration, and guards its database's migrations.
-- This library models five parts of it and states what makes each of them correct.
--
-- Release discovery (src/mx_bank_monitor/ingestion/discovery.py) is Discovery. A discovered release
-- lists the artifacts to retrieve; the validated artifacts make an observed release, whose identity
-- is a hash of their roles and digests; `classify_release` compares it with the catalog's record of
-- its family, which has to be one chain of supersessions.
--   Discovery.Errors, Patterns, Summary: the exception classes, the patterns, `sanitize_summary`.
--   Discovery.Contracts, Records, Releases: the dataclasses as records, each `__post_init__` as a
--     `check_` function into `Checked`, which is a value or the exception's class.
--   Discovery.Identity: `artifact_set_identity_hash` and `release_identity_hash`. SHA-256 is the
--     parameter `hexdigest`; theorems that need it suppose that its values are 64 hexadecimal digits.
--   Discovery.Observe: `ObservedRelease` and `from_validated_artifacts`.
--   Discovery.Lineage: `_resolve_unique_head`. Its loop runs on fuel, one more than the number of
--     releases; a cycle is met before that.
--   Discovery.Classify: `classify_release`, with the checks of the objects that it builds.
--
-- Migration checks (scripts/validate_production_migrations.py) are Migrations.
--   Migrations.History: `validate_history`, by recursion on the rows.
--   Migrations.Listing: `parse_history_json` and `validate_dry_run`; `json.loads` is a parameter.
--   Migrations.Pending: the list that `_write_pending` writes and `read_pending_file` reads.
--   Migrations.Sql: `strip_sql_literals_and_comments`, a step of the loop for each state; the loop
--     runs on fuel, the text's length, since each round reads a character.
--
-- The configuration's contracts (src/mx_bank_monitor/config/models.py) are Config: each document's
-- model as a record, each `model_validator` as a function of its name. `str.casefold` is a parameter.
--
-- The artifact stores (src/mx_bank_monitor/ingestion/artifacts.py) are Storage. Content is kept under
-- its SHA-256, the parameter `hexdigest`. A store's method is an `Action`: a function of the world into
-- a value or an exception's class, and the world behind it.
--   Storage.Errors, Keys, Payloads: the exceptions, canonical keys, payloads and locations.
--   Storage.FileSystem, Local: `LocalArtifactStore` over file operations that are a parameter, each of
--     which may fail; `IsFileSystem` has what they promise. Names have inodes: a link shares the
--     content of its file, and a write to one name keeps only what other inodes hold.
--   Storage.Urls, Server, Remote: `SupabaseArtifactStore` over the requests to a service, a parameter
--     that may leave any of them unanswered; `IsServer` has what it promises. The read loop and the
--     recursion between `_create` and `_resolve_ambiguous` are by recursion on the attempts left.
--   Storage.Contract: what a client of `put_if_absent`, `get` and `verify` may rely on, which
--     both stores keep; Storage.Tests has a file
--     system and a service in memory.
--
-- The HTTP client (src/mx_bank_monitor/ingestion/http.py) is Http; `urljoin`, which may raise, `authorize` and
-- `str.casefold` are parameters, and the requests, pauses and clock a record `Network`.
--   Http.Headers, Body: the headers that are kept or required, and the body with its limits.
--   Http.Client: `retrieve`. The attempts of `_exchange` are by recursion on those left. The redirect
--     loop runs on fuel, one more than the redirects allowed; a target beyond them is refused before.
--   Http.Bounded, Outcome, Steps, Hops, Retrieval, Quiet, Contacted: what the steps and the loop return and contact.
--   Http.Artifact: `assert_extension`.
--
-- Base holds texts as lists of code points, JSON values with the compact `json.dumps`, regular
-- expressions with `fullmatch`, sorting, results of code that may raise, such code in a world that it
-- changes, and lists without repetition.
--
-- Not modelled: the checks of a value's Python type, which the types of the model make; the wording
-- of messages and what an HTTP error carries beside its class; the opening of clients and of the
-- stores' root, `download` and the closing of responses; the CNBV adapter, the configuration loader
-- and the domain's formulas; of the migration checks those on file names and forbidden statements,
-- and their command line. Field patterns that pydantic applies are not part of the records.
pub mod Base
pub mod Discovery
pub mod Migrations
pub mod Config
pub mod Storage
pub mod Http
