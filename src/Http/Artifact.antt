-- ===== src/Http/Artifact.antt =====
-- `DownloadedArtifact.assert_extension` (src/mx_bank_monitor/ingestion/http.py). `lower` is `str.lower`.
use mexican_banking_monitor.Base.{
  ℕ, ◌+◌, Bool, true, false, not, ◌&&◌, ◌||◌, List, [], ◌∷◌, Text, codes, text_eq, Result, require,
  ◌>>◌, if◌then◌else◌, between, ◌==◌,
}
use mexican_banking_monitor.Http.Client.{DownloadedArtifact}

pub data InvalidArtifactError : Type 0 where
  not_xlsx not_pdf html_returned : InvalidArtifactError

unfoldable pub has_prefix : Text → List ℕ → Bool
has_prefix [] content = true
has_prefix (p ∷ prefix) [] = false
has_prefix (p ∷ prefix) (c ∷ content) = (p == c) && has_prefix prefix content

-- bytes.lstrip() and bytes.lower(), which know the characters of ASCII.
unfoldable pub lstrip_bytes : List ℕ → List ℕ
lstrip_bytes [] = []
lstrip_bytes (c ∷ content) =
    if (c == 32) || between 9 13 c then lstrip_bytes content else c ∷ content

unfoldable pub lower_bytes : List ℕ → List ℕ
lower_bytes [] = []
lower_bytes (c ∷ content) = (if between 65 90 c then c + 32 else c) ∷ lower_bytes content

unfoldable pub is_html : List ℕ → Bool
unfolding has_prefix lstrip_bytes lower_bytes
is_html content =
    let text = lower_bytes (lstrip_bytes content) in
    has_prefix (codes "<!doctype html") text || has_prefix (codes "<html") text

unfoldable pub assert_extension :
    (Text → Text) → DownloadedArtifact → Text → Result InvalidArtifactError Unit
unfolding has_prefix is_html
assert_extension lower self suffix = do
  require (not (text_eq (lower suffix) (codes ".xlsx")) || has_prefix (codes "PK") self.content)
      not_xlsx
  require (not (text_eq (lower suffix) (codes ".pdf")) || has_prefix (codes "%PDF") self.content)
      not_pdf
  require (not (is_html self.content)) html_returned
