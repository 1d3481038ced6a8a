-- ===== src/Storage/Urls.antt =====
-- The addresses of objects: `_quoted_location`, `_upload_url` and `_download_url`
-- (src/mx_bank_monitor/ingestion/artifacts.py), with `urllib.parse.quote(segment, safe="")`.
use mexican_banking_monitor.Base.{
  ℕ, Bool, ◌||◌, Option, none, some, List, [], ◌∷◌, ◌++◌, map, Text, codes, between, ltb, ◌==◌, ◌+◌,
  ◌/◌, ◌%◌, if◌then◌else◌,
}
use mexican_banking_monitor.Storage.Payloads.{StoredArtifactLocation}

-- Letters, digits and `_.-~`.
unfoldable pub is_unreserved : ℕ → Bool
is_unreserved c =
    (between 97 122 c || (between 65 90 c || between 48 57 c))
    || (((c == b'_') || (c == b'.')) || ((c == b'-') || (c == b'~')))

unfoldable upper_hex : ℕ → ℕ
upper_hex d = if ltb d 10 then 48 + d else 55 + d

unfoldable percent : ℕ → Text
unfolding upper_hex
percent byte = b'%' ∷ upper_hex (byte / 16) ∷ upper_hex (byte % 16) ∷ []

-- One character as the escapes of its UTF-8 bytes.
unfoldable percent_encoded : ℕ → Text
unfolding percent
percent_encoded c =
    if ltb c 0x80
    then percent c
    else if ltb c 0x800
    then percent (0xc0 + c / 0x40) ++ percent (0x80 + c % 0x40)
    else if ltb c 0x10000
    then percent (0xe0 + c / 0x1000)
      ++ percent (0x80 + (c / 0x40) % 0x40)
      ++ percent (0x80 + c % 0x40)
    else percent (0xf0 + c / 0x40000)
      ++ percent (0x80 + (c / 0x1000) % 0x40)
      ++ percent (0x80 + (c / 0x40) % 0x40)
      ++ percent (0x80 + c % 0x40)

unfoldable pub quote : Text → Text
unfolding is_unreserved percent_encoded
quote [] = []
quote (c ∷ segment) = (if is_unreserved c then c ∷ [] else percent_encoded c) ++ quote segment

abbrev onto_first : ℕ → List Text → List Text
onto_first c [] = (c ∷ []) ∷ []
onto_first c (segment ∷ segments) = (c ∷ segment) ∷ segments

-- key.split("/")
unfoldable pub split_slashes : Text → List Text
split_slashes [] = [] ∷ []
split_slashes (c ∷ key) =
    let rest = split_slashes key in if c == b'/' then [] ∷ rest else onto_first c rest

-- "/".join(segments)
unfoldable pub join_slashes : List Text → Text
join_slashes [] = []
join_slashes (segment ∷ []) = segment
join_slashes (segment ∷ next ∷ segments) = segment ++ b'/' ∷ join_slashes (next ∷ segments)

-- A location without a bucket is refused before its address is asked for.
abbrev bucket_segment : Option Text → List Text
bucket_segment none = []
bucket_segment (some bucket) = bucket ∷ []

unfoldable pub quoted_location : StoredArtifactLocation → Text
unfolding quote split_slashes join_slashes
quoted_location location =
    join_slashes
      (map quote (bucket_segment location.storage_bucket ++ split_slashes location.storage_key))

abbrev pub upload_url : Text → Text → Text
upload_url supabase_url object = supabase_url ++ codes "/storage/v1/object/" ++ object

abbrev pub download_url : Text → Text → Text
download_url supabase_url object =
    supabase_url ++ codes "/storage/v1/object/authenticated/" ++ object
