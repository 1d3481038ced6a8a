-- ===== src/Discovery/Errors.antt =====
-- The exception classes of ingestion/discovery.py, their codes and their bases.
use mexican_banking_monitor.Base.{Bool, true, false, Text, codes, Result}

pub data ErrorKind : Type 0 where
  discovery_failed contract_invalid source_contract_invalid url_unofficial : ErrorKind
  lineage_ambiguous retrieval_failed tls_untrusted transport_failed http_status : ErrorKind
  not_found redirect_invalid content_encoding_unsupported too_large : ErrorKind
  length_mismatch content_invalid empty_artifact html_response media_type_unexpected : ErrorKind
  signature_invalid layout_drift : ErrorKind

-- `code` of the class
unfoldable pub error_code : ErrorKind → Text
error_code ErrorKind.discovery_failed = codes "discovery_failed"
error_code ErrorKind.contract_invalid = codes "discovery_contract_invalid"
error_code ErrorKind.source_contract_invalid = codes "source_contract_invalid"
error_code ErrorKind.url_unofficial = codes "artifact_url_unofficial"
error_code ErrorKind.lineage_ambiguous = codes "release_lineage_ambiguous"
error_code ErrorKind.retrieval_failed = codes "artifact_retrieval_failed"
error_code ErrorKind.tls_untrusted = codes "artifact_tls_untrusted"
error_code ErrorKind.transport_failed = codes "artifact_transport_failed"
error_code ErrorKind.http_status = codes "artifact_http_status"
error_code ErrorKind.not_found = codes "artifact_not_found"
error_code ErrorKind.redirect_invalid = codes "artifact_redirect_invalid"
error_code ErrorKind.content_encoding_unsupported = codes "artifact_content_encoding_unsupported"
error_code ErrorKind.too_large = codes "artifact_too_large"
error_code ErrorKind.length_mismatch = codes "artifact_length_mismatch"
error_code ErrorKind.content_invalid = codes "artifact_content_invalid"
error_code ErrorKind.empty_artifact = codes "artifact_empty"
error_code ErrorKind.html_response = codes "artifact_html_response"
error_code ErrorKind.media_type_unexpected = codes "artifact_media_type_unexpected"
error_code ErrorKind.signature_invalid = codes "artifact_signature_invalid"
error_code ErrorKind.layout_drift = codes "source_layout_drift"

-- `default_summary` of the class
unfoldable pub default_summary : ErrorKind → Text
default_summary ErrorKind.discovery_failed = codes "Release discovery failed."
default_summary ErrorKind.contract_invalid = codes "The discovery contract was violated."
default_summary ErrorKind.source_contract_invalid =
    codes "The source definition or observation violates the source contract."
default_summary ErrorKind.url_unofficial =
    codes "The artifact URL is outside the official source authority."
default_summary ErrorKind.lineage_ambiguous =
    codes "The release lineage is ambiguous or inconsistent."
default_summary ErrorKind.retrieval_failed = codes "The artifact could not be retrieved."
default_summary ErrorKind.tls_untrusted =
    codes "The artifact host TLS certificate could not be verified."
default_summary ErrorKind.transport_failed =
    codes "The artifact request failed at the transport level."
default_summary ErrorKind.http_status =
    codes "The artifact request returned an unexpected HTTP status."
default_summary ErrorKind.not_found = codes "The artifact URL returned HTTP 404."
default_summary ErrorKind.redirect_invalid =
    codes "The artifact request returned an invalid redirect."
default_summary ErrorKind.content_encoding_unsupported =
    codes "The artifact response used an unsupported content encoding."
default_summary ErrorKind.too_large = codes "The artifact exceeds the configured byte limit."
default_summary ErrorKind.length_mismatch =
    codes "The received artifact length differs from Content-Length."
default_summary ErrorKind.content_invalid = codes "The artifact content failed validation."
default_summary ErrorKind.empty_artifact = codes "The artifact response contained no bytes."
default_summary ErrorKind.html_response =
    codes "The artifact response contained HTML instead of a data artifact."
default_summary ErrorKind.media_type_unexpected =
    codes "The artifact declared a media type incompatible with its format."
default_summary ErrorKind.signature_invalid =
    codes "The artifact bytes do not match the expected format signature."
default_summary ErrorKind.layout_drift =
    codes "The artifact structure differs from the frozen source layout."

-- isinstance(error, ArtifactRetrievalError)
unfoldable pub is_retrieval_error : ErrorKind → Bool
is_retrieval_error ErrorKind.retrieval_failed = true
is_retrieval_error ErrorKind.tls_untrusted = true
is_retrieval_error ErrorKind.transport_failed = true
is_retrieval_error ErrorKind.http_status = true
is_retrieval_error ErrorKind.not_found = true
is_retrieval_error ErrorKind.redirect_invalid = true
is_retrieval_error ErrorKind.content_encoding_unsupported = true
is_retrieval_error ErrorKind.too_large = true
is_retrieval_error ErrorKind.length_mismatch = true
is_retrieval_error _ = false

-- What the constructors of the contract records return.
abbrev pub Checked : Type 0 → Type 0
Checked = Result ErrorKind
