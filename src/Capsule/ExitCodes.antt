-- ===== src/Capsule/ExitCodes.antt =====
-- bef_zk/verifier_errors.py and bef_zk/capsule/cli/exit_codes.py: the verifier's error codes and the exit
-- code that the command line returns for each. Error codes are texts, as in the source, so any other
-- text is one that the table does not know.
pub mod Families
mod Examples
use capsule_tech.Common.{ℕ, Bool, true, false, Option, none, some, List, [], ◌∷◌, ◌==◌}
use Prim.Native.String.{String}
use text.Mathlib.Text.{◌==◌ as text_eq}

abbrev pub exit_verified : ℕ
exit_verified = 0

abbrev pub exit_proof_invalid : ℕ
exit_proof_invalid = 10

abbrev pub exit_policy_mismatch : ℕ
exit_policy_mismatch = 11

abbrev pub exit_commitment_failed : ℕ
exit_commitment_failed = 12

abbrev pub exit_da_audit_failed : ℕ
exit_da_audit_failed = 13

abbrev pub exit_replay_diverged : ℕ
exit_replay_diverged = 14

abbrev pub exit_malformed : ℕ
exit_malformed = 20

-- Every constant of bef_zk/verifier_errors.py, in the file's order.
abbrev pub verifier_errors : List String
verifier_errors =
    "OK" ∷ "E001_UNSUPPORTED_ENCODING" ∷ "E002_PARSE_FAILED" ∷ "E003_SCHEMA_UNSUPPORTED"
    ∷ "E004_CANONICALIZATION_FAILED" ∷ "E010_CAPSULE_HASH_MISSING" ∷ "E011_CAPSULE_HASH_MISMATCH"
    ∷ "E012_CAPSULE_HEADER_MISSING" ∷ "E013_CAPSULE_HEADER_MISMATCH" ∷ "E020_SIGNATURE_MISSING"
    ∷ "E021_SIGNATURE_INVALID" ∷ "E022_SIGNER_NOT_AUTHORIZED" ∷ "E030_POLICY_ID_MISSING"
    ∷ "E031_POLICY_VERSION_MISSING" ∷ "E032_POLICY_UNKNOWN" ∷ "E033_POLICY_HASH_MISMATCH"
    ∷ "E034_POLICY_NOT_IN_REGISTRY" ∷ "E036_POLICY_DOCUMENT_MISSING" ∷ "E050_PROOF_MISSING"
    ∷ "E051_PROOF_FORMAT_MISSING" ∷ "E052_PROOF_HASH_MISMATCH" ∷ "E053_PROOF_STATEMENT_MISMATCH"
    ∷ "E054_PROOF_VERIFICATION_FAILED" ∷ "E055_NOVA_STATE_MISMATCH"
    ∷ "E060_ROW_INDEX_COMMITMENT_MISSING" ∷ "E061_ROW_INDEX_COMMITMENT_INVALID_FORMAT"
    ∷ "E062_ROW_ARCHIVE_MISSING" ∷ "E063_CHUNK_ROOTS_DIGEST_MISMATCH" ∷ "E064_MERKLE_PROOF_INVALID"
    ∷ "E065_CHUNK_ROOT_MISMATCH" ∷ "E066_CHUNK_LENGTH_INVALID" ∷ "E075_CHUNK_HANDLE_INVALID"
    ∷ "E076_CHUNK_CARDINALITY_MISMATCH" ∷ "E070_DA_MODE_UNSUPPORTED" ∷ "E071_DA_CHALLENGE_MISSING"
    ∷ "E072_DA_CHALLENGE_HASH_MISMATCH" ∷ "E073_DA_CHALLENGE_UNTRUSTED" ∷ "E074_AVAILABILITY_FAILED"
    ∷ "E077_DA_CHALLENGE_BINDING_INVALID" ∷ "E101_POLICY_VIOLATION_FORBID_GPU"
    ∷ "E102_POLICY_MISSING_PUBLIC_OUTPUT" ∷ "E103_POLICY_TRACK_UNKNOWN"
    ∷ "E104_POLICY_MANIFEST_MISSING" ∷ "E105_POLICY_DOCKER_DIGEST_MISSING"
    ∷ "E106_MANIFEST_SIGNATURE_MISSING" ∷ "E107_MANIFEST_SIGNATURE_INVALID"
    ∷ "E108_MANIFEST_SIGNER_UNTRUSTED" ∷ "E109_MANIFEST_REGISTRY_MISMATCH"
    ∷ "E201_EVENT_LOG_MISMATCH" ∷ "E301_PROOF_SYSTEM_MISMATCH"
    ∷ "E302_VERIFICATION_PROFILE_UNSATISFIED" ∷ []

-- `_ERROR_TO_EXIT`
abbrev pub error_to_exit : List (String × ℕ)
error_to_exit =
    ("OK", exit_verified)
    ∷ ("E001_UNSUPPORTED_ENCODING", exit_malformed)
    ∷ ("E002_PARSE_FAILED", exit_malformed)
    ∷ ("E003_SCHEMA_UNSUPPORTED", exit_malformed)
    ∷ ("E004_CANONICALIZATION_FAILED", exit_malformed)
    ∷ ("E010_CAPSULE_HASH_MISSING", exit_malformed)
    ∷ ("E011_CAPSULE_HASH_MISMATCH", exit_malformed)
    ∷ ("E012_CAPSULE_HEADER_MISSING", exit_malformed)
    ∷ ("E013_CAPSULE_HEADER_MISMATCH", exit_malformed)
    ∷ ("E020_SIGNATURE_MISSING", exit_malformed)
    ∷ ("E021_SIGNATURE_INVALID", exit_malformed)
    ∷ ("E022_SIGNER_NOT_AUTHORIZED", exit_malformed)
    ∷ ("E030_POLICY_ID_MISSING", exit_policy_mismatch)
    ∷ ("E031_POLICY_VERSION_MISSING", exit_policy_mismatch)
    ∷ ("E032_POLICY_UNKNOWN", exit_policy_mismatch)
    ∷ ("E033_POLICY_HASH_MISMATCH", exit_policy_mismatch)
    ∷ ("E034_POLICY_NOT_IN_REGISTRY", exit_policy_mismatch)
    ∷ ("E036_POLICY_DOCUMENT_MISSING", exit_policy_mismatch)
    ∷ ("E050_PROOF_MISSING", exit_proof_invalid)
    ∷ ("E051_PROOF_FORMAT_MISSING", exit_proof_invalid)
    ∷ ("E052_PROOF_HASH_MISMATCH", exit_proof_invalid)
    ∷ ("E053_PROOF_STATEMENT_MISMATCH", exit_proof_invalid)
    ∷ ("E054_PROOF_VERIFICATION_FAILED", exit_proof_invalid)
    ∷ ("E055_NOVA_STATE_MISMATCH", exit_proof_invalid)
    ∷ ("E060_ROW_INDEX_COMMITMENT_MISSING", exit_commitment_failed)
    ∷ ("E061_ROW_INDEX_COMMITMENT_INVALID_FORMAT", exit_commitment_failed)
    ∷ ("E062_ROW_ARCHIVE_MISSING", exit_commitment_failed)
    ∷ ("E063_CHUNK_ROOTS_DIGEST_MISMATCH", exit_commitment_failed)
    ∷ ("E064_MERKLE_PROOF_INVALID", exit_commitment_failed)
    ∷ ("E065_CHUNK_ROOT_MISMATCH", exit_commitment_failed)
    ∷ ("E066_CHUNK_LENGTH_INVALID", exit_commitment_failed)
    ∷ ("E075_CHUNK_HANDLE_INVALID", exit_commitment_failed)
    ∷ ("E076_CHUNK_CARDINALITY_MISMATCH", exit_commitment_failed)
    ∷ ("E070_DA_MODE_UNSUPPORTED", exit_da_audit_failed)
    ∷ ("E071_DA_CHALLENGE_MISSING", exit_da_audit_failed)
    ∷ ("E072_DA_CHALLENGE_HASH_MISMATCH", exit_da_audit_failed)
    ∷ ("E073_DA_CHALLENGE_UNTRUSTED", exit_da_audit_failed)
    ∷ ("E074_AVAILABILITY_FAILED", exit_da_audit_failed)
    ∷ ("E101_POLICY_VIOLATION_FORBID_GPU", exit_policy_mismatch)
    ∷ ("E102_POLICY_MISSING_PUBLIC_OUTPUT", exit_policy_mismatch)
    ∷ ("E103_POLICY_TRACK_UNKNOWN", exit_policy_mismatch)
    ∷ ("E104_POLICY_MANIFEST_MISSING", exit_policy_mismatch)
    ∷ ("E105_POLICY_DOCKER_DIGEST_MISSING", exit_policy_mismatch)
    ∷ ("E106_MANIFEST_SIGNATURE_MISSING", exit_policy_mismatch)
    ∷ ("E107_MANIFEST_SIGNATURE_INVALID", exit_policy_mismatch)
    ∷ ("E108_MANIFEST_SIGNER_UNTRUSTED", exit_policy_mismatch)
    ∷ ("E109_MANIFEST_REGISTRY_MISMATCH", exit_policy_mismatch)
    ∷ ("E201_EVENT_LOG_MISMATCH", exit_commitment_failed)
    ∷ ("E301_PROOF_SYSTEM_MISMATCH", exit_proof_invalid)
    ∷ ("E302_VERIFICATION_PROFILE_UNSATISFIED", exit_proof_invalid)
    ∷ []

-- `table.get(code)`
unfoldable pub find_exit : String → List (String × ℕ) → Option ℕ
find_exit code [] = none
find_exit code ((name, exit) ∷ rest) = elim (text_eq name code) [
  | true ↦ some exit
  | false ↦ find_exit code rest
]

abbrev pub exit_or_malformed : Option ℕ → ℕ
exit_or_malformed none = exit_malformed
exit_or_malformed (some exit) = exit

pub error_to_exit_code : String → ℕ
unfolding find_exit
error_to_exit_code error_code = exit_or_malformed (find_exit error_code error_to_exit)

-- `descriptions`
abbrev pub descriptions : List (ℕ × String)
descriptions =
    (exit_verified, "verified")
    ∷ (exit_proof_invalid, "proof invalid")
    ∷ (exit_policy_mismatch, "policy mismatch")
    ∷ (exit_commitment_failed, "commitment/index verification failed")
    ∷ (exit_da_audit_failed, "DA audit failed")
    ∷ (exit_replay_diverged, "replay diverged")
    ∷ (exit_malformed, "malformed or parse error")
    ∷ []

pub find_description : ℕ → List (ℕ × String) → String
find_description code [] = "unknown error"
find_description code ((exit, text) ∷ rest) = elim (exit == code) [
  | true ↦ text
  | false ↦ find_description code rest
]

pub exit_code_description : ℕ → String
unfolding find_description
exit_code_description code = find_description code descriptions
