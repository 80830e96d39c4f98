-- ===== src/Capsule/Header/Examples.antt =====
-- A header at concrete values.
use mathlib.Core.Option
use capsule_tech.Common.{◌≡◌, refl, ◌⊎◌, none, some, true, [], ok, value_or_default, arith}
use capsule_tech.Common.Bytes.{Bytes, Collision}
use capsule_tech.Common.Toy.{toy_sha}
use capsule_tech.Common.Texts.{codes}
use capsule_tech.Codec.Value.{Value, dict, nat, empty, entry, get_entry, sanitize, sanitize_entries}
use capsule_tech.Codec.Decode.{valid_utf8}
use capsule_tech.Codec.Decoded.{Readable, decoded}
use capsule_tech.Capsule.Header.{
  key, HeaderParts, build_capsule_header, compute_header_hash, compute_header_commit_hash,
  sanitize_da_policy,
}
use capsule_tech.Capsule.Header.Binding.{compute_header_hash-binding}
use capsule_tech.Capsule.Header.Commit.{
  with_challenge, SameCommitments, compute_header_commit_hash-with_challenge,
  compute_header_commit_hash-binding,
}

abbrev shown : Value → Bytes
shown v = []

abbrev parts : HeaderParts
parts = record {
  vm_id = codes "geom";
  backend_id = codes "geom";
  circuit_id = codes "c";
  trace_id = codes "t";
  prev_capsule_hash = none;
  trace_spec_hash = codes "01";
  statement_hash = codes "02";
  params_hash = codes "03";
  row_root = codes "04";
  row_tree_arity = some 16;
  row_index_ref_hash = codes "05";
  chunk_meta_hash = codes "06";
  chunk_handles_root = codes "07";
  policy_ref = empty;
  da_policy_hash = codes "08";
  anchor = empty;
  proof_system = empty;
  chunk_manifest_hash = none;
  manifest_hash = none;
  air_params_hash = some (codes "09");
  fri_params_hash = none;
  program_hash = none;
  da_challenge_hash = some (codes "0a");
  payload_hash = some (codes "0b");
  verification_profile = none;
}

parts-Readable :
    Readable shown (sanitize shown (dict (build_capsule_header (with_challenge parts none))))
unfolding Readable sanitize valid_utf8 build_capsule_header
parts-Readable = ground arith

-- The provider's directory is not hashed.
archive_root_dropped :
    sanitize_da_policy (
      entry
        (key "k")
        (nat 4)
        (entry (key "provider") (dict (entry (key "archive_root") (key "/tmp") empty)) empty))
    ≡ ok (entry (key "k") (nat 4) empty)
unfolding sanitize_da_policy
archive_root_dropped = refl

commit_hashed :
    compute_header_commit_hash toy_sha shown (build_capsule_header parts)
    ≡ ok (
        value_or_default [] (compute_header_commit_hash toy_sha shown (build_capsule_header parts)))
unfolding compute_header_commit_hash build_capsule_header
commit_hashed = refl

header_hashed :
    compute_header_hash toy_sha shown (build_capsule_header (with_challenge parts none))
    ≡ ok (
        value_or_default []
          (compute_header_hash toy_sha shown (build_capsule_header (with_challenge parts none))))
unfolding compute_header_hash build_capsule_header
header_hashed = refl

compute_header_hash-binding_example :
    ((k : Value)
      → Option.map (decoded shown true) (
          get_entry
            (sanitize_entries shown empty (build_capsule_header (with_challenge parts none)))
            k)
        ≡ Option.map (decoded shown true) (
            get_entry
              (sanitize_entries shown empty (build_capsule_header (with_challenge parts none)))
              k))
    ⊎ Collision toy_sha
compute_header_hash-binding_example =
    compute_header_hash-binding toy_sha shown (build_capsule_header (with_challenge parts none))
      (build_capsule_header (with_challenge parts none)) parts-Readable parts-Readable header_hashed
      header_hashed

compute_header_commit_hash-with_challenge_example :
    compute_header_commit_hash toy_sha shown (build_capsule_header (with_challenge parts none))
    ≡ compute_header_commit_hash toy_sha shown (build_capsule_header parts)
compute_header_commit_hash-with_challenge_example =
    compute_header_commit_hash-with_challenge toy_sha shown parts none

compute_header_commit_hash-binding_example : SameCommitments parts parts ⊎ Collision toy_sha
compute_header_commit_hash-binding_example =
    compute_header_commit_hash-binding toy_sha shown parts parts parts-Readable parts-Readable
      commit_hashed commit_hashed
