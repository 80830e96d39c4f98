-- ===== src/Capsule/Header.antt =====
-- bef_zk/capsule/header.py: the header of a capsule and its hashes.
pub mod Binding
pub mod Commit
mod Examples
use Prim.Native.String.{String}
use capsule_tech.Common.{
  ℕ, ◌%◌, ◌^◌, Bool, true, false, not, Option, none, some, List, [], ◌∷◌, ◌++◌, map, ◌==◌,
  if◌then◌else◌, Result, ok, err, type_error, attribute_error, ◌>>=◌,
}
use capsule_tech.Common.Bytes.{Bytes, Sha}
use capsule_tech.Common.Texts.{codes, hex, lower}
use capsule_tech.Codec.Value.{
  Value, Values, Entries, null, boolean, field, nat, neg, bytes, text, path, float, array, tuple,
  dict, nil, cons, empty, entry, key_eq, put_entry, get_entry,
}
use capsule_tech.Codec.Encode.{canonical_encode}

abbrev pub key : String → Value
key s = text (codes s)

-- Python's truth of a value
unfoldable pub truthy : Value → Bool
truthy null = false
truthy (boolean b) = b
truthy (field v bits) = true
truthy (nat n) = not (n == 0)
truthy (neg n) = true
truthy (bytes []) = false
truthy (bytes (b ∷ bs)) = true
truthy (text []) = false
truthy (text (b ∷ bs)) = true
truthy (path b) = true
truthy (float bits) = not (bits % 2 ^ 63 == 0)
truthy (array nil) = false
truthy (array (cons v vs)) = true
truthy (tuple nil) = false
truthy (tuple (cons v vs)) = true
truthy (dict empty) = false
truthy (dict (entry k v es)) = true

-- `{k: v for k, v in d.items() if k != name}` and `d.pop(name, None)`
unfoldable pub without : Entries → Value → Entries
without empty name = empty
without (entry k v es) name = if key_eq k name then without es name else entry k v (without es name)

-- `sanitize_row_index_ref` and `sanitize_da_policy` differ in two names: an inner dictionary loses
-- one key, and goes if nothing else is left in it.
unfoldable pub strip_inner : Value → Value → Entries → Option Value → Result Entries
unfolding truthy without put_entry
strip_inner outer inner clean none = ok clean
strip_inner outer inner clean (some (dict es)) =
    if truthy (dict es)
    then (if truthy (dict (without es inner))
        then ok (put_entry clean outer (dict (without es inner)))
        else ok (without clean outer))
    else ok clean
strip_inner outer inner clean (some v) = if truthy v then err attribute_error else ok clean

unfoldable pub sanitize_row_index_ref : Entries → Result Entries
unfolding strip_inner get_entry
sanitize_row_index_ref ref =
    strip_inner (key "pointer") (key "provider_root") ref (get_entry ref (key "pointer"))

unfoldable pub sanitize_da_policy : Entries → Result Entries
unfolding strip_inner get_entry
sanitize_da_policy policy =
    strip_inner (key "provider") (key "archive_root") policy (get_entry policy (key "provider"))

abbrev pub row_width_only : Entries → Option Value → Entries
row_width_only params (some width) = entry (key "row_width") width empty
row_width_only params none = params

unfoldable pub normalize_params : Entries → Entries
unfolding get_entry
normalize_params params = row_width_only params (get_entry params (key "row_width"))

-- `shown` is `str` of values that are no texts.
module _ (h : Sha) (shown : Value → Bytes) where
  unfoldable pub canonical_hash : String → Value → Result Bytes
  unfolding hex canonical_encode
  canonical_hash prefix payload = do
    encoded ← canonical_encode shown true payload
    ok (hex (h.sha256 (codes prefix ++ encoded)))

  unfoldable pub hash_params : Entries → Result Bytes
  unfolding canonical_hash normalize_params
  hash_params params = canonical_hash "CAPSULE_PARAMS_V1::" (dict (normalize_params params))

  unfoldable pub hash_chunk_meta : Entries → Result Bytes
  unfolding canonical_hash
  hash_chunk_meta chunk_meta = canonical_hash "CAPSULE_CHUNK_META_V1::" (dict chunk_meta)

  unfoldable pub hash_row_index_ref : Entries → Result Bytes
  unfolding canonical_hash sanitize_row_index_ref
  hash_row_index_ref ref = do
    clean ← sanitize_row_index_ref ref
    canonical_hash "CAPSULE_ROW_INDEX_REF_V1::" (dict clean)

  unfoldable pub hash_da_policy : Entries → Result Bytes
  unfolding canonical_hash sanitize_da_policy
  hash_da_policy policy = do
    clean ← sanitize_da_policy policy
    canonical_hash "CAPSULE_DA_POLICY_V1::" (dict clean)

  unfoldable pub hash_proof_system : Entries → Result Bytes
  unfolding canonical_hash
  hash_proof_system spec = canonical_hash "CAPSULE_PROOF_SYSTEM_V1::" (dict spec)

  unfoldable pub hash_manifest_descriptor : Entries → Result Bytes
  unfolding canonical_hash
  hash_manifest_descriptor manifest = canonical_hash "CAPSULE_MANIFEST_V1::" (dict manifest)

  unfoldable pub compute_header_hash : Entries → Result Bytes
  unfolding canonical_hash
  compute_header_hash header = canonical_hash "CAPSULE_HEADER_V2::" (dict header)

  unfoldable pub hash_capsule_identity : Bytes → Bytes → Result Bytes
  unfolding canonical_hash
  hash_capsule_identity header_commit_hash payload_hash = canonical_hash "CAPSULE_ID_V2::" (
      dict (
        entry (key "header_commit_hash") (text header_commit_hash)
          (entry (key "payload_hash") (text payload_hash) empty)))

-- `commit_view.setdefault("da_ref", {})["challenge_hash"] = None`: an entry that is no dictionary
-- takes no item.
abbrev pub clear_challenge : Entries → Option Value → Result Entries
clear_challenge header none =
    ok (put_entry header (key "da_ref") (dict (put_entry empty (key "challenge_hash") null)))
clear_challenge header (some (dict da_ref)) =
    ok (put_entry header (key "da_ref") (dict (put_entry da_ref (key "challenge_hash") null)))
clear_challenge header (some v) = err type_error

unfoldable pub commit_view : Entries → Result Entries
unfolding get_entry put_entry
commit_view header = clear_challenge header (get_entry header (key "da_ref"))

unfoldable pub compute_header_commit_hash : Sha → (Value → Bytes) → Entries → Result Bytes
unfolding commit_view canonical_hash
compute_header_commit_hash h shown header = do
  view ← commit_view header
  canonical_hash h shown "CAPSULE_HEADER_COMMIT_V1::" (dict view)

abbrev pub text_or_null : Option Bytes → Value
text_or_null none = null
text_or_null (some s) = text s

abbrev pub nat_or_null : Option ℕ → Value
nat_or_null none = null
nat_or_null (some n) = nat n

-- `proof_meta.setdefault(name, value)` for a value that is given
abbrev pub set_default : Entries → Value → Option Value → Option Bytes → Entries
set_default es name old none = es
set_default es name none (some s) = put_entry es name (text s)
set_default es name (some v) (some s) = es

unfoldable pub with_default : Entries → Value → Option Bytes → Entries
unfolding get_entry put_entry
with_default es name value = set_default es name (get_entry es name) value

-- `value or other` of texts that may be missing
abbrev pub given_or : Option Bytes → Bytes → Bytes
given_or none other = other
given_or (some []) other = other
given_or (some (b ∷ bs)) other = b ∷ bs

-- The arguments of `build_capsule_header`, by name
pub record HeaderParts : Type 0 where
  pub vm_id : Bytes
  pub backend_id : Bytes
  pub circuit_id : Bytes
  pub trace_id : Bytes
  pub prev_capsule_hash : Option Bytes
  pub trace_spec_hash : Bytes
  pub statement_hash : Bytes
  pub params_hash : Bytes
  pub row_root : Bytes
  pub row_tree_arity : Option ℕ
  pub row_index_ref_hash : Bytes
  pub chunk_meta_hash : Bytes
  pub chunk_handles_root : Bytes
  pub policy_ref : Entries
  pub da_policy_hash : Bytes
  pub anchor : Entries
  pub proof_system : Entries
  pub chunk_manifest_hash : Option Bytes
  pub manifest_hash : Option Bytes
  pub air_params_hash : Option Bytes
  pub fri_params_hash : Option Bytes
  pub program_hash : Option Bytes
  pub da_challenge_hash : Option Bytes
  pub payload_hash : Option Bytes
  pub verification_profile : Option Bytes

unfoldable pub proof_meta : HeaderParts → Entries
unfolding with_default
proof_meta p =
    with_default
      (with_default (with_default p.proof_system (key "air_params_hash") p.air_params_hash)
        (key "fri_params_hash") p.fri_params_hash)
      (key "program_hash") p.program_hash

abbrev pub row_commitment : HeaderParts → Entries
row_commitment p = entry (key "root") (text p.row_root) (
    entry (key "tree_arity") (nat_or_null p.row_tree_arity) (
      entry (key "row_index_ref_hash") (text p.row_index_ref_hash) (
        entry (key "chunk_meta_hash") (text p.chunk_meta_hash) (
          entry (key "chunk_handles_root") (text p.chunk_handles_root) (
            entry (key "chunk_manifest_hash")
              (text (given_or p.chunk_manifest_hash p.chunk_handles_root)) empty)))))

abbrev pub da_ref : HeaderParts → Entries
da_ref p =
    entry (key "policy_hash") (text p.da_policy_hash)
      (entry (key "challenge_hash") (text_or_null p.da_challenge_hash) empty)

abbrev pub add_payload : Entries → Option Bytes → Entries
add_payload header none = header
add_payload header (some s) = put_entry header (key "payload_hash") (text s)

abbrev pub header_of : HeaderParts → Entries
header_of p = entry (key "schema") (key "capsule_header_v2") (
    entry (key "verification_profile") (text_or_null p.verification_profile) (
      entry (key "vm_id") (text p.vm_id) (
        entry (key "backend_id") (text p.backend_id) (
          entry (key "circuit_id") (text p.circuit_id) (
            entry (key "trace_id") (text p.trace_id) (
              entry (key "prev_capsule_hash") (text_or_null p.prev_capsule_hash) (
                entry (key "trace_spec_hash") (text p.trace_spec_hash) (
                  entry (key "statement_hash") (text p.statement_hash) (
                    entry (key "params_hash") (text p.params_hash) (
                      entry (key "row_commitment") (dict (row_commitment p)) (
                        entry (key "policy_ref") (dict p.policy_ref) (
                          entry (key "da_ref") (dict (da_ref p)) (
                            entry (key "proof_system") (dict (proof_meta p)) (
                              entry (key "artifact_manifest_hash") (text_or_null p.manifest_hash)
                                (entry (key "anchor") (dict p.anchor) empty)))))))))))))))

unfoldable pub build_capsule_header : HeaderParts → Entries
unfolding proof_meta put_entry
build_capsule_header p = add_payload (header_of p) p.payload_hash
