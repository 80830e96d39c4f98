-- ===== src/Capsule/Payload.antt =====
-- bef_zk/capsule/payload.py: the view of a capsule that is hashed, and the hash and the audit seed of
-- bef_zk/codec/__init__.py.
mod Examples
use Prim.Native.String.{String}
use capsule_tech.Common.{
  ℕ, ◌<◌, ◌≡◌, refl, sym, ap, ◌∙◌, inl, inr, Bool, true, false, Option, none, some, List, [], ◌∷◌,
  ◌++◌, take, if◌then◌else◌, Result, ok, ◌>>=◌, arith,
}
use capsule_tech.Common.Bytes.{Bytes, Sha, from_bytes, from_bytes_onto}
use capsule_tech.Common.Texts.{codes, hex}
use capsule_tech.Codec.Value.{
  Value, Entries, text, dict, empty, entry, key_eq, put_entry, get_entry,
}
use capsule_tech.Codec.Encode.{canonical_encode}
use capsule_tech.Codec.Lookup.{get_entry-put_entry}
use capsule_tech.Capsule.Header.{key, given_or}

-- bef_zk/capsule/payload.py: only the listed keys, in the list's order
abbrev pub payload_keys : List String
payload_keys =
    "schema" ∷ "vm_id" ∷ "air_id" ∷ "trace_id" ∷ "prev_capsule_hash" ∷ "trace_spec"
    ∷ "trace_spec_hash" ∷ "trace_commitment" ∷ "policy" ∷ "params" ∷ "da_policy" ∷ "da_profile"
    ∷ "chunk_meta" ∷ "row_index_ref" ∷ "hashing" ∷ "proof_system" ∷ "anchor" ∷ "proofs"
    ∷ "row_archive" ∷ "artifacts" ∷ "statement" ∷ "statement_hash" ∷ "verification_profile"
    ∷ "events_log" ∷ "extras" ∷ []

abbrev pub copy_found : Entries → Value → Option Value → Entries
copy_found view name none = view
copy_found view name (some v) = put_entry view name v

unfoldable pub view_keys : Entries → List String → Entries → Entries
unfolding get_entry put_entry
view_keys capsule [] view = view
view_keys capsule (name ∷ names) view =
    view_keys capsule names (copy_found view (key name) (get_entry capsule (key name)))

unfoldable pub payload_view : Entries → Entries
unfolding view_keys
payload_view capsule = view_keys capsule payload_keys empty

unfoldable pub compute_capsule_hash : Sha → (Value → Bytes) → Bool → Entries → Result Bytes
unfolding hex canonical_encode
compute_capsule_hash h shown compact payload = do
  canonical ← canonical_encode shown compact (dict payload)
  ok (hex (h.sha256 (codes "BEF_CAPSULE_V1" ++ canonical)))

unfoldable pub compute_payload_hash : Sha → (Value → Bytes) → Bool → Entries → Result Bytes
unfolding payload_view compute_capsule_hash
compute_payload_hash h shown compact capsule =
    compute_capsule_hash h shown compact (payload_view capsule)

-- The parts of the seed, joined by `::`; a missing one is empty.
unfoldable pub derive_capsule_seed : Sha → Bytes → Option Bytes → Option Bytes → Option Bytes → ℕ
unfolding from_bytes_onto
derive_capsule_seed h capsule_hash anchor_ref policy_id policy_version =
    let join = λ (a : Bytes) (b : Bytes). a ++ (codes "::" ++ b) in
    from_bytes (
      take 8 (
        h.sha256 (
          codes "BEF_AUDIT_SEED_V1"
          ++ join capsule_hash (
              join (given_or anchor_ref [])
                (join (given_or policy_id []) (given_or policy_version []))))))

-- No name of the list is the key.
abbrev pub NoneNamed : Value → List String → Type 0
NoneNamed k [] = Unit
NoneNamed k (name ∷ names) = (key_eq k (key name) ≡ false) × NoneNamed k names

view_keys-put_entry :
    (capsule : Entries) (k v : Value) (names : List String) (view : Entries)
    → NoneNamed k names
    → view_keys (put_entry capsule k v) names view ≡ view_keys capsule names view
unfolding view_keys
view_keys-put_entry capsule k v [] view h = refl
view_keys-put_entry capsule k v (name ∷ names) view h =
    let same : get_entry (put_entry capsule k v) (key name) ≡ get_entry capsule (key name) =
      get_entry-put_entry capsule k v (key name) ∙ (rw h.0 refl) in
    rw same (view_keys-put_entry capsule k v names _ h.1)

-- Writing any key that is not in the payload's list, such as the header or the authorship, leaves
-- the payload's hash as it is.
pub compute_payload_hash-put_entry :
    (h : Sha) (shown : Value → Bytes) (compact : Bool) (capsule : Entries) (k v : Value)
    → NoneNamed k payload_keys
    → compute_payload_hash h shown compact (put_entry capsule k v)
      ≡ compute_payload_hash h shown compact capsule
unfolding compute_payload_hash payload_view
compute_payload_hash-put_entry h shown compact capsule k v outside =
    ap (compute_capsule_hash h shown compact)
      (view_keys-put_entry capsule k v payload_keys empty outside)
