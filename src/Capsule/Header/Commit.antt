-- ===== src/Capsule/Header/Commit.antt =====
-- The commitment hash of a capsule's header: it leaves the challenge open and binds the rest.
use mathlib.Core.Option
use mathlib.Core.Option.{some-injective}
use capsule_tech.Common.{◌≡◌, refl, sym, ap, ◌∙◌, ◌⊎◌, inl, inr, true, Option, none, some, [], ok}
use capsule_tech.Common.Bytes.{Bytes, Sha, Collision}
use capsule_tech.Codec.Value.{
  Value, Entries, text, dict, empty, get_entry, sanitize, sanitize_entries,
}
use capsule_tech.Codec.Decoded.{decoded, Readable}
use capsule_tech.Codec.Lookup.Kept.{Distinct, sanitize_entries-Distinct, get_entry-decoded}
use capsule_tech.Capsule.Header.{
  key, HeaderParts, build_capsule_header, header_of, proof_meta, add_payload, commit_view,
  compute_header_commit_hash, row_commitment,
}
use capsule_tech.Capsule.Header.Binding.{dictionary_hash-binding}

-- The header with another challenge
abbrev pub with_challenge : HeaderParts → Option Bytes → HeaderParts
with_challenge p c = record p { da_challenge_hash = c }

-- The view that is hashed has no challenge.
commit_view_of :
    (p : HeaderParts) (o : Option Bytes)
    → commit_view (add_payload (header_of p) o)
      ≡ ok (add_payload (header_of (with_challenge p none)) o)
unfolding commit_view proof_meta
commit_view_of p none = refl
commit_view_of p (some s) = refl

-- The commitment hash of a header does not depend on the hash of the challenge that is answered
-- later: the header can be committed to before the challenge is known.
pub compute_header_commit_hash-with_challenge :
    (h : Sha) (shown : Value → Bytes) (p : HeaderParts) (c : Option Bytes)
    → compute_header_commit_hash h shown (build_capsule_header (with_challenge p c))
      ≡ compute_header_commit_hash h shown (build_capsule_header p)
unfolding build_capsule_header compute_header_commit_hash
compute_header_commit_hash-with_challenge h shown p c =
    rw (commit_view_of p p.payload_hash, commit_view_of (with_challenge p c) p.payload_hash) refl

-- What a sanitized header shows under the keys of its commitments
record Shows (shown : Value → Bytes) (p : HeaderParts) (es : Entries) : Type 0 where
  statement : get_entry es (key "statement_hash") ≡ some (text p.statement_hash)
  trace_spec : get_entry es (key "trace_spec_hash") ≡ some (text p.trace_spec_hash)
  params : get_entry es (key "params_hash") ≡ some (text p.params_hash)
  payload : get_entry es (key "payload_hash") ≡ Option.map text p.payload_hash
  row :
      get_entry es (key "row_commitment")
      ≡ some (dict (sanitize_entries shown empty (row_commitment p)))

header-Shows :
    (shown : Value → Bytes) (p : HeaderParts) (o : Option Bytes)
    → o ≡ p.payload_hash
    → Shows shown p (sanitize_entries shown empty (add_payload (header_of p) o))
unfolding sanitize get_entry
header-Shows shown p none e = record {
  statement = refl;
  trace_spec = refl;
  params = refl;
  payload = ap (Option.map text) e;
  row = refl;
}
header-Shows shown p (some s) e = record {
  statement = refl;
  trace_spec = refl;
  params = refl;
  payload = ap (Option.map text) e;
  row = refl;
}

-- The commitments that two headers agree on
pub record SameCommitments (p q : HeaderParts) : Type 0 where
  pub statement_hash : p.statement_hash ≡ q.statement_hash
  pub trace_spec_hash : p.trace_spec_hash ≡ q.trace_spec_hash
  pub params_hash : p.params_hash ≡ q.params_hash
  pub payload_hash : p.payload_hash ≡ q.payload_hash
  pub row_root : p.row_root ≡ q.row_root
  pub row_index_ref_hash : p.row_index_ref_hash ≡ q.row_index_ref_hash
  pub chunk_meta_hash : p.chunk_meta_hash ≡ q.chunk_meta_hash
  pub chunk_handles_root : p.chunk_handles_root ≡ q.chunk_handles_root

abbrev text_of : Option Value → Bytes
text_of (some (text s)) = s
text_of o = []

abbrev payload_of : Option Value → Option Bytes
payload_of (some (text s)) = some s
payload_of o = none

abbrev inner : Option Value → Entries
inner (some (dict es)) = es
inner o = empty

module _ (shown : Value → Bytes) (p q : HeaderParts) (d e : Entries) (dp : Shows shown p d)
    (eq : Shows shown q e)
    (agree : (k : Value)
      → Option.map (decoded shown true) (get_entry d k)
        ≡ Option.map (decoded shown true) (get_entry e k)) where
  shown_text :
      (k : Value) (a b : Bytes)
      → get_entry d k ≡ some (text a)
      → get_entry e k ≡ some (text b)
      → a ≡ b
  unfolding decoded
  shown_text k a b ga gb =
      sym (ap (λ o. text_of (Option.map (decoded shown true) o)) ga)
      ∙ ap text_of (agree k)
      ∙ ap (λ o. text_of (Option.map (decoded shown true) o)) gb

  payload_back :
      (o : Option Bytes) → payload_of (Option.map (decoded shown true) (Option.map text o)) ≡ o
  unfolding decoded
  payload_back none = refl
  payload_back (some s) = refl

  same_payload : p.payload_hash ≡ q.payload_hash
  same_payload =
      sym (payload_back p.payload_hash)
      ∙ sym (ap (λ o. payload_of (Option.map (decoded shown true) o)) dp.payload)
      ∙ ap payload_of (agree (key "payload_hash"))
      ∙ ap (λ o. payload_of (Option.map (decoded shown true) o)) eq.payload
      ∙ payload_back q.payload_hash

  -- The inner dictionaries agree at every key.
  row_agree :
      (k : Value)
      → Option.map
          (decoded shown true)
          (get_entry (sanitize_entries shown empty (row_commitment p)) k)
        ≡ Option.map
            (decoded shown true)
            (get_entry (sanitize_entries shown empty (row_commitment q)) k)
  unfolding decoded
  row_agree k =
      let same =
        sym (ap (Option.map (decoded shown true)) dp.row)
        ∙ agree (key "row_commitment")
        ∙ ap (Option.map (decoded shown true)) eq.row in
      sym (
        get_entry-decoded shown true (sanitize_entries shown empty (row_commitment p)) k
          (sanitize_entries-Distinct shown (row_commitment p) empty (unfold Distinct in tt)))
      ∙ ap (λ o. get_entry (inner o) k) same
      ∙ get_entry-decoded shown true (sanitize_entries shown empty (row_commitment q)) k
          (sanitize_entries-Distinct shown (row_commitment q) empty (unfold Distinct in tt))

  same_commitments : SameCommitments p q
  unfolding sanitize get_entry decoded
  same_commitments = record {
    statement_hash = shown_text (key "statement_hash") _ _ dp.statement eq.statement;
    trace_spec_hash = shown_text (key "trace_spec_hash") _ _ dp.trace_spec eq.trace_spec;
    params_hash = shown_text (key "params_hash") _ _ dp.params eq.params;
    payload_hash = same_payload;
    row_root = ap text_of (row_agree (key "root"));
    row_index_ref_hash = ap text_of (row_agree (key "row_index_ref_hash"));
    chunk_meta_hash = ap text_of (row_agree (key "chunk_meta_hash"));
    chunk_handles_root = ap text_of (row_agree (key "chunk_handles_root"));
  }

-- The challenge is none of the commitments.
forget_challenge :
    (p q : HeaderParts)
    → SameCommitments (with_challenge p none) (with_challenge q none)
    → SameCommitments p q
forget_challenge p q s = record {
  statement_hash = s.statement_hash;
  trace_spec_hash = s.trace_spec_hash;
  params_hash = s.params_hash;
  payload_hash = s.payload_hash;
  row_root = s.row_root;
  row_index_ref_hash = s.row_index_ref_hash;
  chunk_meta_hash = s.chunk_meta_hash;
  chunk_handles_root = s.chunk_handles_root;
}

-- Two headers with the same commitment hash, in which every text is UTF-8, have the same hashes of
-- statement, trace specification, parameters, payload, row index and chunk data, and the same roots
-- of rows and chunk handles, or two inputs are at hand on which the hash function collides.
pub compute_header_commit_hash-binding :
    (h : Sha) (shown : Value → Bytes) (p q : HeaderParts) {t : Bytes}
    → Readable shown (sanitize shown (dict (build_capsule_header (with_challenge p none))))
    → Readable shown (sanitize shown (dict (build_capsule_header (with_challenge q none))))
    → compute_header_commit_hash h shown (build_capsule_header p) ≡ ok t
    → compute_header_commit_hash h shown (build_capsule_header q) ≡ ok t
    → SameCommitments p q ⊎ Collision h
unfolding build_capsule_header compute_header_commit_hash
compute_header_commit_hash-binding h shown p q rp rq hp hq =
    elim (dictionary_hash-binding h shown "CAPSULE_HEADER_COMMIT_V1::"
      (build_capsule_header (with_challenge p none)) (build_capsule_header (with_challenge q none))
      rp rq (rw (commit_view_of p p.payload_hash) at hp)
      (rw (commit_view_of q q.payload_hash) at hq)) [
        | inl agree ↦ inl (
            forget_challenge p q (
              same_commitments shown (with_challenge p none) (with_challenge q none) _ _
                (header-Shows shown (with_challenge p none) p.payload_hash refl)
                (header-Shows shown (with_challenge q none) q.payload_hash refl) agree))
        | inr collision ↦ inr collision
      ]
