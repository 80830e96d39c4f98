-- ===== src/Capsule/Payload/Examples.antt =====
-- Payload hashes and seeds at concrete values.
use capsule_tech.Common.{◌≡◌, refl, some, none, true, [], arith}
use capsule_tech.Common.Bytes.{Bytes, Sha}
use capsule_tech.Common.Toy.{toy_sha}
use capsule_tech.Common.Texts.{codes}
use capsule_tech.Codec.Value.{Value, Entries, nat, empty, entry, put_entry, key_eq}
use capsule_tech.Capsule.Header.{key}
use capsule_tech.Capsule.Payload.{
  compute_payload_hash, compute_payload_hash-put_entry, payload_view, derive_capsule_seed,
  NoneNamed, payload_keys,
}

abbrev shown : Value → Bytes
shown v = []

abbrev capsule : Entries
capsule = entry (key "authorship") (key "me") (entry (key "trace_id") (key "t") empty)

header-NoneNamed : NoneNamed (key "header") payload_keys
unfolding key_eq
header-NoneNamed = ground arith

compute_payload_hash-put_entry_example :
    compute_payload_hash toy_sha shown true (put_entry capsule (key "header") (nat 1))
    ≡ compute_payload_hash toy_sha shown true capsule
compute_payload_hash-put_entry_example =
    compute_payload_hash-put_entry toy_sha shown true capsule (key "header") (nat 1)
      header-NoneNamed

capsule_view : payload_view capsule ≡ entry (key "trace_id") (key "t") empty
unfolding payload_view
capsule_view = refl

-- The separator may stand in a part: different parts make one seed.
seed_ambiguous :
    (h : Sha)
    → derive_capsule_seed h (codes "h") (some (codes "a::b")) (some (codes "c")) none
      ≡ derive_capsule_seed h (codes "h") (some (codes "a")) (some (codes "b::c")) none
unfolding derive_capsule_seed
seed_ambiguous h = refl
