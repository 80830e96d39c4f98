-- ===== src/Codec/RoundTrip/Arrays.antt =====
-- Arrays of canonical CBOR are read back, element by element.
use mathlib.Core.List.{append_assoc}
use capsule_tech.Common.{
  ℕ, ◌+◌, ◌≤◌, ◌≡◌, ap, ◌∙◌, [], ◌++◌, length, length-append, drop, ok, arith,
}
use capsule_tech.Common.Bytes.{Bytes}
use capsule_tech.Codec.Value.{Value, Values, array, nil, cons, count}
use capsule_tech.Codec.Encode.{encode_uint}
use capsule_tech.Codec.Decode.{decode_items, decode_array, decode_body, decode_value}
use capsule_tech.Codec.Heads.{encode_uint-Head, drop-append_at}
use capsule_tech.Codec.Decoded.{Reads, opening}
use capsule_tech.Codec.RoundTrip.Leaves.{Reads-step, Head-length}

module _ (shown : Value → Bytes) where
  -- Wherever the bytes stand, the loop over as many elements reads them.
  abbrev pub ReadsAll : Bytes → Values → Type 0
  ReadsAll b vs =
      (rounds : ℕ) (view : Bytes) (pos : ℕ) (rest : Bytes)
      → length b ≤ rounds
      → drop pos view ≡ b ++ rest
      → decode_items shown (decode_value shown rounds view) (count vs) pos ≡ ok (vs, pos + length b)

  pub nil-ReadsAll : ReadsAll [] nil
  unfolding decode_items
  nil-ReadsAll rounds view pos rest enough at = ap (λ (k : ℕ). ok (nil, k)) (omega arith)

  pub cons-ReadsAll :
      (b c : Bytes) (v : Value) (vs : Values)
      → Reads shown b v
      → ReadsAll c vs
      → ReadsAll (b ++ c) (cons v vs)
  unfolding decode_items
  cons-ReadsAll b c v vs first others rounds view pos rest enough at =
      let split = at ∙ append_assoc b c rest in
      let sizes = length-append b c in
      let read = first rounds view pos (c ++ rest) (omega (arith, length-append b c)) split in
      let reads =
        others rounds view (pos + length b) rest (omega (arith, length-append b c))
          (drop-append_at view pos b (c ++ rest) split) in
      rw (read, reads) (ap (λ (k : ℕ). ok (cons v vs, k)) (omega (arith, length-append b c)))

  -- The head of an array, whose length the head says.
  pub array-Reads :
      (size : ℕ) (vs : Values) {head : Bytes} (body : Bytes)
      → size ≡ count vs
      → encode_uint 4 size ≡ ok head
      → ReadsAll body vs
      → Reads shown (head ++ body) (array vs)
  unfolding decode_body decode_array
  array-Reads size vs {head} body counted made all =
      let h = encode_uint-Head 4 size made in
      Reads-step shown (head ++ body) (array vs)
        (omega (arith, length-append head body, Head-length shown 4 size h))
        λ rounds view pos rest enough at.
          let o =
            opening shown 4 size h view pos (body ++ rest) (at ∙ append_assoc head body rest) in
          let room : length body ≤ rounds =
            omega (arith, length-append head body, Head-length shown 4 size h) in
          let reads = all rounds view (pos + length head) rest room o.after in
          o.entered rounds
          ∙ (rw (o.header, counted, reads)
              (ap (λ (k : ℕ). ok (array vs, k)) (omega (arith, length-append head body))))
