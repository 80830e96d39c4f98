-- ===== src/Codec/Ends/Decoder.antt =====
-- The decoder of canonical CBOR never runs out of the model's rounds: each level of nesting starts
-- at a later byte.
use capsule_tech.Common.{
  ℕ, zero, suc, ◌+◌, ◌/◌, ◌%◌, ◌≤◌, ◌<◌, ◌≢◌, inl, inr, Bool, true, false, not, Option, none, some,
  length, get_elem?, get_elem?-lt, ltb, leb, ◌==◌, Option-cases, Error, Result, ok, err, fuel,
  cbor_error, index_error, value_error, ◌>>=◌, ◌>>◌, raise_if, or_raise, arith,
}
use capsule_tech.Common.Bytes.{Bytes}
use capsule_tech.Codec.Value.{Value, Entries, empty, put_entry}
use capsule_tech.Codec.Encode.{canonical_encode}
use capsule_tech.Codec.Decode.{
  key_of, out_of_order, read_uint, read_string, decode_text, decode_simple, decode_items,
  decode_pairs, decode_array, decode_map, decode_body, decode_value, canonical_decode, valid_utf8,
}
use capsule_tech.Codec.Ends.{
  Settles, Settles-bind, branch, or_raise-Ends, cbor-ne-fuel, canonical_encode-Ends,
}

Settles-weaken {ℓ} :
    {A : Type ℓ} (P Q : A → Type 0) (m : Result A)
    → ((a : A) → P a → Q a)
    → Settles P m
    → Settles Q m
Settles-weaken P Q (ok a) f h = f a h
Settles-weaken P Q (err e) f h = h

-- A reader ends no earlier than it began.
abbrev NotBefore {ℓ} : {A : Type ℓ} → ℕ → Result (A × ℕ) → Type 0
NotBefore pos r = Settles (λ found. pos ≤ found.1) r

read_uint-NotBefore : (ai : ℕ) (view : Bytes) (pos : ℕ) → NotBefore pos (read_uint ai view pos)
unfolding read_uint
read_uint-NotBefore a view pos = branch _ (ltb a 24) _ _ (omega arith) (
    branch _ (a == 24) _ _
      (Settles-bind (λ _. Unit {0}) (λ found. pos ≤ found.1)
        (or_raise index_error (get_elem? view pos)) _
        (or_raise-Ends (get_elem? view pos) index_error (λ e. cc)) λ value _. omega arith)
      (branch _ (a == 25) _ _ (omega arith)
        (branch _ (a == 26) _ _ (omega arith) (branch _ (a == 27) _ _ (omega arith) cbor-ne-fuel))))

checked {ℓ} :
    {A : Type ℓ} (P : A → Type 0) (b : Bool) (e : Error) (m : Result A)
    → e ≢ fuel
    → Settles P m
    → Settles P (raise_if b e >> m)
checked P true e m h k = h
checked P false e m h k = k

read_string-NotBefore : (view : Bytes) (size pos : ℕ) → NotBefore pos (read_string view (size, pos))
unfolding read_string
read_string-NotBefore view size pos =
    checked _ (ltb (length view) (pos + size)) cbor_error _ cbor-ne-fuel (omega arith)

decode_text-NotBefore : (utf8 : Bytes) (pos : ℕ) → NotBefore pos (decode_text (utf8, pos))
unfolding decode_text
decode_text-NotBefore utf8 pos =
    checked _ (not (valid_utf8 utf8)) value_error _ (λ e. cc) (omega arith)

decode_simple-NotBefore :
    (ai : ℕ) (view : Bytes) (pos : ℕ) → NotBefore pos (decode_simple ai view pos)
unfolding decode_simple
decode_simple-NotBefore a view pos = branch _ (a == 20) _ _ (omega arith) (
    branch _ (a == 21) _ _ (omega arith) (
      branch _ (a == 22) _ _ (omega arith) (
        branch _ (a == 26) _ _
          (checked _ (ltb (length view) (pos + 4)) cbor_error _ cbor-ne-fuel (omega arith))
          (branch _ (a == 27) _ _
            (checked _ (ltb (length view) (pos + 8)) cbor_error _ cbor-ne-fuel (omega arith))
            cbor-ne-fuel))))

-- From the position on, the values decoded in the loops end, each later than it began.
module _ (shown : Value → Bytes) (decode : ℕ → Result (Value × ℕ)) (start : ℕ)
    (later : (pos : ℕ) → start ≤ pos → Settles (λ found. pos < found.1) (decode pos)) where
  decode_items-NotBefore :
      (n pos : ℕ) → start ≤ pos → NotBefore pos (decode_items shown decode n pos)
  unfolding decode_items
  decode_items-NotBefore zero pos h = omega arith
  decode_items-NotBefore (suc n) pos h =
      Settles-bind (λ found. pos < found.1) (λ found. pos ≤ found.1) (decode pos) _ (later pos h)
        λ found at.
          Settles-bind (λ more. found.1 ≤ more.1) (λ more. pos ≤ more.1)
            (decode_items shown decode n found.1) _ (decode_items-NotBefore n found.1 (omega arith))
            λ more past. omega arith

  decode_pairs-NotBefore :
      (n pos : ℕ) (result : Entries) (last : Option Bytes)
      → start ≤ pos
      → NotBefore pos (decode_pairs shown decode n pos result last)
  unfolding decode_pairs
  decode_pairs-NotBefore zero pos result last h = omega arith
  decode_pairs-NotBefore (suc n) pos result last h =
      Settles-bind Later End (decode pos) _ (later pos h) λ key at.
        Settles-bind (λ _. Unit {0}) End (canonical_encode shown true key.0) _
          (canonical_encode-Ends shown true key.0)
          λ encoded _. checked End (out_of_order last encoded) cbor_error _ cbor-ne-fuel (
            Settles-bind (λ (found : Value × ℕ). key.1 < found.1) End (decode key.1) _
              (later key.1 (omega arith))
              λ value past.
                let put = put_entry result (key_of shown key.0) value.0 in
                Settles-weaken (λ (more : Entries × ℕ). value.1 ≤ more.1) End
                  (decode_pairs shown decode n value.1 put (some encoded)) (λ more end. omega arith)
                  (decode_pairs-NotBefore n value.1 put (some encoded) (omega arith)))
    where
      Later : Value × ℕ → Type 0
      Later found = pos < found.1

      End : Entries × ℕ → Type 0
      End found = pos ≤ found.1

module _ (shown : Value → Bytes) (decode : ℕ → Result (Value × ℕ)) (view : Bytes) (start : ℕ)
    (later : (pos : ℕ) → start ≤ pos → Settles (λ found. pos < found.1) (decode pos)) where
  array-NotBefore :
      (size pos : ℕ) → start ≤ pos → NotBefore pos (decode_array shown decode (size, pos))
  unfolding decode_array
  array-NotBefore size pos h =
      Settles-bind (λ found. pos ≤ found.1) (λ found. pos ≤ found.1)
        (decode_items shown decode size pos) _
        (decode_items-NotBefore shown decode start later size pos h) λ found at. at

  map-NotBefore : (size pos : ℕ) → start ≤ pos → NotBefore pos (decode_map shown decode (size, pos))
  unfolding decode_map
  map-NotBefore size pos h =
      Settles-bind (λ found. pos ≤ found.1) (λ found. pos ≤ found.1)
        (decode_pairs shown decode size pos empty none) _
        (decode_pairs-NotBefore shown decode start later size pos empty none h) λ found at. at

  -- A header, and what is read from behind it on
  headed :
      (ai pos : ℕ) (next : ℕ × ℕ → Result (Value × ℕ))
      → start ≤ pos
      → ((size at : ℕ) → start ≤ at → NotBefore at (next (size, at)))
      → NotBefore pos (read_uint ai view pos >>= next)
  headed a pos next h k =
      Settles-bind (λ found. pos ≤ found.1) (λ found. pos ≤ found.1) (read_uint a view pos) next
        (read_uint-NotBefore a view pos)
        λ header at.
          Settles-weaken (λ found. header.1 ≤ found.1) (λ found. pos ≤ found.1) (next header)
            (λ found past. omega arith) (k header.0 header.1 (omega arith))

  decode_body-NotBefore :
      (major ai pos : ℕ) → start ≤ pos → NotBefore pos (decode_body shown decode view major ai pos)
  unfolding decode_body
  decode_body-NotBefore major a pos h =
      branch _ (leb major 1) _ _ (headed a pos _ h λ size at past. omega arith) (
        branch _ (major == 2) _ _
          (headed a pos _ h λ size at past.
            Settles-bind (λ found. at ≤ found.1) (λ found. at ≤ found.1)
              (read_string view (size, at)) _ (read_string-NotBefore view size at) λ found end. end)
          (branch _ (major == 3) _ _
            (headed a pos _ h λ size at past.
              Settles-bind (λ found. at ≤ found.1) (λ found. at ≤ found.1)
                (read_string view (size, at)) decode_text (read_string-NotBefore view size at)
                λ found end.
                  Settles-weaken (λ more. found.1 ≤ more.1) (λ more. at ≤ more.1)
                    (decode_text found) (λ more past. omega arith)
                    (decode_text-NotBefore found.0 found.1))
            (branch _ (major == 4) _ _ (headed a pos _ h array-NotBefore) (
              branch _ (major == 5) _ _ (headed a pos _ h map-NotBefore)
                (branch _ (major == 7) _ _ (decode_simple-NotBefore a view pos) cbor-ne-fuel)))))

-- With more rounds than bytes from the position on, decoding ends later than it began.
decode_value-later :
    (shown : Value → Bytes) (rounds : ℕ) (view : Bytes) (pos : ℕ)
    → 0 < rounds
    → length view < pos + rounds
    → Settles (λ found. pos < found.1) (decode_value shown rounds view pos)
unfolding decode_value
decode_value-later shown zero view pos some_round h = absurd (omega arith)
decode_value-later shown (suc rounds) view pos some_round h =
    elim (Option-cases (get_elem? view pos)) [
      | inl none_left ↦ rw none_left cbor-ne-fuel
      | inr (initial, read) ↦
          let inside = get_elem?-lt view pos read in
          rw read (
            Settles-weaken (λ found. pos + 1 ≤ found.1) (λ found. pos < found.1) _
              (λ found past. omega arith)
              (decode_body-NotBefore shown (decode_value shown rounds view) view (pos + 1)
                (λ at past.
                  decode_value-later shown rounds view at
                    (omega (arith, get_elem?-lt view pos read)) (omega arith))
                (initial / 32) (initial % 32) (pos + 1) (omega arith)))
    ]

Ends-ne-fuel {ℓ} : {A : Type ℓ} (P : A → Type 0) (r : Result A) → Settles P r → r ≢ err fuel
Ends-ne-fuel P (ok a) h e = cc
Ends-ne-fuel P (err raised) h e = h (cc)

-- Decoding ends, for any bytes: with a value or with one of Python's exceptions, and never because
-- the rounds of the model run out.
pub canonical_decode-ne-fuel :
    (shown : Value → Bytes) (blob : Bytes) → canonical_decode shown blob ≢ err fuel
unfolding canonical_decode
canonical_decode-ne-fuel shown blob =
    Ends-ne-fuel (λ _. Unit {0}) _
      (Settles-bind (λ (found : Value × ℕ). 0 < found.1) (λ _. Unit {0})
        (decode_value shown (suc (length blob)) blob 0) _
        (decode_value-later shown (suc (length blob)) blob 0 (omega arith) (omega arith))
        λ found past. checked _ (not (found.1 == length blob)) cbor_error _ cbor-ne-fuel tt)
