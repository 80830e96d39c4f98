-- ===== src/Capsule/CapFormat/Paths.antt =====
-- A normalized path stays below the directory: none of its parts leads up or holds a separator.
use mathlib.Core.Option.{some-injective}
use mathlib.Core.Path.{subst}
use capsule_tech.Common.{
  ℕ, ◌≡◌, ◌≢◌, inl, inr, false, ◌||◌, Option, none, some, List, [], ◌∷◌, All, ◌==◌, Bool-cases, ok,
  ok_value, raise_if-eq-ok, extraction_error, arith, ||_parts,
}
use capsule_tech.Common.Bytes.{Bytes, bytes_eq, bytes_eq-false→ne}
use capsule_tech.Capsule.CapFormat.{
  forward, strip_here, cons_head, split, is_empty, parts_of, is_absolute, any_up, some_parts,
  normalize_rel_path, has_nul, FilePath,
}

-- No slash, no backslash and no NUL
abbrev pub IsPlain : ℕ → Type 0
IsPlain c = (c ≢ 47) × (c ≢ 92) × (c ≢ 0)

-- A name of something that stands in its directory
pub record SafePart (part : Bytes) : Type 0 where
  pub some_char : part ≢ []
  pub not_here : part ≢ 46 ∷ []
  pub not_up : part ≢ 46 ∷ 46 ∷ []
  pub plain : All IsPlain part

abbrev Spelled : ℕ → Type 0
Spelled c = (c ≢ 92) × (c ≢ 0)

forward-Spelled : (s : Bytes) → has_nul s ≡ false → All Spelled (forward s)
unfolding forward has_nul
forward-Spelled [] h = tt
forward-Spelled (c ∷ cs) h = ground (arith, forward-Spelled cs)

strip_here-Spelled : (s : Bytes) → All Spelled s → All Spelled (strip_here s)
unfolding strip_here
strip_here-Spelled [] h = h
strip_here-Spelled (a ∷ []) h = h
strip_here-Spelled (a ∷ b ∷ rest) h = ground (arith, strip_here-Spelled rest)

cons_head-IsPlain :
    (c : ℕ) (parts : List Bytes)
    → IsPlain c
    → All (All IsPlain) parts
    → All (All IsPlain) (cons_head c parts)
cons_head-IsPlain c [] p h = ((p, tt), tt)
cons_head-IsPlain c (part ∷ parts) p h = ((p, h.0), h.1)

split-IsPlain : (s : Bytes) → All Spelled s → All (All IsPlain) (split s)
unfolding split
split-IsPlain [] h = (tt, tt)
split-IsPlain (c ∷ cs) h = elim (Bool-cases (c == 47)) [
  | inl slash ↦ rw slash (tt, split-IsPlain cs h.1)
  | inr other ↦ rw other (cons_head-IsPlain c (split cs) (ground arith) (split-IsPlain cs h.1))
]

is_empty-false→ne : (part : Bytes) → is_empty part ≡ false → part ≢ []
is_empty-false→ne [] h e = cc
is_empty-false→ne (c ∷ cs) h e = cc

-- What is left of the parts, if nothing leads up
safe_parts :
    (parts : List Bytes)
    → All (All IsPlain) parts
    → any_up (parts_of parts) ≡ false
    → All SafePart (parts_of parts)
unfolding parts_of any_up
safe_parts [] h up = tt
safe_parts (part ∷ parts) h up = elim (Bool-cases (is_empty part || bytes_eq part (46 ∷ []))) [
  | inl dropped ↦ rw dropped (safe_parts parts h.1 (rw dropped at up))
  | inr kept ↦
      let (some_char, not_here) = ||_parts _ _ kept in
      let (first, rest) = ||_parts _ _ (rw kept at up) in
      rw kept (
        record {
          some_char = is_empty-false→ne part some_char;
          not_here = bytes_eq-false→ne part (46 ∷ []) not_here;
          not_up = bytes_eq-false→ne part (46 ∷ 46 ∷ []) (||_parts _ _ first).1;
          plain = h.0;
        },
        safe_parts parts h.1 rest,
      )
]

some_parts-All :
    (parts : List Bytes) (rel : FilePath)
    → All SafePart parts
    → some_parts parts ≡ some rel
    → All SafePart rel
some_parts-All [] rel h e = absurd (cc)
some_parts-All (part ∷ parts) rel h e = subst (All SafePart) (some-injective (part ∷ parts) rel e) h

some_parts-ne-nil : (parts : List Bytes) (rel : FilePath) → some_parts parts ≡ some rel → rel ≢ []
some_parts-ne-nil [] rel e = absurd (cc)
some_parts-ne-nil (part ∷ parts) rel e = λ p. cc (e, p)

-- A name without NUL that is accepted is a path of safe parts.
pub normalize_rel_path-Safe :
    (name : Bytes) (rel : FilePath)
    → has_nul name ≡ false
    → normalize_rel_path name ≡ ok (some rel)
    → All SafePart rel
unfolding normalize_rel_path
normalize_rel_path-Safe name rel plain e =
    elim (Bool-cases
      (is_empty (strip_here (forward name)) || bytes_eq (strip_here (forward name)) (46 ∷ []))) [
        | inl nothing ↦ absurd (none-ne-some (ok_value _ _ (rw nothing at e)))
        | inr something ↦
            let (relative, e1) =
              raise_if-eq-ok (is_absolute (strip_here (forward name))) extraction_error _
                (rw something at e) in
            let (down, e2) =
              raise_if-eq-ok (any_up (parts_of (split (strip_here (forward name)))))
                extraction_error _ e1 in
            some_parts-All (parts_of (split (strip_here (forward name)))) rel
              (safe_parts (split (strip_here (forward name)))
                (split-IsPlain _ (strip_here-Spelled _ (forward-Spelled name plain))) down)
              (ok_value _ _ e2)
      ]
  where
    none-ne-some : ◌≡◌ {A = Option FilePath} none (some rel) → ⊥
    none-ne-some p = cc

-- Such a path has a part.
pub normalize_rel_path-ne-nil :
    (name : Bytes) (rel : FilePath) → normalize_rel_path name ≡ ok (some rel) → rel ≢ []
unfolding normalize_rel_path
normalize_rel_path-ne-nil name rel e =
    elim (Bool-cases
      (is_empty (strip_here (forward name)) || bytes_eq (strip_here (forward name)) (46 ∷ []))) [
        | inl nothing ↦ λ none_left. cc (ok_value _ _ (rw nothing at e))
        | inr something ↦
            let (relative, e1) =
              raise_if-eq-ok (is_absolute (strip_here (forward name))) extraction_error _
                (rw something at e) in
            let (down, e2) =
              raise_if-eq-ok (any_up (parts_of (split (strip_here (forward name)))))
                extraction_error _ e1 in
            some_parts-ne-nil (parts_of (split (strip_here (forward name)))) rel (ok_value _ _ e2)
      ]
