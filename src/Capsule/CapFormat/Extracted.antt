-- ===== src/Capsule/CapFormat/Extracted.antt =====
-- Extraction that ends well: every member stands where its name says.
use mathlib.Core.Path.{subst}
use mathlib.Core.List.{append_assoc}
use capsule_tech.Common.{
  ◌≤◌, ◌≡◌, ◌≢◌, refl, sym, ap, ◌∙◌, ◌⊎◌, inl, inr, some, Option-cases, List, [], ◌∷◌, ◌++◌, length,
  take, ltb, ltb→ge, Bool-cases, ok, err,
}
use capsule_tech.Common.Bytes.{Bytes}
use capsule_tech.Capsule.CapFormat.{
  FilePath, directory, file, Files, find, exists, mkdir, Kind, regular_file, folder, symbolic_link,
  hard_link, special, Member, has_nul, is_seen, parent, Extraction, and_then, copy_file,
  write_member, on_path, extract_member, extract_members, safe_extract_tar, normalize_rel_path,
  max_tar_member_bytes,
}
use capsule_tech.Capsule.CapFormat.Paths.{normalize_rel_path-ne-nil}
use capsule_tech.Capsule.CapFormat.Safety.{path_eq_refl, Extends, extract_members-Extends}

-- What a run that ends well went through
and_then-eq-ok :
    {A B : Type 0} (step : Extraction A) (next : Files → A → Extraction B) {b : B}
    → (and_then step next).1 ≡ ok b
    → (made : Files) × (a : A) × (step ≡ (made, ok a))
      × ((next made a).1 ≡ ok b)
      × ((and_then step next).0 ≡ (next made a).0)
and_then-eq-ok (made, ok a) next e = (made, a, refl, e, refl)
and_then-eq-ok (made, err raised) next e = absurd (cc)

mkdir-made :
    (fs : Files) (here rest : FilePath) (part : Bytes)
    → (mkdir fs here (part ∷ rest)).1 ≡ ok tt
    → find (mkdir fs here (part ∷ rest)).0 (here ++ part ∷ rest) ≡ some directory
unfolding mkdir
mkdir-made fs here [] part e = elim (Option-cases (find fs (here ++ part ∷ []))) [
  | inl missing ↦ rw missing (unfold find in (rw (path_eq_refl (here ++ part ∷ [])) refl))
  | inr (directory, there) ↦ rw there there
  | inr (file content, blocked) ↦ absurd (cc (rw blocked at e))
]
mkdir-made fs here (next ∷ rest) part e =
    let path = append_assoc here (part ∷ []) (next ∷ rest) in
    elim (Option-cases (find fs (here ++ part ∷ []))) [
      | inl missing ↦ rw missing (
          rw (← path) (
            mkdir-made ((here ++ part ∷ [], directory) ∷ fs) (here ++ part ∷ []) rest next
              (rw missing at e)))
      | inr (directory, there) ↦
          rw there (rw (← path) (mkdir-made fs (here ++ part ∷ []) rest next (rw there at e)))
      | inr (file content, blocked) ↦ absurd (cc (rw blocked at e))
    ]

-- A member that was extracted: a file with its content, whole and not too large, or a directory
abbrev pub Arrived : Files → Member → FilePath → Type 0
Arrived fs m rel =
    ((m.kind ≡ regular_file)
      × (m.size ≤ max_tar_member_bytes)
      × (m.size ≤ length m.content)
      × (find fs rel ≡ some (file (take m.size m.content))))
    ⊎ ((m.kind ≡ folder) × (find fs rel ≡ some directory))

copy_file-Arrived :
    (fs : Files) (seen : List FilePath) (m : Member) (rel : FilePath) {known : List FilePath}
    → (copy_file fs seen m rel).1 ≡ ok known
    → (m.size ≤ length m.content)
      × (find (copy_file fs seen m rel).0 rel ≡ some (file (take m.size m.content)))
unfolding copy_file
copy_file-Arrived fs seen m rel e = elim (Bool-cases (exists (find fs rel))) [
  | inl there ↦ absurd (cc (rw there at e))
  | inr absent ↦ elim (Bool-cases (ltb (length m.content) m.size)) [
    | inl truncated ↦ absurd (cc (rw (absent, truncated) at e))
    | inr whole ↦
        (ltb→ge _ _ whole, (rw (absent, whole) (unfold find in (rw (path_eq_refl rel) refl))))
  ]
]

write_member-Arrived :
    (fs : Files) (seen : List FilePath) (m : Member) (part : Bytes) (rest : FilePath) (kind : Kind)
    {known : List FilePath}
    → m.kind ≡ kind
    → (write_member fs seen m (part ∷ rest) kind).1 ≡ ok known
    → Arrived (write_member fs seen m (part ∷ rest) kind).0 m (part ∷ rest)
unfolding write_member
write_member-Arrived fs seen m part rest symbolic_link k e = absurd (cc)
write_member-Arrived fs seen m part rest hard_link k e = absurd (cc)
write_member-Arrived fs seen m part rest special k e = absurd (cc)
write_member-Arrived fs seen m part rest folder k e =
    let (made, done, step, ended, same) = and_then-eq-ok (mkdir fs [] (part ∷ rest)) _ e in
    inr (
      k,
      ap (λ f. find f (part ∷ rest)) (same ∙ sym (ap (λ x. x.0) step))
          ∙ mkdir-made fs [] rest part (ap (λ x. x.1) step),
    )
write_member-Arrived fs seen m part rest regular_file k e =
    elim (Bool-cases (ltb max_tar_member_bytes m.size)) [
      | inl large ↦ absurd (cc (rw large at e))
      | inr small ↦
          let (made, done, step, ended, same) =
            and_then-eq-ok (mkdir fs [] (parent (part ∷ rest))) _ (rw small at e) in
          let (whole, there) = copy_file-Arrived made seen m (part ∷ rest) ended in
          rw small (inl (k, ltb→ge _ _ small, whole, ap (λ f. find f (part ∷ rest)) same ∙ there))
    ]

on_path-Arrived :
    (fs : Files) (seen : List FilePath) (m : Member) (rel : FilePath) {known : List FilePath}
    → rel ≢ []
    → (on_path fs seen m (ok (some rel))).1 ≡ ok known
    → Arrived (on_path fs seen m (ok (some rel))).0 m rel
on_path-Arrived fs seen m [] some_part e = absurd (some_part refl)
on_path-Arrived fs seen m (part ∷ rest) some_part e =
    elim (Bool-cases (is_seen seen (part ∷ rest))) [
      | inl twice ↦ absurd (cc (rw twice at e))
      | inr new ↦
          rw new
            (write_member-Arrived fs ((part ∷ rest) ∷ seen) m part rest m.kind refl (rw new at e))
    ]

extract_member-Arrived :
    (fs : Files) (seen : List FilePath) (m : Member) (rel : FilePath) {known : List FilePath}
    → normalize_rel_path m.name ≡ ok (some rel)
    → (extract_member fs seen m).1 ≡ ok known
    → Arrived (extract_member fs seen m).0 m rel
unfolding extract_member
extract_member-Arrived fs seen m rel named e = elim (Bool-cases (has_nul m.name)) [
  | inl nul ↦ absurd (cc (rw nul at e))
  | inr plain ↦
      rw (plain, named)
        (on_path-Arrived fs seen m rel (normalize_rel_path-ne-nil m.name rel named)
          (rw (plain, named) at e))
]

Arrived-Extends :
    (before after : Files) (m : Member) (rel : FilePath)
    → Extends before after
    → Arrived before m rel
    → Arrived after m rel
Arrived-Extends before after m rel x (inl (k, small, whole, there)) =
    inl (k, small, whole, x.kept rel _ there)
Arrived-Extends before after m rel x (inr (k, there)) = inr (k, x.kept rel _ there)

-- Every member of the list that has a path has arrived.
abbrev pub AllArrived : Files → List Member → Type 0
AllArrived fs [] = Unit
AllArrived fs (m ∷ ms) =
    ((rel : FilePath) → normalize_rel_path m.name ≡ ok (some rel) → Arrived fs m rel)
    × AllArrived fs ms

extract_members-Arrived :
    (fs : Files) (seen : List FilePath) (ms : List Member) {known : List FilePath}
    → (extract_members fs seen ms).1 ≡ ok known
    → AllArrived (extract_members fs seen ms).0 ms
unfolding extract_members
extract_members-Arrived fs seen [] e = tt
extract_members-Arrived fs seen (m ∷ ms) e =
    let (made, now, step, ended, same) = and_then-eq-ok (extract_member fs seen m) _ e in
    (
      (λ rel named.
          subst (λ f. Arrived f m rel) (sym same)
            (Arrived-Extends made (extract_members made now ms).0 m rel
              (extract_members-Extends made now ms)
              (subst (λ f. Arrived f m rel) (ap (λ x. x.0) step)
                (extract_member-Arrived fs seen m rel named (ap (λ x. x.1) step))))),
      subst (λ f. AllArrived f ms) (sym same) (extract_members-Arrived made now ms ended),
    )

-- Extraction that ends well: each member whose name is a path is a regular file or a directory, no
-- link and nothing special. A file stands under its path with as many bytes of content as its size
-- says, none missing and not over the limit; a directory stands under its path.
pub safe_extract_tar-Arrived :
    (fs : Files) (members : List Member) {known : List FilePath}
    → (safe_extract_tar fs members).1 ≡ ok known
    → AllArrived (safe_extract_tar fs members).0 members
unfolding safe_extract_tar
safe_extract_tar-Arrived fs members e = extract_members-Arrived fs [] members e
