-- ===== src/Capsule/CapFormat/Safety.antt =====
-- Extraction of an archive: nothing that stood in the directory changes, and what is added stands
-- below it.
use mathlib.Core.Path.{subst}
use capsule_tech.Common.{
  ◌≡◌, refl, sym, ap, ◌∙◌, ◌⊎◌, inl, inr, true, false, &&_parts, Option, none, some, Option-cases,
  List, [], ◌∷◌, ◌++◌, length, take, All, All-append, ltb, Bool-cases, Result, ok, err,
}
use capsule_tech.Common.Bytes.{bytes_eq, bytes_eq→eq, bytes_eq_refl}
use capsule_tech.Capsule.CapFormat.{
  FilePath, Node, directory, file, Files, path_eq, find, exists, mkdir, Kind, regular_file, folder,
  symbolic_link, hard_link, special, Member, has_nul, is_seen, parent, Extraction, and_then,
  copy_file, write_member, on_path, extract_member, extract_members, safe_extract_tar,
  normalize_rel_path, max_tar_member_bytes,
}
use capsule_tech.Capsule.CapFormat.Paths.{SafePart, normalize_rel_path-Safe}

pub path_eq→eq : (p q : FilePath) → path_eq p q ≡ true → p ≡ q
unfolding path_eq
path_eq→eq [] [] h = refl
path_eq→eq [] (q ∷ qs) h = cc
path_eq→eq (p ∷ ps) [] h = cc
path_eq→eq (p ∷ ps) (q ∷ qs) h =
    let (one, more) = &&_parts (bytes_eq p q) (path_eq ps qs) h in
    cc (bytes_eq→eq p q one, path_eq→eq ps qs more)

pub path_eq_refl : (p : FilePath) → path_eq p p ≡ true
unfolding path_eq
path_eq_refl [] = refl
path_eq_refl (p ∷ ps) = rw (bytes_eq_refl p) (path_eq_refl ps)

-- What stood there stands, and what is new has a path of safe parts.
pub record Extends (before after : Files) : Type 0 where
  pub kept : (p : FilePath) (n : Node) → find before p ≡ some n → find after p ≡ some n
  pub below :
      (p : FilePath) (n : Node) → find after p ≡ some n → (find before p ≡ some n) ⊎ All SafePart p

pub Extends-refl : (fs : Files) → Extends fs fs
Extends-refl fs = record { kept = λ p n e. e; below = λ p n e. inl e }

pub Extends-trans : (a b c : Files) → Extends a b → Extends b c → Extends a c
Extends-trans a b c ab bc = record {
  kept = λ p n e. bc.kept p n (ab.kept p n e);
  below = λ p n e. elim (bc.below p n e) [ inl old ↦ ab.below p n old | inr safe ↦ inr safe ];
}

-- A new entry under a path of safe parts
add-Extends :
    (fs : Files) (q : FilePath) (n : Node)
    → find fs q ≡ none
    → All SafePart q
    → Extends fs ((q, n) ∷ fs)
unfolding find
add-Extends fs q n absent safe = record {
  kept = λ p m e. elim (Bool-cases (path_eq q p)) [
    | inl same ↦
        let clash : find fs p ≡ none = ap (find fs) (sym (path_eq→eq q p same)) ∙ absent in
        absurd (cc (clash, e))
    | inr other ↦ rw other e
  ];
  below = λ p m e. elim (Bool-cases (path_eq q p)) [
    | inl same ↦ inr (subst (All SafePart) (path_eq→eq q p same) safe)
    | inr other ↦ inl (rw other at e)
  ];
}

pub mkdir-Extends :
    (fs : Files) (here rest : FilePath)
    → All SafePart here
    → All SafePart rest
    → Extends fs (mkdir fs here rest).0
unfolding mkdir
mkdir-Extends fs here [] hs rs = Extends-refl fs
mkdir-Extends fs here (part ∷ rest) hs rs =
    let next = here ++ part ∷ [] in
    let safe : All SafePart (here ++ part ∷ []) =
      All-append SafePart here (part ∷ []) hs (rs.0, tt) in
    elim (Option-cases (find fs next)) [
      | inl missing ↦ rw missing (
          Extends-trans fs ((next, directory) ∷ fs) _ (add-Extends fs next directory missing safe)
            (mkdir-Extends ((next, directory) ∷ fs) next rest safe rs.1))
      | inr (directory, there) ↦ rw there (mkdir-Extends fs next rest safe rs.1)
      | inr (file content, blocked) ↦ rw blocked (Extends-refl fs)
    ]

pub parent-Safe : (p : FilePath) → All SafePart p → All SafePart (parent p)
unfolding parent
parent-Safe [] h = tt
parent-Safe (p ∷ []) h = tt
parent-Safe (p ∷ q ∷ ps) h = (h.0, parent-Safe (q ∷ ps) h.1)

-- Steps one after the other
and_then-Extends :
    {A B : Type 0} (fs : Files) (step : Extraction A) (next : Files → A → Extraction B)
    → Extends fs step.0
    → ((made : Files) (a : A) → Extends made (next made a).0)
    → Extends fs (and_then step next).0
and_then-Extends fs (made, ok a) next h k = Extends-trans fs made _ h (k made a)
and_then-Extends fs (made, err e) next h k = h

exists-false→none : (o : Option Node) → exists o ≡ false → o ≡ none
exists-false→none none h = refl
exists-false→none (some n) h = cc

pub copy_file-Extends :
    (fs : Files) (seen : List FilePath) (m : Member) (rel : FilePath)
    → All SafePart rel
    → Extends fs (copy_file fs seen m rel).0
unfolding copy_file
copy_file-Extends fs seen m rel safe = elim (Bool-cases (exists (find fs rel))) [
  | inl there ↦ rw there (Extends-refl fs)
  | inr absent ↦ elim (Bool-cases (ltb (length m.content) m.size)) [
    | inl truncated ↦
        rw (absent, truncated)
          (add-Extends fs rel (file m.content) (exists-false→none (find fs rel) absent) safe)
    | inr whole ↦
        rw (absent, whole)
          (add-Extends fs rel (file (take m.size m.content))
            (exists-false→none (find fs rel) absent) safe)
  ]
]

write_member-Extends :
    (fs : Files) (seen : List FilePath) (m : Member) (rel : FilePath) (kind : Kind)
    → All SafePart rel
    → Extends fs (write_member fs seen m rel kind).0
unfolding write_member
write_member-Extends fs seen m rel symbolic_link safe = Extends-refl fs
write_member-Extends fs seen m rel hard_link safe = Extends-refl fs
write_member-Extends fs seen m rel special safe = Extends-refl fs
write_member-Extends fs seen m rel folder safe =
    and_then-Extends fs (mkdir fs [] rel) _ (mkdir-Extends fs [] rel tt safe)
      λ made done. Extends-refl made
write_member-Extends fs seen m rel regular_file safe =
    elim (Bool-cases (ltb max_tar_member_bytes m.size)) [
      | inl large ↦ rw large (Extends-refl fs)
      | inr small ↦ rw small (
          and_then-Extends fs (mkdir fs [] (parent rel)) _
            (mkdir-Extends fs [] (parent rel) tt (parent-Safe rel safe))
            λ made done. copy_file-Extends made seen m rel safe)
    ]

on_path-Extends :
    (fs : Files) (seen : List FilePath) (m : Member) (found : Result (Option FilePath))
    → ((rel : FilePath) → found ≡ ok (some rel) → All SafePart rel)
    → Extends fs (on_path fs seen m found).0
on_path-Extends fs seen m (err e) safe = Extends-refl fs
on_path-Extends fs seen m (ok none) safe = Extends-refl fs
on_path-Extends fs seen m (ok (some rel)) safe = elim (Bool-cases (is_seen seen rel)) [
  | inl twice ↦ rw twice (Extends-refl fs)
  | inr new ↦ rw new (write_member-Extends fs (rel ∷ seen) m rel m.kind (safe rel refl))
]

extract_member-Extends :
    (fs : Files) (seen : List FilePath) (m : Member) → Extends fs (extract_member fs seen m).0
unfolding extract_member
extract_member-Extends fs seen m = elim (Bool-cases (has_nul m.name)) [
  | inl nul ↦ rw nul (Extends-refl fs)
  | inr plain ↦ rw plain (
      on_path-Extends fs seen m (normalize_rel_path m.name)
        λ rel e. normalize_rel_path-Safe m.name rel plain e)
]

pub extract_members-Extends :
    (fs : Files) (seen : List FilePath) (ms : List Member)
    → Extends fs (extract_members fs seen ms).0
unfolding extract_members
extract_members-Extends fs seen [] = Extends-refl fs
extract_members-Extends fs seen (m ∷ ms) =
    and_then-Extends fs (extract_member fs seen m) _ (extract_member-Extends fs seen m)
      λ made known. extract_members-Extends made known ms

-- Extraction of any archive into any directory, whether it ends well or raises on the way: every
-- file and directory that stood there stands unchanged, and each one that is new has a path whose
-- parts are not empty, not `.` or `..`, and hold no slash, backslash or NUL.
pub safe_extract_tar-Extends :
    (fs : Files) (members : List Member) → Extends fs (safe_extract_tar fs members).0
unfolding safe_extract_tar
safe_extract_tar-Extends fs members = extract_members-Extends fs [] members
