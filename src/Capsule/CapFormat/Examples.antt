-- ===== src/Capsule/CapFormat/Examples.antt =====
-- Archives at concrete members.
use capsule_tech.Common.{◌≡◌, refl, List, [], ◌∷◌, ok, err, extraction_error}
use capsule_tech.Common.Texts.{codes}
use capsule_tech.Capsule.CapFormat.{
  Files, directory, file, Member, regular_file, folder, normalize_rel_path, safe_extract_tar,
}
use capsule_tech.Capsule.CapFormat.Safety.{Extends, safe_extract_tar-Extends}
use capsule_tech.Capsule.CapFormat.Extracted.{AllArrived, safe_extract_tar-Arrived}

abbrev before : Files
before = ((codes "kept" ∷ []), file (1 ∷ [])) ∷ []

abbrev members : List Member
members =
    record { name = codes "."; kind = folder; size = 0; content = [] }
    ∷ record { name = codes "./archive"; kind = folder; size = 0; content = [] }
    ∷ record {
      name = codes "./archive/chunk.bin";
      kind = regular_file;
      size = 2;
      content = 7 ∷ 8 ∷ [];
    }
    ∷ []

abbrev after : Files
after =
    (codes "archive" ∷ codes "chunk.bin" ∷ [], file (7 ∷ 8 ∷ []))
    ∷ (codes "archive" ∷ [], directory)
    ∷ before

extracted :
    safe_extract_tar before members
    ≡ (after, ok ((codes "archive" ∷ codes "chunk.bin" ∷ []) ∷ (codes "archive" ∷ []) ∷ []))
unfolding safe_extract_tar
extracted = refl

safe_extract_tar-Extends_example : Extends before (safe_extract_tar before members).0
safe_extract_tar-Extends_example = safe_extract_tar-Extends before members

extracted_well :
    (safe_extract_tar before members).1
    ≡ ok ((codes "archive" ∷ codes "chunk.bin" ∷ []) ∷ (codes "archive" ∷ []) ∷ [])
unfolding safe_extract_tar
extracted_well = refl

safe_extract_tar-Arrived_example : AllArrived (safe_extract_tar before members).0 members
safe_extract_tar-Arrived_example = safe_extract_tar-Arrived before members extracted_well

-- Names that lead out of the directory are refused.
up_refused : normalize_rel_path (codes "a/../../b") ≡ err extraction_error
unfolding normalize_rel_path
up_refused = refl

backslash_refused : normalize_rel_path (codes "a\\..\\b") ≡ err extraction_error
unfolding normalize_rel_path
backslash_refused = refl

absolute_refused : normalize_rel_path (codes ".//etc") ≡ err extraction_error
unfolding normalize_rel_path
absolute_refused = refl
