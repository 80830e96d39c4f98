-- ===== src/Capsule/CapFormat.antt =====
-- bef_zk/capsule/cli/cap_format.py: paths in an archive, and its extraction into a directory. The
-- directory is taken to hold no symbolic links, so `resolve` changes no path below it; the archive
-- itself holds none, since they are refused. `exists` and `mkdir` look at the model's file system.
pub mod Paths
pub mod Safety
pub mod Extracted
mod Examples
use mathlib.Core.Bool.{not}
use capsule_tech.Common.{
  ℕ, zero, suc, ◌*◌, ◌^◌, Bool, true, false, ◌&&◌, ◌||◌, Option, none, some, List, [], ◌∷◌, ◌++◌,
  map, length, take, ltb, ◌==◌, if◌then◌else◌, Error, Result, ok, err, extraction_error, os_error,
  ◌>>=◌, ◌>>◌, raise_if,
}
use capsule_tech.Common.Bytes.{Bytes, bytes_eq}

-- `rel.replace("\\", "/")`, and the loop that drops `./` at the front
unfoldable pub forward : Bytes → Bytes
forward = map (λ c. if c == 92 then 47 else c)

unfoldable pub strip_here : Bytes → Bytes
strip_here [] = []
strip_here (a ∷ []) = a ∷ []
strip_here (a ∷ b ∷ rest) =
    let stripped = strip_here rest in if a == 46 && b == 47 then stripped else a ∷ b ∷ rest

abbrev pub cons_head : ℕ → List Bytes → List Bytes
cons_head c [] = (c ∷ []) ∷ []
cons_head c (part ∷ parts) = (c ∷ part) ∷ parts

-- `rel.split("/")`
unfoldable pub split : Bytes → List Bytes
split [] = [] ∷ []
split (c ∷ cs) = if c == 47 then [] ∷ split cs else cons_head c (split cs)

abbrev pub is_empty : Bytes → Bool
is_empty [] = true
is_empty (c ∷ cs) = false

-- The parts of a relative path: `PurePosixPath` drops empty parts and `.`.
unfoldable pub parts_of : List Bytes → List Bytes
unfolding bytes_eq
parts_of [] = []
parts_of (part ∷ parts) =
    if is_empty part || bytes_eq part (46 ∷ []) then parts_of parts else part ∷ parts_of parts

unfoldable pub is_absolute : Bytes → Bool
is_absolute [] = false
is_absolute (c ∷ cs) = c == 47

unfoldable pub any_up : List Bytes → Bool
unfolding bytes_eq
any_up [] = false
any_up (part ∷ parts) = is_empty part || bytes_eq part (46 ∷ 46 ∷ []) || any_up parts

abbrev pub some_parts : List Bytes → Option (List Bytes)
some_parts [] = none
some_parts (part ∷ parts) = some (part ∷ parts)

unfoldable pub normalize_rel_path : Bytes → Result (Option (List Bytes))
unfolding forward strip_here split parts_of is_absolute any_up bytes_eq
normalize_rel_path name =
    let rel = strip_here (forward name) in
    if is_empty rel || bytes_eq rel (46 ∷ []) then ok none else do
      raise_if (is_absolute rel) extraction_error
      let parts = parts_of (split rel)
      raise_if (any_up parts) extraction_error
      ok (some_parts parts)

abbrev pub FilePath : Type 0
FilePath = List Bytes

pub data Node : Type 0 where
  directory : Node
  file : Bytes → Node

abbrev pub Files : Type 0
Files = List (FilePath × Node)

unfoldable pub path_eq : FilePath → FilePath → Bool
unfolding bytes_eq
path_eq [] [] = true
path_eq [] (q ∷ qs) = false
path_eq (p ∷ ps) [] = false
path_eq (p ∷ ps) (q ∷ qs) = bytes_eq p q && path_eq ps qs

unfoldable pub find : Files → FilePath → Option Node
unfolding path_eq
find [] p = none
find ((q, n) ∷ fs) p = if path_eq q p then some n else find fs p

abbrev pub exists : Option Node → Bool
exists none = false
exists (some n) = true

-- What a new directory meets: nothing, a directory, or a file.
abbrev pub on_node {ℓ} : {A : Type ℓ} → Option Node → A → A → A → A
on_node none missing there blocked = missing
on_node (some directory) missing there blocked = there
on_node (some (file content)) missing there blocked = blocked

-- `mkdir(parents=True, exist_ok=True)`, from the root on: `here` is there, `rest` is still to come.
unfoldable pub mkdir : Files → FilePath → FilePath → Files × Result (Unit {0})
unfolding find
mkdir fs here [] = (fs, ok tt)
mkdir fs here (part ∷ rest) =
    let next = here ++ part ∷ [] in
    let made = mkdir ((next, directory) ∷ fs) next rest in
    let entered = mkdir fs next rest in on_node (find fs next) made entered (fs, err os_error)

pub data Kind : Type 0 where
  regular_file folder symbolic_link hard_link special : Kind

-- A member of the archive: what is read of it is `content`, which ends early in a broken archive.
pub record Member : Type 0 where
  pub name : Bytes
  pub kind : Kind
  pub size : ℕ
  pub content : Bytes

-- The default of the environment variable `CAP_MAX_MEMBER_BYTES`
abbrev pub max_tar_member_bytes : ℕ
max_tar_member_bytes = 512 * 2 ^ 20

unfoldable pub has_nul : Bytes → Bool
has_nul [] = false
has_nul (c ∷ cs) = c == 0 || has_nul cs

unfoldable pub is_seen : List FilePath → FilePath → Bool
unfolding path_eq
is_seen [] p = false
is_seen (q ∷ qs) p = path_eq q p || is_seen qs p

unfoldable pub parent : FilePath → FilePath
parent [] = []
parent (p ∷ []) = []
parent (p ∷ q ∷ ps) = p ∷ parent (q ∷ ps)

abbrev pub Extraction : Type 0 → Type 0
Extraction A = Files × Result A

abbrev pub and_then : {A B : Type 0} → Extraction A → (Files → A → Extraction B) → Extraction B
and_then (fs, ok a) next = next fs a
and_then (fs, err e) next = (fs, err e)

-- The copy of a regular file: `open(dest, "xb")`, and the loop that reads `size` bytes
unfoldable pub copy_file : Files → List FilePath → Member → FilePath → Extraction (List FilePath)
unfolding find
copy_file fs seen m rel =
    if exists (find fs rel)
    then (fs, err extraction_error)
    else if ltb (length m.content) m.size
    then ((rel, file m.content) ∷ fs, err extraction_error)
    else ((rel, file (take m.size m.content)) ∷ fs, ok seen)

unfoldable pub write_member :
    Files → List FilePath → Member → FilePath → Kind → Extraction (List FilePath)
unfolding mkdir copy_file parent
write_member fs seen m rel symbolic_link = (fs, err extraction_error)
write_member fs seen m rel hard_link = (fs, err extraction_error)
write_member fs seen m rel special = (fs, err extraction_error)
write_member fs seen m rel folder = and_then (mkdir fs [] rel) λ made done. (made, ok seen)
write_member fs seen m rel regular_file =
    if ltb max_tar_member_bytes m.size
    then (fs, err extraction_error)
    else and_then (mkdir fs [] (parent rel)) λ made done. copy_file made seen m rel

abbrev pub on_path :
    Files → List FilePath → Member → Result (Option FilePath) → Extraction (List FilePath)
on_path fs seen m (err e) = (fs, err e)
on_path fs seen m (ok none) = (fs, ok seen)
on_path fs seen m (ok (some rel)) =
    if is_seen seen rel
    then (fs, err extraction_error)
    else write_member fs (rel ∷ seen) m rel m.kind

-- In a file system without links the path that is resolved lies under the root, so the check of this
-- has no case.
unfoldable pub extract_member : Files → List FilePath → Member → Extraction (List FilePath)
unfolding has_nul normalize_rel_path is_seen write_member
extract_member fs seen m =
    if has_nul m.name
    then (fs, err extraction_error)
    else on_path fs seen m (normalize_rel_path m.name)

unfoldable pub extract_members : Files → List FilePath → List Member → Extraction (List FilePath)
unfolding extract_member
extract_members fs seen [] = (fs, ok seen)
extract_members fs seen (m ∷ ms) =
    and_then (extract_member fs seen m) λ made known. extract_members made known ms

unfoldable pub safe_extract_tar : Files → List Member → Extraction (List FilePath)
unfolding extract_members
safe_extract_tar fs members = extract_members fs [] members
