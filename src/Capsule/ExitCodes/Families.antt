-- ===== src/Capsule/ExitCodes/Families.antt =====
-- What the table of bef_zk/capsule/cli/exit_codes.py says: which code stands for success, and the
-- families of error codes.
use capsule_tech.Common.{
  ℕ, ◌≡◌, ◌↔◌, inl, inr, refl, subst, Bool, true, false, ◌&&◌, ◌||◌, not, List, [], ◌∷◌, ◌==◌,
  if◌then◌else◌, Bool-cases, &&_parts,
}
use Prim.Native.String.{String}
use text.Mathlib.Text.{◌==◌ as text_eq, starts_with}
use text.Mathlib.TextEquality.{eq_iff}
use capsule_tech.Capsule.ExitCodes.{
  error_to_exit, find_exit, exit_or_malformed, error_to_exit_code, exit_code_description,
  exit_proof_invalid, exit_policy_mismatch, exit_commitment_failed, exit_da_audit_failed,
  exit_malformed, exit_verified,
}

all_rows : (String → ℕ → Bool) → List (String × ℕ) → Bool
all_rows p [] = true
all_rows p ((name, exit) ∷ rest) = p name exit && all_rows p rest

-- A test that holds of every row, and of the default, holds of what the lookup gives.
find_exit_holds :
    (p : String → ℕ → Bool) (code : String) (table : List (String × ℕ))
    → all_rows p table ≡ true
    → p code exit_malformed ≡ true
    → p code (exit_or_malformed (find_exit code table)) ≡ true
unfolding find_exit all_rows
find_exit_holds p code [] rows default = default
find_exit_holds p code ((name, exit) ∷ rest) rows default =
    let (first, later) = &&_parts (p name exit) (all_rows p rest) rows in
    elim (Bool-cases (text_eq name code)) [
      | inl same ↦
          rw (same, find_exit) (subst (λ n. p n exit ≡ true) ((eq_iff name code).0 same) first)
      | inr other ↦ rw (other, find_exit) (find_exit_holds p code rest later default)
    ]

abbrev ok_alone : String → ℕ → Bool
ok_alone name exit = not (exit == exit_verified) || text_eq name "OK"

ok_alone_rows : all_rows ok_alone error_to_exit ≡ true
unfolding all_rows
ok_alone_rows = refl

ok_alone-eq-ok : (name : String) (exit : ℕ) → ok_alone name exit ≡ true → exit ≡ 0 → name ≡ "OK"
ok_alone-eq-ok name exit h z = (eq_iff name "OK").0 (subst (λ e. ok_alone name e ≡ true) z h)

-- The exit code is 0 for the text "OK" and for no other error code, known to the table or not.
pub error_to_exit_code-eq-zero_iff : (code : String) → (error_to_exit_code code ≡ 0) ↔ (code ≡ "OK")
unfolding error_to_exit_code find_exit
error_to_exit_code-eq-zero_iff code = (
  ok_alone-eq-ok code (error_to_exit_code code)
      (find_exit_holds ok_alone code error_to_exit ok_alone_rows refl),
  λ e. rw e refl,
)

-- The families as the comments of both files name them, by the digits of the code.
abbrev pub family_exit : String → ℕ
family_exit code =
    if text_eq code "OK"
    then exit_verified
    else if starts_with code "E03" || starts_with code "E1"
    then exit_policy_mismatch
    else if starts_with code "E05" || starts_with code "E3"
    then exit_proof_invalid
    else if starts_with code "E06"
        || starts_with code "E075"
        || starts_with code "E076"
        || starts_with code "E2"
    then exit_commitment_failed
    else if starts_with code "E07"
    then exit_da_audit_failed
    else exit_malformed

abbrev pub is_one_of : String → List String → Bool
is_one_of code [] = false
is_one_of code (name ∷ names) = text_eq name code || is_one_of code names

abbrev in_family : String → Bool
in_family name =
    text_eq name "E077_DA_CHALLENGE_BINDING_INVALID"
    || (error_to_exit_code name == family_exit name)

all_in_family : List String → Bool
all_in_family [] = true
all_in_family (name ∷ names) = in_family name && all_in_family names

-- What the exit codes of the families mean, by the digits of the error code
abbrev pub family_description : String → String
family_description code =
    if text_eq code "OK"
    then "verified"
    else if starts_with code "E03" || starts_with code "E1"
    then "policy mismatch"
    else if starts_with code "E05" || starts_with code "E3"
    then "proof invalid"
    else if starts_with code "E06"
        || starts_with code "E075"
        || starts_with code "E076"
        || starts_with code "E2"
    then "commitment/index verification failed"
    else if starts_with code "E07"
    then "DA audit failed"
    else "malformed or parse error"

described : String → Bool
described name =
    text_eq name "E077_DA_CHALLENGE_BINDING_INVALID"
    || text_eq (exit_code_description (error_to_exit_code name)) (family_description name)

all_described : List String → Bool
all_described [] = true
all_described (name ∷ names) = described name && all_described names

-- E077 is no parse error, but takes the exit code of one.
pub challenge_binding_exit : error_to_exit_code "E077_DA_CHALLENGE_BINDING_INVALID" ≡ exit_malformed
unfolding error_to_exit_code find_exit
challenge_binding_exit = refl
