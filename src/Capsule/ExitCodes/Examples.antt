-- ===== src/Capsule/ExitCodes/Examples.antt =====
-- Lookups in bef_zk/capsule/cli/exit_codes.py, and the theorems at those error codes.
use capsule_tech.Common.{◌≡◌, ◌↔◌, refl}
use Prim.Native.String.{String}
use capsule_tech.Capsule.ExitCodes.{find_exit, error_to_exit_code}
use capsule_tech.Capsule.ExitCodes.Families.{error_to_exit_code-eq-zero_iff}

hash_mismatch : error_to_exit_code "E052_PROOF_HASH_MISMATCH" ≡ 10
unfolding error_to_exit_code find_exit
hash_mismatch = refl

abbrev parse_failed_code : String
parse_failed_code = "E001_PARSE_FAILED"

abbrev hash_mismatch_code : String
hash_mismatch_code = "E052_PROOF_HASH_MISMATCH"

-- E001_PARSE_FAILED, which the command line raises, is in no table.
parse_failed : error_to_exit_code "E001_PARSE_FAILED" ≡ 20
unfolding error_to_exit_code find_exit
parse_failed = refl

error_to_exit_code-eq-zero_iff_example :
    (error_to_exit_code parse_failed_code ≡ 0) ↔ (parse_failed_code ≡ "OK")
error_to_exit_code-eq-zero_iff_example = error_to_exit_code-eq-zero_iff parse_failed_code
