-- ===== src/Repair/Applier/Guard.antt =====
-- `_validate_guest_path` and `_parse_mode` of repair_applier.py.
use taint_forge_io_t.Guest.Paths.{as_posix, components, has_parent_part, is_below, is_slash}
use taint_forge_io_t.Prelude.{
  Bool, Json, List, Option, Result, Text, [], any, boolean, codes, eqb, err, false, has_code,
  if◌then◌else◌, leb, ltb, ok, refl, refuse, require, rstrip, some, string, text_eq,
  text_starts_with, true, ℕ, ◌&&◌, ◌*◌, ◌+◌, ◌-◌, ◌>>◌, ◌∷◌, ◌≡◌,
}

pub data RepairApplicationError : Type 0 where
  nul_byte not_absolute root_directory parent_traversal not_normalized : RepairApplicationError
  pseudo_filesystem parents_not_true invalid_mode special_bits : RepairApplicationError
  not_auto_candidate action_not_enabled no_implementation : RepairApplicationError
  cannot_inspect crosses_symlink not_directory became_symlink : RepairApplicationError
  became_non_directory cannot_create digest_mismatch cannot_save : RepairApplicationError
  bad_rootfs unreadable_input invalid_plan : RepairApplicationError

abbrev pub denied_prefixes : List Text
denied_prefixes = codes "/proc" ∷ codes "/sys" ∷ codes "/dev" ∷ []

-- The normalised path, or the first test that it fails.
unfoldable pub validate_guest_path : Text → Result RepairApplicationError Text
validate_guest_path path = do
  refuse (has_code 0 path) nul_byte
  require (text_starts_with path (codes "/")) not_absolute
  refuse (text_eq path (codes "/")) root_directory
  refuse (has_parent_part (components path)) parent_traversal
  require (text_eq (as_posix path) (rstrip is_slash path)) not_normalized
  refuse (any (is_below (as_posix path)) denied_prefixes) pseudo_filesystem
  ok (as_posix path)

abbrev pub is_octal : ℕ → Bool
is_octal c = leb b'0' c && leb c b'7'

abbrev pub octal_value : ℕ → Text → ℕ
octal_value n [] = n
octal_value n (c ∷ s) = octal_value (n * 8 + (c - b'0')) s

-- `re.fullmatch("0?[0-7]{3}", value)`
abbrev pub is_mode : Text → Bool
is_mode (a ∷ b ∷ c ∷ []) = is_octal a && is_octal b && is_octal c
is_mode (z ∷ a ∷ b ∷ c ∷ []) = eqb z b'0' && is_octal a && is_octal b && is_octal c
is_mode _ = false

unfoldable pub parse_mode : Option Json → Result RepairApplicationError ℕ
parse_mode (some (string value)) =
    if is_mode (codes value)
    then if ltb 0o777 (octal_value 0 (codes value))
      then err special_bits
      else ok (octal_value 0 (codes value))
    else err invalid_mode
parse_mode _ = err invalid_mode

-- `parameters.get("parents") is True`
abbrev pub is_true_parameter : Option Json → Bool
is_true_parameter (some (boolean true)) = true
is_true_parameter _ = false

validate_guest_path_tests :
    (validate_guest_path (codes "/var/run/") ≡ ok (codes "/var/run"))
    × (validate_guest_path (codes "/proc/net") ≡ err pseudo_filesystem)
    × (validate_guest_path (codes "/a/../b") ≡ err parent_traversal)
    × (validate_guest_path (codes "//proc/net") ≡ ok (codes "//proc/net"))
    × (parse_mode (some (string "0755")) ≡ ok 0o755)
unfolding validate_guest_path as_posix components parse_mode is_below rstrip
validate_guest_path_tests = (refl, refl, refl, refl, refl)
