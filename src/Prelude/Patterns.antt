-- ===== src/Prelude/Patterns.antt =====
-- The regular expressions by which the program checks its identifiers, as tests on code points.
-- `fullmatch` reads the whole text.
use Prim.Native.Nat.{ℕ, zero, suc}
use mathlib.Core.Bool.{Bool, false, ◌&&◌, ◌||◌}
use mathlib.Core.List.{[], ◌∷◌}
use taint_forge_io_t.Prelude.Tests.{leb, eqb, if◌then◌else◌}
use taint_forge_io_t.Prelude.Lists.{length, all}
use taint_forge_io_t.Prelude.Strings.{Text, codes, text_starts_with}

abbrev pub is_digit : ℕ → Bool
is_digit c = leb b'0' c && leb c b'9'

-- [0-9a-f]
abbrev pub is_hex : ℕ → Bool
is_hex c = is_digit c || (leb b'a' c && leb c b'f')

-- [A-Za-z0-9]
abbrev pub is_alnum : ℕ → Bool
is_alnum c = is_digit c || (leb b'A' c && leb c b'Z') || (leb b'a' c && leb c b'z')

-- [0-9a-f]{n}
unfoldable pub is_hex_of_length : ℕ → Text → Bool
is_hex_of_length n s = eqb (length s) n && all is_hex s

abbrev identifier_tail : ℕ → Bool
identifier_tail c = is_alnum c || eqb c b'_' || eqb c b'.' || eqb c b':' || eqb c b'-'

-- [A-Za-z0-9][A-Za-z0-9_.:-]{0,127}
unfoldable pub is_identifier : Text → Bool
is_identifier [] = false
is_identifier (c ∷ s) = is_alnum c && leb (length s) 127 && all identifier_tail s

-- [0-9]*-[0-9a-f]{12} behind `n` digits that must still come.
unfoldable pub is_index_and_digest : ℕ → Text → Bool
unfolding is_hex_of_length
is_index_and_digest n [] = false
is_index_and_digest zero (c ∷ s) =
    let rest = is_index_and_digest zero s in
    if is_digit c then rest else eqb c b'-' && is_hex_of_length 12 s
is_index_and_digest (suc n) (c ∷ s) = is_digit c && is_index_and_digest n s

abbrev drop_prefix : Text → Text → Text
drop_prefix [] s = s
drop_prefix (p ∷ ps) [] = []
drop_prefix (p ∷ ps) (c ∷ s) = drop_prefix ps s

-- attempt-[0-9]{3,}-[0-9a-f]{12}
unfoldable pub is_attempt_id : Text → Bool
unfolding is_index_and_digest
is_attempt_id s =
    text_starts_with s (codes "attempt-")
    && is_index_and_digest 3 (drop_prefix (codes "attempt-") s)
