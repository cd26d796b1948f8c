-- ===== src/PrivateSocket/Media.antt =====
-- IsValidSha256Hex (ProjectServer/Source/Public/Managers/MessageType.h). A byte of a character
-- beyond ASCII is no digit, so the loop over bytes is one over characters.
use Prim.Native.Nat.{ℕ}
use Prim.Native.Char.{code}
use Prim.Native.String.{String, [], ◌∷◌, len}
use squirrel_communicator.Prelude.{Bool, true, ◌&&◌, ◌||◌, leb, ◌==◌}

abbrev between : ℕ → ℕ → ℕ → Bool
between low high n = leb low n && leb n high

-- one round of the loop: '0' to '9', 'a' to 'f' or 'A' to 'F'
unfoldable pub is_hex_digit : ℕ → Bool
is_hex_digit n = between 48 57 n || between 97 102 n || between 65 70 n

unfoldable pub all_hex_digits : String → Bool
unfolding is_hex_digit
all_hex_digits [] = true
all_hex_digits (c ∷ text) = is_hex_digit (code c) && all_hex_digits text

-- IsValidSha256Hex
unfoldable pub is_valid_sha256_hex : String → Bool
unfolding all_hex_digits
is_valid_sha256_hex text = (len text == 64) && all_hex_digits text
