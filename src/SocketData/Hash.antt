-- ===== src/SocketData/Hash.antt =====
-- HashString (ProjectServer/Source/Private/Sockets/SocketData.cpp): FNV-1a on uint32_t over the
-- bytes of a text, here those of its UTF-8.
use Prim.Native.Nat.{ℕ, ◌+◌, ◌-◌, ◌*◌, ◌/◌, ◌%◌, ◌^◌, bit_xor}
use Prim.Native.Char.{code}
use Prim.Native.String.{String, [], ◌∷◌}
use squirrel_communicator.Prelude.{ltb, if◌then◌else◌}

-- hash ^= static_cast<uint32_t>(c): a char is signed, so its sign is extended
unfoldable pub hash_byte : ℕ → ℕ → ℕ
hash_byte hash c = bit_xor hash (if ltb c 128 then c else c + (2 ^ 32 - 2 ^ 8)) * 16777619 % 2 ^ 32

-- The bytes of one character
unfoldable pub hash_char : ℕ → ℕ → ℕ
unfolding hash_byte
hash_char hash n =
    if ltb n 128
    then hash_byte hash n
    else if ltb n 2048
    then hash_byte (hash_byte hash (192 + n / 64)) (128 + n % 64)
    else if ltb n 65536
    then hash_byte (hash_byte (hash_byte hash (224 + n / 4096)) (128 + n / 64 % 64)) (128 + n % 64)
    else hash_byte
        (hash_byte (hash_byte (hash_byte hash (240 + n / 262144)) (128 + n / 4096 % 64))
          (128 + n / 64 % 64))
        (128 + n % 64)

unfoldable pub hash_from : ℕ → String → ℕ
unfolding hash_char
hash_from hash [] = hash
hash_from hash (c ∷ text) = hash_from (hash_char hash (code c)) text

-- HashString
unfoldable pub hash_string : String → ℕ
unfolding hash_from
hash_string text = hash_from 2166136261 text
