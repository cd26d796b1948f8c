-- ===== src/Server/Permissions/Bits.antt =====
-- A permission of one bit, read as a digit of the number that holds the permissions.
use squirrel_communicator.Prelude.{ℕ, zero, suc, ◌+◌, ◌*◌, ◌/◌, ◌%◌, ◌≤◌, ◌≡◌, refl, ◌==◌, arith}
use squirrel_communicator.Server.Permissions.{
  has_permission, can_create_invites, can_kick_members, can_manage_channels,
}
use native.Mathlib.Nat.{le_refl}
use Prim.Native.Nat.{min, digits, bit_and, bit_and-bitwise}

-- The library's `bit_and` runs on fuel; any two amounts that are enough give the same.
unfoldable conjoin : ℕ → ℕ → ℕ → ℕ
conjoin = digits (λ b. 0) min

conjoin-any_fuel :
    (fuel other a b : ℕ) → a ≤ fuel → a ≤ other → conjoin fuel a b ≡ conjoin other a b
unfolding conjoin
conjoin-any_fuel zero zero zero b h k = refl
conjoin-any_fuel zero (suc other) zero b h k = refl
conjoin-any_fuel (suc fuel) zero zero b h k = refl
conjoin-any_fuel (suc fuel) (suc other) zero b h k = refl
conjoin-any_fuel zero other (suc a) b h k = absurd (omega arith)
conjoin-any_fuel (suc fuel) zero (suc a) b h k = absurd (omega arith)
conjoin-any_fuel (suc fuel) (suc other) (suc a) b h k =
    rw (conjoin-any_fuel fuel other (suc a / 2) (b / 2) (omega arith) (omega arith))

conjoin-zero : (fuel a : ℕ) → conjoin fuel a 0 ≡ 0
unfolding conjoin
conjoin-zero zero zero = refl
conjoin-zero zero (suc a) = refl
conjoin-zero (suc fuel) zero = refl
conjoin-zero (suc fuel) (suc a) = omega (arith, conjoin-zero fuel (suc a / 2))

bit_and-conjoin : (a b : ℕ) → bit_and a b ≡ conjoin a a b
unfolding conjoin
bit_and-conjoin a b = bit_and-bitwise a b

conjoin-halves :
    (a b : ℕ) → conjoin a a b ≡ conjoin (a / 2) (a / 2) (b / 2) * 2 + min (a % 2) (b % 2)
unfolding conjoin
conjoin-halves zero b = omega arith
conjoin-halves (suc a) b =
    omega (arith, conjoin-any_fuel a (suc a / 2) (suc a / 2) (b / 2) (omega arith) (le_refl _))

-- The lowest digit apart
bit_and-halves : (a b : ℕ) → bit_and a b ≡ bit_and (a / 2) (b / 2) * 2 + min (a % 2) (b % 2)
bit_and-halves a b = rw (bit_and-conjoin a b, bit_and-conjoin (a / 2) (b / 2)) (conjoin-halves a b)

bit_and-zero : (a : ℕ) → bit_and a 0 ≡ 0
bit_and-zero a = rw (bit_and-conjoin a 0) (conjoin-zero a a)

bit_and-one : (a : ℕ) → bit_and a 1 ≡ a % 2
bit_and-one a = omega (arith, bit_and-halves a 1, bit_and-zero (a / 2))

bit_and-two : (a : ℕ) → bit_and a 2 ≡ a / 2 % 2 * 2
bit_and-two a = omega (arith, bit_and-halves a 2, bit_and-one (a / 2))

bit_and-four : (a : ℕ) → bit_and a 4 ≡ a / 4 % 2 * 4
bit_and-four a = omega (arith, bit_and-halves a 4, bit_and-two (a / 2))

bit_and-eight : (a : ℕ) → bit_and a 8 ≡ a / 8 % 2 * 8
bit_and-eight a = omega (arith, bit_and-halves a 8, bit_and-four (a / 2))

-- Whether one digit of a number that holds permissions is set
pub has_create_invites : (p : ℕ) → has_permission p can_create_invites ≡ (p % 2 == 1)
unfolding has_permission
has_create_invites p = ground (arith, bit_and-one p)

pub has_kick_members : (p : ℕ) → has_permission p can_kick_members ≡ (p / 2 % 2 == 1)
unfolding has_permission
has_kick_members p = ground (arith, bit_and-two p)

pub has_manage_channels : (p : ℕ) → has_permission p can_manage_channels ≡ (p / 8 % 2 == 1)
unfolding has_permission
has_manage_channels p = ground (arith, bit_and-eight p)
