-- ===== src/Prelude/Keys.antt =====
-- Keys of maps: a type with a decidable equality, found as an instance.
use Prim.Native.Nat.{ℕ}
use Prim.Native.String.{String}
use mathlib.Core.Path.{◌≡◌}
use mathlib.Core.Bool.{Bool, true, false}
use native.Mathlib.Decide.{ℕ_discrete}
use text.Mathlib.Text.{◌==◌ as str_eq}
use text.Mathlib.TextEquality.{eq_iff}

pub record Key {ℓ} (K : Type ℓ) : Type ℓ where
  pub same : Discrete K

-- The decision whether two keys are equal.
infix 50 ◌≟◌
abbrev pub ◌≟◌ {ℓ} : {K : Type ℓ} ⦃key : Key K⦄ → Discrete K
◌≟◌ ⦃key⦄ = key.same

text_dec : (s t : String) (b : Bool) → str_eq s t ≡ b → Dec (s ≡ t)
text_dec s t true e = yes ((eq_iff s t).0 e)
text_dec s t false e = no (λ p. cc ((eq_iff s t).1 p))

unfoldable pub String-discrete : Discrete String
unfolding text_dec
String-discrete s t = text_dec s t (str_eq s t) (λ i. str_eq s t)

instance abbrev pub nat_key : Key ℕ
nat_key = record { same = ℕ_discrete }

instance abbrev pub string_key : Key String
string_key = record { same = String-discrete }

abbrev pub is_yes {ℓ} : {P : Type ℓ} → Dec P → Bool
is_yes (yes p) = true
is_yes (no n) = false

-- What a decision answers, as a Boolean, settles it.
pub no_of_is_yes {ℓ} : {P : Type ℓ} (d : Dec P) → is_yes d ≡ false → ¬ P
no_of_is_yes (yes p) e h = cc
no_of_is_yes (no n) e h = n h
