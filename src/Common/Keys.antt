-- ===== src/Common/Keys.antt =====
-- Go's `==` on comparable types: an interface with its law, and the instances for the types that
-- the maps of the program are keyed by.
use Prim.Native.Nat.{ℕ}
use Prim.Native.String.{String}
use mathlib.Core.Path.{◌≡◌, refl}
use mathlib.Core.Logic.{◌↔◌, ◌≢◌}
use mathlib.Core.Bool.{Bool, true, false}
use text.Mathlib.Text.{◌==◌ as str_eq}
use text.Mathlib.TextEquality.{eq_iff}
use distributed_framework.Common.Tests.{nat_eq, nat_eq_iff}

-- A type whose values `==` compares: its test holds exactly of equal values.
pub record Comparable {ℓ} (A : Type ℓ) : Type ℓ where
  pub same : A → A → Bool
  pub same_iff : (x y : A) → (same x y ≡ true) ↔ (x ≡ y)

instance abbrev pub nat_keys : Comparable ℕ
nat_keys = record { same_iff = nat_eq_iff; same = nat_eq }

instance abbrev pub string_keys : Comparable String
string_keys = record { same_iff = eq_iff; same = str_eq }

module _ {ℓ} {A : Type ℓ} ⦃keys : Comparable A⦄ where
  infix 50 ◌==◌
  abbrev pub ◌==◌ : A → A → Bool
  x == y = keys.same x y

  pub ==_refl : (x : A) → (x == x) ≡ true
  ==_refl x = (keys.same_iff x x).1 refl

  pub ==_iff : (x y : A) → ((x == y) ≡ true) ↔ (x ≡ y)
  ==_iff x y = keys.same_iff x y

  pub ==_of_ne : (x y : A) → x ≢ y → (x == y) ≡ false
  ==_of_ne x y h = false_of (x == y) (keys.same_iff x y).0
    where
      false_of : (t : Bool) → ((t ≡ true) → x ≡ y) → t ≡ false
      false_of true f = absurd (h (f refl))
      false_of false f = refl
