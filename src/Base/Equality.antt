-- ===== src/Base/Equality.antt =====
-- Go's `==` on comparable types, as an interface with its law.
use Prim.Native.Nat.{ℕ}
use mathlib.Core.Path.{◌≡◌, refl}
use mathlib.Core.Logic.{◌↔◌}
use mathlib.Core.Bool.{Bool, true, ◌&&◌}
use native.Mathlib.Omega.{arith}
use magic_webb.Base.Tests.{nat_eqb, nat_eqb_iff}
use magic_webb.Base.Strings.{Bytes, bytes_eqb, bytes_eqb_iff}

pub record Comparable {ℓ} (A : Type ℓ) : Type ℓ where
  pub equals : A → A → Bool
  pub equals_iff : (a b : A) → (equals a b ≡ true) ↔ (a ≡ b)

infix 50 ◌==◌
abbrev pub ◌==◌ {ℓ} : {A : Type ℓ} ⦃e : Comparable A⦄ → A → A → Bool
◌==◌ ⦃e⦄ = e.equals

instance abbrev pub nat_eq : Comparable ℕ
nat_eq = record { equals = nat_eqb; equals_iff = nat_eqb_iff }

instance abbrev pub bytes_eq : Comparable Bytes
bytes_eq = record { equals = bytes_eqb; equals_iff = bytes_eqb_iff }

pub eqb_refl {ℓ} : {A : Type ℓ} ⦃e : Comparable A⦄ (a : A) → (a == a) ≡ true
eqb_refl ⦃e⦄ a = (e.equals_iff a a).1 refl

-- Two keys of a composite primary key.
abbrev pub both_eqb : Bytes × ℕ → Bytes × ℕ → Bool
both_eqb p q = bytes_eqb p.0 q.0 && nat_eqb p.1 q.1

pub both_eqb_iff : (p q : Bytes × ℕ) → (both_eqb p q ≡ true) ↔ (p ≡ q)
both_eqb_iff p q = ground (arith, bytes_eqb_iff p.0 q.0)

instance abbrev pub bytes_nat_eq : Comparable (Bytes × ℕ)
bytes_nat_eq = record { equals = both_eqb; equals_iff = both_eqb_iff }
