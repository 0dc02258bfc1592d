-- ===== src/Prelude/Keys.antt =====
-- Equality tests of the keys that the program's maps use: numbers, byte strings and pairs.
use Prim.Native.Nat.{ℕ}
use mathlib.Core.Path.{◌≡◌, refl}
use mathlib.Core.Logic.{◌↔◌}
use mathlib.Core.Bool.{Bool, true, false, ◌&&◌}
use mathlib.Core.List.{List, [], ◌∷◌}
use native.Mathlib.Omega.{arith}
use blockfs.Prelude.Tests.{◌==◌, ==_iff}

pub record Eq {ℓ} (A : Type ℓ) : Type ℓ where
  pub beq : A → A → Bool
  pub beq_iff : (a b : A) → (beq a b ≡ true) ↔ (a ≡ b)

abbrev pub bytes_eq : List ℕ → List ℕ → Bool
bytes_eq [] [] = true
bytes_eq [] (y ∷ ys) = false
bytes_eq (x ∷ xs) [] = false
bytes_eq (x ∷ xs) (y ∷ ys) = (x == y) && bytes_eq xs ys

pub bytes_eq_iff : (xs ys : List ℕ) → (bytes_eq xs ys ≡ true) ↔ (xs ≡ ys)
bytes_eq_iff [] [] = (λ _. refl, λ _. refl)
bytes_eq_iff [] (y ∷ ys) = (λ h. cc, λ h. cc)
bytes_eq_iff (x ∷ xs) [] = (λ h. cc, λ h. cc)
bytes_eq_iff (x ∷ xs) (y ∷ ys) = ground (arith, bytes_eq_iff xs ys)

instance abbrev pub nat_eq : Eq ℕ
nat_eq = record { beq = ◌==◌; beq_iff = ==_iff }

instance abbrev pub bytes_eq_inst : Eq (List ℕ)
bytes_eq_inst = record { beq = bytes_eq; beq_iff = bytes_eq_iff }

abbrev key_eq : ℕ × List ℕ → ℕ × List ℕ → Bool
key_eq (a, x) (b, y) = (a == b) && bytes_eq x y

pub key_eq_iff : (a b : ℕ × List ℕ) → (key_eq a b ≡ true) ↔ (a ≡ b)
key_eq_iff (a, x) (b, y) = ground (arith, bytes_eq_iff x y)

instance abbrev pub key_eq_inst : Eq (ℕ × List ℕ)
key_eq_inst = record { beq = key_eq; beq_iff = key_eq_iff }
