-- ===== src/Prelude/Map.antt =====
-- The program's hash maps as association lists: `find`, `m[k] = v` and `erase` by key.
use blockfs.Prelude.Tests.{◌==◌, if◌then◌else◌}
use blockfs.Prelude.Keys.{Eq}
use Prim.Native.Nat.{ℕ}
use mathlib.Core.Path.{◌≡◌, refl}
use mathlib.Core.Logic.{◌≢◌}
use mathlib.Core.Bool.{Bool, true, false}
use mathlib.Core.Option.{Option, none, some}
use mathlib.Core.List.{List, [], ◌∷◌}
use native.Mathlib.Omega.{arith}

abbrev pub Map {ℓ κ} : Type ℓ → Type κ → Type (ℓ ⊔ κ)
Map K V = List (K × V)

pub beq_refl {ℓ} : {K : Type ℓ} ⦃e : Eq K⦄ (k : K) → e.beq k k ≡ true
beq_refl ⦃e⦄ k = (e.beq_iff k k).1 refl

module _ {ℓ κ} {K : Type ℓ} {V : Type κ} ⦃e : Eq K⦄ where
  abbrev pub find : K → Map K V → Option V
  find k [] = none
  find k ((j, v) ∷ m) = if e.beq k j then some v else find k m

  abbrev pub contains : K → Map K V → Bool
  contains k m = elim (find k m) [ none ↦ false | some _ ↦ true ]

  abbrev pub insert : K → V → Map K V → Map K V
  insert k v [] = (k, v) ∷ []
  insert k v ((j, w) ∷ m) = if e.beq k j then (k, v) ∷ m else (j, w) ∷ insert k v m

  abbrev pub erase : K → Map K V → Map K V
  erase k [] = []
  erase k ((j, w) ∷ m) = if e.beq k j then erase k m else (j, w) ∷ erase k m

  pub find-insert_self : (k : K) (v : V) (m : Map K V) → find k (insert k v m) ≡ some v
  find-insert_self k v [] = ground (arith, beq_refl k)
  find-insert_self k v ((j, w) ∷ m) = ground (arith, beq_refl k, find-insert_self k v m)

  pub contains-insert_self : (k : K) (v : V) (m : Map K V) → contains k (insert k v m) ≡ true
  contains-insert_self k v m = rw (find-insert_self k v m, contains) refl

  pub find-insert_ne : (j k : K) (v : V) (m : Map K V) → j ≢ k → find j (insert k v m) ≡ find j m
  find-insert_ne j k v [] h = ground (arith, e.beq_iff j k)
  find-insert_ne j k v ((i, w) ∷ m) h =
      ground (arith, e.beq_iff j k, e.beq_iff k i, find-insert_ne j k v m h)

  pub find-erase_self : (k : K) (m : Map K V) → find k (erase k m) ≡ none
  find-erase_self k [] = refl
  find-erase_self k ((j, w) ∷ m) = ground (arith, find-erase_self k m)

  pub find-erase_ne : (j k : K) (m : Map K V) → j ≢ k → find j (erase k m) ≡ find j m
  find-erase_ne j k [] h = refl
  find-erase_ne j k ((i, w) ∷ m) h =
      ground (arith, e.beq_iff j k, e.beq_iff k i, e.beq_iff j i, find-erase_ne j k m h)

-- A store addressed by number: the value written last, and the old ones elsewhere.
abbrev pub update {ℓ} : {A : Type ℓ} → (ℕ → A) → ℕ → A → ℕ → A
update f i a j = if j == i then a else f j

pub update_at {ℓ} : {A : Type ℓ} (f : ℕ → A) (i : ℕ) (a : A) → update f i a i ≡ a
update_at f i a = ground arith
