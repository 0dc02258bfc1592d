-- ===== src/BlockHandle/Counts.antt =====
-- How often the pool of lib/block_handle.cc holds a block id, behind each change of the set.
use blockfs.Prelude.{
  ℕ, zero, suc, ◌+◌, ◌-◌, ◌≤◌, ◌<◌, ◌≡◌, ◌≢◌, ◌⊎◌, inl, inr, refl, sym, ap, ◌∙◌, List, [], ◌∷◌,
  true, false, ◌==◌, arith, count, lt_or_ge, IsDistinct, Bool-cases,
}
use blockfs.BlockHandle.{set_contains, set_emplace, set_erase, emplace_range, emplace_all}

pub count_of_member : (a : ℕ) (xs : List ℕ) → set_contains a xs ≡ true → 0 < count a xs
count_of_member a [] h = ground arith
count_of_member a (x ∷ xs) h = ground (arith, count_of_member a xs)

pub count_of_other : (a : ℕ) (xs : List ℕ) → set_contains a xs ≡ false → count a xs ≡ 0
count_of_other a [] h = refl
count_of_other a (x ∷ xs) h = ground (arith, count_of_other a xs)

count-set_emplace_self : (a : ℕ) (xs : List ℕ) → count a xs ≤ 1 → count a (set_emplace a xs) ≡ 1
count-set_emplace_self a xs h = elim (Bool-cases (set_contains a xs)) [
  | inl held ↦ ground (arith, count_of_member a xs held)
  | inr missing ↦ ground (arith, count_of_other a xs missing)
]

count-set_emplace_ne : (a b : ℕ) (xs : List ℕ) → b ≢ a → count b (set_emplace a xs) ≡ count b xs
count-set_emplace_ne a b xs h = ground arith

pub count-set_erase_le : (a b : ℕ) (xs : List ℕ) → count b (set_erase a xs) ≤ count b xs
count-set_erase_le a b [] = omega arith
count-set_erase_le a b (x ∷ xs) = ground (arith, count-set_erase_le a b xs)

set_emplace-IsDistinct : (a : ℕ) (xs : List ℕ) → IsDistinct xs → IsDistinct (set_emplace a xs)
set_emplace-IsDistinct a xs d b = elim (Bool-cases (b == a)) [
  | inl same ↦ ground (arith, count-set_emplace_self a xs (d a), d b)
  | inr other ↦ ground (arith, count-set_emplace_ne a b xs, d b)
]

pub count-set_erase_self : (a : ℕ) (xs : List ℕ) → count a (set_erase a xs) ≡ count a xs - 1
count-set_erase_self a [] = omega arith
count-set_erase_self a (x ∷ xs) = ground (arith, count-set_erase_self a xs)

pub count-set_erase_ne : (a b : ℕ) (xs : List ℕ) → b ≢ a → count b (set_erase a xs) ≡ count b xs
count-set_erase_ne a b [] h = refl
count-set_erase_ne a b (x ∷ xs) h = ground (arith, count-set_erase_ne a b xs h)

pub count-emplace_range_out :
    (lo n : ℕ) (pool : List ℕ) (a : ℕ)
    → ((a < lo) ⊎ (lo + n ≤ a))
    → count a (emplace_range lo n pool) ≡ count a pool
unfolding emplace_range
count-emplace_range_out lo zero pool a h = refl
count-emplace_range_out lo (suc n) pool a h =
    count-emplace_range_out (suc lo) n (set_emplace lo pool) a (omega arith)
    ∙ count-set_emplace_ne lo a pool (omega arith)

pub count-emplace_range_in :
    (lo n : ℕ) (pool : List ℕ) (a : ℕ)
    → IsDistinct pool
    → lo ≤ a
    → a < lo + n
    → count a (emplace_range lo n pool) ≡ 1
unfolding emplace_range
count-emplace_range_in lo zero pool a d l h = absurd (omega arith)
count-emplace_range_in lo (suc n) pool a d l h = elim (lt_or_ge lo a) [
  | inl later ↦
      count-emplace_range_in (suc lo) n (set_emplace lo pool) a (set_emplace-IsDistinct lo pool d)
        (omega arith) (omega arith)
  | inr here ↦
      let same : a ≡ lo = omega arith in
      count-emplace_range_out (suc lo) n (set_emplace lo pool) a (omega arith)
      ∙ ap (λ x. count x (set_emplace lo pool)) same
      ∙ count-set_emplace_self lo pool (d lo)
]

pub count-emplace_all :
    (ids pool : List ℕ) (a : ℕ)
    → count a ids + count a pool ≤ 1
    → IsDistinct pool
    → count a (emplace_all ids pool) ≡ count a ids + count a pool
unfolding emplace_all
count-emplace_all [] pool a h d = omega arith
count-emplace_all (id ∷ ids) pool a h d = elim (Bool-cases (a == id)) [
  | inl same ↦
      let e : a ≡ id = ground arith in
      let none_left : count a pool ≡ 0 = ground arith in
      let one : count a (set_emplace id pool) ≡ 1 =
        ap (λ x. count a (set_emplace x pool)) (sym e) ∙ count-set_emplace_self a pool (d a) in
      let rest =
        count-emplace_all ids (set_emplace id pool) a (ground arith)
          (set_emplace-IsDistinct id pool d) in
      ground (arith, rest)
  | inr other ↦
      let kept : count a (set_emplace id pool) ≡ count a pool =
        count-set_emplace_ne id a pool (λ e. ground arith) in
      let rest =
        count-emplace_all ids (set_emplace id pool) a (ground arith)
          (set_emplace-IsDistinct id pool d) in
      ground (arith, rest)
]
