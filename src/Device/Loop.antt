-- ===== src/Device/Loop.antt =====
-- `wrapFull` of lib/device.cc: a transfer is repeated on what is left until the kernel reports an
-- end or an error. The kernel's answers are a list; a run that uses them up is still going on.
use blockfs.Prelude.{
  ℕ, suc, ◌+◌, ◌-◌, ◌%◌, ◌<◌, ◌≤◌, ◌≡◌, ◌≢◌, ◌⊎◌, inl, inr, refl, sym, subst, List, [], ◌∷◌, Bool,
  true, false, ◌==◌, ◌||◌, if◌then◌else◌, arith, u64, Bool-cases,
}

-- What one call of `pread` or `pwrite` answers: a count, an interruption, or another error.
pub data Answer : Type 0 where
  moved : ℕ → Answer
  interrupted : Answer
  refused : Answer

pub data Ending : Type 0 where
  returned : ℕ → Ending
  failed : Ending
  going_on : Ending

-- The bytes that one call moved: where in the buffer, where on the device, and how many.
pub record Part : Type 0 where
  pub buffer_offset : ℕ
  pub dev_offset : ℕ
  pub size : ℕ

abbrev with_part : Part → Ending × List Part → Ending × List Part
with_part p (e, ps) = (e, p ∷ ps)

-- The loop, with what it has moved so far in `total_bytes`, and the parts that its calls move.
unfoldable pub wrap_full : List Answer → ℕ → ℕ → ℕ → ℕ → Ending × List Part
wrap_full [] b count offset total_bytes = (going_on, [])
wrap_full (refused ∷ answers) b count offset total_bytes = (failed, [])
wrap_full (interrupted ∷ answers) b count offset total_bytes =
    let again = wrap_full answers b count offset total_bytes in
    if count == 0 then (returned total_bytes, []) else again
wrap_full (moved r ∷ answers) b count offset total_bytes =
    let left = (count + u64 - r) % u64 in
    let again = wrap_full answers (b + r) left (offset + r) (total_bytes + r) in
    with_part (record { buffer_offset = b; dev_offset = offset; size = r })
      (if (r == 0) || (left == 0) then (returned (total_bytes + r), []) else again)

-- The kernel moves no more than it was asked for.
abbrev Bounded : List Answer → ℕ → Type 0
Bounded [] count = Unit {0}
Bounded (refused ∷ answers) count = Unit {0}
Bounded (interrupted ∷ answers) count = Bounded answers count
Bounded (moved r ∷ answers) count = (r ≤ count) × Bounded answers (count - r)

-- The parts lie one behind the other, in the buffer and on the device, and end at `size`.
abbrev pub Consecutive : ℕ → ℕ → List Part → ℕ → Type 0
Consecutive b offset [] size = size ≡ 0
Consecutive b offset (p ∷ ps) size =
    (p.buffer_offset ≡ b)
    × (p.dev_offset ≡ offset)
    × (p.size ≤ size)
    × Consecutive (b + p.size) (offset + p.size) ps (size - p.size)

-- An answer of no bytes, which is the end of the device.
abbrev pub meets_end : List Answer → Bool
meets_end [] = false
meets_end (refused ∷ answers) = meets_end answers
meets_end (interrupted ∷ answers) = meets_end answers
meets_end (moved r ∷ answers) = (r == 0) || meets_end answers

-- How many answers are not interruptions.
abbrev settled : List Answer → ℕ
settled [] = 0
settled (refused ∷ answers) = suc (settled answers)
settled (interrupted ∷ answers) = settled answers
settled (moved r ∷ answers) = suc (settled answers)

-- After a move of r bytes the loop goes on with the rest of the count.
left_over : (count r : ℕ) → count < u64 → r ≤ count → (count + u64 - r) % u64 ≡ count - r
left_over count r word h = omega arith

returned_injective : {x y : ℕ} → returned x ≡ returned y → x ≡ y
returned_injective e = cc

-- A transfer that returns has moved the bytes it counts, each part behind the one before, and it
-- counts all that it was asked for unless the kernel reported the end of the device.
pub wrap_full-Consecutive :
    (answers : List Answer) (b count offset total_bytes t : ℕ)
    → count < u64
    → Bounded answers count
    → (wrap_full answers b count offset total_bytes).0 ≡ returned t
    → (total_bytes ≤ t)
      × Consecutive b offset (wrap_full answers b count offset total_bytes).1 (t - total_bytes)
      × ((t ≡ total_bytes + count) ⊎ ((t < total_bytes + count) × (meets_end answers ≡ true)))
unfolding wrap_full
wrap_full-Consecutive [] b count offset total t word bounded e = cc
wrap_full-Consecutive (refused ∷ answers) b count offset total t word bounded e = cc
wrap_full-Consecutive (interrupted ∷ answers) b count offset total t word bounded e =
    elim (Bool-cases (count == 0)) [
      | inl nothing ↦
          let same : total ≡ t = returned_injective (rw nothing at e) in
          rw nothing (omega arith, omega arith, inl (ground (arith, nothing)))
      | inr some_bytes ↦
          rw some_bytes
            (wrap_full-Consecutive answers b count offset total t word bounded (rw some_bytes at e))
    ]
wrap_full-Consecutive (moved r ∷ answers) b count offset total t word bounded e =
    let left = left_over count r word bounded.0 in
    elim (Bool-cases ((r == 0) || ((count + u64 - r) % u64 == 0))) [
      | inl stops ↦
          let same : total + r ≡ t = returned_injective (rw stops at e) in
          rw stops
            (omega arith, (refl, refl, omega arith, omega arith), ground (arith, left, stops, same))
      | inr goes ↦
          let rest =
            wrap_full-Consecutive answers (b + r) ((count + u64 - r) % u64) (offset + r) (total + r)
              t (omega (arith, left)) (subst (Bounded answers) (sym left) bounded.1)
              (rw goes at e) in
          let sizes : t - (total + r) ≡ t - total - r = omega arith in
          rw goes (
            omega (arith, rest.0),
            (
              refl,
              refl,
              omega (arith, rest.0),
              subst (Consecutive (b + r) (offset + r) _) sizes rest.1,
            ),
            ground (arith, left, rest.2, bounded.0),
          )
    ]

-- However often it is interrupted, a transfer ends once the kernel has answered one more time than
-- there are bytes to move.
pub wrap_full-ends :
    (answers : List Answer) (b count offset total_bytes : ℕ)
    → count < u64
    → Bounded answers count
    → count < settled answers
    → (wrap_full answers b count offset total_bytes).0 ≢ going_on
unfolding wrap_full
wrap_full-ends [] b count offset total word bounded enough = absurd (omega arith)
wrap_full-ends (refused ∷ answers) b count offset total word bounded enough = λ e. cc
wrap_full-ends (interrupted ∷ answers) b count offset total word bounded enough =
    elim (Bool-cases (count == 0)) [
      | inl nothing ↦ rw nothing (λ e. cc)
      | inr some_bytes ↦
          rw some_bytes (wrap_full-ends answers b count offset total word bounded enough)
    ]
wrap_full-ends (moved r ∷ answers) b count offset total word bounded enough =
    let left = left_over count r word bounded.0 in
    elim (Bool-cases ((r == 0) || ((count + u64 - r) % u64 == 0))) [
      | inl stops ↦ rw stops (λ e. cc)
      | inr goes ↦
          let some_bytes : 0 < r = ground arith in
          rw goes (
            wrap_full-ends answers (b + r) ((count + u64 - r) % u64) (offset + r) (total + r)
              (omega (arith, left)) (subst (Bounded answers) (sym left) bounded.1)
              (omega (arith, left, some_bytes)))
    ]
