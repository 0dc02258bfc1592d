-- ===== src/BlockHandle/Laws.antt =====
-- The pool of lib/block_handle.cc as a set of block ids: which ids an operation moves.
use blockfs.Prelude.{
  ℕ, ◌+◌, ◌-◌, ◌≤◌, ◌<◌, ◌≡◌, ◌≢◌, ◌⊎◌, ◌↔◌, inl, inr, refl, sym, ap, ◌∙◌, List, [], ◌∷◌, none,
  some, true, length, take, drop, length-take, arith, count, count-append, take-append-drop,
  lt_or_ge, lt→ltb, le→ltb_false, IsDistinct, Bool-cases,
}
use blockfs.BlockHandle.{
  BlockHandle, set_contains, initialize_meta, get_specific_block_id, get_free_block_id_lock,
  emplace_all, put_free_block_id_lock,
}
use blockfs.BlockHandle.Counts.{
  count_of_member, count_of_other, count-set_erase_le, count-set_erase_self, count-set_erase_ne,
  count-emplace_range_out, count-emplace_range_in, count-emplace_all,
}

count-take-drop : (a n : ℕ) (xs : List ℕ) → count a (take n xs) + count a (drop n xs) ≡ count a xs
count-take-drop a n xs =
    sym (count-append a (take n xs) (drop n xs)) ∙ ap (count a) (take-append-drop n xs)

-- The invariant of the pool: every id at most once, and none at or above the bound.
abbrev pub IsPool : BlockHandle → Type 0
IsPool h =
    IsDistinct h.block_id_pool × ((a : ℕ) → h.max_block_num ≤ a → count a h.block_id_pool ≡ 0)

-- A request for n ids either fails for want of ids and leaves the pool as it was, or takes exactly
-- n ids: each id of the old pool is then as often in the two lists together as it was before.
pub get_free_block_id_lock-partition :
    (h : BlockHandle) (n : ℕ)
    → let (ids, h') = get_free_block_id_lock h n in
      ((length h.block_id_pool < n) × (ids ≡ none) × (h' ≡ h))
      ⊎ ((n ≤ length h.block_id_pool)
          × (h'.max_block_num ≡ h.max_block_num)
          × ((taken : List ℕ) × (ids ≡ some taken)
              × (length taken ≡ n)
              × ((a : ℕ) → count a taken + count a h'.block_id_pool ≡ count a h.block_id_pool)))
unfolding get_free_block_id_lock
get_free_block_id_lock-partition h n = elim (lt_or_ge (length h.block_id_pool) n) [
  | inl short ↦ rw (lt→ltb _ _ short) (inl (short, refl, refl))
  | inr enough ↦ rw (le→ltb_false (length h.block_id_pool) n enough) (
      inr (
        enough,
        refl,
        (
          take n h.block_id_pool,
          refl,
          omega (arith, length-take n h.block_id_pool),
          λ a. count-take-drop a n h.block_id_pool,
        ),
      ))
]

put_free_block_id_lock-adds :
    (h : BlockHandle) (ids : List ℕ)
    → IsPool h
    → 0 < length ids
    → ((a : ℕ) → count a ids + count a h.block_id_pool ≤ 1)
    → ((a : ℕ) → h.max_block_num ≤ a → count a ids ≡ 0)
    → let (added, h') = put_free_block_id_lock h ids in
      (added ≡ true)
      × IsPool h'
      × ((a : ℕ) → count a h'.block_id_pool ≡ count a ids + count a h.block_id_pool)
unfolding put_free_block_id_lock
put_free_block_id_lock-adds h [] valid some_ids apart below = absurd (omega arith)
put_free_block_id_lock-adds h (id ∷ ids) valid some_ids apart below =
    let sum : (a : ℕ)
        → count a (emplace_all (id ∷ ids) h.block_id_pool)
          ≡ count a (id ∷ ids) + count a h.block_id_pool =
      λ a. count-emplace_all (id ∷ ids) h.block_id_pool a (apart a) valid.0 in
    (
      refl,
      (λ a. omega (arith, sum a, apart a), λ a l. omega (arith, sum a, below a l, valid.1 a l)),
      sum,
    )

-- From a pool that holds at least n ids, n of them can be taken; put back, they leave the pool with
-- the ids that it had before.
put_free_block_id_lock-get_free_block_id_lock :
    (h : BlockHandle) (n : ℕ)
    → IsPool h
    → 0 < n
    → n ≤ length h.block_id_pool
    → (ids : List ℕ) × ((get_free_block_id_lock h n).0 ≡ some ids)
      × (let (added, h') = put_free_block_id_lock (get_free_block_id_lock h n).1 ids in
          (added ≡ true)
          × IsPool h'
          × ((a : ℕ) → count a h'.block_id_pool ≡ count a h.block_id_pool))
unfolding get_free_block_id_lock
put_free_block_id_lock-get_free_block_id_lock h n valid some_ids enough =
    let ids = take n h.block_id_pool in
    let rest = record h { block_id_pool = drop n h.block_id_pool } in
    let split = λ (a : ℕ). count-take-drop a n h.block_id_pool in
    let back =
      put_free_block_id_lock-adds rest ids
        (λ a. omega (arith, split a, valid.0 a), λ a l. omega (arith, split a, valid.1 a l))
        (omega (arith, length-take n h.block_id_pool)) (λ a. omega (arith, split a, valid.0 a))
        (λ a l. omega (arith, split a, valid.1 a l)) in
    rw (le→ltb_false (length h.block_id_pool) n enough)
      (ids, refl, (back.0, back.1, λ a. back.2 a ∙ split a))

-- Growing the pool to a new bound adds each id from the old bound up to the new one, once, and no
-- other.
pub initialize_meta-grows :
    (h : BlockHandle) (new_max : ℕ)
    → IsPool h
    → h.max_block_num ≤ new_max
    → let h' = initialize_meta new_max h in
      IsPool h'
      × ((a : ℕ) → a < h.max_block_num → count a h'.block_id_pool ≡ count a h.block_id_pool)
      × ((a : ℕ) → h.max_block_num ≤ a → a < new_max → count a h'.block_id_pool ≡ 1)
unfolding initialize_meta
initialize_meta-grows h new_max valid up = (
  (
    λ a. elim (lt_or_ge a h.max_block_num) [
      | inl old ↦ omega (arith, valid.0 a, out a (inl old))
      | inr new ↦ elim (lt_or_ge a new_max) [
        | inl added ↦ omega (arith, fresh a new added)
        | inr beyond ↦ omega (arith, valid.0 a, out a (omega arith))
      ]
    ],
    λ a l. out a (omega arith) ∙ valid.1 a (omega arith),
  ),
  λ a l. out a (inl l),
  fresh,
)
  where
    out :
        (a : ℕ)
        → ((a < h.max_block_num) ⊎ (h.max_block_num + (new_max - h.max_block_num) ≤ a))
        → count a (initialize_meta new_max h).block_id_pool ≡ count a h.block_id_pool
    out = count-emplace_range_out h.max_block_num (new_max - h.max_block_num) h.block_id_pool

    fresh :
        (a : ℕ)
        → h.max_block_num ≤ a
        → a < new_max
        → count a (initialize_meta new_max h).block_id_pool ≡ 1
    fresh a l u =
        count-emplace_range_in h.max_block_num (new_max - h.max_block_num) h.block_id_pool a valid.0
          l (omega arith)

-- Taking a given id out of the pool succeeds exactly when the pool holds it; then it is gone, and no
-- other id moves.
get_specific_block_id-takes :
    (h : BlockHandle) (id : ℕ)
    → IsPool h
    → let (found, h') = get_specific_block_id h id in
      ((count id h.block_id_pool ≡ 1) ↔ (found ≡ true))
      × IsPool h'
      × (count id h'.block_id_pool ≡ 0)
      × ((a : ℕ) → a ≢ id → count a h'.block_id_pool ≡ count a h.block_id_pool)
unfolding get_specific_block_id
get_specific_block_id-takes h id valid =
    let gone = count-set_erase_self id h.block_id_pool in
    let fewer = λ (a : ℕ). count-set_erase_le id a h.block_id_pool in
    let kept = λ (a : ℕ) (ne : a ≢ id). count-set_erase_ne id a h.block_id_pool ne in
    elim (Bool-cases (set_contains id h.block_id_pool)) [
      | inl held ↦
          let once = count_of_member id h.block_id_pool held in
          rw held (
            ((λ _. refl), (λ _. omega (arith, once, valid.0 id))),
            (
              (λ a. omega (arith, valid.0 a, fewer a)),
              (λ a l. omega (arith, valid.1 a l, fewer a)),
            ),
            omega (arith, gone, valid.0 id),
            kept,
          )
      | inr missing ↦
          let zero_times = count_of_other id h.block_id_pool missing in
          rw missing (
            ((λ e. absurd (omega (arith, e, zero_times))), (λ e. ground arith)),
            valid,
            zero_times,
            λ a ne. refl,
          )
    ]
