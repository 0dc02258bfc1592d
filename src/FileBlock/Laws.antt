-- ===== src/FileBlock/Laws.antt =====
-- The block list of a file block (lib/file_block.cc).
use blockfs.Prelude.{
  ℕ, suc, ◌+◌, ◌≤◌, ◌<◌, ◌≡◌, ◌⊎◌, inl, inr, refl, ap, ◌∙◌, [], ◌∷◌, ◌++◌, true, false, length,
  take, set, take-set, length-set, arith, lt_or_ge,
}
use blockfs.Meta.{FileBlockMeta, k_file_block_capacity}
use blockfs.FileBlock.{is_block_full, add_block_id, used_block_ids}

-- The array of a record has its full length, and the count stays within it.
abbrev pub IsFileBlock : FileBlockMeta → Type 0
IsFileBlock m =
    (length m.block_id ≡ k_file_block_capacity) × (m.used_block_num ≤ k_file_block_capacity)

-- A well-formed file block stays so. A full one takes no more ids; another one takes the id behind
-- its others.
pub add_block_id-appends :
    (id : ℕ) (m : FileBlockMeta)
    → IsFileBlock m
    → IsFileBlock (add_block_id id m)
      × (((m.used_block_num ≡ k_file_block_capacity) × (add_block_id id m ≡ m))
          ⊎ ((m.used_block_num < k_file_block_capacity)
              × ((add_block_id id m).used_block_num ≡ m.used_block_num + 1)
              × (used_block_ids (add_block_id id m) ≡ used_block_ids m ++ id ∷ [])))
unfolding add_block_id
add_block_id-appends id m valid = elim (lt_or_ge m.used_block_num k_file_block_capacity) [
  | inl room ↦
      let open_block : is_block_full m ≡ false = ground arith in
      let next : m.used_block_num + 1 ≡ suc m.used_block_num = omega arith in
      rw open_block (
        (length-set m.block_id m.used_block_num id ∙ valid.0, omega arith),
        inr (
          room,
          refl,
          ap (λ n. take n (set m.block_id m.used_block_num id)) next
              ∙ take-set m.used_block_num m.block_id id (omega (arith, valid.0)),
        ),
      )
  | inr full ↦
      let all : m.used_block_num ≡ k_file_block_capacity = omega (arith, full, valid.1) in
      let closed_block : is_block_full m ≡ true = ground arith in
      rw closed_block (valid, inl (all, refl))
]
