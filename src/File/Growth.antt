-- ===== src/File/Growth.antt =====
-- How many blocks the growth of a file takes, and where they go (`File::ExtendFile`, lib/file.cc).
use blockfs.Prelude.{
  ℕ, ◌+◌, ◌-◌, ◌*◌, ◌≤◌, ◌<◌, ◌≡◌, ◌⊎◌, inl, inr, refl, ap, ◌∙◌, sym, List, [], ◌∷◌, ◌++◌, none,
  true, false, length, append_assoc, append_nil, subst, arith, u32,
}
use blockfs.Prelude.Map.{update}
use blockfs.Meta.{FileBlockMeta, k_block_size, k_file_block_capacity}
use blockfs.Paths.{align_up}
use blockfs.FileBlock.{is_block_full, add_block_id, used_block_ids}
use blockfs.FileBlock.Laws.{IsFileBlock, add_block_id-appends}
use blockfs.File.Extend.{num_blocks_needed, fill_file_block}
use blockfs.State.{Fs, ok, result, file_block_meta, on_file_block_meta}

-- The blocks that a file of this many bytes has.
abbrev pub blocks_of : ℕ → ℕ
blocks_of size = align_up size k_block_size

-- A file that grows to a size whose block count fits 32 bits asks for the blocks of its new size less
-- those of its old size, wherever in a block the two sizes end.
pub num_blocks_needed-blocks_of :
    (size offset : ℕ)
    → size ≤ offset
    → offset ≤ k_block_size * (u32 - 1)
    → num_blocks_needed size offset ≡ blocks_of offset - blocks_of size
unfolding num_blocks_needed
num_blocks_needed-blocks_of size offset grows word = ground arith

update_self : {A : Type 0} (f : ℕ → A) (i j : ℕ) → f j ≡ update f i (f i) j
update_self f i j = grind arith

update_twice :
    {A : Type 0} (f : ℕ → A) (i : ℕ) (a b : A) (j : ℕ)
    → update (update f i a) i b j ≡ update f i b j
update_twice f i a b j = ground arith

-- Another record in a slot.
abbrev pub with_meta : ℕ → FileBlockMeta → Fs → Fs
with_meta fb m s = on_file_block_meta fb (λ _. m) s

with_meta_self : (fb : ℕ) (s : Fs) → s ≡ with_meta fb (file_block_meta fb s) s
with_meta_self fb s = λ i. record s {
  file_block_handle = record s.file_block_handle {
    metas = λ j. update_self s.file_block_handle.metas fb j i;
  };
}

with_meta_twice :
    (fb : ℕ) (m n : FileBlockMeta) (s : Fs) → with_meta fb n (with_meta fb m s) ≡ with_meta fb n s
with_meta_twice fb m n s = λ i. record s {
  file_block_handle = record s.file_block_handle {
    metas = λ j. update_twice s.file_block_handle.metas fb m n j i;
  };
}

file_block_meta-with_meta :
    (fb : ℕ) (m : FileBlockMeta) (s : Fs) → file_block_meta fb (with_meta fb m s) ≡ m
file_block_meta-with_meta fb m s = ground arith

fill_file_block-step :
    (fb id : ℕ) (ids : List ℕ) (s : Fs)
    → (file_block_meta fb s).used_block_num < k_file_block_capacity
    → fill_file_block fb (id ∷ ids) s
      ≡ fill_file_block fb ids (with_meta fb (add_block_id id (file_block_meta fb s)) s)
unfolding fill_file_block
fill_file_block-step fb id ids s room =
    let open_block : is_block_full (file_block_meta fb s) ≡ false = ground arith in
    rw open_block refl

fill_file_block-full :
    (fb id : ℕ) (ids : List ℕ) (s : Fs)
    → (file_block_meta fb s).used_block_num ≡ k_file_block_capacity
    → result (fill_file_block fb (id ∷ ids) s) ≡ none
unfolding fill_file_block
fill_file_block-full fb id ids s full =
    let closed_block : is_block_full (file_block_meta fb s) ≡ true = ground arith in
    rw closed_block refl

-- The blocks of a growth go behind those of the file block, in order, where they all fit; nothing
-- else of the state changes. Where they do not all fit the growth fails.
pub fill_file_block-appends :
    (fb : ℕ) (ids : List ℕ) (s : Fs)
    → IsFileBlock (file_block_meta fb s)
    → (((file_block_meta fb s).used_block_num + length ids ≤ k_file_block_capacity)
        × ((m : FileBlockMeta) × (fill_file_block fb ids s ≡ ok tt (with_meta fb m s))
            × IsFileBlock m
            × (used_block_ids m ≡ used_block_ids (file_block_meta fb s) ++ ids)))
      ⊎ ((k_file_block_capacity < (file_block_meta fb s).used_block_num + length ids)
          × (result (fill_file_block fb ids s) ≡ none))
unfolding fill_file_block
fill_file_block-appends fb [] s valid = inl (
  omega (arith, valid.1),
  (
    file_block_meta fb s,
    ap (ok tt) (with_meta_self fb s),
    valid,
    sym (append_nil (used_block_ids (file_block_meta fb s))),
  ),
)
fill_file_block-appends fb (id ∷ ids) s valid =
    let m = file_block_meta fb s in
    let next = add_block_id id m in
    let s' = with_meta fb next s in
    let added = add_block_id-appends id m valid in
    let there : file_block_meta fb s' ≡ next = file_block_meta-with_meta fb next s in
    elim added.1 [
      | inl (full, same) ↦ inr (omega (arith, full), fill_file_block-full fb id ids s full)
      | inr (room, more, used) ↦
          elim (fill_file_block-appends fb ids s' (subst IsFileBlock (sym there) added.0)) [
            | inl (fit, (m', done, valid', kept)) ↦ inl (
              omega (arith, fit, ap (λ x. x.used_block_num) there, more),
              (
                m',
                fill_file_block-step fb id ids s room
                    ∙ done
                    ∙ ap (ok tt) (with_meta_twice fb next m' s),
                valid',
                kept
                    ∙ ap (λ x. used_block_ids x ++ ids) there
                    ∙ ap (λ x. x ++ ids) used
                    ∙ append_assoc (used_block_ids m) (id ∷ []) ids,
              ),
            )
            | inr (over, failed) ↦ inr (
              omega (arith, over, ap (λ x. x.used_block_num) there, more),
              ap result (fill_file_block-step fb id ids s room) ∙ failed,
            )
          ]
    ]
