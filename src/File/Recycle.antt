-- ===== src/File/Recycle.antt =====
-- Which blocks a shrunk file keeps (`ParentFile::Recycle` and `File::ShrinkFile`, lib/file.cc).
use blockfs.Prelude.{
  ℕ, zero, suc, ◌+◌, ◌≤◌, ◌≡◌, refl, ap, ◌∙◌, sym, List, [], ◌∷◌, ◌++◌, some, length, take, drop,
  min, count, IsDistinct, arith, inl, inr, lt→ltb, le→ltb_false, append_assoc, append_nil,
}
use blockfs.Meta.{FileBlockMeta, k_file_block_capacity}
use blockfs.BlockHandle.{put_free_block_id, emplace_all}
use blockfs.BlockHandle.Counts.{count-emplace_all}
use blockfs.FileBlock.{used_block_ids, add_block_id}
use blockfs.FileBlock.Laws.{IsFileBlock, add_block_id-appends}
use blockfs.File.Shrink.{recycle_block_ids, copy_block_ids}
use blockfs.State.{Fs, ok, result, final, on_block_handle}

pub count-drop : (a n : ℕ) (xs : List ℕ) → count a (drop n xs) ≤ count a xs
count-drop a zero xs = omega arith
count-drop a (suc n) [] = omega arith
count-drop a (suc n) (x ∷ xs) = ground (arith, count-drop a n xs)

-- The pool with more ids.
abbrev pub with_free : List ℕ → Fs → Fs
with_free ids s =
    on_block_handle (λ h. record h { block_id_pool = emplace_all ids h.block_id_pool }) s

recycle_all :
    (block_num index : ℕ) (ids : List ℕ) (s : Fs)
    → block_num ≤ index
    → recycle_block_ids block_num index ids s ≡ ok index (with_free ids s)
unfolding recycle_block_ids emplace_all put_free_block_id
recycle_all block_num index [] s h = refl
recycle_all block_num index (id ∷ ids) s h =
    rw (le→ltb_false index block_num h, recycle_block_ids) (recycle_all block_num index ids _ h)

pub recycle_from :
    (kept index : ℕ) (ids : List ℕ) (s : Fs)
    → recycle_block_ids (index + kept) index ids s
      ≡ ok (index + min kept (length ids)) (with_free (drop kept ids) s)
unfolding recycle_block_ids emplace_all
recycle_from zero index ids s =
    let e : index ≡ index + min 0 (length ids) = omega arith in
    recycle_all (index + 0) index ids s (omega arith) ∙ ap (λ n. ok n (with_free ids s)) e
recycle_from (suc kept) index [] s =
    let e : index ≡ index + min (suc kept) 0 = omega arith in ap (λ n. ok n s) e
recycle_from (suc kept) index (id ∷ ids) s =
    let bound : index + suc kept ≡ index + 1 + kept = omega arith in
    let sum : index + 1 + min kept (length ids) ≡ index + min (suc kept) (suc (length ids)) =
      omega arith in
    rw (lt→ltb index (index + suc kept) (omega arith), recycle_block_ids)
      (ap (λ n. recycle_block_ids n (index + 1) ids s) bound
        ∙ recycle_from kept (index + 1) ids s
        ∙ ap (λ n. ok n (with_free (drop kept ids) s)) sum)

-- Of the blocks of a file that was cut to `block_num` of them the first ones stay the child's; the
-- others, and no more, are free again, each of them once.
recycle_block_ids-frees :
    (block_num : ℕ) (ids : List ℕ) (s : Fs)
    → IsDistinct s.block_handle.block_id_pool
    → ((a : ℕ) → count a ids + count a s.block_handle.block_id_pool ≤ 1)
    → let s' = final (recycle_block_ids block_num 0 ids s) in
      (result (recycle_block_ids block_num 0 ids s) ≡ some (min block_num (length ids)))
      × ((a : ℕ)
          → count a s'.block_handle.block_id_pool
            ≡ count a (drop block_num ids) + count a s.block_handle.block_id_pool)
recycle_block_ids-frees block_num ids s distinct apart =
    let start : block_num ≡ 0 + block_num = omega arith in
    let count_up : 0 + min block_num (length ids) ≡ min block_num (length ids) = omega arith in
    let run : recycle_block_ids block_num 0 ids s
        ≡ ok (0 + min block_num (length ids)) (with_free (drop block_num ids) s) =
      ap (λ n. recycle_block_ids n 0 ids s) start ∙ recycle_from block_num 0 ids s in
    (
      ap result run ∙ ap some count_up,
      λ a.
          ap (λ r. count a (final r).block_handle.block_id_pool) run
          ∙ count-emplace_all (drop block_num ids) s.block_handle.block_id_pool a
              (omega (arith, apart a, count-drop a block_num ids)) distinct,
    )

-- The first n ids, which a shrunk file inherits, stand in order behind those that its file block has,
-- where there is room for n more; the file block stays well formed.
copy_block_ids-take :
    (n : ℕ) (ids : List ℕ) (m : FileBlockMeta)
    → IsFileBlock m
    → m.used_block_num + n ≤ k_file_block_capacity
    → IsFileBlock (copy_block_ids n ids m)
      × (used_block_ids (copy_block_ids n ids m) ≡ used_block_ids m ++ take n ids)
unfolding copy_block_ids
copy_block_ids-take zero ids m valid room = (valid, sym (append_nil (used_block_ids m)))
copy_block_ids-take (suc n) [] m valid room = (valid, sym (append_nil (used_block_ids m)))
copy_block_ids-take (suc n) (id ∷ ids) m valid room =
    let added = add_block_id-appends id m valid in
    elim added.1 [
      | inl (full, same) ↦ absurd (omega (arith, full, room))
      | inr (here, more, used) ↦
          let rest =
            copy_block_ids-take n ids (add_block_id id m) added.0 (omega (arith, more, room)) in
          (
            rest.0,
            rest.1
                ∙ ap (λ x. x ++ take n ids) used
                ∙ append_assoc (used_block_ids m) (id ∷ []) (take n ids),
          )
    ]
