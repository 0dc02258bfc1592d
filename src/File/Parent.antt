-- ===== src/File/Parent.antt =====
-- The whole of `ParentFile::Recycle` (lib/file.cc): what the old version of a shrunk file gives back.
use blockfs.Prelude.{
  ℕ, ◌+◌, ◌*◌, ◌/◌, ◌%◌, ◌≤◌, ◌≡◌, refl, ap, ◌∙◌, sym, subst, List, [], ◌∷◌, ◌++◌, false, drop,
  count, IsDistinct, arith, u32, nat_eq,
}
use blockfs.Prelude.Map.{update_at}
use blockfs.Meta.{k_block_size, k_block_fs_page_size}
use blockfs.BlockHandle.Counts.{count-emplace_all}
use blockfs.Directory.{page_align_index}
use blockfs.FileBlock.{used_block_ids, clear_file_block_meta, put_file_block_lock, release_myself}
use blockfs.File.{clear_file_meta}
use blockfs.File.Grow.{block_saved, write_file_block_meta_lem, slot_saved, write_file_slot_lem}
use blockfs.File.Recycle.{with_free, recycle_from, count-drop}
use blockfs.File.Shrink.{recycle, recycle_file_blocks, recycle_block_ids}
use blockfs.FileHandle.{add_file_to_free}
use blockfs.State.{
  Fs, ParentFile, ok, attempt, ◌>>=◌, file_block_meta, on_file_block_meta, on_file_block_handle,
  on_file_slot, on_file_handle,
}

module _ (slot fb offset : ℕ) (s : Fs) where
  -- The old version, with one file block.
  abbrev pub parent : ParentFile
  parent = record { meta = slot; offset = offset; fb_maps = (0, fb) ∷ [] }

  abbrev pub kept : ℕ
  kept = offset / k_block_size % u32

  abbrev pub old_ids : List ℕ
  old_ids = used_block_ids (file_block_meta fb s)

  -- The blocks are back in the pool.
  abbrev blocks_back : Fs
  blocks_back = with_free (drop kept old_ids) s

  -- The file block is cleared and its slot is free.
  abbrev block_back : Fs
  block_back =
      on_file_block_handle (λ h. record h { free_fbhs = h.free_fbhs ++ fb ∷ [] })
        (block_saved fb (on_file_block_meta fb clear_file_block_meta blocks_back))

  abbrev file_cleared : Fs
  file_cleared = on_file_slot slot clear_file_meta block_back

  abbrev pub old_fh : ℕ
  old_fh = (file_cleared.file_handle.metas slot).fh

  abbrev pub recycled : Fs
  recycled =
      on_file_handle (λ h. record h { free_fhs = h.free_fhs ++ old_fh ∷ [] })
        (slot_saved old_fh file_cleared)

  pub old_fh-is : old_fh ≡ (s.file_handle.metas slot).fh
  unfolding clear_file_meta
  old_fh-is = ap (λ m. m.fh) (update_at s.file_handle.metas slot _)

  pub recycle-recycled :
      s.dev.outcomes ≡ []
      → s.super_meta.file_block_meta_offset
          + s.super_meta.file_block_meta_size * fb
          + s.super_meta.file_block_meta_size
        ≤ s.dev.dev_size
      → s.super_meta.file_meta_offset
          + s.super_meta.file_meta_size * page_align_index s.super_meta.file_meta_size old_fh
          + k_block_fs_page_size
        ≤ s.dev.dev_size
      → recycle parent s ≡ ok tt recycled
  unfolding recycle recycle_file_blocks release_myself put_file_block_lock add_file_to_free
  recycle-recycled quiet fits fits' =
      let start : kept ≡ 0 + kept = omega arith in
      let blocks =
        ap (λ n. recycle_block_ids n 0 old_ids s) start ∙ recycle_from kept 0 old_ids s in
      rw (blocks, ◌>>=◌) rw
        (
          write_file_block_meta_lem fb (on_file_block_meta fb clear_file_block_meta blocks_back)
              quiet fits,
          ◌>>=◌,
          attempt,
        )
        rw (write_file_slot_lem old_fh file_cleared refl fits', ◌>>=◌) refl

  -- The old version of a file that shrank to `offset` bytes, whose one file block is its own, on a
  -- device that completes the writes: the blocks behind the kept ones are free again, each once and no
  -- others, the slots of its file block and of its record are the last free ones, both records are
  -- cleared, and that of the file block is so on the device too.
  pub recycle-frees :
      s.dev.outcomes ≡ []
      → s.super_meta.file_block_meta_offset
          + s.super_meta.file_block_meta_size * fb
          + s.super_meta.file_block_meta_size
        ≤ s.dev.dev_size
      → s.super_meta.file_meta_offset
          + s.super_meta.file_meta_size
            * page_align_index s.super_meta.file_meta_size (s.file_handle.metas slot).fh
          + k_block_fs_page_size
        ≤ s.dev.dev_size
      → IsDistinct s.block_handle.block_id_pool
      → ((a : ℕ) → count a old_ids + count a s.block_handle.block_id_pool ≤ 1)
      → (t : Fs) × (recycle parent s ≡ ok tt t)
        × ((a : ℕ)
            → count a t.block_handle.block_id_pool
              ≡ count a (drop kept old_ids) + count a s.block_handle.block_id_pool)
        × (t.file_block_handle.free_fbhs ≡ s.file_block_handle.free_fbhs ++ fb ∷ [])
        × (t.file_handle.free_fhs ≡ s.file_handle.free_fhs ++ (s.file_handle.metas slot).fh ∷ [])
        × ((t.file_handle.metas slot).used ≡ false)
        × ((file_block_meta fb t).used_block_num ≡ 0)
        × (t.dev.file_block_metas fb ≡ file_block_meta fb t)
  unfolding clear_file_meta clear_file_block_meta
  recycle-frees quiet fits fits' distinct own = (
    recycled,
    recycle-recycled quiet fits (
        subst
          (λ i.
            s.super_meta.file_meta_offset
              + s.super_meta.file_meta_size * page_align_index s.super_meta.file_meta_size i
              + k_block_fs_page_size
            ≤ s.dev.dev_size)
          (sym old_fh-is) fits'),
    λ a.
        count-emplace_all (drop kept old_ids) s.block_handle.block_id_pool a
          (omega (arith, own a, count-drop a kept old_ids)) distinct,
    refl,
    ap (λ i. s.file_handle.free_fhs ++ i ∷ []) old_fh-is,
    ground arith,
    ground arith,
    update_at s.dev.file_block_metas fb _,
  )
