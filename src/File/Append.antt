-- ===== src/File/Append.antt =====
-- What `File::ExtendFile` (lib/file.cc) leaves for a write behind it, whether or not the growth takes
-- new blocks.
use blockfs.Prelude.{
  ℕ, zero, suc, ◌+◌, ◌-◌, ◌*◌, ◌≤◌, ◌<◌, ◌≡◌, ◌⊎◌, inl, inr, refl, ap, ◌∙◌, sym, [], ◌++◌, some,
  length, take, append_nil, arith, le→leb, nat_eq, subst,
}
use blockfs.Prelude.Map.{find, update, update_at}
use blockfs.Meta.{FileBlockMeta, k_file_block_capacity, k_block_fs_page_size}
use blockfs.Directory.{page_align_index}
use blockfs.FileBlock.{used_block_ids}
use blockfs.FileBlock.Laws.{IsFileBlock}
use blockfs.File.{write_file_meta}
use blockfs.File.Extend.{num_blocks_needed, take_block_ids_or_undo, fill_file_block, extend_file}
use blockfs.File.Grow.{
  need, new_ids, grown, slot_saved, write_file_slot_lem, choose_file_block_lem, extend_file_lem,
}
use blockfs.State.{Fs, ok, ◌>>=◌, file_block_meta, file_meta, on_file_meta}

zero_or_more : (n : ℕ) → (n ≡ 0) ⊎ (0 < n)
zero_or_more zero = inl refl
zero_or_more (suc n) = inr (omega arith)

module _ (file fb offset : ℕ) (s : Fs) where
  -- A state after the growth: the file has its size, its file block names the old and the new blocks,
  -- and what a transfer reads besides is as it was.
  pub record Extended (t : Fs) : Type 0 where
    pub meta : FileBlockMeta
    pub valid : IsFileBlock meta
    pub ids :
        used_block_ids meta ≡ used_block_ids (file_block_meta fb s) ++ new_ids file fb offset s
    pub block_id : (file_block_meta fb t).block_id ≡ meta.block_id
    pub size : (file_meta file t).size ≡ offset
    pub files : t.files ≡ s.files
    pub open_files : t.file_handle.open_files ≡ s.file_handle.open_files
    pub super_meta : t.super_meta ≡ s.super_meta
    pub outcomes : t.dev.outcomes ≡ []
    pub dev_size : t.dev.dev_size ≡ s.dev.dev_size
    pub bytes : t.dev.bytes ≡ s.dev.bytes

  -- Where the growth stays within the last block.
  abbrev resized_in_place : Fs
  resized_in_place = on_file_meta file (λ v. record v { size = offset }) s

  extend_file-in_place :
      0 < (file_meta file s).size
      → offset ≤ s.super_meta.device_size
      → find (length (s.files file).item_maps - 1) (s.files file).item_maps ≡ some fb
      → num_blocks_needed (file_meta file s).size offset ≡ 0
      → (file_block_meta fb s).used_block_num < k_file_block_capacity
      → s.dev.outcomes ≡ []
      → s.super_meta.file_meta_offset
          + s.super_meta.file_meta_size
            * page_align_index s.super_meta.file_meta_size (file_meta file resized_in_place).fh
          + k_block_fs_page_size
        ≤ s.dev.dev_size
      → extend_file file offset s
        ≡ ok tt (slot_saved (file_meta file resized_in_place).fh resized_in_place)
  unfolding extend_file take_block_ids_or_undo fill_file_block write_file_meta
  extend_file-in_place some_bytes on_device found none_new room quiet fits =
      rw
        (
          le→leb offset s.super_meta.device_size on_device,
          choose_file_block_lem file fb s some_bytes found room,
          ◌>>=◌,
        )
        rw (none_new, ◌>>=◌)
        (write_file_slot_lem (file_meta file resized_in_place).fh resized_in_place quiet fits)

  -- A file that has blocks, the last file block of which is not full, grows where the pool has the
  -- blocks, its file block has room for them and the device completes the writes.
  pub extend_file-extends :
      0 < (file_meta file s).size
      → offset ≤ s.super_meta.device_size
      → find (length (s.files file).item_maps - 1) (s.files file).item_maps ≡ some fb
      → IsFileBlock (file_block_meta fb s)
      → need file fb offset s ≤ length s.block_handle.block_id_pool
      → (file_block_meta fb s).used_block_num < k_file_block_capacity
      → (file_block_meta fb s).used_block_num + need file fb offset s ≤ k_file_block_capacity
      → s.dev.outcomes ≡ []
      → s.super_meta.file_block_meta_offset
          + s.super_meta.file_block_meta_size * fb
          + s.super_meta.file_block_meta_size
        ≤ s.dev.dev_size
      → s.super_meta.file_meta_offset
          + s.super_meta.file_meta_size
            * page_align_index s.super_meta.file_meta_size (file_meta file s).fh
          + k_block_fs_page_size
        ≤ s.dev.dev_size
      → (t : Fs) × (extend_file file offset s ≡ ok tt t) × Extended t
  extend_file-extends some_bytes on_device found valid enough open_block room quiet fits fits' =
      elim (zero_or_more (need file fb offset s)) [
        | inl none_new ↦
            let same_fh : (file_meta file resized_in_place).fh ≡ (file_meta file s).fh =
              ground arith in
            (
              slot_saved (file_meta file resized_in_place).fh resized_in_place,
              extend_file-in_place some_bytes on_device found none_new open_block quiet (
                  subst
                    (λ i.
                      s.super_meta.file_meta_offset
                        + s.super_meta.file_meta_size
                          * page_align_index s.super_meta.file_meta_size i
                        + k_block_fs_page_size
                      ≤ s.dev.dev_size)
                    (sym same_fh) fits'),
              record {
                meta = file_block_meta fb s;
                valid = valid;
                ids =
                    sym (append_nil (used_block_ids (file_block_meta fb s)))
                    ∙ ap
                        (λ n.
                          used_block_ids (file_block_meta fb s)
                          ++ take n s.block_handle.block_id_pool)
                        (sym none_new);
                block_id = refl;
                size = ground arith;
                files = refl;
                open_files = refl;
                super_meta = refl;
                outcomes = refl;
                dev_size = refl;
                bytes = refl;
              },
            )
        | inr some_new ↦
            let (m, run, valid', kept) =
              extend_file_lem file fb offset s some_bytes on_device found valid some_new enough room
                quiet fits fits' in
            (
              grown file fb offset s m,
              run,
              record {
                meta = m;
                valid = valid';
                ids = kept;
                block_id =
                    ap (λ v. v.block_id) (update_at (update s.file_block_handle.metas fb m) fb _)
                    ∙ ap (λ v. v.block_id) (update_at s.file_block_handle.metas fb m);
                size = ground arith;
                files = refl;
                open_files = refl;
                super_meta = refl;
                outcomes = refl;
                dev_size = refl;
                bytes = refl;
              },
            )
      ]
