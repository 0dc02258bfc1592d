-- ===== src/FileHandle/Unlink/Steps.antt =====
-- The steps that remove a file for good (`FileHandle::unlink` of lib/file_handle.cc).
use blockfs.Prelude.{
  ℕ, ◌+◌, ◌*◌, ◌≤◌, ◌≡◌, ◌∙◌, refl, ap, sym, List, [], ◌∷◌, some, false, nat_eq, key_eq_inst,
}
use blockfs.Prelude.Map.{find, erase, update_at}
use blockfs.Meta.{FileMeta, k_block_fs_page_size, k_block_fs_file_meta_size}
use blockfs.Directory.{page_align_index, remove_child_file}
use blockfs.Directory.Page.{write_file_slot-page}
use blockfs.FileBlock.{release_all}
use blockfs.File.{
  clear_file_meta, write_file_meta, write_file_slot, release_file, release_each,
  remove_all_file_block,
}
use blockfs.File.Grow.{slot_saved, write_file_slot_lem}
use blockfs.FileHandle.{remove_file}
use blockfs.State.{
  Fs, ok, ◌>>=◌, final, file_meta, on_file, on_file_slot, on_file_handle, on_directory,
}

-- A file of one file block.
pub remove_block :
    (file fb : ℕ) (s t : Fs)
    → (s.files file).item_maps ≡ (0, fb) ∷ []
    → release_all fb s ≡ ok tt t
    → remove_all_file_block file s ≡ ok tt (on_file file (λ o. record o { item_maps = [] }) t)
unfolding remove_all_file_block release_each
remove_block file fb s t one run = rw (one, release_each) rw (run, ◌>>=◌) refl

module _ (file k : ℕ) (t : Fs) (slot : (t.files file).meta ≡ k)
    (own : (t.file_handle.metas k).fh ≡ k) where
  abbrev cleared : Fs
  cleared = on_file_slot k clear_file_meta t

  cleared_own : (cleared.file_handle.metas k).fh ≡ k
  unfolding clear_file_meta
  cleared_own = ap (λ (m : FileMeta). m.fh) (update_at t.file_handle.metas k _) ∙ own

  -- The record is cleared in memory, with its checksum, and its page goes to the device.
  unfoldable pub record_cleared : Fs
  record_cleared = slot_saved k cleared

  pub release_record :
      t.dev.outcomes ≡ []
      → t.super_meta.file_meta_offset
          + t.super_meta.file_meta_size * page_align_index t.super_meta.file_meta_size k
          + k_block_fs_page_size
        ≤ t.dev.dev_size
      → release_file file t ≡ ok tt record_cleared
  unfolding release_file write_file_meta record_cleared
  release_record quiet fits =
      let written : release_file file t ≡ write_file_slot (cleared.file_handle.metas k).fh cleared =
        rw (slot, file_meta) refl in
      written
      ∙ ap (λ i. write_file_slot i cleared) cleared_own
      ∙ write_file_slot_lem k cleared quiet fits

  -- Name, handle and directory stay in the record, which is not in use.
  pub record Cleared : Type 0 where
    pub unused : (record_cleared.file_handle.metas k).used ≡ false
    pub same_fh : (record_cleared.file_handle.metas k).fh ≡ k
    pub same_dh : (record_cleared.file_handle.metas k).dh ≡ (t.file_handle.metas k).dh
    pub same_name :
        (record_cleared.file_handle.metas k).file_name ≡ (t.file_handle.metas k).file_name
    pub by_name : record_cleared.file_handle.created_files ≡ t.file_handle.created_files
    pub by_fh : record_cleared.file_handle.created_fhs ≡ t.file_handle.created_fhs
    pub same_files : record_cleared.files ≡ t.files
    pub same_directories : record_cleared.directories ≡ t.directories
    pub same_blocks : record_cleared.block_handle ≡ t.block_handle
    pub same_block_records : record_cleared.file_block_handle.metas ≡ t.file_block_handle.metas
    pub same_stored : record_cleared.dev.file_block_metas ≡ t.dev.file_block_metas
    pub same_free : record_cleared.file_handle.free_fhs ≡ t.file_handle.free_fhs
    pub same_slots : record_cleared.file_block_handle ≡ t.file_block_handle

  pub release_record-Cleared : Cleared
  unfolding record_cleared clear_file_meta
  release_record-Cleared =
      let at : record_cleared.file_handle.metas k ≡ _ = update_at cleared.file_handle.metas k _ in
      let before : cleared.file_handle.metas k ≡ clear_file_meta (t.file_handle.metas k) =
        update_at t.file_handle.metas k _ in
      record {
        unused = ap (λ (m : FileMeta). m.used) at ∙ ap (λ (m : FileMeta). m.used) before;
        same_fh = ap (λ (m : FileMeta). m.fh) at ∙ ap (λ (m : FileMeta). m.fh) before ∙ own;
        same_dh = ap (λ (m : FileMeta). m.dh) at ∙ ap (λ (m : FileMeta). m.dh) before;
        same_name =
            ap (λ (m : FileMeta). m.file_name) at ∙ ap (λ (m : FileMeta). m.file_name) before;
        by_name = refl;
        by_fh = refl;
        same_files = refl;
        same_directories = refl;
        same_blocks = refl;
        same_block_records = refl;
        same_stored = refl;
        same_free = refl;
        same_slots = refl;
      }

  pub record_stored :
      t.super_meta.file_meta_size ≡ k_block_fs_file_meta_size
      → t.dev.outcomes ≡ []
      → t.super_meta.file_meta_offset
          + t.super_meta.file_meta_size * page_align_index t.super_meta.file_meta_size k
          + k_block_fs_page_size
        ≤ t.dev.dev_size
      → record_cleared.dev.file_metas k ≡ record_cleared.file_handle.metas k
  unfolding record_cleared
  record_stored unit quiet fits =
      let page = write_file_slot-page k cleared unit quiet fits in
      ap (λ o. (final o).dev.file_metas k) (sym (write_file_slot_lem k cleared quiet fits))
      ∙ page.1
      ∙ sym (update_at cleared.file_handle.metas k _)

  pub unlink_child :
      (dir : ℕ)
      → find k (t.directories dir).item_maps ≡ some file
      → remove_child_file dir file t
        ≡ ok tt (on_directory dir (λ o. record o { item_maps = erase k o.item_maps }) t)
  unfolding remove_child_file
  unlink_child dir child = rw (slot, file_meta) rw own rw (child, ◌>>=◌) refl

  pub unlink_entries :
      (key : ℕ × List ℕ)
      → ((t.file_handle.metas k).dh, (t.file_handle.metas k).file_name) ≡ key
      → find key t.file_handle.created_files ≡ some file
      → find k t.file_handle.created_fhs ≡ some file
      → remove_file file t
        ≡ ok tt (
            on_file_handle
              (λ h. record h {
                created_files = erase key h.created_files;
                created_fhs = erase k h.created_fhs;
              })
              t)
  unfolding remove_file
  unlink_entries key same by_name by_fh =
      rw (slot, file_meta) rw own rw same rw (by_name, ◌>>=◌) rw (by_fh, ◌>>=◌) refl
