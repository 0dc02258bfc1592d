-- ===== src/FileHandle/Unlink.antt =====
-- Removing a file (`FileHandle::unlink` of lib/file_handle.cc): at once, or later where it is open.
pub mod Steps
use blockfs.Prelude.{
  ℕ, ◌+◌, ◌*◌, ◌≤◌, ◌≡◌, ◌≢◌, ◌⊎◌, ◌∙◌, inl, inr, refl, ap, sym, subst, List, [], ◌∷◌, ◌++◌, none,
  some, true, false, count, IsDistinct, Bool-cases, nat_eq, key_eq_inst,
}
use blockfs.Prelude.Map.{find, erase, update_at, find-erase_self, find-erase_ne}
use blockfs.Meta.{FileBlockMeta, k_block_fs_page_size, k_block_fs_file_meta_size}
use blockfs.Directory.{page_align_index}
use blockfs.BlockHandle.{BlockHandle}
use blockfs.FileBlock.{used_block_ids}
use blockfs.File.Release.{released, release_all_lem, released-IsReleased}
use blockfs.DirHandle.{get_created_directory}
use blockfs.FileHandle.{transform_path, find_file, remove_file_from_directory}
use blockfs.FileHandle.Create.{unlink, remove_file_for_good}
use blockfs.FileHandle.Unlink.Steps.{
  remove_block, record_cleared, release_record, release_record-Cleared, record_stored, unlink_child,
  unlink_entries,
}
use blockfs.State.{
  Fs, File, FileBlockHandle, Directory, ok, err, is_positive, on_file, on_file_handle, on_directory,
  file_block_meta, attempt, ◌>>=◌, ◌>>◌,
}

-- A file is gone: it stands under no name and no handle and in no directory; its record and that of its
-- file block are cleared in memory and on the device; its blocks and the slot of its file block are free
-- again. The slot of its record joins no free list.
pub record IsRemoved (dir k fb : ℕ) (key : ℕ × List ℕ) (s t : Fs) : Type 0 where
  pub not_by_name : find key t.file_handle.created_files ≡ none
  pub not_by_fh : find k t.file_handle.created_fhs ≡ none
  pub not_in_directory : find k (t.directories dir).item_maps ≡ none
  pub others :
      (other : ℕ × List ℕ)
      → other ≢ key
      → find other t.file_handle.created_files ≡ find other s.file_handle.created_files
  pub unused : (t.file_handle.metas k).used ≡ false
  pub stored : t.dev.file_metas k ≡ t.file_handle.metas k
  pub block_unused : (file_block_meta fb t).used ≡ false
  pub block_stored : t.dev.file_block_metas fb ≡ file_block_meta fb t
  pub block_slot : t.file_block_handle.free_fbhs ≡ s.file_block_handle.free_fbhs ++ fb ∷ []
  pub pool :
      (a : ℕ)
      → count a t.block_handle.block_id_pool
        ≡ count a (used_block_ids (file_block_meta fb s)) + count a s.block_handle.block_id_pool
  pub slot_not_free : t.file_handle.free_fhs ≡ s.file_handle.free_fhs

module _ (dir file k fb : ℕ) (key : ℕ × List ℕ) (s : Fs) (slot : (s.files file).meta ≡ k)
    (own : (s.file_handle.metas k).fh ≡ k)
    (named : ((s.file_handle.metas k).dh, (s.file_handle.metas k).file_name) ≡ key)
    (one : (s.files file).item_maps ≡ (0, fb) ∷ [])
    (child : find k (s.directories dir).item_maps ≡ some file)
    (by_name : find key s.file_handle.created_files ≡ some file)
    (by_fh : find k s.file_handle.created_fhs ≡ some file)
    (unit : s.super_meta.file_meta_size ≡ k_block_fs_file_meta_size) (quiet : s.dev.outcomes ≡ [])
    (fits : s.super_meta.file_block_meta_offset
        + s.super_meta.file_block_meta_size * fb
        + s.super_meta.file_block_meta_size
      ≤ s.dev.dev_size)
    (fits' : s.super_meta.file_meta_offset
        + s.super_meta.file_meta_size * page_align_index s.super_meta.file_meta_size k
        + k_block_fs_page_size
      ≤ s.dev.dev_size)
    (distinct : IsDistinct s.block_handle.block_id_pool)
    (only : (a : ℕ)
      → count a (used_block_ids (file_block_meta fb s)) + count a s.block_handle.block_id_pool
        ≤ 1) where
  remove_file_for_good-removes :
      (t : Fs) × (remove_file_for_good dir file s ≡ ok tt t) × IsRemoved dir k fb key s t
  unfolding remove_file_from_directory released
  remove_file_for_good-removes =
      let r = released-IsReleased fb s distinct only in
      let t1 = on_file file (λ o. record o { item_maps = [] }) (released fb s) in
      let slot1 : (t1.files file).meta ≡ k =
        ap (λ (o : File). o.meta) (update_at s.files file _) ∙ slot in
      let c = release_record-Cleared file k t1 slot1 own in
      let t2 = record_cleared file k t1 slot1 own in
      let slot2 : (t2.files file).meta ≡ k =
        ap (λ (files : ℕ → File). (files file).meta) c.same_files ∙ slot1 in
      let child2 : find k (t2.directories dir).item_maps ≡ some file =
        ap (λ (ds : ℕ → Directory). find k (ds dir).item_maps) c.same_directories ∙ child in
      let t3 = on_directory dir (λ o. record o { item_maps = erase k o.item_maps }) t2 in
      let key3 : ((t3.file_handle.metas k).dh, (t3.file_handle.metas k).file_name) ≡ key =
        (λ i. (c.same_dh i, c.same_name i)) ∙ named in
      let t4 =
        on_file_handle
          (λ h. record h {
            created_files = erase key h.created_files;
            created_fhs = erase k h.created_fhs;
          })
          t3 in
      (
        record t4 { errno = 0 },
        rw
            (
              remove_block file fb s (released fb s) one (release_all_lem fb s quiet fits),
              ◌>>=◌,
              ◌>>◌,
            )
            rw (release_record file k t1 slot1 own refl fits', ◌>>=◌) rw
            (unlink_child file k t2 slot2 c.same_fh dir child2, ◌>>=◌) rw
            (
              unlink_entries file k t3 slot2 c.same_fh key key3 (ap (find key) c.by_name ∙ by_name)
                  (ap (find k) c.by_fh ∙ by_fh),
              ◌>>=◌,
            )
            refl,
        record {
          not_by_name = find-erase_self key t3.file_handle.created_files;
          not_by_fh = find-erase_self k t3.file_handle.created_fhs;
          not_in_directory =
              ap (λ (o : Directory). find k o.item_maps) (update_at t2.directories dir _)
              ∙ find-erase_self k (t2.directories dir).item_maps;
          others = λ other ne.
              find-erase_ne other key t3.file_handle.created_files ne ∙ ap (find other) c.by_name;
          unused = c.unused;
          stored = record_stored file k t1 slot1 own unit refl fits';
          block_unused =
              ap (λ (m : ℕ → FileBlockMeta). (m fb).used) c.same_block_records ∙ r.unused;
          block_stored =
              ap (λ (m : ℕ → FileBlockMeta). m fb) c.same_stored
              ∙ r.stored
              ∙ sym (ap (λ (m : ℕ → FileBlockMeta). m fb) c.same_block_records);
          block_slot = ap (λ (h : FileBlockHandle). h.free_fbhs) c.same_slots ∙ r.slots;
          pool = λ a. ap (λ (h : BlockHandle). count a h.block_id_pool) c.same_blocks ∙ r.pool a;
          slot_not_free = c.same_free;
        },
      )

  -- `unlink` of a path that names a file and no directory, on a device that completes its transfers,
  -- where the file has one file block and all its entries. While the file has links it is only marked:
  -- the file, its blocks and its entries all stay as they are, and the caller is told of a success.
  -- Without links it is removed at once: it stands under no name and no handle and in no directory,
  -- other names stand as they did, its record and that of its file block are cleared in memory and on
  -- the device, and its blocks and the slot of its file block are free again; the slot of its record
  -- joins no free list.
  pub unlink-defers :
      (filename dirname name : List ℕ) (s0 s1 s2 : Fs)
      → get_created_directory filename s0 ≡ err s1
      → transform_path filename s1 ≡ ok (dirname, name) s2
      → find_file dirname name s2 ≡ ok (dir, file) s
      → ((is_positive (s.files file).nlink ≡ true)
          × (unlink filename s0 ≡ ok tt (on_file file (λ o. record o { deleted = true }) s)))
        ⊎ ((is_positive (s.files file).nlink ≡ false)
            × ((t : Fs) × (unlink filename s0 ≡ ok tt t) × IsRemoved dir k fb key s t))
  unfolding unlink
  unlink-defers filename dirname name s0 s1 s2 no_dir split found =
      elim (Bool-cases (is_positive (s.files file).nlink)) [
        | inl linked ↦ inl (linked, rw (no_dir, split, found, linked, attempt, ◌>>=◌) refl)
        | inr free ↦
            let (t, run, removed) = remove_file_for_good-removes in
            inr (free, (t, rw (no_dir, split, found, free, attempt, ◌>>=◌) run, removed))
      ]
