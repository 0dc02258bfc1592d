-- ===== src/File/Truncate/Emptied.antt =====
-- What `File::ShrinkFile` (lib/file.cc) leaves of a file that is cut to nothing.
use blockfs.Prelude.{
  ℕ, ◌+◌, ◌≤◌, ◌≡◌, refl, ap, ◌∙◌, [], ◌∷◌, ◌++◌, false, nat_eq, count, IsDistinct,
}
use blockfs.Meta.{FileMeta, minus_one}
use blockfs.Prelude.Map.{update_at}
use blockfs.BlockHandle.Counts.{count-emplace_all}
use blockfs.FileBlock.{used_block_ids}
use blockfs.File.Parent.{old_fh-is}
use blockfs.File.Truncate.Finish.{
  slot_saved-field, given_back, unparented, recycled_saved, recycled_saved-field,
  recycled_saved-used,
}
use blockfs.File.Truncate.Split.{
  IsReady, old_version, resized, new_saved, both_saved, both_saved-IsSaved, at_new, shrink_rest,
  shrink_rest-recycled,
}
use blockfs.State.{Fs, ok, file_meta, file_block_meta}

module _ (file fb o n : ℕ) (w : Fs) where
  pub emptied : Fs
  emptied = recycled_saved file fb o n (old_version file fb o n w) (both_saved file fb o n w)

  pub shrink_rest-emptied : IsReady file fb o n w → shrink_rest file o o w ≡ ok tt emptied
  unfolding emptied
  shrink_rest-emptied r = shrink_rest-recycled file fb o n w r

  emptied-meta : IsReady file fb o n w → (emptied.files file).meta ≡ n
  unfolding emptied recycled_saved given_back both_saved new_saved
  emptied-meta r = at_new file fb o n w r

  emptied-item_maps : (emptied.files file).item_maps ≡ []
  unfolding emptied recycled_saved given_back both_saved new_saved
  emptied-item_maps = ap (λ v. v.item_maps) (update_at w.files file _)

  emptied-resized :
      {A : Type 0} (get : FileMeta → A)
      → ((c : ℕ) (m : FileMeta) → get (record m { crc = c }) ≡ get m)
      → ((m : FileMeta) → get (record m { parent_fh = minus_one; parent_size = 0 }) ≡ get m)
      → IsReady file fb o n w
      → get (emptied.file_handle.metas n) ≡ get (record (w.file_handle.metas n) { size = 0 })
  unfolding emptied both_saved new_saved
  emptied-resized get keeps keeps' r =
      recycled_saved-field file fb o n (old_version file fb o n w) (both_saved file fb o n w) get
        keeps keeps' (both_saved-IsSaved file fb o n w r)
      ∙ slot_saved-field get keeps o n (new_saved file fb o n w)
      ∙ slot_saved-field get keeps n n (resized file fb o n w)
      ∙ ap get (update_at w.file_handle.metas n _)

  -- What is left of the file and of its old version.
  pub record IsEmptied (t : Fs) : Type 0 where
    pub record_at : (t.files file).meta ≡ n
    pub no_blocks : (t.files file).item_maps ≡ []
    pub no_bytes : (file_meta file t).size ≡ 0
    pub times : (file_meta file t).mtime ≡ (w.file_handle.metas n).mtime
    pub pool :
        (a : ℕ)
        → count a t.block_handle.block_id_pool
          ≡ count a (used_block_ids (file_block_meta fb w)) + count a w.block_handle.block_id_pool
    pub block_slots : t.file_block_handle.free_fbhs ≡ w.file_block_handle.free_fbhs ++ fb ∷ []
    pub record_slots : t.file_handle.free_fhs ≡ w.file_handle.free_fhs ++ o ∷ []
    pub no_parents : t.file_handle.parent_files ≡ []
    pub names : t.file_handle.created_files ≡ w.file_handle.created_files
    pub old_free : (t.file_handle.metas o).used ≡ false

  pub emptied-IsEmptied :
      IsReady file fb o n w
      → IsDistinct w.block_handle.block_id_pool
      → ((a : ℕ)
          → count a (used_block_ids (file_block_meta fb w)) + count a w.block_handle.block_id_pool
            ≤ 1)
      → IsEmptied emptied
  unfolding emptied recycled_saved given_back both_saved new_saved
  emptied-IsEmptied r distinct own = record {
    record_at = emptied-meta r;
    no_blocks = emptied-item_maps;
    no_bytes =
        ap (λ i. (emptied.file_handle.metas i).size) (emptied-meta r)
        ∙ emptied-resized (λ m. m.size) (λ c m. refl) (λ m. refl) r;
    times =
        ap (λ i. (emptied.file_handle.metas i).mtime) (emptied-meta r)
        ∙ emptied-resized (λ m. m.mtime) (λ c m. refl) (λ m. refl) r;
    pool = λ a.
        count-emplace_all (used_block_ids (file_block_meta fb w)) w.block_handle.block_id_pool a
          (own a) distinct;
    block_slots = refl;
    record_slots =
        ap (λ i. w.file_handle.free_fhs ++ i ∷ [])
          (old_fh-is o fb 0
              (unparented file fb o n (old_version file fb o n w) (both_saved file fb o n w))
            ∙ (both_saved-IsSaved file fb o n w r).old_is);
    no_parents = refl;
    names = refl;
    old_free =
        recycled_saved-used file fb o n (old_version file fb o n w) (both_saved file fb o n w)
          (both_saved-IsSaved file fb o n w r);
  }
