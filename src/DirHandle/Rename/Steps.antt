-- ===== src/DirHandle/Rename/Steps.antt =====
-- The steps of `Directory::rename` (lib/directory.cc): entries of a directory in its parents and in the
-- maps of the handle, and its record.
use blockfs.Prelude.{
  ℕ, ◌+◌, ◌*◌, ◌≤◌, ◌≡◌, refl, ap, ◌⊎◌, ◌∙◌, List, ◌∷◌, Option, none, some, Bool, false,
  if◌then◌else◌, arith, le→ltb_false, inl, inr, Bool-cases, nat_eq, bytes_eq_inst,
}
use blockfs.Prelude.Map.{find, contains, insert, erase, update, update_at}
use blockfs.Meta.{DirMeta, k_block_fs_dir_meta_size, k_block_fs_page_size}
use blockfs.Directory.{
  page_align_index, write_page, write_dir_meta, add_child_directory, remove_child_directory,
  put_dir_page_on_disk,
}
use blockfs.DirHandle.{add_directory_to_created, remove_directory_from_created}
use blockfs.State.{
  Fs, Directory, ok, err, ◌>>=◌, ◌>>◌, attempt, dir_meta, on_dir_handle, on_dir_slot, pwrite_direct,
  take_outcome,
}

-- Other children in the same directories.
abbrev pub SameSlots : (ℕ → Directory) → (ℕ → Directory) → Type 0
SameSlots ds ds' = (x : ℕ) → (ds' x).meta ≡ (ds x).meta

module _ (parent d : ℕ) (t : Fs) where
  pub remove_child_runs :
      (o : Option (Unit {0})) × (ds : ℕ → Directory) × (attempt (remove_child_directory parent d) t
        ≡ ok o (record t { directories = ds }))
      × SameSlots t.directories ds
  unfolding remove_child_directory
  remove_child_runs =
      let dh = (dir_meta d t).dh in
      elim (Bool-cases (contains dh (t.directories parent).child_dir_maps)) [
        | inr missing ↦ (none, t.directories, rw (missing, attempt, ◌>>=◌) refl, λ x. refl)
        | inl there ↦ (
          some tt,
          update t.directories parent (record (t.directories parent) {
            child_dir_maps = erase dh (t.directories parent).child_dir_maps;
          }),
          rw (there, attempt, ◌>>=◌) refl,
          λ x. ground arith,
        )
      ]

  pub add_child_runs :
      (o : Option (Unit {0})) × (ds : ℕ → Directory) × (attempt (add_child_directory parent d) t
        ≡ ok o (record t { directories = ds }))
      × SameSlots t.directories ds
  unfolding add_child_directory
  add_child_runs =
      let dh = (dir_meta d t).dh in
      elim (Bool-cases (contains dh (t.directories parent).child_dir_maps)) [
        | inl there ↦ (none, t.directories, rw (there, attempt, ◌>>=◌) refl, λ x. refl)
        | inr missing ↦ (
          some tt,
          update t.directories parent (record (t.directories parent) {
            child_dir_maps = insert dh d (t.directories parent).child_dir_maps;
          }),
          rw (missing, attempt, ◌>>=◌) refl,
          λ x. ground arith,
        )
      ]

module _ (d k dh : ℕ) (name : List ℕ) (t : Fs) (slot : (t.directories d).meta ≡ k)
    (named : (t.dir_handle.metas k).dir_name ≡ name) (own : (t.dir_handle.metas k).dh ≡ dh) where
  abbrev pub entries_erased : Fs
  entries_erased =
      on_dir_handle
        (λ h. record h {
          created_dirs = erase name h.created_dirs;
          created_dhs = erase dh h.created_dhs;
        })
        t

  pub remove_entries :
      find name t.dir_handle.created_dirs ≡ some d
      → find dh t.dir_handle.created_dhs ≡ some d
      → remove_directory_from_created d t ≡ ok tt entries_erased
  unfolding remove_directory_from_created
  remove_entries by_name by_dh =
      rw (slot, dir_meta) rw (named, own) rw (by_name, by_dh, ◌>>=◌, ◌>>◌) refl

  abbrev pub entries_added : Fs
  entries_added =
      on_dir_handle
        (λ h. record h {
          created_dirs = insert name d h.created_dirs;
          created_dhs = insert dh d h.created_dhs;
        })
        t

  pub add_entries :
      find name t.dir_handle.created_dirs ≡ none
      → find dh t.dir_handle.created_dhs ≡ none
      → add_directory_to_created d t ≡ ok tt entries_added
  unfolding add_directory_to_created
  add_entries by_name by_dh =
      rw (slot, dir_meta) rw (named, own) rw (by_name, by_dh, ◌>>=◌, ◌>>◌) refl

-- The page of a slot holds the slot.
write_page-own :
    (k : ℕ) (memory disk : ℕ → DirMeta)
    → write_page k_block_fs_dir_meta_size
        (page_align_index k_block_fs_dir_meta_size k)
        memory
        disk
        k
      ≡ memory k
unfolding write_page page_align_index
write_page-own k memory disk = ground arith

-- The record in memory gets its checksum, and its page goes to the device where the device answers so.
module _ (k : ℕ) (answer : Bool) (rest : List Bool) (t : Fs) where
  unfoldable pub record_written : Fs
  record_written =
      let sealed = on_dir_slot k (λ m. record m { crc = t.crc32.of_dir m }) t in
      let base = page_align_index t.super_meta.dir_meta_size (t.dir_handle.metas k).dh in
      record sealed {
        dev =
            if answer
            then put_dir_page_on_disk t.super_meta.dir_meta_size base sealed.dir_handle.metas
                (record t.dev { outcomes = rest })
            else record t.dev { outcomes = rest };
      }

  pub write_record :
      (d : ℕ)
      → (t.directories d).meta ≡ k
      → t.dev.outcomes ≡ answer ∷ rest
      → t.super_meta.dir_meta_offset
          + t.super_meta.dir_meta_size
            * page_align_index t.super_meta.dir_meta_size (t.dir_handle.metas k).dh
          + k_block_fs_page_size
        ≤ t.dev.dev_size
      → write_dir_meta d t ≡ (if answer then ok tt record_written else err record_written)
  unfolding write_dir_meta pwrite_direct take_outcome record_written
  write_record d slot outcomes fits =
      rw (slot, dir_meta) rw (outcomes, le→ltb_false t.dev.dev_size _ fits)
        (elim (Bool-cases answer) [ inl yes' ↦ rw yes' refl | inr no' ↦ rw no' refl ])

  pub written_dirs :
      (record_written.dir_handle.created_dirs ≡ t.dir_handle.created_dirs)
      × (record_written.directories ≡ t.directories)
      × ((record_written.dir_handle.metas k).dir_name ≡ (t.dir_handle.metas k).dir_name)
  unfolding record_written
  written_dirs = (refl, refl, ap (λ (m : DirMeta). m.dir_name) (update_at t.dir_handle.metas k _))

  pub written_page :
      (t.dir_handle.metas k).dh ≡ k
      → t.super_meta.dir_meta_size ≡ k_block_fs_dir_meta_size
      → (answer ≡ false) ⊎ (record_written.dev.dir_metas k ≡ record_written.dir_handle.metas k)
  unfolding record_written
  written_page own unit = elim (Bool-cases answer) [
    | inr refused ↦ inl refused
    | inl done ↦
        let memory =
          update t.dir_handle.metas k
            (record (t.dir_handle.metas k) { crc = t.crc32.of_dir (t.dir_handle.metas k) }) in
        inr (
          rw done (
            (λ i. write_page (unit i) (page_align_index (unit i) (own i)) memory t.dev.dir_metas k)
            ∙ write_page-own k memory t.dev.dir_metas))
  ]
