-- ===== src/FileHandle/Named/Made.antt =====
-- What `FileHandle::NewFile` (lib/file_handle.cc) makes: the object and the claimed record.
use blockfs.Prelude.{
  ℕ, ◌+◌, ◌<◌, ◌≡◌, refl, ap, ◌∙◌, List, [], ◌∷◌, none, true, false, length, take_all, arith,
  nat_eq, bytes_eq_inst, key_eq_inst,
}
use blockfs.Prelude.Map.{find, update, update_at}
use blockfs.Meta.{FileMeta, k_block_fs_max_file_name_len}
use blockfs.Paths.{get_dir_name, get_file_name}
use blockfs.File.{set_file_name}
use blockfs.FileHandle.{front_free_fh, is_free_slot, new_free_file, new_file}
use blockfs.State.{Fs, File, ok, attempt, ◌>>=◌, file_meta, dir_meta, on_file_meta, on_file_handle}
use blockfs.FileHandle.Named.Lookup.{IsFilePath, get_created_directory_lem}

pub front_free_fh_lem :
    (fh : ℕ) (rest : List ℕ) (s : Fs)
    → s.file_handle.free_fhs ≡ fh ∷ rest
    → is_free_slot fh (s.file_handle.metas fh) ≡ true
    → front_free_fh s ≡ ok fh s
unfolding front_free_fh
front_free_fh_lem fh rest s free usable = rw (free, usable) refl

-- A field of a record that is written twice, the second time with that field kept.
field_kept :
    {A : Type 0} (get : FileMeta → A) (metas : ℕ → FileMeta) (i : ℕ) (m : FileMeta)
    (g : FileMeta → FileMeta)
    → ((v : FileMeta) → get (g v) ≡ get v)
    → let once = update metas i m in get (update once i (g (once i)) i) ≡ get m
field_kept get metas i m g keeps =
    ap get (update_at (update metas i m) i _)
    ∙ keeps (update metas i m i)
    ∙ ap get (update_at metas i m)

module _ (filename : List ℕ) (dir fh : ℕ) (rest : List ℕ) (s : Fs) where
  abbrev name : List ℕ
  name = get_file_name filename

  abbrev dh : ℕ
  dh = (dir_meta dir s).dh

  abbrev object : File
  object = record { meta = fh; nlink = 0; locked = false; deleted = false; item_maps = [] }

  -- The state with the new object.
  abbrev with_object : Fs
  with_object = record s { files = update s.files s.next_file object; next_file = s.next_file + 1 }

  -- The slot belongs to the file and has left the free list.
  abbrev claimed : Fs
  claimed =
      on_file_handle (λ h. record h { free_fhs = elim h.free_fhs [ [] ↦ [] | i ∷ is ↦ is ] })
        (on_file_meta s.next_file
          (λ m. set_file_name name (record m { used = true; fh = fh; dh = dh; is_temp = false }))
          with_object)

  abbrev pub made : Fs
  made =
      on_file_meta s.next_file (λ m. record m { atime = s.now; mtime = s.now; ctime = s.now })
        claimed

  pub new_file-made :
      IsFilePath filename dir s
      → find (dh, name) s.file_handle.created_files ≡ none
      → s.file_handle.free_fhs ≡ fh ∷ rest
      → is_free_slot fh (s.file_handle.metas fh) ≡ true
      → new_file (get_dir_name filename) name false s ≡ ok (dir, s.next_file) made
  unfolding new_file new_free_file
  new_file-made p new free usable =
      rw (get_created_directory_lem filename dir s p, attempt, ◌>>=◌) rw
        (new, front_free_fh_lem fh rest s free usable, ◌>>=◌) refl

  pub made-free_fhs : s.file_handle.free_fhs ≡ fh ∷ rest → made.file_handle.free_fhs ≡ rest
  made-free_fhs free = ap (λ is. elim is [ [] ↦ [] | i ∷ is ↦ is ]) free

  pub made-meta :
      length name < k_block_fs_max_file_name_len
      → ((file_meta s.next_file made).fh ≡ fh)
        × ((file_meta s.next_file made).dh ≡ dh)
        × ((file_meta s.next_file made).file_name ≡ name)
        × ((file_meta s.next_file made).used ≡ true)
        × ((file_meta s.next_file made).size ≡ (s.file_handle.metas fh).size)
  made-meta short =
      let whole = take_all k_block_fs_max_file_name_len name (omega arith) in
      let metas = s.file_handle.metas in
      let i = (with_object.files s.next_file).meta in
      let at_fh : i ≡ fh = ap (λ o. o.meta) (update_at s.files s.next_file object) in
      let m : FileMeta =
        set_file_name name (record (metas i) { used = true; fh = fh; dh = dh; is_temp = false }) in
      let stamp : FileMeta → FileMeta =
        λ v. record v { atime = s.now; mtime = s.now; ctime = s.now } in
      (
        field_kept (λ v. v.fh) metas i m stamp (λ v. refl),
        field_kept (λ v. v.dh) metas i m stamp (λ v. refl),
        field_kept (λ v. v.file_name) metas i m stamp (λ v. refl) ∙ whole,
        field_kept (λ v. v.used) metas i m stamp (λ v. refl),
        field_kept (λ v. v.size) metas i m stamp (λ v. refl) ∙ ap (λ j. (metas j).size) at_fh,
      )
