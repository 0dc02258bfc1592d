-- ===== src/FileHandle/Named.antt =====
-- Creating a file and looking it up by its path (`CreateFile` and `GetCreatedFile`,
-- lib/file_handle.cc).
pub mod Lookup
pub mod Made
pub mod Noted
use blockfs.Prelude.{
  ℕ, ◌+◌, ◌*◌, ◌≤◌, ◌<◌, ◌≡◌, ◌≢◌, refl, ap, ◌∙◌, sym, subst, List, [], ◌∷◌, none, true, false,
  Option, length, arith, nat_eq, bytes_eq_inst, key_eq_inst,
}
use blockfs.Prelude.Map.{find, insert, update_at, find-insert_self, find-insert_ne}
use blockfs.Meta.{
  FileMeta, k_block_fs_page_size, k_block_fs_file_meta_size, k_block_fs_max_file_name_len,
}
use blockfs.Paths.{get_dir_name, get_file_name}
use blockfs.Directory.{page_align_index, add_child_file}
use blockfs.Directory.Page.{write_file_slot-page}
use blockfs.DirHandle
use blockfs.DirHandle.{with_slash}
use blockfs.File.{write_file_meta}
use blockfs.File.Grow.{slot_saved, write_file_slot_lem}
use blockfs.FileHandle
use blockfs.FileHandle.{is_free_slot, add_file, add_file_to_directory, get_created_file}
use blockfs.FileHandle.Create.{create_file}
use blockfs.State.{Fs, ok, final, attempt, ◌>>=◌, file_meta, dir_meta, on_file_handle}
use blockfs.FileHandle.Named.Lookup.{IsFilePath, transform_path_lem, get_created_file_lem}
use blockfs.FileHandle.Named.Made.{made, new_file-made, made-free_fhs, made-meta}
use blockfs.FileHandle.Named.Noted.{field_same, add_child_file-NotesFile}

module _ (filename : List ℕ) (dir fh : ℕ) (rest : List ℕ) (s : Fs) where
  -- The directory's number and the name, under which the file is entered.
  abbrev pub file_key : ℕ × List ℕ
  file_key = ((dir_meta dir s).dh, get_file_name filename)

  -- The state whose record is on the device.
  abbrev stored : Fs
  stored = let m = made filename dir fh rest s in slot_saved (file_meta s.next_file m).fh m

  stored-meta :
      length (get_file_name filename) < k_block_fs_max_file_name_len
      → ((file_meta s.next_file stored).dh ≡ (dir_meta dir s).dh)
        × ((file_meta s.next_file stored).file_name ≡ get_file_name filename)
        × ((file_meta s.next_file stored).used ≡ true)
        × ((file_meta s.next_file stored).size ≡ (s.file_handle.metas fh).size)
  stored-meta short =
      let m = made filename dir fh rest s in
      let (_, its_dh, its_name, its_used, its_size) = made-meta filename dir fh rest s short in
      let metas = m.file_handle.metas in
      let i = (m.files s.next_file).meta in
      let j = (file_meta s.next_file m).fh in
      let sum : FileMeta → FileMeta = λ v. record v { crc = s.crc32.of_file v } in
      (
        field_same (λ v. v.dh) metas i j sum (λ v. refl) ∙ its_dh,
        field_same (λ v. v.file_name) metas i j sum (λ v. refl) ∙ its_name,
        field_same (λ v. v.used) metas i j sum (λ v. refl) ∙ its_used,
        field_same (λ v. v.size) metas i j sum (λ v. refl) ∙ its_size,
      )

  -- The page of the record lies on the device.
  abbrev Fits : ℕ → Type 0
  Fits i =
      s.super_meta.file_meta_offset
        + s.super_meta.file_meta_size * page_align_index s.super_meta.file_meta_size i
        + k_block_fs_page_size
      ≤ s.dev.dev_size

  made-Fits :
      length (get_file_name filename) < k_block_fs_max_file_name_len
      → Fits fh
      → Fits (file_meta s.next_file (made filename dir fh rest s)).fh
  made-Fits short fits = subst Fits (sym (made-meta filename dir fh rest s short).0) fits

  stored-dev :
      length (get_file_name filename) < k_block_fs_max_file_name_len
      → s.super_meta.file_meta_size ≡ k_block_fs_file_meta_size
      → s.dev.outcomes ≡ []
      → Fits fh
      → stored.dev.file_metas fh ≡ file_meta s.next_file stored
  stored-dev short meta_size quiet fits =
      let m = made filename dir fh rest s in
      let j = (file_meta s.next_file m).fh in
      let at_j : j ≡ fh = (made-meta filename dir fh rest s short).0 in
      let at_i : (m.files s.next_file).meta ≡ fh =
        ap (λ o. o.meta) (update_at s.files s.next_file _) in
      let run = write_file_slot_lem j m quiet (made-Fits short fits) in
      let page = write_file_slot-page j m meta_size quiet (made-Fits short fits) in
      ap stored.dev.file_metas (sym at_j)
      ∙ sym (ap (λ o. (final o).dev.file_metas j) run)
      ∙ page.1
      ∙ sym (update_at m.file_handle.metas j _)
      ∙ ap stored.file_handle.metas (at_j ∙ sym at_i)

  -- The file in both maps, in a state that the directory has noted it in.
  abbrev entered : Fs → Fs
  entered v =
      let m = file_meta s.next_file v in
      record (on_file_handle
        (λ h. record h {
          created_fhs = insert m.fh s.next_file h.created_fhs;
          created_files = insert (m.dh, m.file_name) s.next_file h.created_files;
        })
        v) { errno = 0 }

  create_file-entered :
      (o : Option (Unit {0})) (v : Fs)
      → IsFilePath filename dir s
      → find file_key s.file_handle.created_files ≡ none
      → s.file_handle.free_fhs ≡ fh ∷ rest
      → is_free_slot fh (s.file_handle.metas fh) ≡ true
      → s.dev.outcomes ≡ []
      → s.super_meta.file_meta_offset
          + s.super_meta.file_meta_size * page_align_index s.super_meta.file_meta_size fh
          + k_block_fs_page_size
        ≤ s.dev.dev_size
      → attempt (add_child_file dir s.next_file) stored ≡ ok o v
      → create_file filename false s ≡ ok s.next_file (entered v)
  unfolding create_file add_file_to_directory add_file write_file_meta
  create_file-entered o v p new free usable quiet fits noted =
      let m = made filename dir fh rest s in
      let fits_page = made-Fits p.short fits in
      rw (transform_path_lem filename dir s p, ◌>>=◌) rw
        (new_file-made filename dir fh rest s p new free usable, ◌>>=◌) rw
        (write_file_slot_lem (file_meta s.next_file m).fh m quiet fits_page, ◌>>=◌) rw
        (noted, ◌>>=◌) refl

  -- A path of a free name in a directory that is there, where a slot is free and the device completes
  -- its transfers: the file is created, its path then leads to it, it is empty, its record is on the
  -- device, the slot has left the free list, and no other name leads elsewhere than before.
  pub create_file-get_created_file :
      IsFilePath filename dir s
      → find file_key s.file_handle.created_files ≡ none
      → s.file_handle.free_fhs ≡ fh ∷ rest
      → is_free_slot fh (s.file_handle.metas fh) ≡ true
      → s.super_meta.file_meta_size ≡ k_block_fs_file_meta_size
      → s.dev.outcomes ≡ []
      → s.super_meta.file_meta_offset
          + s.super_meta.file_meta_size * page_align_index s.super_meta.file_meta_size fh
          + k_block_fs_page_size
        ≤ s.dev.dev_size
      → (t : Fs) × (create_file filename false s ≡ ok s.next_file t)
        × (get_created_file filename t ≡ ok s.next_file t)
        × ((file_meta s.next_file t).used ≡ true)
        × ((file_meta s.next_file t).size ≡ 0)
        × (t.dev.file_metas fh ≡ file_meta s.next_file t)
        × (t.file_handle.free_fhs ≡ rest)
        × ((key : ℕ × List ℕ)
            → key ≢ file_key
            → find key t.file_handle.created_files ≡ find key s.file_handle.created_files)
  create_file-get_created_file p new free usable meta_size quiet fits =
      let (o, v, noted, same) = add_child_file-NotesFile dir s.next_file stored in
      let t = entered v in
      let (its_dh, its_name, its_used, its_size) = stored-meta p.short in
      let meta : file_meta s.next_file v ≡ file_meta s.next_file stored =
        λ i. (same.file_handle i).metas ((same.files i) s.next_file).meta in
      let empty : (s.file_handle.metas fh).size ≡ 0 = ground arith in
      let key : (ℕ × List ℕ) =
        ((file_meta s.next_file v).dh, (file_meta s.next_file v).file_name) in
      let key_is : key ≡ file_key =
        λ i. ((ap (λ m. m.dh) meta ∙ its_dh) i, (ap (λ m. m.file_name) meta ∙ its_name) i) in
      let old : v.file_handle.created_files ≡ s.file_handle.created_files =
        ap (λ h. h.created_files) same.file_handle in
      let files : t.file_handle.created_files
          ≡ insert file_key s.next_file s.file_handle.created_files =
        λ i. insert (key_is i) s.next_file (old i) in
      let p' : IsFilePath filename dir t = record {
        no_slash = p.no_slash;
        short = p.short;
        short_dir = p.short_dir;
        there =
            ap (λ h. find (with_slash (get_dir_name filename)) h.created_dirs) same.dir_handle
            ∙ p.there;
      } in
      let its_key : ((dir_meta dir t).dh, get_file_name filename) ≡ file_key =
        λ i. (((same.dir_handle i).metas (same.metas dir i)).dh, get_file_name filename) in
      (
        t,
        create_file-entered o v p new free usable quiet fits noted,
        get_created_file_lem filename dir s.next_file t p' (
            (λ i. find (its_key i) (files i))
            ∙ find-insert_self file_key s.next_file s.file_handle.created_files),
        ap (λ m. m.used) meta ∙ its_used,
        ap (λ m. m.size) meta ∙ its_size ∙ empty,
        ap (λ d. d.file_metas fh) same.dev ∙ stored-dev p.short meta_size quiet fits ∙ sym meta,
        ap (λ h. h.free_fhs) same.file_handle ∙ made-free_fhs filename dir fh rest s free,
        λ k other.
            ap (find k) files
            ∙ find-insert_ne k file_key s.next_file s.file_handle.created_files other,
      )
