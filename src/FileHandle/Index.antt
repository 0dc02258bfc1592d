-- ===== src/FileHandle/Index.antt =====
-- The two maps of created files (lib/file_handle.cc), by handle and by directory and name.
use blockfs.Prelude.{ℕ, ◌≡◌, ◌≢◌, ◌∙◌, refl, ap, List, none, some, nat_eq, key_eq_inst}
use blockfs.Prelude.Map.{
  find, insert, erase, contains-insert_self, find-insert_self, find-insert_ne, find-erase_self,
  find-erase_ne,
}
use blockfs.FileHandle.{add_file, remove_file}
use blockfs.State.{Fs, ok, result, final, file_meta, ◌>>=◌}

abbrev without : ℕ → ℕ × List ℕ → Fs → Fs
without fh key s = record s {
  file_handle = record s.file_handle {
    created_files = erase key s.file_handle.created_files;
    created_fhs = erase fh s.file_handle.created_fhs;
  };
}

-- A file that is added is found by its handle and by its directory and name, and no other entry
-- changes; once removed it is found by neither, and the other entries are still the same.
remove_file-add_file :
    (file : ℕ) (s : Fs)
    → let m = file_meta file s in
      let added = final (add_file file s) in
      let removed = final (remove_file file added) in
      (find m.fh added.file_handle.created_fhs ≡ some file)
      × (find (m.dh, m.file_name) added.file_handle.created_files ≡ some file)
      × (result (remove_file file added) ≡ some tt)
      × (find m.fh removed.file_handle.created_fhs ≡ none)
      × (find (m.dh, m.file_name) removed.file_handle.created_files ≡ none)
      × ((fh : ℕ)
          → fh ≢ m.fh
          → find fh removed.file_handle.created_fhs ≡ find fh s.file_handle.created_fhs)
      × ((key : ℕ × List ℕ)
          → key ≢ (m.dh, m.file_name)
          → find key removed.file_handle.created_files ≡ find key s.file_handle.created_files)
unfolding add_file remove_file
remove_file-add_file file s =
    let m = file_meta file s in
    let by_fh = contains-insert_self m.fh file s.file_handle.created_fhs in
    let by_name = contains-insert_self (m.dh, m.file_name) file s.file_handle.created_files in
    let run : remove_file file (final (add_file file s))
        ≡ ok tt (without m.fh (m.dh, m.file_name) (final (add_file file s))) =
      rw (by_name, ◌>>=◌) rw (by_fh, ◌>>=◌) refl in
    (
      find-insert_self m.fh file s.file_handle.created_fhs,
      find-insert_self (m.dh, m.file_name) file s.file_handle.created_files,
      ap result run,
      ap (λ r. find m.fh (final r).file_handle.created_fhs) run
          ∙ find-erase_self m.fh (insert m.fh file s.file_handle.created_fhs),
      ap (λ r. find (m.dh, m.file_name) (final r).file_handle.created_files) run
          ∙ find-erase_self (m.dh, m.file_name)
              (insert (m.dh, m.file_name) file s.file_handle.created_files),
      λ fh ne.
          ap (λ r. find fh (final r).file_handle.created_fhs) run
          ∙ find-erase_ne fh m.fh (insert m.fh file s.file_handle.created_fhs) ne
          ∙ find-insert_ne fh m.fh file s.file_handle.created_fhs ne,
      λ key ne.
          ap (λ r. find key (final r).file_handle.created_files) run
          ∙ find-erase_ne key (m.dh, m.file_name)
              (insert (m.dh, m.file_name) file s.file_handle.created_files) ne
          ∙ find-insert_ne key (m.dh, m.file_name) file s.file_handle.created_files ne,
    )
