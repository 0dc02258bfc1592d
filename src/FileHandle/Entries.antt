-- ===== src/FileHandle/Entries.antt =====
-- What the entries of a file in its directory and in the maps of the handle do not touch
-- (lib/directory.cc, lib/file_handle.cc).
use blockfs.Prelude.{ℕ, some, ◌≡◌, refl, ◌∙◌, List, not, nat_eq, bytes_eq_inst, key_eq_inst}
use blockfs.Prelude.Map.{Map, contains, find, find-insert_self, insert, erase}
use blockfs.Directory.{add_child_file, remove_child_file}
use blockfs.FileHandle.{add_file, remove_file, add_file_to_directory, remove_file_from_directory}
use blockfs.State.{
  Fs, Directory, ok, ◌>>=◌, attempt_runs, gets, modify, check, attempt, file_meta, on_directory,
  on_file_handle, Keeps, bind-Keeps, attempt-Keeps, Keeps-plain, modify-Keeps, check-Keeps,
}

-- A state with other maps of created files.
abbrev with_entries : Map (ℕ × List ℕ) ℕ → Map ℕ ℕ → Fs → Fs
with_entries files fhs = on_file_handle λ h. record h { created_files = files; created_fhs = fhs }

-- A view that looks neither at the directories nor at those maps.
pub record SkipsEntries {X : Type 0} (view : Fs → X) : Type 0 where
  pub children :
      (directories : ℕ → Directory) (s : Fs)
      → view (record s { directories = directories }) ≡ view s
  pub entries :
      (files : Map (ℕ × List ℕ) ℕ) (fhs : Map ℕ ℕ) (s : Fs)
      → view (with_entries files fhs s) ≡ view s

module _ {X : Type 0} {view : Fs → X} (skips : SkipsEntries view) where
  pub remove_child_file-Keeps : (dir file : ℕ) → Keeps view (remove_child_file dir file)
  unfolding remove_child_file
  remove_child_file-Keeps dir file =
      bind-Keeps {m = gets (λ s. (file_meta file s).fh)} (Keeps-plain (λ s. refl)) (λ fh.
        bind-Keeps {m = gets (λ s. (s.directories dir).item_maps)} (Keeps-plain (λ s. refl))
          (λ items.
            bind-Keeps {m = check (contains fh items)} (check-Keeps (contains fh items)) (λ _.
              modify-Keeps (on_directory dir λ o. record o { item_maps = erase fh o.item_maps })
                (λ s. skips.children _ s))))

  pub add_child_file-Keeps : (dir file : ℕ) → Keeps view (add_child_file dir file)
  unfolding add_child_file
  add_child_file-Keeps dir file =
      bind-Keeps {m = gets (λ s. (file_meta file s).fh)} (Keeps-plain (λ s. refl)) (λ fh.
        bind-Keeps {m = gets (λ s. (s.directories dir).item_maps)} (Keeps-plain (λ s. refl))
          (λ items.
            bind-Keeps {m = check (not (contains fh items))} (check-Keeps (not (contains fh items)))
              (λ _.
                modify-Keeps
                  (on_directory dir λ o. record o { item_maps = insert fh file o.item_maps })
                  (λ s. skips.children _ s))))

  remove_file-Keeps : (file : ℕ) → Keeps view (remove_file file)
  unfolding remove_file
  remove_file-Keeps file = bind-Keeps {m = gets (file_meta file)} (Keeps-plain (λ s. refl)) (λ m.
      bind-Keeps {m = gets (λ s. s.file_handle)} (Keeps-plain (λ s. refl)) (λ h.
        bind-Keeps {m = check (contains (m.dh, m.file_name) h.created_files)} (check-Keeps _) (λ _.
          bind-Keeps
            {m = modify (
              on_file_handle
                λ h. record h { created_files = erase (m.dh, m.file_name) h.created_files })}
            (Keeps-plain (λ s. skips.entries _ s.file_handle.created_fhs s))
            (λ _. bind-Keeps {m = check (contains m.fh h.created_fhs)} (check-Keeps _) (λ _.
              modify-Keeps (on_file_handle λ h. record h { created_fhs = erase m.fh h.created_fhs })
                (λ s. skips.entries s.file_handle.created_files _ s))))))

  pub remove_file_from_directory-Keeps :
      (dir file : ℕ) → Keeps view (remove_file_from_directory dir file)
  unfolding remove_file_from_directory
  remove_file_from_directory-Keeps dir file =
      bind-Keeps {m = remove_child_file dir file} (remove_child_file-Keeps dir file)
        (λ _. remove_file-Keeps file)

  pub add_file_to_directory-Keeps : (dir file : ℕ) → Keeps view (add_file_to_directory dir file)
  unfolding add_file_to_directory add_file
  add_file_to_directory-Keeps dir file =
      bind-Keeps {m = attempt (add_child_file dir file)}
        (attempt-Keeps (add_child_file-Keeps dir file))
        (λ _. Keeps-plain (λ s. skips.entries _ _ s))

  -- The file is then found under its name and by its handle.
  pub add_file_to_directory_finds :
      (dir file : ℕ) (s : Fs)
      → (t : Fs) × (add_file_to_directory dir file s ≡ ok tt t)
        × (view t ≡ view s)
        × (let m = file_meta file t in
            find (m.dh, m.file_name) t.file_handle.created_files ≡ some file)
  unfolding add_file_to_directory add_file
  add_file_to_directory_finds dir file s =
      let (o, t, run, same) =
        attempt_runs (add_child_file dir file) (add_child_file-Keeps dir file) s in
      let m = file_meta file t in
      let h = t.file_handle in
      let files = insert (m.dh, m.file_name) file h.created_files in
      let fhs = insert m.fh file h.created_fhs in
      (
        with_entries files fhs t,
        rw (run, ◌>>=◌) refl,
        skips.entries files fhs t ∙ same,
        find-insert_self (m.dh, m.file_name) file h.created_files,
      )

  add_file_to_directory_runs :
      (dir file : ℕ) (s : Fs)
      → (t : Fs) × (add_file_to_directory dir file s ≡ ok tt t) × (view t ≡ view s)
  add_file_to_directory_runs dir file s =
      let (t, run, same, found) = add_file_to_directory_finds dir file s in (t, run, same)
