-- ===== src/FileHandle/Leak.antt =====
-- What becomes of the slots of files and directories that are removed (lib/file_handle.cc,
-- lib/dir_handle.cc).
use blockfs.Prelude.{
  ℕ, ◌≡◌, refl, List, [], ◌∷◌, none, some, true, false, inl, inr, Bool-cases, Option, Bool, arith,
  nat_eq, key_eq_inst, bytes_eq_inst, leb, length, if◌then◌else◌,
}
use blockfs.Prelude.Map.{Map, find}
use blockfs.Meta.{k_block_fs_max_file_name_len, k_block_fs_max_dir_name_len}
use blockfs.Paths.{ends_with_slash, get_dir_name, get_file_name}
use blockfs.DirHandle
use blockfs.DirHandle.{with_slash, get_created_directory}
use blockfs.FileBlock.{release_all, write_file_block_meta, put_block_ids, put_file_block_lock}
use blockfs.File.{
  release_each, remove_all_file_block, release_file, write_file_meta, write_file_slot,
}
use blockfs.FileHandle.{transform_path, find_file, remove_file_from_directory}
use blockfs.FileHandle.Entries.{SkipsEntries, remove_file_from_directory-Keeps}
use blockfs.FileHandle.Create.{unlink, remove_file_for_good}
use blockfs.State.{
  Fs, Device, final, attempt, gets, modify, fail_if, pwrite_direct, take_outcome, Keeps, bind-Keeps,
  attempt-Keeps, Keeps-plain, modify-Keeps, or_fail-Keeps, fail_if-Keeps, or_fail_with-Keeps,
  on_file, dir_meta, or_fail_with, pure, pure-Keeps, fail_with, is_positive, eisdir, enoent,
  enotdir, enametoolong,
}

abbrev pub free_fhs_of : Fs → List ℕ
free_fhs_of s = s.file_handle.free_fhs

pwrite_direct-Keeps :
    (len offset : ℕ) (effect : Device → Device)
    → Keeps free_fhs_of (pwrite_direct len offset effect)
unfolding pwrite_direct take_outcome
pwrite_direct-Keeps len offset effect = Keeps-plain (λ s. ground arith)

write_file_block_meta-Keeps : (fb : ℕ) → Keeps free_fhs_of (write_file_block_meta fb)
unfolding write_file_block_meta
write_file_block_meta-Keeps fb = Keeps-plain (λ s. (pwrite_direct-Keeps _ _ _).keeps _)

release_all-Keeps : (fb : ℕ) → Keeps free_fhs_of (release_all fb)
unfolding release_all put_block_ids put_file_block_lock
release_all-Keeps fb =
    let written =
      bind-Keeps {m = write_file_block_meta fb} {f = λ _. put_file_block_lock fb}
        (write_file_block_meta-Keeps fb) (λ _. Keeps-plain (λ s. refl)) in
    Keeps-plain (λ s. written.keeps _)

release_each-Keeps : (m : Map ℕ ℕ) → Keeps free_fhs_of (release_each m)
unfolding release_each
release_each-Keeps [] = Keeps-plain (λ s. refl)
release_each-Keeps ((_, fb) ∷ m) =
    bind-Keeps {m = release_all fb} (release_all-Keeps fb) (λ _. release_each-Keeps m)

remove_all_file_block-Keeps : (file : ℕ) → Keeps free_fhs_of (remove_all_file_block file)
unfolding remove_all_file_block
remove_all_file_block-Keeps file =
    bind-Keeps {m = gets (λ s. (s.files file).item_maps)} (Keeps-plain (λ s. refl)) (λ items.
      bind-Keeps {m = release_each items} (release_each-Keeps items)
        (λ _. modify-Keeps (on_file file λ o. record o { item_maps = [] }) (λ s. refl)))

pub write_file_slot-Keeps : (fh : ℕ) → Keeps free_fhs_of (write_file_slot fh)
unfolding write_file_slot
write_file_slot-Keeps fh = Keeps-plain (λ s. (pwrite_direct-Keeps _ _ _).keeps _)

release_file-Keeps : (file : ℕ) → Keeps free_fhs_of (release_file file)
unfolding release_file write_file_meta
release_file-Keeps file = Keeps-plain (λ s. (write_file_slot-Keeps _).keeps _)

pub free_fhs_of-SkipsEntries : SkipsEntries free_fhs_of
free_fhs_of-SkipsEntries = record {
  children = λ directories s. refl;
  entries = λ files fhs s. refl;
}

remove_file_for_good-Keeps : (dir file : ℕ) → Keeps free_fhs_of (remove_file_for_good dir file)
remove_file_for_good-Keeps dir file =
    bind-Keeps {m = remove_all_file_block file} (remove_all_file_block-Keeps file) (λ _.
      bind-Keeps {m = release_file file} (release_file-Keeps file) (λ _.
        bind-Keeps {m = remove_file_from_directory dir file}
          (remove_file_from_directory-Keeps free_fhs_of-SkipsEntries dir file)
          (λ _. Keeps-plain (λ s. refl))))

dir_path-Keeps : (path : List ℕ) → Keeps free_fhs_of (DirHandle.transform_path path)
unfolding DirHandle.transform_path
dir_path-Keeps path =
    elim (Bool-cases (leb k_block_fs_max_dir_name_len (length (with_slash path)))) [
      | inl long ↦ rw long (Keeps-plain (λ s. refl))
      | inr short ↦ rw short (Keeps-plain (λ s. refl))
    ]

pub get_created_directory-Keeps : (path : List ℕ) → Keeps free_fhs_of (get_created_directory path)
unfolding get_created_directory
get_created_directory-Keeps path =
    bind-Keeps {m = DirHandle.transform_path path} (dir_path-Keeps path) (λ name.
      bind-Keeps {m = gets (λ s. s.dir_handle.created_dirs)} (Keeps-plain (λ s. refl))
        (λ m. or_fail-Keeps (find name m)))

pub transform_path-Keeps : (path : List ℕ) → Keeps free_fhs_of (transform_path path)
unfolding transform_path
transform_path-Keeps path =
    bind-Keeps {m = fail_if (ends_with_slash path) enotdir} (fail_if-Keeps (λ s e. refl) _ _) (λ _.
      bind-Keeps
        {m = fail_if (leb k_block_fs_max_file_name_len (length (get_file_name path))) enametoolong}
        (fail_if-Keeps (λ s e. refl) _ _) (λ _. pure-Keeps (get_dir_name path, get_file_name path)))

find_file-Keeps : (dirname filename : List ℕ) → Keeps free_fhs_of (find_file dirname filename)
unfolding find_file
find_file-Keeps dirname filename =
    bind-Keeps {m = attempt (get_created_directory dirname)}
      (attempt-Keeps (get_created_directory-Keeps dirname))
      (λ found.
        bind-Keeps {m = or_fail_with found enoent} (or_fail_with-Keeps (λ s e. refl) found enoent)
          (λ dir. bind-Keeps {m = gets (λ s. (dir_meta dir s).dh)} (Keeps-plain (λ s. refl)) (λ dh.
            bind-Keeps {m = gets (λ s. s.file_handle.created_files)} (Keeps-plain (λ s. refl))
              (λ created.
                bind-Keeps {m = or_fail_with (find (dh, filename) created) enoent}
                  (or_fail_with-Keeps (λ s e. refl) (find (dh, filename) created) enoent)
                  (λ file. pure-Keeps (dir, file))))))

-- A path that names a directory is refused.
refuse_directory-Keeps :
    (o : Option ℕ)
    → Keeps free_fhs_of (elim o [ some _ ↦ fail_with {A = Unit {0}} eisdir | none ↦ pure tt ])
refuse_directory-Keeps none = Keeps-plain (λ s. refl)
refuse_directory-Keeps (some d) = Keeps-plain (λ s. refl)

mark_or_remove-Keeps :
    (b : Bool) (dir file : ℕ)
    → Keeps free_fhs_of (
        if b
        then modify (on_file file λ o. record o { deleted = true })
        else remove_file_for_good dir file)
mark_or_remove-Keeps true dir file = Keeps-plain (λ s. refl)
mark_or_remove-Keeps false dir file = remove_file_for_good-Keeps dir file

-- However `unlink` ends, no slot has joined the free list: the slot of a removed file is free in its
-- record, and yet no later file can have it.
pub unlink-free_fhs :
    (filename : List ℕ) (s : Fs)
    → (final (unlink filename s)).file_handle.free_fhs ≡ s.file_handle.free_fhs
unfolding unlink
unlink-free_fhs filename s =
    let k : Keeps free_fhs_of (unlink filename) =
      bind-Keeps {m = attempt (get_created_directory filename)}
        (attempt-Keeps (get_created_directory-Keeps filename))
        (λ directory.
          bind-Keeps
            {m = elim directory [ some _ ↦ fail_with {A = Unit {0}} eisdir | none ↦ pure tt ]}
            (refuse_directory-Keeps directory)
            (λ _. bind-Keeps {m = transform_path filename} (transform_path-Keeps filename) (λ names.
              bind-Keeps {m = find_file names.0 names.1} (find_file-Keeps names.0 names.1) (λ found.
                bind-Keeps {m = gets (λ s. (s.files found.1).nlink)} (Keeps-plain (λ s. refl))
                  (λ nlink. mark_or_remove-Keeps (is_positive nlink) found.0 found.1))))) in
    k.keeps s
