-- ===== src/Tests/Files.antt =====
-- The theorems on files, file blocks, paths and locks at the demonstration file system.
use blockfs.Prelude.{
  ℕ, ◌+◌, ◌/◌, ◌≡◌, ◌≢◌, ◌⊎◌, refl, List, [], ◌∷◌, ap, sym, bytes_eq, ◌==◌, if◌then◌else◌,
  bytes_eq_inst, none, some, true, false, count, length, arith, replicate, length-replicate, nat_eq,
  key_eq_inst,
}
use blockfs.Prelude.Map.{find}
use blockfs.Meta.{FileBlockMeta, k_block_size, k_block_fs_page_size, k_block_fs_file_meta_size}
use blockfs.Paths.{
  slash, get_file_name, get_dir_name, ends_with_slash, root_path, pop_back, parent_path,
  strip_slashes, before_last_slash,
}
use blockfs.FileBlock.Laws.{IsFileBlock}
use blockfs.File.{minus_one_64, write_file_slot}
use blockfs.File.Growth.{with_meta}
use blockfs.File.Shrink.{recycle}
use blockfs.File.Parent.{parent, recycle-frees}
use blockfs.Directory.{page_align_index}
use blockfs.Directory.Page.{write_file_slot-page}
use blockfs.FileHandle.{add_file, remove_file, get_created_file}
use blockfs.FileHandle
use blockfs.FileHandle.Open.{attach, close_file}
use blockfs.FileHandle.Descriptors.{attach_lem, close_file_lem}
use blockfs.FileSystem.{f_unlck, f_rdlck, fcntl_file}
use blockfs.FileSystem.Locks.{fcntl_file-excludes}
use blockfs.DirHandle.{transform_path, find_directory, get_created_directory}
use blockfs.DirHandle.Create.{check_file_exist, refuse_file, rename_directory}
use blockfs.DirHandle.Rename.{IsMoved, rename_directory-reported}
use blockfs.State.{
  file_block_meta, enoent, Fs, ok, err, result, final, increment, decrement, eacces,
}
use blockfs.Tests.Demo.{demo, demo_open_file, demo_file_block_meta}

abbrev no_block : ℕ
no_block = 0

-- A file block with an array of full length.
abbrev two_blocks : FileBlockMeta
two_blocks = record demo_file_block_meta { block_id = 5 ∷ 2 ∷ replicate 998 no_block }

pub two_blocks-IsFileBlock : IsFileBlock two_blocks
two_blocks-IsFileBlock = (
  let zeros : length (replicate 998 no_block) ≡ 998 = length-replicate 998 no_block in
      omega (arith, zeros),
  omega arith,
)

abbrev pub with_two_blocks : Fs
with_two_blocks = with_meta 1 two_blocks demo

-- The old version of a file that shrank to its first block.
recycle-frees_example :
    (t : Fs) × (recycle (parent 3 1 k_block_size demo) demo ≡ ok tt t)
    × ((a : ℕ)
        → count a t.block_handle.block_id_pool
          ≡ count a (2 ∷ []) + count a demo.block_handle.block_id_pool)
    × (t.file_block_handle.free_fbhs ≡ 2 ∷ 3 ∷ 1 ∷ [])
    × (t.file_handle.free_fhs ≡ 4 ∷ 5 ∷ 3 ∷ [])
    × ((t.file_handle.metas 3).used ≡ false)
    × ((file_block_meta 1 t).used_block_num ≡ 0)
    × (t.dev.file_block_metas 1 ≡ file_block_meta 1 t)
unfolding page_align_index
recycle-frees_example =
    recycle-frees 3 1 k_block_size demo refl (omega arith) (omega arith) (λ a. ground arith)
      (λ a. ground arith)

attach_example :
    let s' = final (attach 0 12 demo) in
    ((s'.files 0).nlink ≡ increment 1)
    × (((demo.fd_handle.free_fd_pool ≡ [])
          × (result (attach 0 12 demo) ≡ none)
          × (find minus_one_64 s'.file_handle.open_files
              ≡ some (record { file = 0; append_pos = 12 })))
        ⊎ ((fd : ℕ) × (rest : List ℕ) × (demo.fd_handle.free_fd_pool ≡ fd ∷ rest)
            × (result (attach 0 12 demo) ≡ some fd)
            × (s'.fd_handle.free_fd_pool ≡ rest)
            × (find fd s'.file_handle.open_files ≡ some (record { file = 0; append_pos = 12 }))))
attach_example = attach_lem 0 12 demo (λ a l. ground arith)

close_file_example :
    let s' = final (close_file 7 demo) in
    (result (close_file 7 demo) ≡ some tt)
    × (find 7 s'.file_handle.open_files ≡ none)
    × ((other : ℕ)
        → other ≢ 7
        → find other s'.file_handle.open_files ≡ find other demo.file_handle.open_files)
    × (s'.fd_handle.free_fd_pool ≡ 8 ∷ 9 ∷ 10 ∷ 7 ∷ [])
    × ((s'.files 0).nlink ≡ decrement 1)
    × ((s'.files 0).locked ≡ false)
close_file_example = close_file_lem 7 demo_open_file demo refl refl refl (omega arith)

write_file_slot-page_example :
    let s' = final (write_file_slot 17 demo) in
    let per_page = k_block_fs_page_size / k_block_fs_file_meta_size in
    (result (write_file_slot 17 demo) ≡ some tt)
    × (s'.dev.file_metas 17 ≡ record (demo.file_handle.metas 17) { crc = 2 })
    × ((i : ℕ)
        → i ≢ 17
        → ((i / per_page ≡ 17 / per_page) × (s'.dev.file_metas i ≡ demo.file_handle.metas i))
          ⊎ ((i / per_page ≢ 17 / per_page) × (s'.dev.file_metas i ≡ demo.dev.file_metas i)))
unfolding page_align_index
write_file_slot-page_example = write_file_slot-page 17 demo refl refl (omega arith)

fcntl_file-excludes_example :
    (taken : Fs) × (given : Fs) × (last : Fs) × (fcntl_file 7 f_rdlck demo ≡ ok tt taken)
    × ((taken.files 0).locked ≡ true)
    × (fcntl_file 6 f_rdlck taken ≡ err (record taken { errno = eacces }))
    × (fcntl_file 6 f_unlck taken ≡ ok tt given)
    × ((given.files 0).locked ≡ false)
    × (fcntl_file 6 f_rdlck given ≡ ok tt last)
    × ((last.files 0).locked ≡ true)
fcntl_file-excludes_example =
    fcntl_file-excludes 7 6 demo_open_file demo_open_file demo false false refl refl refl refl

abbrev a_name : List ℕ
a_name = b'x' ∷ b'y' ∷ []

abbrev a_dir : List ℕ
a_dir = slash ∷ b'd' ∷ []

-- The root directory `/` is the parent of `/d/`, which is renamed to `/e/`.
abbrev d_dir : List ℕ
d_dir = slash ∷ b'd' ∷ slash ∷ []

abbrev e_dir : List ℕ
e_dir = slash ∷ b'e' ∷ slash ∷ []

names_differ : e_dir ≢ d_dir
names_differ h =
    let same : bytes_eq e_dir d_dir ≡ true = ap (bytes_eq e_dir) {x = d_dir} {y = e_dir} (sym h) in
    absurd (cc)

-- The directory `/d/` is object 1 in slot 5, and the device completes one transfer more.
abbrev with_dir : Fs
with_dir = record demo {
  dir_handle = record demo.dir_handle {
    created_dirs = (root_path, 0) ∷ (d_dir, 1) ∷ [];
    created_dhs = (0, 0) ∷ (5, 1) ∷ [];
    metas = λ i. record (demo.dir_handle.metas i) { dh = i; dir_name = d_dir };
  };
  directories = λ i. record (demo.directories i) { meta = if i == 1 then 5 else 0 };
  dev = record demo.dev { outcomes = true ∷ [] };
}

abbrev checked : Fs
checked = record with_dir { errno = enoent }

rename_directory-reported_example :
    (t : Fs) × IsMoved 1 d_dir e_dir checked t
    × ((true ≡ false) ⊎ (t.dev.dir_metas 5 ≡ t.dir_handle.metas 5))
    × (rename_directory d_dir e_dir with_dir ≡ err t)
unfolding check_file_exist refuse_file get_created_file get_created_directory transform_path
    find_directory get_dir_name get_file_name ends_with_slash pop_back parent_path strip_slashes
    before_last_slash FileHandle.transform_path page_align_index
rename_directory-reported_example =
    rename_directory-reported d_dir e_dir d_dir e_dir 0 1 5 0 (some 0) true [] with_dir checked refl
      refl refl refl refl refl refl refl names_differ (omega arith) refl refl refl refl refl refl
      refl (omega arith)
