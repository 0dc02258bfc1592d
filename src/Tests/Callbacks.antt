-- ===== src/Tests/Callbacks.antt =====
-- The callbacks of libfuse at the demonstration file system.
use blockfs.Prelude.{
  ℕ, ◌≡◌, ◌≢◌, ◌⊎◌, refl, List, [], ◌∷◌, some, none, true, false, arith, nat_eq, bytes_eq_inst,
  key_eq_inst,
}
use blockfs.Prelude.Int.{pos}
use blockfs.Prelude.Map.{find}
use blockfs.Paths.{
  get_file_name, get_dir_name, ends_with_slash, pop_back, parent_path, strip_slashes,
  before_last_slash,
}
use blockfs.DirHandle.{transform_path, get_created_directory}
use blockfs.FileHandle
use blockfs.FileHandle.{get_created_file}
use blockfs.FileHandle.Open.{open_file, open_named, is_need_create_temp_file}
use blockfs.FileSystem.Locks.{marked}
use blockfs.FileHandle.Named.Lookup.{IsFilePath}
use blockfs.File.{stat_file}
use blockfs.Fuse.{getattr, neg, open_callback, read_callback, rename_callback, flock, flush}
use blockfs.Fuse.Errors.{
  open_callback-reports_success, rename_callback-reports_success, flock-ignores_operation,
}
use blockfs.Fuse.Flush.{flush-restores}
use blockfs.Fuse.Directories.{Session}
use blockfs.Fuse.Directories.Listing.{fresh_stream}
use blockfs.State.{enoent, eacces, result, final}
use blockfs.Tests.Demo.{demo, demo_open_file}

-- There is a file `/ab`, and none `/zz`.
abbrev ab_path : List ℕ
ab_path = b'/' ∷ b'a' ∷ b'b' ∷ []

abbrev zz_path : List ℕ
zz_path = b'/' ∷ b'z' ∷ b'z' ∷ []

open_callback-reports_success_example :
    let opened = open_callback zz_path 0 demo in
    (opened.0.0 ≡ pos 0)
    × (opened.1 ≡ final (open_file zz_path 0 demo))
    × (((fd : ℕ) × (result (open_file zz_path 0 demo) ≡ some fd) × (opened.0.1 ≡ fd))
        ⊎ ((result (open_file zz_path 0 demo) ≡ none)
            × ((read_callback zz_path 10 0 (some (opened.0.1)) opened.1).0.0 ≡ neg enoent)))
unfolding open_callback open_file open_named is_need_create_temp_file get_created_file
    get_created_directory transform_path get_dir_name get_file_name ends_with_slash pop_back
    parent_path strip_slashes before_last_slash FileHandle.transform_path
open_callback-reports_success_example = open_callback-reports_success zz_path 0 10 0 demo refl

ab_path-IsFilePath : IsFilePath ab_path 0 demo
unfolding get_dir_name get_file_name ends_with_slash pop_back parent_path strip_slashes
    before_last_slash
ab_path-IsFilePath = record {
  no_slash = refl;
  short = omega arith;
  short_dir = omega arith;
  there = refl;
}

rename_callback-reports_success_example :
    let looked_up = getattr ab_path none demo in
    (looked_up ≡ ((pos 0, some (stat_file 0 demo)), record demo { errno = 0 }))
    × (rename_callback zz_path ab_path 0 looked_up.1 ≡ (pos 0, looked_up.1))
    × (rename_callback zz_path ab_path 0 demo ≡ (neg demo.errno, demo))
unfolding get_file_name before_last_slash
rename_callback-reports_success_example =
    rename_callback-reports_success zz_path ab_path 0 0 demo refl refl ab_path-IsFilePath refl

-- LOCK_EX is 2, and LOCK_UN is 8.
flock-ignores_operation_example :
    (flock ab_path 2 (some 7) demo ≡ (pos 0, marked 0 true demo))
    × ((flock ab_path 8 (some 7) (marked 0 true demo)).0 ≡ neg eacces)
    × (((flock ab_path 8 (some 7) (marked 0 true demo)).1.files 0).locked ≡ true)
flock-ignores_operation_example =
    flock-ignores_operation ab_path 2 8 7 7 demo_open_file demo_open_file demo refl refl refl refl

flush-restores_example :
    let (res, t) = flush ab_path (some 7) demo in
    (res ≡ pos 0)
    × (t.fd_handle.free_fd_pool ≡ 9 ∷ 10 ∷ 8 ∷ [])
    × (find 8 t.file_handle.open_files ≡ none)
    × ((other : ℕ)
        → other ≢ 8
        → find other t.file_handle.open_files ≡ find other demo.file_handle.open_files)
    × ((t.files 0).nlink ≡ 1)
    × ((t.files 0).locked ≡ false)
flush-restores_example =
    flush-restores ab_path 7 8 (9 ∷ 10 ∷ []) demo_open_file demo refl refl (omega arith)
      (omega arith) refl refl (omega arith)

abbrev session : Session
session = record { fs = demo; open_dirs = (100, fresh_stream 8 0) ∷ []; next_key = 101 }
