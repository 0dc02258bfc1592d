-- ===== src/FileHandle/Named/Lookup.antt =====
-- Looking up a file by its path: `TransformPath`, `GetCreatedDirectory` and `GetCreatedFile`
-- (lib/file_handle.cc, lib/dir_handle.cc).
use blockfs.Prelude.{
  ℕ, ◌<◌, ◌≡◌, refl, List, some, false, leb, length, arith, nat_eq, bytes_eq_inst, key_eq_inst,
}
use blockfs.Prelude.Map.{find}
use blockfs.Meta.{k_block_fs_max_file_name_len, k_block_fs_max_dir_name_len}
use blockfs.Paths.{ends_with_slash, get_dir_name, get_file_name}
use blockfs.DirHandle
use blockfs.DirHandle.{with_slash, get_created_directory}
use blockfs.FileHandle.{transform_path, get_created_file}
use blockfs.State.{Fs, ok, ◌>>=◌, dir_meta}

-- A path of a file that is accepted, in a directory that is there.
pub record IsFilePath (filename : List ℕ) (dir : ℕ) (s : Fs) : Type 0 where
  pub no_slash : ends_with_slash filename ≡ false
  pub short : length (get_file_name filename) < k_block_fs_max_file_name_len
  pub short_dir : length (with_slash (get_dir_name filename)) < k_block_fs_max_dir_name_len
  pub there : find (with_slash (get_dir_name filename)) s.dir_handle.created_dirs ≡ some dir

pub transform_path_lem :
    (filename : List ℕ) (dir : ℕ) (s : Fs)
    → IsFilePath filename dir s
    → transform_path filename s ≡ ok (get_dir_name filename, get_file_name filename) s
unfolding transform_path
transform_path_lem filename dir s p =
    let short : leb k_block_fs_max_file_name_len (length (get_file_name filename)) ≡ false =
      let h = p.short in ground arith in
    rw (p.no_slash, short, ◌>>=◌) refl

pub get_created_directory_lem :
    (filename : List ℕ) (dir : ℕ) (s : Fs)
    → IsFilePath filename dir s
    → get_created_directory (get_dir_name filename) s ≡ ok dir s
unfolding get_created_directory DirHandle.transform_path
get_created_directory_lem filename dir s p =
    let short : leb k_block_fs_max_dir_name_len (length (with_slash (get_dir_name filename)))
        ≡ false =
      let h = p.short_dir in ground arith in
    rw (short, p.there, ◌>>=◌) refl

pub get_created_file_lem :
    (filename : List ℕ) (dir file : ℕ) (s : Fs)
    → IsFilePath filename dir s
    → find ((dir_meta dir s).dh, get_file_name filename) s.file_handle.created_files ≡ some file
    → get_created_file filename s ≡ ok file s
unfolding get_created_file
get_created_file_lem filename dir file s p found =
    rw (transform_path_lem filename dir s p, ◌>>=◌) rw
      (get_created_directory_lem filename dir s p, found, ◌>>=◌) refl
