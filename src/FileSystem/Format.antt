-- ===== src/FileSystem/Format.antt =====
-- Formatting a device and loading it: `FileSystem::Initialize`, `Format` and `Check` of
-- lib/file_system.cc.
pub mod Loads
use blockfs.Prelude.{ℕ, ◌≡◌, refl, [], if◌then◌else◌, arith}
use blockfs.Meta.{SuperBlockMeta, DirMeta, FileMeta, FileBlockMeta}
use blockfs.FdHandle.{new_fd_handle, default_max_fd_num}
use blockfs.SuperBlock.{format_super}
use blockfs.Shm.{initialize_shm, cleanup_dirty_share_memory}
use blockfs.DirHandle.Mount.{format_dir_metas}
use blockfs.File.Mount.{format_file_block_metas}
use blockfs.FileHandle.Mount.{format_file_metas}
use blockfs.FileSystem.Mount.{load_all_metas}
use blockfs.State.{Fs, Action, ◌>>=◌, ◌>>◌, modify}

-- `Initialize`: new handles, with nothing loaded.
abbrev pub initialize : Fs → Fs
initialize s = record s {
  fd_handle = new_fd_handle default_max_fd_num;
  block_handle = record { max_block_num = 0; block_id_pool = [] };
  dir_handle = record s.dir_handle {
    free_dhs = [];
    created_dirs = [];
    created_dhs = [];
    open_dirs = [];
  };
  file_handle = record s.file_handle {
    free_fhs = [];
    created_files = [];
    created_fhs = [];
    open_files = [];
    parent_files = [];
  };
  file_block_handle = record s.file_block_handle { free_fbhs = [] };
}

-- `Format`, once the device is open: the handles in the order of `handle_vector_`, of which the pool of
-- blocks has nothing to format.
unfoldable pub format : (SuperBlockMeta → ℕ) → Action (Unit {0})
format crc_of = do
  modify initialize
  cleanup_dirty_share_memory
  format_super crc_of
  format_dir_metas
  format_file_metas
  format_file_block_metas

-- What `Check` and `MountFileSystem` do with an open device.
unfoldable pub load_open_device : (SuperBlockMeta → ℕ) → Action (Unit {0})
load_open_device crc_of = do initialize_shm crc_of; load_all_metas crc_of

-- `Check`, once the device is open.
unfoldable pub load_device : (SuperBlockMeta → ℕ) → Action (Unit {0})
load_device crc_of = do modify initialize; load_open_device crc_of

-- No checksum reads its own field.
pub record SkipsField (crc_of : SuperBlockMeta → ℕ) (s : Fs) : Type 0 where
  pub of_super : (m : SuperBlockMeta) (c : ℕ) → crc_of (record m { crc = c }) ≡ crc_of m
  pub of_dir : (m : DirMeta) (c : ℕ) → s.crc32.of_dir (record m { crc = c }) ≡ s.crc32.of_dir m
  pub of_file : (m : FileMeta) (c : ℕ) → s.crc32.of_file (record m { crc = c }) ≡ s.crc32.of_file m
  pub of_file_block :
      (m : FileBlockMeta) (c : ℕ)
      → s.crc32.of_file_block (record m { crc = c }) ≡ s.crc32.of_file_block m
