-- ===== src/Meta.antt =====
-- lib/meta_defines.h: the constants of the on-disk format and the four metadata records. Lengths
-- are bytes. A field array is a list, a name is its bytes up to the first NUL.
use blockfs.Prelude.{ℕ, ◌*◌, ◌+◌, List, Bool}

abbrev k_kilo : ℕ
k_kilo = 1024

abbrev pub k_mega : ℕ
k_mega = 1024 * k_kilo

abbrev k_giga : ℕ
k_giga = 1024 * k_mega

abbrev k_tera : ℕ
k_tera = 1024 * k_giga

abbrev pub k_block_fs_magic : ℕ
k_block_fs_magic = 0xA5201314

abbrev pub k_block_fs_page_size : ℕ
k_block_fs_page_size = 4 * k_kilo

abbrev pub k_super_block_size : ℕ
k_super_block_size = k_block_fs_page_size

abbrev pub k_super_block_offset : ℕ
k_super_block_offset = 0

abbrev pub k_dir_meta_offset : ℕ
k_dir_meta_offset = k_super_block_offset + k_super_block_size

abbrev pub k_max_file_num : ℕ
k_max_file_num = 100000

abbrev pub k_block_fs_max_udisk_size : ℕ
k_block_fs_max_udisk_size = 128 * k_tera

abbrev pub k_block_size : ℕ
k_block_size = 4 * k_mega

abbrev pub k_block_fs_max_dir_name_len : ℕ
k_block_fs_max_dir_name_len = 768

abbrev pub k_block_fs_max_file_name_len : ℕ
k_block_fs_max_file_name_len = 64

abbrev pub k_block_fs_dir_meta_size : ℕ
k_block_fs_dir_meta_size = 1 * k_kilo

abbrev pub k_block_fs_file_meta_size : ℕ
k_block_fs_file_meta_size = 256

abbrev pub k_file_block_capacity : ℕ
k_file_block_capacity = 1000

abbrev pub k_block_fs_file_block_meta_size : ℕ
k_block_fs_file_block_meta_size = k_block_fs_page_size

-- An `int32_t` -1 as the bit pattern that the unsigned fields hold.
abbrev pub minus_one : ℕ
minus_one = 4294967295

pub record SuperBlockMeta : Type 0 where
  pub crc : ℕ
  pub uuid : List ℕ
  pub magic : ℕ
  pub max_file_num : ℕ
  pub max_support_udisk_size : ℕ
  pub max_file_block_num : ℕ
  pub max_support_block_num : ℕ
  pub block_size : ℕ
  pub max_dir_name_len : ℕ
  pub max_file_name_len : ℕ
  pub dir_meta_size : ℕ
  pub file_meta_size : ℕ
  pub file_block_meta_size : ℕ
  pub super_block_size : ℕ
  pub dir_meta_total_size : ℕ
  pub file_meta_total_size : ℕ
  pub file_block_meta_total_size : ℕ
  pub super_block_offset : ℕ
  pub dir_meta_offset : ℕ
  pub file_meta_offset : ℕ
  pub file_block_meta_offset : ℕ
  pub block_data_start_offset : ℕ
  pub device_size : ℕ
  pub curr_block_num : ℕ

pub record DirMeta : Type 0 where
  pub crc : ℕ
  pub dh : ℕ
  pub size : ℕ
  pub atime : ℕ
  pub mtime : ℕ
  pub ctime : ℕ
  pub used : Bool
  pub dir_name : List ℕ

-- `child_fh` and `parent_fh` are signed in the source; -1 is `minus_one`.
pub record FileMeta : Type 0 where
  pub crc : ℕ
  pub fh : ℕ
  pub size : ℕ
  pub nlink : ℕ
  pub mode : ℕ
  pub atime : ℕ
  pub mtime : ℕ
  pub ctime : ℕ
  pub dh : ℕ
  pub child_fh : ℕ
  pub parent_fh : ℕ
  pub parent_size : ℕ
  pub used : Bool
  pub is_temp : Bool
  pub file_name : List ℕ

pub record FileBlockMeta : Type 0 where
  pub crc : ℕ
  pub index : ℕ
  pub fh : ℕ
  pub file_cut : ℕ
  pub used_block_num : ℕ
  pub used : Bool
  pub is_temp : Bool
  pub block_id : List ℕ
