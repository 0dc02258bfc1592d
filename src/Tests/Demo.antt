-- ===== src/Tests/Demo.antt =====
-- A formatted device with room for 16 blocks, a root directory, and one open file of two blocks.
use blockfs.Prelude.{ℕ, ◌+◌, ◌*◌, [], ◌∷◌, List, true, false}
use blockfs.Meta.{SuperBlockMeta, DirMeta, FileMeta, FileBlockMeta, k_block_size, k_mega}
use blockfs.Paths.{root_path}
use blockfs.SuperBlock.{data_start}
use blockfs.State.{Fs, Device, File, OpenFile}

abbrev pub demo_size : ℕ
demo_size = data_start + 16 * k_block_size

abbrev demo_dir_meta : DirMeta
demo_dir_meta = record {
  crc = 0;
  dh = 0;
  size = 0;
  atime = 0;
  mtime = 0;
  ctime = 0;
  used = true;
  dir_name = root_path;
}

abbrev pub demo_file_meta : FileMeta
demo_file_meta = record {
  crc = 0;
  fh = 3;
  size = 6 * k_mega;
  nlink = 0;
  mode = 0;
  atime = 0;
  mtime = 0;
  ctime = 0;
  dh = 0;
  child_fh = 0;
  parent_fh = 0;
  parent_size = 0;
  used = true;
  is_temp = false;
  file_name = b'a' ∷ b'b' ∷ [];
}

abbrev pub demo_ids : List ℕ
demo_ids = 5 ∷ 2 ∷ []

abbrev pub demo_file_block_meta : FileBlockMeta
demo_file_block_meta = record {
  crc = 0;
  index = 1;
  fh = 3;
  file_cut = 0;
  used_block_num = 2;
  used = true;
  is_temp = false;
  block_id = demo_ids;
}

abbrev demo_file : File
demo_file = record { meta = 3; nlink = 1; locked = false; deleted = false; item_maps = (0, 1) ∷ [] }

abbrev pub demo_open_file : OpenFile
demo_open_file = record { file = 0; append_pos = 0 }

-- The superblock with the fields that transfers read.
abbrev pub demo_super_meta : SuperBlockMeta
demo_super_meta = record {
  crc = 0;
  uuid = [];
  magic = 0;
  max_file_num = 100000;
  max_support_udisk_size = 0;
  max_file_block_num = 0;
  max_support_block_num = 0;
  block_size = k_block_size;
  max_dir_name_len = 768;
  max_file_name_len = 64;
  dir_meta_size = 1024;
  file_meta_size = 256;
  file_block_meta_size = 4096;
  super_block_size = 4096;
  dir_meta_total_size = 0;
  file_meta_total_size = 0;
  file_block_meta_total_size = 0;
  super_block_offset = 0;
  dir_meta_offset = 4096;
  file_meta_offset = 8192;
  file_block_meta_offset = 0;
  block_data_start_offset = data_start;
  device_size = demo_size;
  curr_block_num = 16;
}

abbrev demo_dev : Device
demo_dev = record {
  dev_size = demo_size;
  outcomes = [];
  super_block = demo_super_meta;
  dir_metas = λ _. demo_dir_meta;
  file_metas = λ _. demo_file_meta;
  file_block_metas = λ _. demo_file_block_meta;
  bytes = λ _. 0;
}

abbrev pub demo : Fs
demo = record {
  errno = 0;
  now = 4;
  crc32 = record { of_dir = λ _. 1; of_file = λ _. 2; of_file_block = λ _. 3 };
  super_meta = demo_super_meta;
  dev = demo_dev;
  fd_handle = record { max_fd_num = 12; free_fd_pool = 8 ∷ 9 ∷ 10 ∷ [] };
  block_handle = record { max_block_num = 16; block_id_pool = 1 ∷ 3 ∷ 4 ∷ [] };
  dir_handle = record {
    free_dhs = 1 ∷ 2 ∷ [];
    metas = λ _. demo_dir_meta;
    created_dirs = (root_path, 0) ∷ [];
    created_dhs = (0, 0) ∷ [];
    open_dirs = [];
  };
  file_handle = record {
    free_fhs = 4 ∷ 5 ∷ [];
    metas = λ _. demo_file_meta;
    created_files = ((0, b'a' ∷ b'b' ∷ []), 0) ∷ [];
    created_fhs = (3, 0) ∷ [];
    open_files = (7, demo_open_file) ∷ (6, demo_open_file) ∷ [];
    parent_files = [];
  };
  file_block_handle = record { free_fbhs = 2 ∷ 3 ∷ []; metas = λ _. demo_file_block_meta };
  files = λ _. demo_file;
  next_file = 1;
  directories = λ _. record { meta = 0; nlink = 0; item_maps = (3, 0) ∷ []; child_dir_maps = [] };
  next_directory = 1;
}
