-- ===== src/SuperBlock.antt =====
-- lib/super_block.cc: the layout that formatting writes.
pub mod Layout
use blockfs.Prelude.{ℕ, ◌+◌, ◌-◌, ◌*◌, ◌/◌, ◌%◌, List, u64, [], ◌∷◌}
use blockfs.Paths.{align_up, round_up}
use blockfs.Meta.{
  SuperBlockMeta, k_block_fs_magic, k_block_fs_page_size, k_super_block_size, k_super_block_offset,
  k_dir_meta_offset, k_max_file_num, k_block_fs_max_udisk_size, k_block_size,
  k_block_fs_max_dir_name_len, k_block_fs_max_file_name_len, k_block_fs_dir_meta_size,
  k_block_fs_file_meta_size, k_file_block_capacity, k_block_fs_file_block_meta_size,
}
use blockfs.State.{Action, ◌>>=◌, ◌>>◌, gets, modify, pwrite_direct}

-- The totals and offsets, in the order in which `FormatAllMeta` computes them.
abbrev dir_total : ℕ
dir_total = round_up (k_block_fs_dir_meta_size * k_max_file_num) k_block_fs_page_size

abbrev file_offset : ℕ
file_offset = k_dir_meta_offset + dir_total

abbrev file_total : ℕ
file_total = round_up (k_block_fs_file_meta_size * k_max_file_num) k_block_fs_page_size

abbrev file_block_offset : ℕ
file_block_offset = file_offset + file_total

-- One file block for each file but one, and enough for one file as large as the device.
abbrev small_file_blocks : ℕ
small_file_blocks = k_max_file_num - 1

abbrev large_file_blocks : ℕ
large_file_blocks =
    align_up (k_block_fs_max_udisk_size - small_file_blocks * k_block_fs_file_block_meta_size)
      (k_block_size * k_file_block_capacity)

abbrev file_block_total : ℕ
file_block_total =
    round_up
      (small_file_blocks * k_block_fs_file_block_meta_size
        + large_file_blocks * k_block_fs_file_block_meta_size)
      k_block_fs_page_size

abbrev pub data_start : ℕ
data_start = round_up (file_block_offset + file_block_total) k_block_size

-- `device_size - block_data_start_offset_`, in 64-bit arithmetic.
abbrev free_udisk_size : ℕ → ℕ
free_udisk_size device_size = (device_size + u64 - data_start) % u64

-- The superblock of a device of this size, but for its checksum and its fixed identifier, which
-- are arguments.
unfoldable pub format_super_block : ℕ → List ℕ → ℕ → SuperBlockMeta
format_super_block crc uuid device_size = record {
  crc = crc;
  uuid = uuid;
  magic = k_block_fs_magic;
  max_file_num = k_max_file_num;
  max_support_udisk_size = k_block_fs_max_udisk_size;
  max_file_block_num = small_file_blocks + large_file_blocks;
  max_support_block_num = (k_block_fs_max_udisk_size - data_start) / k_block_size;
  block_size = k_block_size;
  max_dir_name_len = k_block_fs_max_dir_name_len;
  max_file_name_len = k_block_fs_max_file_name_len;
  dir_meta_size = k_block_fs_dir_meta_size;
  file_meta_size = k_block_fs_file_meta_size;
  file_block_meta_size = k_block_fs_file_block_meta_size;
  super_block_size = k_super_block_size;
  dir_meta_total_size = dir_total;
  file_meta_total_size = file_total;
  file_block_meta_total_size = file_block_total;
  super_block_offset = k_super_block_offset;
  dir_meta_offset = k_dir_meta_offset;
  file_meta_offset = file_offset;
  file_block_meta_offset = file_block_offset;
  block_data_start_offset = data_start;
  device_size = device_size;
  curr_block_num = free_udisk_size device_size / k_block_size;
}

-- The identifier that formatting gives every device.
abbrev pub format_uuid : List ℕ
format_uuid =
    b'1' ∷ b'2' ∷ b'3' ∷ b'4' ∷ b'5' ∷ b'6' ∷ b'7' ∷ b'8' ∷ b'9' ∷ b'0' ∷ b'1' ∷ b'2' ∷ b'3' ∷ b'4'
    ∷ b'5' ∷ b'6' ∷ b'7' ∷ b'8' ∷ b'9' ∷ b'0' ∷ b'1' ∷ b'2' ∷ b'3' ∷ b'4' ∷ b'5' ∷ b'6' ∷ b'7'
    ∷ b'8' ∷ b'9' ∷ b'0' ∷ b'1' ∷ b'2' ∷ b'3' ∷ b'4' ∷ b'5' ∷ b'6' ∷ b'7' ∷ b'8' ∷ b'9' ∷ b'0'
    ∷ b'1' ∷ b'2' ∷ b'3' ∷ b'4' ∷ b'5' ∷ b'6' ∷ b'7' ∷ b'8' ∷ b'9' ∷ b'0' ∷ b'1' ∷ b'2' ∷ b'3'
    ∷ b'4' ∷ b'5' ∷ b'6' ∷ b'7' ∷ b'8' ∷ b'9' ∷ []

-- `SuperBlock::FormatAllMeta`: the super block in memory, and then on the device.
unfoldable pub format_super : (SuperBlockMeta → ℕ) → Action (Unit {0})
format_super crc_of = do
  device_size ← gets (λ s. s.dev.dev_size)
  let m : SuperBlockMeta = format_super_block 0 format_uuid device_size
  let sealed : SuperBlockMeta = record m { crc = crc_of m }
  modify λ s. record s { super_meta = sealed }
  pwrite_direct k_super_block_size k_super_block_offset (λ d. record d { super_block = sealed })
