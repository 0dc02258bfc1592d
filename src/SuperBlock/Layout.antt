-- ===== src/SuperBlock/Layout.antt =====
-- The regions of a formatted device (lib/super_block.cc).
use blockfs.Prelude.{ℕ, ◌+◌, ◌*◌, ◌%◌, ◌≤◌, ◌<◌, ◌≡◌, refl, List, u64, arith}
use blockfs.SuperBlock.{format_super_block, data_start}

-- The metadata regions follow one another from the superblock on, each has room for all of its
-- records, and the data blocks start behind them on a block boundary. On a device that is larger
-- than its metadata the data blocks all lie on the device, and less than one block is left over.
pub format_super_block-layout :
    (crc : ℕ) (uuid : List ℕ) (device_size : ℕ)
    → data_start ≤ device_size
    → device_size < u64
    → let m = format_super_block crc uuid device_size in
      (m.super_block_offset + m.super_block_size ≤ m.dir_meta_offset)
      × (m.dir_meta_size * m.max_file_num ≤ m.dir_meta_total_size)
      × (m.dir_meta_offset + m.dir_meta_total_size ≤ m.file_meta_offset)
      × (m.file_meta_size * m.max_file_num ≤ m.file_meta_total_size)
      × (m.file_meta_offset + m.file_meta_total_size ≤ m.file_block_meta_offset)
      × (m.file_block_meta_size * m.max_file_block_num ≤ m.file_block_meta_total_size)
      × (m.file_block_meta_offset + m.file_block_meta_total_size ≤ m.block_data_start_offset)
      × (m.block_data_start_offset % m.block_size ≡ 0)
      × (m.block_data_start_offset + m.block_size * m.curr_block_num ≤ device_size)
      × (device_size < m.block_data_start_offset + m.block_size * (m.curr_block_num + 1))
unfolding format_super_block
format_super_block-layout crc uuid device_size large word = (
  omega arith,
  omega arith,
  omega arith,
  omega arith,
  omega arith,
  omega arith,
  omega arith,
  refl,
  omega arith,
  omega arith,
)
