-- ===== src/OpenFile.antt =====
-- `OpenFile` of lib/file.h and lib/file.cc: the position of an open file, and reads and writes cut
-- into pieces that stay within one data block each.
pub mod Pieces
pub mod Contents
pub mod Seek
pub mod Transfer
pub mod Errors
pub mod RoundTrip
pub mod Bytes
use blockfs.Prelude.{
  ℕ, zero, suc, ◌+◌, ◌-◌, ◌*◌, ◌/◌, ◌%◌, List, [], ◌∷◌, ◌++◌, Option, none, some, ltb, leb, ◌==◌,
  if◌then◌else◌, length, get_or, u64, min, nat_eq,
}
use blockfs.Prelude.Int.{ℤ, pos, negsuc, ◌+ℤ◌}
use blockfs.Prelude.Map.{insert}
use mathlib.Core.Option
use blockfs.Meta.{k_block_size, k_file_block_capacity}
use blockfs.Device.{read_bytes, pread_cache, pwrite_cache}
use blockfs.File.{get_file_block, update_time_stamp}
use blockfs.File.Shrink.{ftruncate}
use blockfs.FileHandle.{get_open_file}
use blockfs.State.{
  OpenFile, Action, ◌>>=◌, ◌>>◌, pure, fail_with, gets, modify, attempt, or_fail, on_file_handle,
  file_block_meta, file_meta, einval,
}

-- A 64-bit pattern as the `off_t` that it stands for, and back.
abbrev pub to_off_t : ℕ → ℤ
to_off_t n = if ltb n 9223372036854775808 then pos n else negsuc (u64 - 1 - n)

abbrev of_off_t : ℤ → ℕ
of_off_t (pos n) = n % u64
of_off_t (negsuc n) = u64 - 1 - n % u64

unfoldable pub set_append_pos : ℕ → ℕ → Action (Unit {0})
set_append_pos fd position = do
  f ← get_open_file fd
  modify (
      on_file_handle
        λ h. record h { open_files = insert fd (record f { append_pos = position }) h.open_files })

-- `lseek`: SEEK_SET, SEEK_CUR and SEEK_END are 0, 1 and 2. A negative position is not refused.
unfoldable pub lseek : ℕ → OpenFile → ℤ → ℕ → Action ℤ
lseek fd f offset whence = do
  size ← gets (λ s. (file_meta f.file s).size)
  target ←
      (if whence == 0
        then pure offset
        else (if whence == 1
            then pure (to_off_t f.append_pos +ℤ offset)
            else (if whence == 2 then pure (to_off_t size +ℤ offset) else fail_with einval)))
  set_append_pos fd (of_off_t target)
  pure target

-- A piece of a transfer: a block, the place on the device, and the place in the caller's buffer.
pub record BlockData : Type 0 where
  pub block_id : ℕ
  pub buffer_offset : ℕ
  pub dev_offset : ℕ
  pub size : ℕ

-- The first piece may begin within a block; the others are whole blocks up to the last one.
unfoldable pub piece_size : ℕ → ℕ → ℕ → ℕ
piece_size block_offset curr size =
    if ltb 0 block_offset
    then min size (k_block_size - block_offset)
    else min (size - curr) k_block_size

abbrev pub make_piece : ℕ → ℕ → List ℕ → ℕ → ℕ → ℕ → ℕ → BlockData
make_piece data_start unit ids index block_offset curr n = record {
  block_id = get_or ids index 0;
  buffer_offset = curr;
  dev_offset = data_start + unit * get_or ids index 0 + block_offset;
  size = n;
}

-- The first part of `ReadData` and of `WriteData`: from block `index` on, at `block_offset` in it,
-- with `curr` of `size` bytes already placed; `unit` is the superblock's block size. `none` is the failed assertion on the index of a
-- block, or the end of the fuel.
unfoldable pub cut_blocks : ℕ → ℕ → ℕ → List ℕ → ℕ → ℕ → ℕ → ℕ → Option (List BlockData)
cut_blocks zero data_start unit ids index block_offset curr size = none
cut_blocks (suc fuel) data_start unit ids index block_offset curr size =
    let n = piece_size block_offset curr size in
    let piece = make_piece data_start unit ids index block_offset curr n in
    let rest = cut_blocks fuel data_start unit ids (index + 1) 0 (curr + n) size in
    if ltb index k_file_block_capacity
    then (if leb size (curr + n) then some (piece ∷ []) else Option.map (λ ps. piece ∷ ps) rest)
    else none

-- The pieces of `size` bytes from `offset` of a file with these blocks.
unfoldable pub pieces : ℕ → ℕ → List ℕ → ℕ → ℕ → Option (List BlockData)
pieces data_start unit ids offset size =
    cut_blocks (size / k_block_size + 2) data_start unit ids (offset / k_block_size)
      (offset % k_block_size) 0 size

-- The second part of `ReadData`: piece by piece up to the first failure; the bytes that were read.
unfoldable pub read_pieces : List BlockData → Action (List ℕ)
read_pieces [] = pure []
read_pieces (b ∷ bs) = do
  r ← attempt (pread_cache b.size b.dev_offset)
  elim r [
    | none ↦ pure []
    | some buffer ↦ (do rest ← read_pieces bs; pure (read_bytes buffer 0 b.size ++ rest))
  ]

-- The second part of `WriteData`; the count of the bytes that were written.
unfoldable pub write_pieces : List BlockData → (ℕ → ℕ) → Action ℕ
write_pieces [] buffer = pure 0
write_pieces (b ∷ bs) buffer = do
  r ← attempt (pwrite_cache b.size b.dev_offset (λ i. buffer (b.buffer_offset + i)))
  elim r [ none ↦ pure 0 | some _ ↦ (do rest ← write_pieces bs buffer; pure (b.size + rest)) ]

unfoldable pub advance : ℕ → ℕ → Action (Unit {0})
advance fd n = do f ← get_open_file fd; set_append_pos fd ((f.append_pos + n) % u64)

-- `FileReader::ReadData`, as `read` and `pread` call it: the position moves by the count.
unfoldable pub read_data : ℕ → ℕ → ℕ → ℕ → Action (List ℕ)
read_data fd file size offset = do
  fb ← get_file_block file 0
  m ← gets (file_block_meta fb)
  super ← gets (λ s. s.super_meta)
  ps ← or_fail (pieces super.block_data_start_offset super.block_size m.block_id offset size)
  bytes ← read_pieces ps
  advance fd (length bytes)
  pure bytes

-- `FileWriter::WriteData`, as `pwrite` calls it.
unfoldable pub write_data : ℕ → ℕ → (ℕ → ℕ) → ℕ → ℕ → Action ℕ
write_data fd file buffer size offset = do
  fb ← get_file_block file 0
  m ← gets (file_block_meta fb)
  super ← gets (λ s. s.super_meta)
  ps ← or_fail (pieces super.block_data_start_offset super.block_size m.block_id offset size)
  n ← write_pieces ps buffer
  advance fd n
  pure n

-- What a read of `size` bytes at `offset` may still take from a file.
abbrev pub clip : ℕ → ℕ → ℕ → ℕ
clip file_size size offset =
    if ltb file_size ((offset + size) % u64) then file_size - offset else size

-- `read` and `pread`: nothing at the end of the file or for no bytes.
unfoldable pub pread : ℕ → OpenFile → ℕ → ℕ → Action (List ℕ)
pread fd f size offset = do
  file_size ← gets (λ s. (file_meta f.file s).size)
  if size == 0
      then pure []
      else (if leb file_size offset
          then pure []
          else read_data fd f.file (clip file_size size offset) offset)

-- `pwrite`: the file grows first; the time stamp moves in even seconds.
unfoldable pub pwrite : ℕ → OpenFile → (ℕ → ℕ) → ℕ → ℕ → Action ℕ
pwrite fd f buffer size offset = if size == 0 then pure 0 else (do
  file_size ← gets (λ s. (file_meta f.file s).size)
  if ltb file_size ((offset + size) % u64)
      then ftruncate f.file ((offset + size) % u64)
      else pure tt
  seconds ← gets (λ s. s.now)
  if seconds % 2 == 0 then update_time_stamp f.file else pure tt
  write_data fd f.file buffer size offset)
