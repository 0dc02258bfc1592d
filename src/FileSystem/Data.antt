-- ===== src/FileSystem/Data.antt =====
-- Reads and writes through the interface of lib/block_fs.cc.
use blockfs.Prelude.{
  ℕ, ◌+◌, ◌*◌, ◌%◌, ◌≤◌, ◌<◌, ◌≡◌, ◌≢◌, inl, inr, refl, ap, ◌∙◌, [], some, false, ltb, leb, ◌==◌,
  if◌then◌else◌, arith, le→ltb_false, Bool-cases, u64, nat_eq,
}
use blockfs.Prelude.Map.{find, find-insert_self}
use blockfs.Meta.{k_block_size, k_file_block_capacity}
use blockfs.Device.{read_bytes}
use blockfs.File.{update_time_stamp}
use blockfs.FileHandle.{get_open_file}
use blockfs.OpenFile.{pread, pwrite, read_data, write_data}
use blockfs.OpenFile.Transfer.{transferred}
use blockfs.OpenFile.RoundTrip.{place, OnDevice, HasDistinctBlocks, write_data-read_data}
use blockfs.FileSystem.{pread_file, pwrite_file}
use blockfs.State.{Fs, OpenFile, ok, result, final, file_meta, attempt, ◌>>=◌}

-- The time stamp that a write in an even second sets.
abbrev pub stamped : ℕ → Fs → Fs
stamped file s = if s.now % 2 == 0 then final (update_time_stamp file s) else s

pub pwrite_file-write_data :
    (fd offset size : ℕ) (f : OpenFile) (buffer : ℕ → ℕ) (s : Fs)
    → find fd s.file_handle.open_files ≡ some f
    → 0 < size
    → offset + size ≤ (file_meta f.file s).size
    → (file_meta f.file s).size < u64
    → pwrite_file fd buffer size offset s
      ≡ write_data fd f.file buffer size offset (stamped f.file s)
unfolding pwrite_file get_open_file pwrite update_time_stamp
pwrite_file-write_data fd offset size f buffer s opened some_bytes within word =
    let some_size : (size == 0) ≡ false = ground arith in
    let sum : (offset + size) % u64 ≡ offset + size = omega arith in
    let small : ltb (file_meta f.file s).size (offset + size) ≡ false = le→ltb_false _ _ within in
    rw (opened, attempt, get_open_file, ◌>>=◌) rw (some_size, sum, small, ◌>>=◌)
      (elim (Bool-cases (s.now % 2 == 0)) [
        | inl even ↦ rw (even, stamped, ◌>>=◌) refl
        | inr odd ↦ rw (odd, stamped, ◌>>=◌) refl
      ])

pread_file-read_data :
    (fd offset size : ℕ) (f : OpenFile) (s : Fs)
    → find fd s.file_handle.open_files ≡ some f
    → 0 < size
    → offset + size ≤ (file_meta f.file s).size
    → (file_meta f.file s).size < u64
    → pread_file fd size offset s ≡ read_data fd f.file size offset s
unfolding pread_file get_open_file pread
pread_file-read_data fd offset size f s opened some_bytes within word =
    let some_size : (size == 0) ≡ false = ground arith in
    let sum : (offset + size) % u64 ≡ offset + size = omega arith in
    let small : ltb (file_meta f.file s).size (offset + size) ≡ false = le→ltb_false _ _ within in
    let more : leb (file_meta f.file s).size offset ≡ false = ground arith in
    rw (opened, attempt, get_open_file, ◌>>=◌) rw (some_size, sum, small, more, ◌>>=◌) refl

module _ (fd fb n offset size : ℕ) (f : OpenFile) (buffer : ℕ → ℕ) (s : Fs) where
  -- From the state in which the data are written; the file keeps the size that it has there.
  pub read_behind :
      (t : Fs)
      → pwrite_file fd buffer size offset s ≡ write_data fd f.file buffer size offset t
      → find 0 (t.files f.file).item_maps ≡ some fb
      → find fd t.file_handle.open_files ≡ some f
      → t.super_meta.block_size ≡ k_block_size
      → t.dev.outcomes ≡ []
      → 0 < size
      → n ≤ k_file_block_capacity
      → offset + size ≤ n * k_block_size
      → offset + size ≤ (file_meta f.file t).size
      → (file_meta f.file t).size < u64
      → OnDevice fb n t
      → HasDistinctBlocks fb n t
      → let after = final (pwrite_file fd buffer size offset s) in
        (result (pwrite_file fd buffer size offset s) ≡ some size)
        × (result (pread_file fd size offset after) ≡ some (read_bytes buffer 0 size))
        × ((file_meta f.file after).size ≡ (file_meta f.file t).size)
        × ((a : ℕ)
            → ((k : ℕ) → k < size → place fd f.file fb n offset size f t (offset + k) ≢ a)
            → after.dev.bytes a ≡ t.dev.bytes a)
  read_behind t run found opened unit quiet some_bytes few within in_file word inside distinct =
      let (bytes, (wrote, reads, rest)) =
        write_data-read_data fd f.file fb n offset size f t buffer found opened unit quiet
          some_bytes few within inside distinct in
      let t' = transferred fd f size bytes t in
      let whole : pwrite_file fd buffer size offset s ≡ ok size t' = run ∙ wrote in
      let f' : OpenFile = record f { append_pos = (f.append_pos + size) % u64 } in
      let back =
        pread_file-read_data fd offset size f' t' (find-insert_self fd f' t.file_handle.open_files)
          some_bytes in_file word in
      (
        ap result whole,
        ap (λ r. result (pread_file fd size offset (final r))) whole ∙ ap result back ∙ reads,
        ap (λ r. (file_meta f.file (final r)).size) whole,
        λ a apart. ap (λ r. (final r).dev.bytes a) whole ∙ rest a apart,
      )

  -- Through the interface of the file system: bytes written within an open file of at most n blocks,
  -- which are different blocks of a device that completes its transfers, are all written, and a read
  -- of the same range gives them back.
  pub pwrite_file-pread_file :
      find 0 (s.files f.file).item_maps ≡ some fb
      → find fd s.file_handle.open_files ≡ some f
      → s.super_meta.block_size ≡ k_block_size
      → s.dev.outcomes ≡ []
      → 0 < size
      → n ≤ k_file_block_capacity
      → offset + size ≤ n * k_block_size
      → offset + size ≤ (file_meta f.file s).size
      → (file_meta f.file s).size < u64
      → OnDevice fb n s
      → HasDistinctBlocks fb n s
      → let after = final (pwrite_file fd buffer size offset s) in
        (result (pwrite_file fd buffer size offset s) ≡ some size)
        × (result (pread_file fd size offset after) ≡ some (read_bytes buffer 0 size))
  unfolding update_time_stamp
  pwrite_file-pread_file found opened unit quiet some_bytes few within in_file word inside
        distinct =
      let run = pwrite_file-write_data fd offset size f buffer s opened some_bytes in_file word in
      elim (Bool-cases (s.now % 2 == 0)) [
        | inl even ↦
            let t = final (update_time_stamp f.file s) in
            let same : (file_meta f.file t).size ≡ (file_meta f.file s).size = ground arith in
            let (wrote, reads, _, _) =
              read_behind t (run ∙ ap (write_data fd f.file buffer size offset) (rw even refl))
                found opened unit quiet some_bytes few within (omega (arith, same, in_file))
                (omega (arith, same, word)) inside distinct in
            (wrote, reads)
        | inr odd ↦
            let (wrote, reads, _, _) =
              read_behind s (run ∙ ap (write_data fd f.file buffer size offset) (rw odd refl)) found
                opened unit quiet some_bytes few within in_file word inside distinct in
            (wrote, reads)
      ]
