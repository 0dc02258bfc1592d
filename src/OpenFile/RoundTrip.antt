-- ===== src/OpenFile/RoundTrip.antt =====
-- A write of an open file and the read behind it (lib/file.cc).
use blockfs.Prelude.{
  ℕ, ◌+◌, ◌*◌, ◌/◌, ◌%◌, ◌<◌, ◌≤◌, ◌≡◌, ◌≢◌, refl, ◌∙◌, ap, List, [], some, arith, get_or, length,
  u64, nat_eq,
}
use blockfs.Prelude.Map.{find, find-insert_self}
use blockfs.Meta.{k_block_size, k_file_block_capacity}
use blockfs.Device.{read_bytes}
use blockfs.OpenFile.{BlockData, pieces, read_data, write_data}
use blockfs.OpenFile.Pieces.{address, Covers, pieces-Covers}
use blockfs.OpenFile.Contents.{store, fetch, store_others, fetch-store}
use blockfs.State.{Fs, ok, result, OpenFile}
use blockfs.OpenFile.Transfer.{
  transferred, length-read_bytes, Covers-total, Covers-Fits, distinct_blocks, cut_pieces,
  write_data-pieces, read_data-pieces,
}

-- Blocks 0 to n - 1 of the file all lie on the device.
abbrev pub OnDevice : ℕ → ℕ → Fs → Type 0
OnDevice fb n s =
    (i : ℕ)
    → i < n
    → s.super_meta.block_data_start_offset
        + k_block_size * get_or (s.file_block_handle.metas fb).block_id i 0
        + k_block_size
      ≤ s.dev.dev_size

-- They are different blocks.
abbrev pub HasDistinctBlocks : ℕ → ℕ → Fs → Type 0
HasDistinctBlocks fb n s =
    (i j : ℕ)
    → i < n
    → j < n
    → get_or (s.file_block_handle.metas fb).block_id i 0
      ≡ get_or (s.file_block_handle.metas fb).block_id j 0
    → i ≡ j

module _ (fd file fb n offset size : ℕ) (f : OpenFile) (s : Fs) where
  abbrev pub place : ℕ → ℕ
  place = address s.super_meta.block_data_start_offset (s.file_block_handle.metas fb).block_id

  pub place-on-device :
      offset + size ≤ n * k_block_size
      → OnDevice fb n s
      → (k : ℕ) → k < size
      → place (offset + k) < s.dev.dev_size
  place-on-device within inside k h =
      let fits = inside ((offset + k) / k_block_size) (omega arith) in omega (arith, fits)

  pub cut_to_pieces :
      s.super_meta.block_size ≡ k_block_size
      → 0 < size
      → offset + size ≤ k_file_block_capacity * k_block_size
      → (ps : List BlockData) × (cut_pieces fd file fb offset size f s ≡ some ps)
        × Covers s.super_meta.block_data_start_offset
            (s.file_block_handle.metas fb).block_id
            offset
            size
            0
            ps
  cut_to_pieces unit some_bytes cap =
      let r =
        pieces-Covers s.super_meta.block_data_start_offset (s.file_block_handle.metas fb).block_id
          offset size some_bytes cap in
      (
        r.0,
        ap
              (λ u.
                pieces s.super_meta.block_data_start_offset u
                  (s.file_block_handle.metas fb).block_id offset size)
              unit
            ∙ r.1,
        r.2,
      )

  -- A write within the blocks of an open file, which are different blocks of the device, on a device
  -- that completes its transfers, writes all its bytes and changes nothing but the bytes of the device
  -- and the position, which moves by their count. A read of the same range then gives the bytes that
  -- were written, and every byte of the device outside the range keeps its value.
  pub write_data-read_data :
      (buffer : ℕ → ℕ)
      → find 0 (s.files file).item_maps ≡ some fb
      → find fd s.file_handle.open_files ≡ some f
      → s.super_meta.block_size ≡ k_block_size
      → s.dev.outcomes ≡ []
      → 0 < size
      → n ≤ k_file_block_capacity
      → offset + size ≤ n * k_block_size
      → OnDevice fb n s
      → HasDistinctBlocks fb n s
      → (bytes : ℕ → ℕ) × (let after = transferred fd f size bytes s in
          (write_data fd file buffer size offset s ≡ ok size after)
          × (result (read_data fd file size offset after) ≡ some (read_bytes buffer 0 size))
          × ((a : ℕ) → ((k : ℕ) → k < size → place (offset + k) ≢ a) → bytes a ≡ s.dev.bytes a))
  write_data-read_data buffer found opened unit quiet some_bytes few within inside distinct =
      let cut = cut_to_pieces unit some_bytes (omega arith) in
      let ps = cut.0 in
      let data_start = s.super_meta.block_data_start_offset in
      let ids = (s.file_block_handle.metas fb).block_id in
      let fits =
        Covers-Fits data_start ids offset size s.dev.dev_size ps 0 (place-on-device within inside)
          cut.2 in
      let written = store ps buffer s.dev.bytes in
      let s' = transferred fd f size written s in
      let w : write_data fd file buffer size offset s ≡ ok size s' =
        write_data-pieces fd file fb offset size f s ps buffer found opened quiet cut.1 fits
          (omega (arith, Covers-total data_start ids offset size ps 0 cut.2)) in
      let inj = distinct_blocks data_start ids offset size n within distinct in
      let fetched : fetch ps written ≡ read_bytes buffer 0 size =
        fetch-store data_start ids offset size inj ps buffer s.dev.bytes cut.2 in
      let r =
        read_data-pieces fd file fb offset size
          (record f { append_pos = (f.append_pos + size) % u64 }) s' ps found
          (find-insert_self fd _ s.file_handle.open_files) refl cut.1 fits
          (ap length fetched ∙ length-read_bytes buffer 0 size) in
      (
        written,
        (
          w,
          ap result r ∙ ap some fetched,
          λ a apart.
              store_others data_start ids offset size ps 0 buffer s.dev.bytes a cut.2
                (λ k l. apart k),
        ),
      )
