-- ===== src/OpenFile/Bytes.antt =====
-- Reads and writes of lib/file.cc as changes to the bytes of the file, addressed as the file does.
use blockfs.Prelude.{
  ℕ, ◌+◌, ◌-◌, ◌*◌, ◌≤◌, ◌<◌, ◌≡◌, inl, inr, ◌⊎◌, sym, ap, ◌∙◌, List, [], some, arith, length,
  nat_eq, lt_or_ge,
}
use blockfs.Prelude.Map.{find}
use blockfs.Meta.{k_block_size, k_file_block_capacity}
use blockfs.Device.{read_bytes, write_bytes}
use blockfs.OpenFile.{BlockData, read_data, write_data}
use blockfs.OpenFile.Pieces.{address, Covers}
use blockfs.OpenFile.Contents.{
  store, fetch, store_own, store_others, write_bytes_in, write_bytes_out, fetch-Covers,
  read_bytes_shift,
}
use blockfs.OpenFile.RoundTrip.{OnDevice, HasDistinctBlocks, place-on-device, cut_to_pieces}
use blockfs.OpenFile.Transfer.{
  transferred, length-read_bytes, Covers-total, Covers-Fits, distinct_blocks, write_data-pieces,
  read_data-pieces,
}
use blockfs.State.{Fs, ok, OpenFile}

-- The byte of the file at an address of the file.
abbrev pub content : ℕ → Fs → ℕ → ℕ
content fb s x =
    s.dev.bytes
      (address s.super_meta.block_data_start_offset (s.file_block_handle.metas fb).block_id x)

module _ (fd file fb n offset size : ℕ) (f : OpenFile) (s : Fs)
    (found : find 0 (s.files file).item_maps ≡ some fb)
    (opened : find fd s.file_handle.open_files ≡ some f)
    (unit : s.super_meta.block_size ≡ k_block_size) (quiet : s.dev.outcomes ≡ [])
    (some_bytes : 0 < size) (few : n ≤ k_file_block_capacity)
    (within : offset + size ≤ n * k_block_size) (inside : OnDevice fb n s) where
  place_injective :
      HasDistinctBlocks fb n s
      → (x y : ℕ) → x < n * k_block_size
      → y < n * k_block_size
      → address s.super_meta.block_data_start_offset (s.file_block_handle.metas fb).block_id x
        ≡ address s.super_meta.block_data_start_offset (s.file_block_handle.metas fb).block_id y
      → x ≡ y
  place_injective distinct x y hx hy e =
      let data_start = s.super_meta.block_data_start_offset in
      let ids = (s.file_block_handle.metas fb).block_id in
      let zx : 0 + x ≡ x = omega arith in
      let zy : y ≡ 0 + y = omega arith in
      distinct_blocks data_start ids 0 (n * k_block_size) n (omega arith) distinct x y hx hy
        (ap (address data_start ids) zx ∙ e ∙ ap (address data_start ids) zy)

  pub read_data-content :
      read_data fd file size offset s
      ≡ ok (read_bytes (content fb s) offset size) (transferred fd f size s.dev.bytes s)
  read_data-content =
      let data_start = s.super_meta.block_data_start_offset in
      let ids = (s.file_block_handle.metas fb).block_id in
      let place = address data_start ids in
      let cut = cut_to_pieces fd file fb n offset size f s unit some_bytes (omega arith) in
      let fits =
        Covers-Fits data_start ids offset size s.dev.dev_size cut.0 0
          (place-on-device fd file fb n offset size f s within inside) cut.2 in
      let all : size - 0 ≡ size = omega arith in
      let fetched : fetch cut.0 s.dev.bytes ≡ read_bytes (content fb s) offset size =
        fetch-Covers data_start ids offset size cut.0 0 s.dev.bytes cut.2
        ∙ ap (read_bytes (λ j. s.dev.bytes (place (offset + j))) 0) all
        ∙ read_bytes_shift (λ j. s.dev.bytes (place (offset + j))) (content fb s) size 0 offset
            (λ i h.
              let z : 0 + i ≡ i = omega arith in ap (λ k. s.dev.bytes (place (offset + k))) z) in
      read_data-pieces fd file fb offset size f s cut.0 found opened quiet cut.1 fits
        (ap length fetched ∙ length-read_bytes (content fb s) offset size)
      ∙ ap (λ r. ok r (transferred fd f size s.dev.bytes s)) fetched

  -- The stored pieces, at any address of the file.
  stored_at :
      (x : ℕ)
      → x < n * k_block_size
      → (ps : List BlockData) (buffer : ℕ → ℕ) → HasDistinctBlocks fb n s
      → Covers s.super_meta.block_data_start_offset
          (s.file_block_handle.metas fb).block_id
          offset
          size
          0
          ps
      → store ps buffer s.dev.bytes
          (address s.super_meta.block_data_start_offset (s.file_block_handle.metas fb).block_id x)
        ≡ write_bytes size buffer offset (content fb s) x
  stored_at x h ps buffer distinct covers =
      let data_start = s.super_meta.block_data_start_offset in
      let ids = (s.file_block_handle.metas fb).block_id in
      let place = address data_start ids in
      let out = λ (p : (x < offset) ⊎ (offset + size ≤ x)).
        store_others data_start ids offset size ps 0 buffer s.dev.bytes (place x) covers (λ k l b e.
          elim p [
            | inl below ↦ omega (arith, place_injective distinct (offset + k) x (omega arith) h e)
            | inr above ↦ omega (arith, place_injective distinct (offset + k) x (omega arith) h e)
          ])
        ∙ sym (write_bytes_out size buffer offset (content fb s) x p) in
      elim (lt_or_ge x offset) [
        | inl below ↦ out (inl below)
        | inr above ↦ elim (lt_or_ge x (offset + size)) [
          | inr beyond ↦ out (inr beyond)
          | inl inside_it ↦
              let i : ℕ = x - offset in
              let same : x ≡ offset + i = omega arith in
              ap (λ y. store ps buffer s.dev.bytes (place y)) same
              ∙ store_own data_start ids offset size
                  (distinct_blocks data_start ids offset size n within distinct) ps 0 buffer
                  s.dev.bytes i covers (omega arith) (omega arith)
              ∙ sym (
                  ap (write_bytes size buffer offset (content fb s)) same
                  ∙ write_bytes_in size buffer offset (content fb s) i (omega arith))
        ]
      ]

  pub write_data-content :
      (buffer : ℕ → ℕ)
      → HasDistinctBlocks fb n s
      → (bytes : ℕ → ℕ) × (write_data fd file buffer size offset s
          ≡ ok size (transferred fd f size bytes s))
        × ((x : ℕ)
            → x < n * k_block_size
            → content fb (transferred fd f size bytes s) x
              ≡ write_bytes size buffer offset (content fb s) x)
  write_data-content buffer distinct =
      let data_start = s.super_meta.block_data_start_offset in
      let ids = (s.file_block_handle.metas fb).block_id in
      let cut = cut_to_pieces fd file fb n offset size f s unit some_bytes (omega arith) in
      let ps = cut.0 in
      let fits =
        Covers-Fits data_start ids offset size s.dev.dev_size ps 0
          (place-on-device fd file fb n offset size f s within inside) cut.2 in
      let injective = distinct_blocks data_start ids offset size n within distinct in
      (
        store ps buffer s.dev.bytes,
        write_data-pieces fd file fb offset size f s ps buffer found opened quiet cut.1 fits
            (omega (arith, Covers-total data_start ids offset size ps 0 cut.2)),
        λ x h. stored_at x h ps buffer distinct cut.2,
      )
