-- ===== src/Tests/Growing.antt =====
-- Writes that grow the demonstration file, and the clearing of its device.
use blockfs.Prelude.{
  ℕ, zero, suc, ◌==◌, if◌then◌else◌, nat_eq, ◌<◌, ◌≤◌, ◌≡◌, ◌≢◌, ◌+◌, ◌⊎◌, inl, refl, ap, ◌∙◌, sym,
  List, [], ◌∷◌, some, get_or, arith,
}
use blockfs.Device.{read_bytes}
use blockfs.Directory.{page_align_index}
use blockfs.File.Extend.{num_blocks_needed}
use blockfs.OpenFile.Pieces.{address}
use blockfs.FileSystem.{pread_file, pwrite_file}
use blockfs.FileSystem.Append.{pwrite_file-grows}
use blockfs.File.Shrink.{copy_data}
use blockfs.File.Copy.{copy_at_once, copy_data-copy_at_once}
use blockfs.FileSystem.Zeroes.{format_fs_data, format_fs_data-zeroes}
use blockfs.OpenFile.Transfer.{with_bytes}
use blockfs.SuperBlock.{data_start}
use blockfs.State.{Fs, ok, result, final, file_meta}
use blockfs.Tests.Data.{counting}
use blockfs.Tests.Demo.{demo, demo_size, demo_open_file}
use blockfs.Tests.Files.{two_blocks-IsFileBlock, with_two_blocks}

abbrev grown_ids : List ℕ
grown_ids = 5 ∷ 2 ∷ 1 ∷ []

abbrev place_of : ℕ → ℕ
place_of id = if id == 5 then 0 else (if id == 2 then 1 else 2)

place_of-grown_ids : (i : ℕ) → i < 3 → place_of (get_or grown_ids i 0) ≡ i
place_of-grown_ids zero h = refl
place_of-grown_ids (suc zero) h = refl
place_of-grown_ids (suc (suc zero)) h = refl
place_of-grown_ids (suc (suc (suc i))) h = absurd (omega arith)

grown_ids-small : (i : ℕ) → i < 3 → get_or grown_ids i 0 ≤ 5
grown_ids-small zero h = omega arith
grown_ids-small (suc zero) h = omega arith
grown_ids-small (suc (suc zero)) h = omega arith
grown_ids-small (suc (suc (suc i))) h = absurd (omega arith)

-- The file of 6 MiB in two blocks takes a third one for a write across the end of its second.
pwrite_file-grows_example :
    let after = final (pwrite_file 7 counting 100 8388600 with_two_blocks) in
    (result (pwrite_file 7 counting 100 8388600 with_two_blocks) ≡ some 100)
    × (result (pread_file 7 100 8388600 after) ≡ some (read_bytes counting 0 100))
    × ((file_meta 0 after).size ≡ 8388700)
    × ((a : ℕ)
        → ((k : ℕ) → k < 100 → address data_start grown_ids (8388600 + k) ≢ a)
        → after.dev.bytes a ≡ 0)
unfolding num_blocks_needed page_align_index
pwrite_file-grows_example =
    pwrite_file-grows 7 1 8388600 100 demo_open_file counting with_two_blocks refl refl refl refl
      (omega arith) (omega arith) (omega arith) (omega arith) (omega arith) two_blocks-IsFileBlock
      (omega arith) (omega arith) (omega arith) (omega arith) (omega arith)
      (λ i h. omega (arith, grown_ids-small i h))
      (λ i j hi hj same. sym (place_of-grown_ids i hi) ∙ ap place_of same ∙ place_of-grown_ids j hj)

-- A device that holds 9 in every byte.
abbrev filled : Fs
filled = record demo { dev = record demo.dev { bytes = λ _. 9 } }

format_fs_data-zeroes_example :
    (bytes : ℕ → ℕ) × (format_fs_data filled ≡ ok tt (with_bytes bytes filled))
    × ((a : ℕ) → data_start ≤ a → a < demo_size → bytes a ≡ 0)
    × ((a : ℕ) → ((a < data_start) ⊎ (demo_size ≤ a)) → bytes a ≡ 9)
format_fs_data-zeroes_example =
    format_fs_data-zeroes filled refl (omega arith) (omega arith) (omega arith)

-- Three chunks, from the middle of one block into that of another.
copy_data-copy_at_once_example :
    let from = data_start + 20971570 in
    let to = data_start + 37748786 in
    (bytes : ℕ → ℕ) × (copy_data 5 9 50 9000000 demo ≡ ok tt (with_bytes bytes demo))
    × (copy_data 5 9 50 9000000 demo ≡ copy_at_once 5 9 50 9000000 demo)
    × ((i : ℕ) → i < 9000000 → bytes (to + i) ≡ demo.dev.bytes (from + i))
    × ((a : ℕ) → ((a < to) ⊎ (to + 9000000 ≤ a)) → bytes a ≡ demo.dev.bytes a)
copy_data-copy_at_once_example =
    copy_data-copy_at_once 5 9 50 9000000 demo refl (inl (omega arith)) (omega arith) (omega arith)
