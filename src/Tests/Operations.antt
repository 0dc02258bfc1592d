-- ===== src/Tests/Operations.antt =====
-- The theorems on whole operations at the demonstration file system.
use blockfs.Prelude.{
  ℕ, ◌+◌, ◌*◌, ◌≤◌, ◌≡◌, ◌⊎◌, refl, List, [], ◌∷◌, true, false, count, arith, nat_eq, bytes_eq_inst,
  key_eq_inst,
}
use blockfs.Meta.{k_mega}
use blockfs.Paths.{
  root_path, get_file_name, get_dir_name, ends_with_slash, pop_back, parent_path, strip_slashes,
  before_last_slash,
}
use blockfs.Directory.{page_align_index}
use blockfs.FileBlock.{used_block_ids, release_all}
use blockfs.File.Extend.{extend_file}
use blockfs.File.Grow.{extend_file-grows}
use blockfs.File.Release.{release_all-frees}
use blockfs.DirHandle.{transform_path, get_created_directory}
use blockfs.FileHandle
use blockfs.FileHandle.{find_file}
use blockfs.FileHandle.Create.{unlink}
use blockfs.FileHandle.Unlink.{IsRemoved, unlink-defers}
use blockfs.Device.{pwrite_cache}
use blockfs.OpenFile.{BlockData, write_pieces}
use blockfs.OpenFile.Errors.{write_pieces-count}
use blockfs.State.{Fs, ok, err, is_positive, on_file, file_meta, file_block_meta}
use blockfs.Tests.Demo.{demo}
use blockfs.Tests.Files.{two_blocks-IsFileBlock, with_two_blocks}

-- The file of 6 MiB in two blocks grows to 13 MiB in four.
extend_file-grows_example :
    (t : Fs) × (extend_file 0 (13 * k_mega) with_two_blocks ≡ ok tt t)
    × ((file_meta 0 t).size ≡ 13 * k_mega)
    × (used_block_ids (file_block_meta 1 t) ≡ 5 ∷ 2 ∷ 1 ∷ 3 ∷ [])
    × (t.block_handle.block_id_pool ≡ 4 ∷ [])
    × (t.dev.file_block_metas 1 ≡ file_block_meta 1 t)
unfolding page_align_index
extend_file-grows_example =
    extend_file-grows 0 1 (13 * k_mega) with_two_blocks (omega arith) (omega arith) (omega arith)
      (omega arith) refl two_blocks-IsFileBlock (omega arith) (omega arith) (omega arith) refl
      (omega arith) (omega arith)

release_all-frees_example :
    (t : Fs) × (release_all 1 demo ≡ ok tt t)
    × ((a : ℕ)
        → count a t.block_handle.block_id_pool
          ≡ count a (5 ∷ 2 ∷ []) + count a demo.block_handle.block_id_pool)
    × ((file_block_meta 1 t).used ≡ false)
    × ((file_block_meta 1 t).used_block_num ≡ 0)
    × (t.dev.file_block_metas 1 ≡ file_block_meta 1 t)
    × (t.file_block_handle.free_fbhs ≡ 2 ∷ 3 ∷ 1 ∷ [])
release_all-frees_example =
    release_all-frees 1 demo refl (omega arith) (λ a. ground arith) (λ a. ground arith)

-- A device that refuses its first transfer.
abbrev refusing : Fs
refusing = record demo { dev = record demo.dev { outcomes = false ∷ [] } }

abbrev four_bytes : BlockData
four_bytes = record { block_id = 0; buffer_offset = 0; dev_offset = 0; size = 4 }

write_pieces-count_example :
    ((t : Fs) × (pwrite_cache 4 0 (λ i. 0 + i) refusing ≡ err t)
      × (write_pieces (four_bytes ∷ []) (λ i. i) refusing ≡ ok 0 t))
    ⊎ ((t : Fs) × (pwrite_cache 4 0 (λ i. 0 + i) refusing ≡ ok tt t)
        × ((n : ℕ) × (t' : Fs) × (write_pieces (four_bytes ∷ []) (λ i. i) refusing ≡ ok (4 + n) t')
            × (n ≤ 0)))
write_pieces-count_example = write_pieces-count four_bytes [] (λ i. i) refusing

-- The file `/ab`.
abbrev ab_name : List ℕ
ab_name = b'a' ∷ b'b' ∷ []

abbrev ab_path : List ℕ
ab_path = b'/' ∷ ab_name

-- Nobody has the file open.
abbrev unopened : Fs
unopened = record demo { files = λ i. record (demo.files i) { nlink = 0 } }

unlink-defers_example :
    ((is_positive 0 ≡ true)
      × (unlink ab_path unopened ≡ ok tt (on_file 0 (λ o. record o { deleted = true }) unopened)))
    ⊎ ((is_positive 0 ≡ false)
        × ((t : Fs) × (unlink ab_path unopened ≡ ok tt t)
            × IsRemoved 0 3 1 (0, ab_name) unopened t))
unfolding find_file get_created_directory transform_path get_dir_name get_file_name ends_with_slash
    pop_back parent_path strip_slashes before_last_slash FileHandle.transform_path page_align_index
unlink-defers_example =
    unlink-defers 0 0 3 1 (0, ab_name) unopened refl refl refl refl refl refl refl refl refl
      (omega arith) (omega arith) (λ a. ground arith) (λ a. ground arith) ab_path root_path ab_name
      unopened unopened unopened refl refl refl
