-- ===== src/Tests/Data.antt =====
-- Transfers of the demonstration file across the border of its two blocks.
use blockfs.Prelude.{
  ℕ, ◌+◌, ◌<◌, ◌≡◌, ◌⊎◌, inl, inr, refl, List, some, get_or, ap, ◌∙◌, sym, arith, ◌≢◌,
}
use blockfs.Meta.{k_block_size}
use blockfs.Device.{read_bytes}
use blockfs.SuperBlock.{data_start}
use blockfs.OpenFile.{BlockData, pieces, read_data, write_data}
use blockfs.OpenFile.Pieces.{address, Covers, pieces-Covers}
use blockfs.OpenFile.Transfer.{transferred}
use blockfs.OpenFile.RoundTrip.{OnDevice, HasDistinctBlocks, write_data-read_data}
use blockfs.FileSystem.{pread_file, pwrite_file}
use blockfs.FileSystem.Data.{pwrite_file-pread_file}
use blockfs.State.{ok, result, final}
use blockfs.Tests.Demo.{demo, demo_ids, demo_open_file}

abbrev pub counting : ℕ → ℕ
counting i = i

first_two : (i : ℕ) → i < 2 → (i ≡ 0) ⊎ (i ≡ 1)
first_two i h = grind arith

pub demo-OnDevice : OnDevice 1 2 demo
demo-OnDevice i h = elim (first_two i h) [ inl e ↦ rw e (omega arith) | inr e ↦ rw e (omega arith) ]

pub demo-HasDistinctBlocks : HasDistinctBlocks 1 2 demo
demo-HasDistinctBlocks i j hi hj e = elim (first_two i hi) [
  | inl a ↦ elim (first_two j hj) [
    | inl b ↦ a ∙ sym b
    | inr b ↦
        absurd (
          omega
            (arith, sym (ap (λ x. get_or demo_ids x 0) a) ∙ e ∙ ap (λ x. get_or demo_ids x 0) b))
  ]
  | inr a ↦ elim (first_two j hj) [
    | inl b ↦
        absurd (
          omega
            (arith, sym (ap (λ x. get_or demo_ids x 0) a) ∙ e ∙ ap (λ x. get_or demo_ids x 0) b))
    | inr b ↦ a ∙ sym b
  ]
]

pwrite_file-pread_file_example :
    let after = final (pwrite_file 7 counting 100 4194300 demo) in
    (result (pwrite_file 7 counting 100 4194300 demo) ≡ some 100)
    × (result (pread_file 7 100 4194300 after) ≡ some (read_bytes counting 0 100))
pwrite_file-pread_file_example =
    pwrite_file-pread_file 7 1 2 4194300 100 demo_open_file counting demo refl refl refl refl
      (omega arith) (omega arith) (omega arith) (omega arith) (omega arith) demo-OnDevice
      demo-HasDistinctBlocks

write_data-read_data_example :
    (bytes : ℕ → ℕ) × (let after = transferred 7 demo_open_file 100 bytes demo in
      (write_data 7 0 counting 100 4194300 demo ≡ ok 100 after)
      × (result (read_data 7 0 100 4194300 after) ≡ some (read_bytes counting 0 100))
      × ((a : ℕ)
          → ((k : ℕ) → k < 100 → address data_start demo_ids (4194300 + k) ≢ a)
          → bytes a ≡ 0))
write_data-read_data_example =
    write_data-read_data 7 0 1 2 4194300 100 demo_open_file demo counting refl refl refl refl
      (omega arith) (omega arith) (omega arith) demo-OnDevice demo-HasDistinctBlocks

pieces-Covers_example :
    (ps : List BlockData) × (pieces data_start k_block_size demo_ids 4194300 100 ≡ some ps)
    × Covers data_start demo_ids 4194300 100 0 ps
pieces-Covers_example = pieces-Covers data_start demo_ids 4194300 100 (omega arith) (omega arith)
