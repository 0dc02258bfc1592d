-- ===== src/OpenFile/Pieces.antt =====
-- The pieces into which lib/file.cc cuts a transfer: they lie one behind the other in the caller's
-- buffer, and each stays within the block that holds its part of the file.
use blockfs.Prelude.{
  ℕ, zero, suc, ◌+◌, ◌-◌, ◌*◌, ◌/◌, ◌%◌, ◌<◌, ◌≤◌, ◌≡◌, refl, List, [], ◌∷◌, some, leb, get_or,
  arith, inl, inr, Bool-cases, ◌⊎◌, leb→le, leb_false→lt,
}
use blockfs.Meta.{k_block_size, k_file_block_capacity}
use blockfs.OpenFile.{BlockData, piece_size, make_piece, cut_blocks, pieces}

piece_size_bounds :
    (block_offset curr size : ℕ)
    → curr < size
    → ((curr ≡ 0) ⊎ (block_offset ≡ 0))
    → block_offset < k_block_size
    → let n = piece_size block_offset curr size in
      (0 < n)
      × (curr + n ≤ size)
      × (block_offset + n ≤ k_block_size)
      × ((curr + n ≡ size) ⊎ (block_offset + n ≡ k_block_size))
unfolding piece_size
piece_size_bounds bo curr size h first b = ground arith

module _ (data_start : ℕ) (ids : List ℕ) where
  -- Where a byte of the file lies on the device.
  abbrev pub address : ℕ → ℕ
  address x = data_start + k_block_size * get_or ids (x / k_block_size) 0 + x % k_block_size

  -- Within one block, bytes that follow one another in the file do so on the device.
  pub address-add :
      (x n i : ℕ) → i < n → x % k_block_size + n ≤ k_block_size → address (x + i) ≡ address x + i
  address-add x n i h b =
      let same : (x + i) / k_block_size ≡ x / k_block_size = omega arith in rw same (omega arith)

  -- The pieces carry the bytes `curr` to `size` of a transfer at `offset`, in order.
  abbrev pub Covers : ℕ → ℕ → ℕ → List BlockData → Type 0
  Covers offset size curr [] = curr ≡ size
  Covers offset size curr (p ∷ ps) =
      (p.buffer_offset ≡ curr)
      × (0 < p.size)
      × ((offset + curr) % k_block_size + p.size ≤ k_block_size)
      × (p.dev_offset ≡ address (offset + curr))
      × Covers offset size (curr + p.size) ps

  cut_blocks_last :
      (fuel index block_offset curr size : ℕ)
      → index < k_file_block_capacity
      → size ≤ curr + piece_size block_offset curr size
      → cut_blocks (suc fuel) data_start k_block_size ids index block_offset curr size
        ≡ some (
            make_piece data_start k_block_size ids index block_offset curr
              (piece_size block_offset curr size)
            ∷ [])
  unfolding cut_blocks
  cut_blocks_last fuel index bo curr size h e = ground arith

  cut_blocks_more :
      (fuel index block_offset curr size : ℕ) (ps : List BlockData)
      → index < k_file_block_capacity
      → curr + piece_size block_offset curr size < size
      → cut_blocks fuel data_start k_block_size ids
          (index + 1)
          0
          (curr + piece_size block_offset curr size)
          size
        ≡ some ps
      → cut_blocks (suc fuel) data_start k_block_size ids index block_offset curr size
        ≡ some (
            make_piece data_start k_block_size ids index block_offset curr
              (piece_size block_offset curr size)
            ∷ ps)
  unfolding cut_blocks
  cut_blocks_more fuel index bo curr size ps h e r = ground arith

  -- With enough fuel the cutting ends, and the pieces cover the transfer.
  cut_blocks-Covers :
      (fuel offset size curr index block_offset : ℕ)
      → curr < size
      → index ≡ (offset + curr) / k_block_size
      → block_offset ≡ (offset + curr) % k_block_size
      → ((curr ≡ 0) ⊎ (block_offset ≡ 0))
      → offset + size ≤ k_file_block_capacity * k_block_size
      → size - curr + block_offset < fuel * k_block_size
      → (ps : List BlockData) × (cut_blocks fuel data_start k_block_size ids index block_offset curr
            size
          ≡ some ps)
        × Covers offset size curr ps
  cut_blocks-Covers zero offset size curr index bo h d e first cap f = absurd (omega arith)
  cut_blocks-Covers (suc fuel) offset size curr index bo h d e first cap f =
      elim (Bool-cases (leb size (curr + n))) [
        | inl done ↦ (
          make_piece data_start k_block_size ids index bo curr n ∷ [],
          cut_blocks_last fuel index bo curr size (omega arith) (leb→le _ _ done),
          (
            refl,
            bounds.0,
            omega (arith, bounds),
            rw (d, e),
            omega (arith, bounds, leb→le _ _ done),
          ),
        )
        | inr more ↦
            let rest =
              cut_blocks-Covers fuel offset size (curr + n) (index + 1) 0 (leb_false→lt _ _ more)
                (omega (arith, bounds, leb_false→lt _ _ more))
                (omega (arith, bounds, leb_false→lt _ _ more)) (inr refl) cap
                (omega (arith, bounds, leb_false→lt _ _ more)) in
            (
              make_piece data_start k_block_size ids index bo curr n ∷ rest.0,
              cut_blocks_more fuel index bo curr size rest.0 (omega arith) (leb_false→lt _ _ more)
                  rest.1,
              (refl, bounds.0, omega (arith, bounds), rw (d, e), rest.2),
            )
      ]
    where
      n : ℕ
      n = piece_size bo curr size

      bounds :
          (0 < n)
          × (curr + n ≤ size)
          × (bo + n ≤ k_block_size)
          × ((curr + n ≡ size) ⊎ (bo + n ≡ k_block_size))
      bounds = piece_size_bounds bo curr size h first (omega arith)

  -- A transfer of some bytes within the capacity of a file block is cut into pieces, and the cutting
  -- ends: they carry its bytes in order and without a gap, each stays within one data block, and each
  -- lies where its block lies on the device.
  pub pieces-Covers :
      (offset size : ℕ)
      → 0 < size
      → offset + size ≤ k_file_block_capacity * k_block_size
      → (ps : List BlockData) × (pieces data_start k_block_size ids offset size ≡ some ps)
        × Covers offset size 0 ps
  unfolding pieces
  pieces-Covers offset size h cap =
      cut_blocks-Covers (size / k_block_size + 2) offset size 0 (offset / k_block_size)
        (offset % k_block_size) h (omega arith) (omega arith) (inl refl) cap (omega arith)
