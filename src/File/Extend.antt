-- ===== src/File/Extend.antt =====
-- `File::ExtendFile` of lib/file.cc: a file grows by blocks from the pool.
use blockfs.Prelude.{
  ℕ, ◌-◌, ◌%◌, List, [], ◌∷◌, none, some, Bool, true, false, ltb, leb, ◌==◌, if◌then◌else◌, length,
  is_empty, u32,
}
use blockfs.Meta.{k_block_size}
use blockfs.Paths.{align_up}
use blockfs.BlockHandle.{get_free_block_id_lock}
use blockfs.FileBlock.{
  is_block_full, add_block_id, write_file_block_meta, get_file_block_lock, put_file_block_lock,
}
use blockfs.File.{get_file_block, add_file_block, write_file_meta}
use blockfs.State.{
  Fs, Action, ◌>>=◌, ◌>>◌, pure, fail, gets, modify, or_fail, attempt, check, file_block_meta,
  on_file_block_meta, file_meta, on_file_meta,
}

-- The unused bytes of the last block.
abbrev last_block_left : ℕ → ℕ
last_block_left size = if size % k_block_size == 0 then 0 else k_block_size - size % k_block_size

-- `num_blocks_needed` for a file of `size` bytes that is to have `offset` bytes.
unfoldable pub num_blocks_needed : ℕ → ℕ → ℕ
num_blocks_needed size offset =
    if leb (offset - size) (last_block_left size)
    then 0
    else align_up (offset - size - last_block_left size) k_block_size % u32

-- The block to fill, and whether it is a new one.
unfoldable pub choose_file_block : ℕ → Action (ℕ × Bool)
choose_file_block file = do
  size ← gets (λ s. (file_meta file s).size)
  if size == 0 then (do fb ← get_file_block_lock; pure (fb, true)) else (do
    cuts ← gets (λ s. length (s.files file).item_maps)
    fb ← get_file_block file (cuts - 1)
    full ← gets (λ s. is_block_full (file_block_meta fb s))
    if full then fail else pure (fb, false))

-- `GetFreeBlockIdLock` on the shared pool.
unfoldable pub take_block_ids : ℕ → Action (List ℕ)
take_block_ids n s =
    let (ids, h) = get_free_block_id_lock s.block_handle n in
    or_fail ids (record s { block_handle = h })

-- The ids, with a new file block given back if there are not enough.
unfoldable pub take_block_ids_or_undo : ℕ → ℕ → Bool → Action (List ℕ)
take_block_ids_or_undo n fb is_new =
    if ltb 0 n
    then (do
      ids ← attempt (take_block_ids n)
      elim ids [
        | some ids ↦ pure ids
        | none ↦ (if is_new then put_file_block_lock fb else pure tt) >> fail
      ])
    else pure []

-- The loop that fills the file block; it stops with a failure at a full one.
unfoldable pub fill_file_block : ℕ → List ℕ → Action (Unit {0})
fill_file_block fb [] = pure tt
fill_file_block fb (id ∷ ids) = do
  full ← gets (λ s. is_block_full (file_block_meta fb s))
  if full
      then fail
      else (modify (on_file_block_meta fb (add_block_id id)) >> fill_file_block fb ids)

abbrev claim_file_block : ℕ → ℕ → Fs → Fs
claim_file_block file fb s =
    on_file_block_meta fb
      (λ m. record m {
        used = true;
        file_cut = 0;
        fh = (file_meta file s).fh;
        is_temp = (file_meta file s).is_temp;
      })
      s

-- `ExtendFile`.
unfoldable pub extend_file : ℕ → ℕ → Action (Unit {0})
extend_file file offset = do
  device_size ← gets (λ s. s.super_meta.device_size)
  check (leb offset device_size)
  size ← gets (λ s. (file_meta file s).size)
  (fb, is_new) ← choose_file_block file
  ids ← take_block_ids_or_undo (num_blocks_needed size offset) fb is_new
  if is_new then modify (claim_file_block file fb) else pure tt
  fill_file_block fb ids
  if is_empty ids then pure tt else (do
    write_file_block_meta fb
    if is_new then (add_file_block file fb >> pure tt) else pure tt)
  modify (on_file_meta file λ m. record m { size = offset })
  write_file_meta file
