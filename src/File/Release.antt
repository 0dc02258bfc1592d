-- ===== src/File/Release.antt =====
-- `FileBlock::ReleaseAll` (lib/file_block.cc): what a file block gives back.
use blockfs.Prelude.{
  ℕ, ◌+◌, ◌*◌, ◌≤◌, ◌≡◌, refl, ap, ◌∙◌, List, [], ◌∷◌, ◌++◌, false, count, IsDistinct, arith,
}
use blockfs.Prelude.Map.{update_at}
use blockfs.BlockHandle.{put_free_block_id_lock, emplace_all}
use blockfs.BlockHandle.Counts.{count-emplace_all}
use blockfs.FileBlock.{
  used_block_ids, clear_file_block_meta, put_block_ids, put_file_block_lock, release_all,
}
use blockfs.File.Grow.{block_saved, write_file_block_meta_lem}
use blockfs.State.{
  Fs, ok, file_block_meta, on_block_handle, on_file_block_meta, on_file_block_handle, ◌>>=◌,
}

pool_after :
    (ids : List ℕ) (s : Fs)
    → (put_free_block_id_lock s.block_handle ids).1.block_id_pool
      ≡ emplace_all ids s.block_handle.block_id_pool
unfolding put_free_block_id_lock emplace_all
pool_after [] s = refl
pool_after (id ∷ ids) s = refl

-- The state behind a release.
unfoldable pub released : ℕ → Fs → Fs
released index s =
    let ids = used_block_ids (file_block_meta index s) in
    let freed = on_block_handle (λ h. (put_free_block_id_lock h ids).1) s in
    let cleared = on_file_block_meta index clear_file_block_meta freed in
    on_file_block_handle (λ h. record h { free_fbhs = h.free_fbhs ++ index ∷ [] })
      (block_saved index cleared)

pub release_all_lem :
    (index : ℕ) (s : Fs)
    → s.dev.outcomes ≡ []
    → s.super_meta.file_block_meta_offset
        + s.super_meta.file_block_meta_size * index
        + s.super_meta.file_block_meta_size
      ≤ s.dev.dev_size
    → release_all index s ≡ ok tt (released index s)
unfolding release_all put_block_ids put_file_block_lock clear_file_block_meta released
release_all_lem index s quiet fits =
    let ids = used_block_ids (file_block_meta index s) in
    let freed = on_block_handle (λ h. (put_free_block_id_lock h ids).1) s in
    let cleared = on_file_block_meta index clear_file_block_meta freed in
    rw (write_file_block_meta_lem index cleared quiet fits, ◌>>=◌) refl

-- What a release gives back, and what it leaves alone.
pub record IsReleased (index : ℕ) (s t : Fs) : Type 0 where
  pub pool :
      (a : ℕ)
      → count a t.block_handle.block_id_pool
        ≡ count a (used_block_ids (file_block_meta index s)) + count a s.block_handle.block_id_pool
  pub unused : (file_block_meta index t).used ≡ false
  pub no_ids : (file_block_meta index t).used_block_num ≡ 0
  pub stored : t.dev.file_block_metas index ≡ file_block_meta index t
  pub slots : t.file_block_handle.free_fbhs ≡ s.file_block_handle.free_fbhs ++ index ∷ []
  pub same_handle : t.file_handle ≡ s.file_handle
  pub same_files : t.files ≡ s.files
  pub same_directories : t.directories ≡ s.directories
  pub same_super : t.super_meta ≡ s.super_meta
  pub same_size : t.dev.dev_size ≡ s.dev.dev_size
  pub quiet : t.dev.outcomes ≡ []

pub released-IsReleased :
    (index : ℕ) (s : Fs)
    → IsDistinct s.block_handle.block_id_pool
    → ((a : ℕ)
        → count a (used_block_ids (file_block_meta index s)) + count a s.block_handle.block_id_pool
          ≤ 1)
    → IsReleased index s (released index s)
unfolding released clear_file_block_meta
released-IsReleased index s distinct own =
    let ids = used_block_ids (file_block_meta index s) in
    record {
      pool = λ a.
          ap (count a) (pool_after ids s)
          ∙ count-emplace_all ids s.block_handle.block_id_pool a (own a) distinct;
      unused = ground arith;
      no_ids = ground arith;
      stored = update_at s.dev.file_block_metas index _;
      slots = refl;
      same_handle = refl;
      same_files = refl;
      same_directories = refl;
      same_super = refl;
      same_size = refl;
      quiet = refl;
    }

-- A file block whose ids are its own, on a device that completes the write of its record: its ids are
-- free again, each once and no others, its record is cleared in memory and on the device, and its slot
-- is the last of the free ones.
pub release_all-frees :
    (index : ℕ) (s : Fs)
    → s.dev.outcomes ≡ []
    → s.super_meta.file_block_meta_offset
        + s.super_meta.file_block_meta_size * index
        + s.super_meta.file_block_meta_size
      ≤ s.dev.dev_size
    → IsDistinct s.block_handle.block_id_pool
    → ((a : ℕ)
        → count a (used_block_ids (file_block_meta index s)) + count a s.block_handle.block_id_pool
          ≤ 1)
    → (t : Fs) × (release_all index s ≡ ok tt t)
      × ((a : ℕ)
          → count a t.block_handle.block_id_pool
            ≡ count a (used_block_ids (file_block_meta index s))
              + count a s.block_handle.block_id_pool)
      × ((file_block_meta index t).used ≡ false)
      × ((file_block_meta index t).used_block_num ≡ 0)
      × (t.dev.file_block_metas index ≡ file_block_meta index t)
      × (t.file_block_handle.free_fbhs ≡ s.file_block_handle.free_fbhs ++ index ∷ [])
release_all-frees index s quiet fits distinct own =
    let r = released-IsReleased index s distinct own in
    (
      released index s,
      release_all_lem index s quiet fits,
      r.pool,
      r.unused,
      r.no_ids,
      r.stored,
      r.slots,
    )
