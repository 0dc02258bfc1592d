-- ===== src/Directory/Page.antt =====
-- Metadata records share the pages that are written (lib/directory.cc, lib/file.cc).
use blockfs.Prelude.{
  ℕ, ◌+◌, ◌*◌, ◌/◌, ◌≤◌, ◌≡◌, ◌⊎◌, ◌≢◌, inl, inr, refl, ap, ◌∙◌, [], some, arith, le→ltb_false,
}
use blockfs.Prelude.Map.{update}
use blockfs.Meta.{FileMeta, k_block_fs_page_size, k_block_fs_file_meta_size}
use blockfs.Directory.{page_align_index, write_page}
use blockfs.File.{write_file_slot}
use blockfs.State.{Fs, result, final, pwrite_direct, take_outcome, ◌>>=◌}

-- A page write copies the records of the page of `index` and no others.
write_page_lem :
    {A : Type 0} (index : ℕ) (memory disk : ℕ → A) (i : ℕ)
    → let per_page = k_block_fs_page_size / k_block_fs_file_meta_size in
      ((i / per_page ≡ index / per_page)
        × (write_page k_block_fs_file_meta_size
              (page_align_index k_block_fs_file_meta_size index)
              memory
              disk
              i
            ≡ memory i))
      ⊎ ((i / per_page ≢ index / per_page)
          × (write_page k_block_fs_file_meta_size
                (page_align_index k_block_fs_file_meta_size index)
                memory
                disk
                i
              ≡ disk i))
unfolding write_page page_align_index
write_page_lem index memory disk i = ground arith

-- Writing the record of a file stores the slots of its page as they are in memory, this one with its
-- fresh checksum, and leaves the slots of the other pages as they were on the device.
pub write_file_slot-page :
    (fh : ℕ) (s : Fs)
    → s.super_meta.file_meta_size ≡ k_block_fs_file_meta_size
    → s.dev.outcomes ≡ []
    → s.super_meta.file_meta_offset
        + s.super_meta.file_meta_size * page_align_index s.super_meta.file_meta_size fh
        + k_block_fs_page_size
      ≤ s.dev.dev_size
    → let s' = final (write_file_slot fh s) in
      let per_page = k_block_fs_page_size / k_block_fs_file_meta_size in
      (result (write_file_slot fh s) ≡ some tt)
      × (s'.dev.file_metas fh
          ≡ record (s.file_handle.metas fh) { crc = s.crc32.of_file (s.file_handle.metas fh) })
      × ((i : ℕ)
          → i ≢ fh
          → ((i / per_page ≡ fh / per_page) × (s'.dev.file_metas i ≡ s.file_handle.metas i))
            ⊎ ((i / per_page ≢ fh / per_page) × (s'.dev.file_metas i ≡ s.dev.file_metas i)))
unfolding write_file_slot pwrite_direct take_outcome
write_file_slot-page fh s meta_size quiet fits =
    rw (quiet, le→ltb_false s.dev.dev_size _ fits, write_file_slot, pwrite_direct, ◌>>=◌)
      (
        refl,
        own,
        λ i ne. elim (write_page_lem fh memory s.dev.file_metas i) [
          | inl (here, e) ↦ inl (here, at i ∙ e ∙ other i ne)
          | inr (away, e) ↦ inr (away, at i ∙ e)
        ],
      )
  where
    memory : ℕ → FileMeta
    memory =
        update s.file_handle.metas fh
          (record (s.file_handle.metas fh) { crc = s.crc32.of_file (s.file_handle.metas fh) })

    at :
        (i : ℕ)
        → write_page s.super_meta.file_meta_size
            (page_align_index s.super_meta.file_meta_size fh)
            memory
            s.dev.file_metas
            i
          ≡ write_page k_block_fs_file_meta_size
              (page_align_index k_block_fs_file_meta_size fh)
              memory
              s.dev.file_metas
              i
    at i = ap (λ n. write_page n (page_align_index n fh) memory s.dev.file_metas i) meta_size

    other : (i : ℕ) → i ≢ fh → memory i ≡ s.file_handle.metas i
    other i ne = ground arith

    own :
        write_page s.super_meta.file_meta_size
          (page_align_index s.super_meta.file_meta_size fh)
          memory
          s.dev.file_metas
          fh
        ≡ record (s.file_handle.metas fh) { crc = s.crc32.of_file (s.file_handle.metas fh) }
    own = elim (write_page_lem fh memory s.dev.file_metas fh) [
      | inl (here, e) ↦ at fh ∙ e ∙ ground arith
      | inr (away, e) ↦ absurd (away refl)
    ]
