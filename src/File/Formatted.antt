-- ===== src/File/Formatted.antt =====
-- `FileBlockHandle::FormatAllMeta` and then `FileBlockHandle::InitializeMeta` (lib/file_block_handle.cc): a mount of a
-- freshly formatted device.
use blockfs.Prelude.{
  ℕ, zero, suc, ◌+◌, ◌≤◌, ◌<◌, ◌≡◌, refl, sym, ap, ◌∙◌, List, [], ◌∷◌, ◌++◌, ltb, if◌then◌else◌,
  arith, nat_eq, append_assoc, append_nil, ==_refl, up_from, lt→ltb, le→ltb_false,
}
use blockfs.Meta.{FileBlockMeta}
use blockfs.FileBlock.{put_file_block_lock}
use blockfs.File.Mount.{
  formatted_file_block_meta, format_file_block_metas, load_file_block_slot, load_file_block_slots,
  load_file_block_metas,
}
use blockfs.State.{
  Fs, Device, Checksums, ok, ◌>>=◌, pwrite_direct, take_outcome, on_file_block_handle,
}

abbrev pub with_free : List ℕ → Fs → Fs
with_free slots s = on_file_block_handle (λ h. record h { free_fbhs = h.free_fbhs ++ slots }) s

formatted_crc :
    (index : ℕ) (crc32 : Checksums)
    → ((m : FileBlockMeta) (c : ℕ)
        → crc32.of_file_block (record m { crc = c }) ≡ crc32.of_file_block m)
    → crc32.of_file_block (formatted_file_block_meta crc32 index)
      ≡ (formatted_file_block_meta crc32 index).crc
formatted_crc index crc32 skips =
    skips (record (formatted_file_block_meta crc32 index) { crc = 0 }) _

load_file_block_slot_formatted :
    (index : ℕ) (s : Fs)
    → ((m : FileBlockMeta) (c : ℕ)
        → s.crc32.of_file_block (record m { crc = c }) ≡ s.crc32.of_file_block m)
    → s.file_block_handle.metas index ≡ formatted_file_block_meta s.crc32 index
    → load_file_block_slot index s ≡ ok tt (with_free (index ∷ []) s)
unfolding load_file_block_slot put_file_block_lock
load_file_block_slot_formatted index s skips e =
    rw
      (
        e,
        ◌>>=◌,
        formatted_crc index s.crc32 skips,
        ==_refl (formatted_file_block_meta s.crc32 index).crc,
      )
      rw (e) refl

pub load_file_block_slots_formatted :
    (n index : ℕ) (s : Fs)
    → ((m : FileBlockMeta) (c : ℕ)
        → s.crc32.of_file_block (record m { crc = c }) ≡ s.crc32.of_file_block m)
    → ((i : ℕ) → i < index + n → s.file_block_handle.metas i ≡ formatted_file_block_meta s.crc32 i)
    → load_file_block_slots n index s ≡ ok tt (with_free (up_from index n) s)
unfolding load_file_block_slots
load_file_block_slots_formatted zero index s skips e =
    ap (λ r. ok tt (on_file_block_handle (λ h. record h { free_fbhs = r }) s))
      (sym (append_nil s.file_block_handle.free_fbhs))
load_file_block_slots_formatted (suc n) index s skips e =
    rw (load_file_block_slot_formatted index s skips (e index (omega arith)), ◌>>=◌)
      (load_file_block_slots_formatted n (suc index) (with_free (index ∷ []) s) skips
          (λ i h. e i (omega arith))
        ∙ ap (λ r. ok tt (on_file_block_handle (λ h. record h { free_fbhs = r }) s))
            (append_assoc s.file_block_handle.free_fbhs (index ∷ []) (up_from (suc index) n)))

-- On a device that completes the write and holds the region of the file block records, where
-- the checksum does not read the checksum field: formatting succeeds, and loading the records that the device then
-- holds succeeds and adds each slot to the free ones, once and in order, and changes nothing else.
load_file_block_metas-format_file_block_metas :
    (s : Fs)
    → s.dev.outcomes ≡ []
    → s.super_meta.file_block_meta_offset + s.super_meta.file_block_meta_total_size ≤ s.dev.dev_size
    → ((m : FileBlockMeta) (c : ℕ)
        → s.crc32.of_file_block (record m { crc = c }) ≡ s.crc32.of_file_block m)
    → (t : Fs) × (format_file_block_metas s ≡ ok tt t)
      × (load_file_block_metas
            (on_file_block_handle (λ h. record h { metas = t.dev.file_block_metas }) t)
          ≡ ok tt (
              on_file_block_handle
                (λ h. record h {
                  metas = t.dev.file_block_metas;
                  free_fbhs = h.free_fbhs ++ up_from 0 s.super_meta.max_file_block_num;
                })
                t))
unfolding format_file_block_metas load_file_block_metas pwrite_direct take_outcome
load_file_block_metas-format_file_block_metas s quiet fits skips =
    let d : Device = record s.dev {
      outcomes = [];
      file_block_metas = λ i.
          if ltb i s.super_meta.max_file_block_num
          then formatted_file_block_meta s.crc32 i
          else s.dev.file_block_metas i;
    } in
    let t : Fs = record s { dev = d } in
    (
      t,
      rw (quiet, le→ltb_false s.dev.dev_size _ fits, pwrite_direct) refl,
      load_file_block_slots_formatted s.super_meta.max_file_block_num 0
          (on_file_block_handle (λ h. record h { metas = d.file_block_metas }) t) skips
          (λ i h. rw (lt→ltb i s.super_meta.max_file_block_num (omega arith)) refl),
    )
