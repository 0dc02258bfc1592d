-- ===== src/FileHandle/Formatted.antt =====
-- `FileHandle::FormatAllMeta` and then `FileHandle::InitializeMeta` (lib/file_handle.cc): a mount of a
-- freshly formatted device.
use blockfs.Prelude.{
  ℕ, zero, suc, ◌+◌, ◌≤◌, ◌<◌, ◌≡◌, refl, sym, ap, ◌∙◌, List, [], ◌∷◌, ◌++◌, ltb, if◌then◌else◌,
  arith, nat_eq, append_assoc, append_nil, ==_refl, up_from, lt→ltb, le→ltb_false,
}
use blockfs.Meta.{FileMeta}
use blockfs.FileHandle.{add_file_to_free}
use blockfs.FileHandle.Mount.{
  formatted_file_meta, format_file_metas, load_file_slot, load_file_slots, load_file_metas,
}
use blockfs.State.{Fs, Device, Checksums, ok, ◌>>=◌, pwrite_direct, take_outcome, on_file_handle}

abbrev pub with_free : List ℕ → Fs → Fs
with_free slots s = on_file_handle (λ h. record h { free_fhs = h.free_fhs ++ slots }) s

formatted_crc :
    (fh : ℕ) (crc32 : Checksums)
    → ((m : FileMeta) (c : ℕ) → crc32.of_file (record m { crc = c }) ≡ crc32.of_file m)
    → crc32.of_file (formatted_file_meta crc32 fh) ≡ (formatted_file_meta crc32 fh).crc
formatted_crc fh crc32 skips = skips (record (formatted_file_meta crc32 fh) { crc = 0 }) _

load_file_slot_formatted :
    (fh : ℕ) (s : Fs)
    → ((m : FileMeta) (c : ℕ) → s.crc32.of_file (record m { crc = c }) ≡ s.crc32.of_file m)
    → s.file_handle.metas fh ≡ formatted_file_meta s.crc32 fh
    → load_file_slot fh s ≡ ok tt (with_free (fh ∷ []) s)
unfolding load_file_slot add_file_to_free
load_file_slot_formatted fh s skips e =
    rw (e, ◌>>=◌, formatted_crc fh s.crc32 skips, ==_refl (formatted_file_meta s.crc32 fh).crc) rw
      (e) refl

pub load_file_slots_formatted :
    (n fh : ℕ) (s : Fs)
    → ((m : FileMeta) (c : ℕ) → s.crc32.of_file (record m { crc = c }) ≡ s.crc32.of_file m)
    → ((i : ℕ) → i < fh + n → s.file_handle.metas i ≡ formatted_file_meta s.crc32 i)
    → load_file_slots n fh s ≡ ok tt (with_free (up_from fh n) s)
unfolding load_file_slots
load_file_slots_formatted zero fh s skips e =
    ap (λ r. ok tt (on_file_handle (λ h. record h { free_fhs = r }) s))
      (sym (append_nil s.file_handle.free_fhs))
load_file_slots_formatted (suc n) fh s skips e =
    rw (load_file_slot_formatted fh s skips (e fh (omega arith)), ◌>>=◌)
      (load_file_slots_formatted n (suc fh) (with_free (fh ∷ []) s) skips (λ i h. e i (omega arith))
        ∙ ap (λ r. ok tt (on_file_handle (λ h. record h { free_fhs = r }) s))
            (append_assoc s.file_handle.free_fhs (fh ∷ []) (up_from (suc fh) n)))

-- On a device that completes the write and holds the region of the file records, where the checksum
-- does not read the checksum field: formatting succeeds, and loading the records that the device then
-- holds succeeds and adds each slot to the free ones, once and in order, and changes nothing else.
load_file_metas-format_file_metas :
    (s : Fs)
    → s.dev.outcomes ≡ []
    → s.super_meta.file_meta_offset + s.super_meta.file_meta_total_size ≤ s.dev.dev_size
    → ((m : FileMeta) (c : ℕ) → s.crc32.of_file (record m { crc = c }) ≡ s.crc32.of_file m)
    → (t : Fs) × (format_file_metas s ≡ ok tt t)
      × (load_file_metas (on_file_handle (λ h. record h { metas = t.dev.file_metas }) t)
          ≡ ok tt (
              on_file_handle
                (λ h. record h {
                  metas = t.dev.file_metas;
                  free_fhs = h.free_fhs ++ up_from 0 s.super_meta.max_file_num;
                })
                t))
unfolding format_file_metas load_file_metas pwrite_direct take_outcome
load_file_metas-format_file_metas s quiet fits skips =
    let d : Device = record s.dev {
      outcomes = [];
      file_metas = λ i.
          if ltb i s.super_meta.max_file_num
          then formatted_file_meta s.crc32 i
          else s.dev.file_metas i;
    } in
    let t : Fs = record s { dev = d } in
    (
      t,
      rw (quiet, le→ltb_false s.dev.dev_size _ fits, pwrite_direct) refl,
      load_file_slots_formatted s.super_meta.max_file_num 0
          (on_file_handle (λ h. record h { metas = d.file_metas }) t) skips
          (λ i h. rw (lt→ltb i s.super_meta.max_file_num (omega arith)) refl),
    )
