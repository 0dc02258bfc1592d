-- ===== src/DirHandle/Formatted.antt =====
-- `DirHandle::FormatAllMeta` and then `DirHandle::InitializeMeta` (lib/dir_handle.cc): a mount of a
-- freshly formatted device.
use blockfs.Prelude.{
  ℕ, zero, suc, ◌+◌, ◌≤◌, ◌<◌, ◌≡◌, refl, sym, ap, ◌∙◌, List, [], ◌∷◌, ◌++◌, ltb, if◌then◌else◌,
  arith, nat_eq, append_assoc, append_nil, ==_refl, up_from, lt→ltb, le→ltb_false,
}
use blockfs.Meta.{DirMeta}
use blockfs.DirHandle.Mount.{
  formatted_dir_meta, format_dir_metas, load_dir_slot, load_dir_slots, load_dir_metas,
  link_directories,
}
use blockfs.State.{Fs, Device, Checksums, ok, ◌>>=◌, pwrite_direct, take_outcome, on_dir_handle}

abbrev pub with_free : List ℕ → Fs → Fs
with_free slots s = on_dir_handle (λ h. record h { free_dhs = h.free_dhs ++ slots }) s

formatted_crc :
    (dh : ℕ) (crc32 : Checksums)
    → ((m : DirMeta) (c : ℕ) → crc32.of_dir (record m { crc = c }) ≡ crc32.of_dir m)
    → crc32.of_dir (formatted_dir_meta crc32 dh) ≡ (formatted_dir_meta crc32 dh).crc
formatted_crc dh crc32 skips = skips (record (formatted_dir_meta crc32 dh) { crc = 0 }) _

load_dir_slot_formatted :
    (dh : ℕ) (s : Fs)
    → ((m : DirMeta) (c : ℕ) → s.crc32.of_dir (record m { crc = c }) ≡ s.crc32.of_dir m)
    → s.dir_handle.metas dh ≡ formatted_dir_meta s.crc32 dh
    → load_dir_slot dh s ≡ ok tt (with_free (dh ∷ []) s)
unfolding load_dir_slot
load_dir_slot_formatted dh s skips e =
    rw (e, ◌>>=◌, formatted_crc dh s.crc32 skips, ==_refl (formatted_dir_meta s.crc32 dh).crc) rw
      (e) refl

load_dir_slots_formatted :
    (n dh : ℕ) (s : Fs)
    → ((m : DirMeta) (c : ℕ) → s.crc32.of_dir (record m { crc = c }) ≡ s.crc32.of_dir m)
    → ((i : ℕ) → i < dh + n → s.dir_handle.metas i ≡ formatted_dir_meta s.crc32 i)
    → load_dir_slots n dh s ≡ ok tt (with_free (up_from dh n) s)
unfolding load_dir_slots
load_dir_slots_formatted zero dh s skips e =
    ap (λ r. ok tt (on_dir_handle (λ h. record h { free_dhs = r }) s))
      (sym (append_nil s.dir_handle.free_dhs))
load_dir_slots_formatted (suc n) dh s skips e =
    rw (load_dir_slot_formatted dh s skips (e dh (omega arith)), ◌>>=◌)
      (load_dir_slots_formatted n (suc dh) (with_free (dh ∷ []) s) skips (λ i h. e i (omega arith))
        ∙ ap (λ r. ok tt (on_dir_handle (λ h. record h { free_dhs = r }) s))
            (append_assoc s.dir_handle.free_dhs (dh ∷ []) (up_from (suc dh) n)))

-- Formatted records, with no directory loaded yet.
pub load_dir_metas_formatted :
    (s : Fs)
    → s.dir_handle.created_dirs ≡ []
    → ((m : DirMeta) (c : ℕ) → s.crc32.of_dir (record m { crc = c }) ≡ s.crc32.of_dir m)
    → ((i : ℕ)
        → i < s.super_meta.max_file_num
        → s.dir_handle.metas i ≡ formatted_dir_meta s.crc32 i)
    → load_dir_metas s ≡ ok tt (with_free (up_from 0 s.super_meta.max_file_num) s)
unfolding load_dir_metas link_directories
load_dir_metas_formatted s empty skips dirs =
    let loaded =
      load_dir_slots_formatted s.super_meta.max_file_num 0 s skips (λ i h. dirs i (omega arith)) in
    rw (loaded, ◌>>=◌, empty) refl

-- With no directory loaded yet, on a device that completes the write and holds the region of the
-- directory records, where the checksum does not read the checksum field: formatting succeeds, and loading the records that the device then
-- holds succeeds and adds each slot to the free ones, once and in order, and changes nothing else.
load_dir_metas-format_dir_metas :
    (s : Fs)
    → s.dir_handle.created_dirs ≡ []
    → s.dev.outcomes ≡ []
    → s.super_meta.dir_meta_offset + s.super_meta.dir_meta_total_size ≤ s.dev.dev_size
    → ((m : DirMeta) (c : ℕ) → s.crc32.of_dir (record m { crc = c }) ≡ s.crc32.of_dir m)
    → (t : Fs) × (format_dir_metas s ≡ ok tt t)
      × (load_dir_metas (on_dir_handle (λ h. record h { metas = t.dev.dir_metas }) t)
          ≡ ok tt (
              on_dir_handle
                (λ h. record h {
                  metas = t.dev.dir_metas;
                  free_dhs = h.free_dhs ++ up_from 0 s.super_meta.max_file_num;
                })
                t))
unfolding format_dir_metas pwrite_direct take_outcome
load_dir_metas-format_dir_metas s empty quiet fits skips =
    let d : Device = record s.dev {
      outcomes = [];
      dir_metas = λ i.
          if ltb i s.super_meta.max_file_num
          then formatted_dir_meta s.crc32 i
          else s.dev.dir_metas i;
    } in
    let t : Fs = record s { dev = d } in
    (
      t,
      rw (quiet, le→ltb_false s.dev.dev_size _ fits, pwrite_direct) refl,
      load_dir_metas_formatted (on_dir_handle (λ h. record h { metas = d.dir_metas }) t) empty skips
          (λ i h. rw (lt→ltb i s.super_meta.max_file_num h) refl),
    )
