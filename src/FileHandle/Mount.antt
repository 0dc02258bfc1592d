-- ===== src/FileHandle/Mount.antt =====
-- lib/file_handle.cc: formatting the file records of a device, and loading them at a mount.
use blockfs.Prelude.{is_empty, ℕ, zero, suc, [], false, not, ltb, ◌==◌, if◌then◌else◌, nat_eq}
use blockfs.Prelude.Map.{insert}
use blockfs.Meta.{FileMeta, minus_one}
use blockfs.Directory.{add_child_file}
use blockfs.DirHandle.{get_created_directory_by_dh}
use blockfs.File.{clear_file_meta, write_file_slot}
use blockfs.FileHandle.{new_file_object, add_file, add_file_to_free}
use blockfs.State.{
  Checksums, Action, ◌>>=◌, ◌>>◌, pure, gets, modify, attempt, check, pwrite_direct, on_file_slot,
  on_file_handle, is_positive,
}

-- The record that `FormatAllMeta` gives a slot; the buffer starts as zeros.
abbrev pub formatted_file_meta : Checksums → ℕ → FileMeta
formatted_file_meta crc32 fh =
    let m : FileMeta = record {
      crc = 0;
      fh = fh;
      size = 0;
      nlink = 0;
      mode = 0;
      atime = 0;
      mtime = 0;
      ctime = 0;
      dh = 0;
      child_fh = minus_one;
      parent_fh = minus_one;
      parent_size = 0;
      used = false;
      is_temp = false;
      file_name = [];
    } in
    record m { crc = crc32.of_file m }

-- `FileHandle::FormatAllMeta`: all records in one write.
unfoldable pub format_file_metas : Action (Unit {0})
format_file_metas = do
  super ← gets (λ s. s.super_meta)
  crc32 ← gets (λ s. s.crc32)
  pwrite_direct super.file_meta_total_size super.file_meta_offset (λ d. record d {
    file_metas =
        λ fh. if ltb fh super.max_file_num then formatted_file_meta crc32 fh else d.file_metas fh;
  })

-- A slot in use: a File object, by handle and by name, and its directory. A file with a child goes
-- by its handle alone.
unfoldable pub load_used_file : ℕ → FileMeta → Action (Unit {0})
load_used_file fh m = do
  check (not (is_empty m.file_name))
  check (m.fh == fh)
  file ← new_file_object fh
  if is_positive m.child_fh
      then modify (on_file_handle λ h. record h { created_fhs = insert m.fh file h.created_fhs })
      else add_file file
  dir ← get_created_directory_by_dh m.dh
  attempt (add_child_file dir file)
  pure tt

-- One slot of `InitializeMeta`. A temporary file is cleared, and its slot joins no list.
unfoldable pub load_file_slot : ℕ → Action (Unit {0})
load_file_slot fh = do
  m ← gets (λ s. s.file_handle.metas fh)
  crc ← gets (λ s. s.crc32.of_file (s.file_handle.metas fh))
  check (m.crc == crc)
  if m.used
      then (if m.is_temp
          then (modify (on_file_slot fh clear_file_meta) >> write_file_slot m.fh)
          else load_used_file fh m)
      else add_file_to_free fh

-- The loop, over n slots from `fh` on.
unfoldable pub load_file_slots : ℕ → ℕ → Action (Unit {0})
load_file_slots zero fh = pure tt
load_file_slots (suc n) fh = load_file_slot fh >> load_file_slots n (suc fh)

-- `FileHandle::InitializeMeta`.
unfoldable pub load_file_metas : Action (Unit {0})
load_file_metas = do n ← gets (λ s. s.super_meta.max_file_num); load_file_slots n 0
