-- ===== src/DirHandle/Mount.antt =====
-- lib/dir_handle.cc: formatting the directory records of a device, and loading them at a mount.
use blockfs.Prelude.{
  is_empty, ℕ, zero, suc, ◌+◌, List, [], ◌∷◌, ◌++◌, false, not, ltb, ◌==◌, if◌then◌else◌,
  bytes_eq_inst,
}
use blockfs.Prelude.Map.{find, update}
use blockfs.Meta.{DirMeta}
use blockfs.Paths.{get_dir_name}
use blockfs.Directory.{add_child_directory}
use blockfs.DirHandle.{is_mount_point, add_directory_to_created}
use blockfs.State.{
  Directory, Checksums, Action, ok, ◌>>=◌, ◌>>◌, pure, gets, modify, or_fail, check, pwrite_direct,
  dir_meta, on_dir_handle,
}

-- The record that `FormatAllMeta` gives a slot; the buffer starts as zeros.
abbrev pub formatted_dir_meta : Checksums → ℕ → DirMeta
formatted_dir_meta crc32 dh =
    let m : DirMeta = record {
      crc = 0;
      dh = dh;
      size = 0;
      atime = 0;
      mtime = 0;
      ctime = 0;
      used = false;
      dir_name = [];
    } in
    record m { crc = crc32.of_dir m }

-- `DirHandle::FormatAllMeta`: all records in one write.
unfoldable pub format_dir_metas : Action (Unit {0})
format_dir_metas = do
  super ← gets (λ s. s.super_meta)
  crc32 ← gets (λ s. s.crc32)
  pwrite_direct super.dir_meta_total_size super.dir_meta_offset (λ d. record d {
    dir_metas =
        λ dh. if ltb dh super.max_file_num then formatted_dir_meta crc32 dh else d.dir_metas dh;
  })

-- A Directory object for a slot that is in use.
abbrev load_directory_object : ℕ → Action ℕ
load_directory_object dh s =
    let object : Directory = record { meta = dh; nlink = 0; item_maps = []; child_dir_maps = [] } in
    ok s.next_directory (record s {
      directories = update s.directories s.next_directory object;
      next_directory = s.next_directory + 1;
    })

-- One slot of the first loop of `InitializeMeta`.
unfoldable pub load_dir_slot : ℕ → Action (Unit {0})
load_dir_slot dh = do
  m ← gets (λ s. s.dir_handle.metas dh)
  crc ← gets (λ s. s.crc32.of_dir (s.dir_handle.metas dh))
  check (m.crc == crc)
  if m.used
      then (do
        check (not (is_empty m.dir_name))
        check (m.dh == dh)
        d ← load_directory_object dh
        add_directory_to_created d)
      else modify (on_dir_handle λ h. record h { free_dhs = h.free_dhs ++ dh ∷ [] })

-- The first loop, over n slots from `dh` on.
unfoldable pub load_dir_slots : ℕ → ℕ → Action (Unit {0})
load_dir_slots zero dh = pure tt
load_dir_slots (suc n) dh = load_dir_slot dh >> load_dir_slots n (suc dh)

-- The second loop: each directory joins its parent.
unfoldable pub link_directories : List (List ℕ × ℕ) → Action (Unit {0})
link_directories [] = pure tt
link_directories ((_, d) ∷ rest) = do
  name ← gets (λ s. (dir_meta d s).dir_name)
  if is_mount_point name then pure tt else (do
    created ← gets (λ s. s.dir_handle.created_dirs)
    parent ← or_fail (find (get_dir_name name) created)
    add_child_directory parent d)
  link_directories rest

-- `DirHandle::InitializeMeta`.
unfoldable pub load_dir_metas : Action (Unit {0})
load_dir_metas = do
  n ← gets (λ s. s.super_meta.max_file_num)
  load_dir_slots n 0
  created ← gets (λ s. s.dir_handle.created_dirs)
  link_directories created
