-- ===== src/DirHandle/Create/Root.antt =====
-- The mount point as the first directory (`DirHandle::CreateDirectory` of lib/dir_handle.cc).
use blockfs.Prelude.{
  ℕ, ◌+◌, ◌*◌, ◌≤◌, ◌≡◌, refl, sym, ap, subst, ◌∙◌, List, [], ◌∷◌, none, true, false, arith,
  bytes_eq_inst, nat_eq,
}
use blockfs.Prelude.Map.{contains, update, update_at}
use blockfs.Meta.{DirMeta, k_block_fs_page_size}
use blockfs.Paths.{root_path, ends_with_slash}
use blockfs.Directory.{page_align_index, write_page, put_dir_page_on_disk, write_dir_meta}
use blockfs.DirHandle.{
  transform_path, new_directory, new_free_directory, new_directory_object, add_directory,
  add_directory_to_created,
}
use blockfs.DirHandle.Create.{check_file_exist, write_dir_meta_retry, create_directory}
use blockfs.State.{
  Fs, dir_meta, Directory, ok, ◌>>=◌, ◌>>◌, attempt, on_dir_slot, on_dir_handle,
  pwrite_direct_completes,
}

-- The record of the mount point, made at a time in slot 0.
abbrev root_meta : Fs → DirMeta
root_meta s =
    let m : DirMeta = record (s.dir_handle.metas 0) {
      used = true;
      dh = 0;
      atime = s.now;
      mtime = s.now;
      ctime = s.now;
      dir_name = root_path;
    } in
    record m { crc = s.crc32.of_dir m }

-- The object of the mount point is made, and slot 0 leaves the free list.
unfoldable pub root_made : List ℕ → Fs → Fs
root_made rest s =
    let object : Directory = record { meta = 0; nlink = 0; item_maps = []; child_dir_maps = [] } in
    on_dir_handle (λ h. record h { free_dhs = rest })
      (record (on_dir_slot 0
        (λ m. record m {
          used = true;
          dh = 0;
          atime = s.now;
          mtime = s.now;
          ctime = s.now;
          dir_name = root_path;
        })
        s) {
          directories = update s.directories s.next_directory object;
          next_directory = s.next_directory + 1;
        })

new_free_directory-root :
    (s : Fs) (rest : List ℕ)
    → s.dir_handle.free_dhs ≡ 0 ∷ rest
    → (s.dir_handle.metas 0).used ≡ false
    → (s.dir_handle.metas 0).dh ≡ 0
    → new_free_directory root_path s ≡ ok s.next_directory (root_made rest s)
unfolding new_free_directory new_directory_object root_made
new_free_directory-root s rest free unused own = rw (free, unused, own) refl

new_directory-root :
    (s : Fs) (rest : List ℕ)
    → s.dir_handle.created_dirs ≡ []
    → s.dir_handle.free_dhs ≡ 0 ∷ rest
    → (s.dir_handle.metas 0).used ≡ false
    → (s.dir_handle.metas 0).dh ≡ 0
    → new_directory root_path s ≡ ok (none, s.next_directory) (root_made rest s)
unfolding new_directory
new_directory-root s rest empty free unused own =
    rw (ap (contains root_path) empty, new_free_directory-root s rest free unused own, ◌>>=◌, ◌>>◌)
      refl

-- The record of slot 0 in memory gets its checksum, and its page goes to the device.
unfoldable pub root_written : Fs → Fs
root_written t =
    let sealed = on_dir_slot 0 (λ m. record m { crc = t.crc32.of_dir m }) t in
    record sealed {
      dev = record t.dev {
        outcomes = [];
        dir_metas = write_page t.super_meta.dir_meta_size 0 sealed.dir_handle.metas t.dev.dir_metas;
      };
    }

page_align_index_0 : (meta_size : ℕ) → page_align_index meta_size 0 ≡ 0
unfolding page_align_index
page_align_index_0 meta_size = omega arith

write_dir_meta-root :
    (d : ℕ) (t : Fs)
    → (t.directories d).meta ≡ 0
    → (t.dir_handle.metas 0).dh ≡ 0
    → t.dev.outcomes ≡ []
    → t.super_meta.dir_meta_offset + k_block_fs_page_size ≤ t.dev.dev_size
    → write_dir_meta d t ≡ ok tt (root_written t)
unfolding write_dir_meta root_written
write_dir_meta-root d t slot own quiet fits =
    let size = t.super_meta.dir_meta_size in
    let t0 = on_dir_slot 0 (λ m. record m { crc = t.crc32.of_dir m }) t in
    let aligned = ap (page_align_index size) own ∙ page_align_index_0 size in
    rw (slot, dir_meta)
      (rw aligned (
        pwrite_direct_completes k_block_fs_page_size (t.super_meta.dir_meta_offset + size * 0)
          (put_dir_page_on_disk size 0 t0.dir_handle.metas) t0 quiet (omega arith)))

-- The mount point is in the maps of the handle.
abbrev pub with_root : List ℕ → Fs → Fs
with_root rest s = record (root_written (root_made rest s)) {
  errno = 0;
  dir_handle = record (root_written (root_made rest s)).dir_handle {
    created_dirs = (root_path, s.next_directory) ∷ [];
    created_dhs = (0, s.next_directory) ∷ [];
  };
}

add_directory-root :
    (d : ℕ) (t : Fs)
    → (t.directories d).meta ≡ 0
    → (t.dir_handle.metas 0).dh ≡ 0
    → (t.dir_handle.metas 0).dir_name ≡ root_path
    → t.dir_handle.created_dirs ≡ []
    → t.dir_handle.created_dhs ≡ []
    → add_directory none d t
      ≡ ok tt (record t {
        dir_handle = record t.dir_handle {
          created_dirs = (root_path, d) ∷ [];
          created_dhs = (0, d) ∷ [];
        };
      })
unfolding add_directory add_directory_to_created
add_directory-root d t slot own name empty_dirs empty_dhs =
    rw (slot, dir_meta) (rw (own, name) (rw (empty_dirs, empty_dhs) refl))

module _ (s : Fs) (rest : List ℕ) where
  object_made : ((root_made rest s).directories s.next_directory).meta ≡ 0
  unfolding root_made
  object_made =
      let object : Directory = record {
        meta = 0;
        nlink = 0;
        item_maps = [];
        child_dir_maps = [];
      } in
      ap (λ (o : Directory). o.meta) (update_at s.directories s.next_directory object)

  object_written : ((root_written (root_made rest s)).directories s.next_directory).meta ≡ 0
  unfolding root_written
  object_written = object_made

  slot_made : ((root_made rest s).dir_handle.metas 0).dh ≡ 0
  unfolding root_made
  slot_made = refl

  slot_written : (root_written (root_made rest s)).dir_handle.metas 0 ≡ root_meta s
  unfolding root_made root_written
  slot_written = refl

  same_made :
      ((root_made rest s).dev ≡ s.dev)
      × ((root_made rest s).super_meta ≡ s.super_meta)
      × ((root_written (root_made rest s)).dir_handle.created_dirs ≡ s.dir_handle.created_dirs)
      × ((root_written (root_made rest s)).dir_handle.created_dhs ≡ s.dir_handle.created_dhs)
  unfolding root_made root_written
  same_made = (refl, refl, refl, refl)

-- With no directory yet, slot 0 free and first in the list, and a device that completes its transfers,
-- the mount point is made: it takes slot 0, and its record is in memory and on the device.
pub create_directory-root :
    (s : Fs) (rest : List ℕ)
    → s.dir_handle.created_dirs ≡ []
    → s.dir_handle.created_dhs ≡ []
    → s.dir_handle.free_dhs ≡ 0 ∷ rest
    → (s.dir_handle.metas 0).used ≡ false
    → (s.dir_handle.metas 0).dh ≡ 0
    → s.dev.outcomes ≡ []
    → s.super_meta.dir_meta_offset + k_block_fs_page_size ≤ s.dev.dev_size
    → create_directory root_path s ≡ ok tt (with_root rest s)
unfolding create_directory check_file_exist transform_path write_dir_meta_retry ends_with_slash
create_directory-root s rest empty_dirs empty_dhs free unused own quiet fits =
    let d = s.next_directory in
    let made = root_made rest s in
    let same = same_made s rest in
    let still_quiet : made.dev.outcomes ≡ [] = ap (λ v. v.outcomes) (same.0) ∙ quiet in
    let still_fits =
      subst (λ v. made.super_meta.dir_meta_offset + k_block_fs_page_size ≤ v.dev_size)
        (sym (same.0))
        (subst (λ m. m.dir_meta_offset + k_block_fs_page_size ≤ s.dev.dev_size) (sym (same.1))
          fits) in
    rw (new_directory-root s rest empty_dirs free unused own, ◌>>=◌, ◌>>◌) rw
      (
        write_dir_meta-root d made (object_made s rest) (slot_made s rest) still_quiet still_fits,
        attempt,
        ◌>>=◌,
        ◌>>◌,
      )
      rw
      (
        add_directory-root d (root_written made) (object_written s rest)
            (ap (λ m. m.dh) (slot_written s rest)) (ap (λ m. m.dir_name) (slot_written s rest))
            (same.2 ∙ empty_dirs) (same.3 ∙ empty_dhs),
        ◌>>=◌,
        ◌>>◌,
      )
      refl
