-- ===== src/FileSystem/Start/Mounted.antt =====
-- A start on a device that was formatted (lib/file_system.cc).
use blockfs.Prelude.{
  map, Bool-cases, inl, inr, none, ◌&&◌, ◌+◌, ◌%◌, ltb, le→ltb_false, ℕ, ◌≤◌, ◌<◌, ◌≡◌, refl, sym,
  ap, subst, ◌∙◌, List, [], ◌∷◌, ◌++◌, some, Option, Bool, true, false, bytes_eq_inst, is_empty,
  up_from, arith, u64, count,
}
use blockfs.Prelude.Map.{find, update_at}
use blockfs.Directory.{child_count, write_page}
use blockfs.Meta.{k_super_block_offset, k_super_block_size, SuperBlockMeta, k_max_file_num}
use blockfs.Paths.{root_path, ends_with_slash}
use blockfs.Config.{parse_config, parse_config_lem, bfs_section, device_uuid_key, is_complete}
use blockfs.SuperBlock.{data_start, format_super_block}
use blockfs.Device.Open.{
  can_open, has_uuid, holds_uuid, stored_super_block, Node, Holder, dev_prefix, open_target,
  first_match, outcome, node_found,
}
use blockfs.Device.Open.Search.{open_target-first}
use blockfs.DirHandle.{get_created_directory, transform_path}
use blockfs.DirHandle.Create.{create_directory}
use blockfs.DirHandle.Create.Root.{root_made, root_written, with_root, create_directory-root}
use blockfs.FileSystem.{make_mount_point}
use blockfs.FileSystem.Format.{initialize, format, SkipsField}
use blockfs.FileSystem.Format.Loads.{loaded_pool, formatted, on_formatted, reads_back, format_lem}
use blockfs.FileSystem.Mount.{all_free}
use blockfs.FileSystem.Start.{
  Process, Host, initialize_process, attach_device, mount_device, succeeds, state_after,
  mount_target, mount_file_system, new_device,
}
use blockfs.Shm.{regions_read}
use blockfs.State.{Device, take_outcome, Fs, Directory, ok, dir_meta, ◌>>=◌, ◌>>◌, attempt}

make_mount_point-root :
    (s : Fs) (t : Fs)
    → s.dir_handle.created_dirs ≡ []
    → create_directory root_path s ≡ ok tt t
    → make_mount_point root_path s ≡ ok tt t
unfolding make_mount_point get_created_directory transform_path ends_with_slash
make_mount_point-root s t empty made = rw (ap (find root_path) empty, ◌>>=◌, attempt) made

-- The identifier in a configuration: the digits 1 to 9 and 0 over again, 59 of them.
abbrev pub device_identifier : List ℕ
device_identifier = map (λ i. b'0' + i % 10) (up_from 1 59)

abbrev known_size : Option ℕ → ℕ
known_size none = 0
known_size (some size) = size

-- A device that opens and has the uuid is found behind others that do not.
first_match-behind :
    (wanted : List ℕ) (stored : List ℕ → Device) (before after : List Node) (node : Node)
    → first_match wanted stored before ≡ none
    → can_open node ≡ true
    → holds_uuid wanted stored node ≡ true
    → first_match wanted stored (before ++ node ∷ after) ≡ some node
unfolding first_match
first_match-behind wanted stored [] after node none_before opens holds = rw opens (rw holds refl)
first_match-behind wanted stored (other ∷ before) after node none_before opens holds =
    elim (Bool-cases (can_open other && holds_uuid wanted stored other)) [
      | inl hit ↦
          let same : first_match wanted stored (other ∷ before) ≡ some other = rw hit refl in
          absurd (cc)
      | inr miss ↦
          let skipped : first_match wanted stored (other ∷ before)
              ≡ first_match wanted stored before =
            rw miss refl in
          let rest : first_match wanted stored before ≡ none = sym skipped ∙ none_before in
          rw miss (first_match-behind wanted stored before after node rest opens holds)
    ]

-- A search that ended with a device.
found_device :
    (r : Bool × Holder) (name : List ℕ) (direct cache size sector : Option ℕ)
    → outcome r ≡ some (name, direct, cache, size, sector)
    → (r.0 ≡ true)
      × (r.1.dev_name ≡ name)
      × (some r.1.dev_size ≡ size)
      × (outcome (true, r.1) ≡ some (name, direct, cache, size, sector))
found_device (true, holder) name direct cache size sector h = (refl, cc, cc, h)
found_device (false, holder) name direct cache size sector h = cc

up_from-free : up_from 0 k_max_file_num ≡ 0 ∷ up_from 1 99999
up_from-free = refl

-- The mount point is the only directory, held by the object `d` and stored in slot 0 of memory and
-- device; there are no files, and all other slots and all blocks of the super block are free.
pub record IsFresh (super : SuperBlockMeta) (d : ℕ) (u : Fs) : Type 0 where
  pub same_super : u.super_meta ≡ super
  pub only_root : u.dir_handle.created_dirs ≡ (root_path, d) ∷ []
  pub root_used : (dir_meta d u).used ≡ true
  pub root_named : (dir_meta d u).dir_name ≡ root_path
  pub root_empty : child_count (u.directories d) ≡ 0
  pub root_stored : u.dev.dir_metas 0 ≡ u.dir_handle.metas 0
  pub dirs_free : u.dir_handle.free_dhs ≡ up_from 1 99999
  pub no_files : u.file_handle.created_files ≡ []
  pub files_free : u.file_handle.free_fhs ≡ up_from 0 super.max_file_num
  pub file_blocks_free : u.file_block_handle.free_fbhs ≡ up_from 0 super.max_file_block_num
  pub blocks_free : (a : ℕ) → a < super.curr_block_num → count a u.block_handle.block_id_pool ≡ 1
  pub no_other_block : (a : ℕ) → super.curr_block_num ≤ a → count a u.block_handle.block_id_pool ≡ 0
  pub no_error : u.errno ≡ 0

module _ (crc_of : SuperBlockMeta → ℕ) (s : Fs) (quiet : s.dev.outcomes ≡ [])
    (large : data_start ≤ s.dev.dev_size) (word : s.dev.dev_size < u64)
    (skips : SkipsField crc_of s) where
  abbrev loaded : Fs → Fs
  loaded v = all_free (regions_read (initialize (on_formatted crc_of s v)))

  mount_device-formatted :
      (v : Fs)
      → mount_device crc_of (initialize (on_formatted crc_of s v))
        ≡ ok tt (with_root (up_from 1 99999) (loaded v))
  unfolding mount_device format_super_block
  mount_device-formatted v =
      let t = loaded v in
      rw (reads_back crc_of s quiet large word v skips, ◌>>=◌, ◌>>◌)
        (make_mount_point-root t (with_root (up_from 1 99999) t) refl (
          create_directory-root t (up_from 1 99999) refl refl up_from-free refl refl refl
            (omega (arith, large))))

  attach_device-formatted :
      (host : Host) (holder : Holder) (v : Fs)
      → host.stored holder.dev_name ≡ (formatted crc_of s).dev
      → holder.dev_size ≡ s.dev.dev_size
      → v.crc32 ≡ s.crc32
      → attach_device host holder (initialize v) ≡ initialize (on_formatted crc_of s v)
  unfolding attach_device take_outcome
  attach_device-formatted host holder v stored size crc =
      λ i. record (initialize v) { crc32 = crc i; dev = record (stored i) { dev_size = size i } }

  -- The directory of the mount point, and what a start leaves free.
  root_state :
      (v : Fs)
      → let u = with_root (up_from 1 99999) (loaded v) in
        IsFresh (formatted crc_of s).super_meta v.next_directory u
  unfolding root_made root_written write_page format_super_block
  root_state v =
      let t = loaded v in
      let u = with_root (up_from 1 99999) t in
      let object =
        update_at t.directories t.next_directory
          record { meta = 0; nlink = 0; item_maps = []; child_dir_maps = [] } in
      let pool = loaded_pool t.super_meta.curr_block_num in
      record {
        same_super = refl;
        only_root = refl;
        root_used = ap (λ (o : Directory). (u.dir_handle.metas o.meta).used) object;
        root_named = ap (λ (o : Directory). (u.dir_handle.metas o.meta).dir_name) object;
        root_empty = ap child_count object;
        root_stored = refl;
        dirs_free = refl;
        no_files = refl;
        files_free = refl;
        file_blocks_free = refl;
        blocks_free = pool.0;
        no_other_block = pool.1;
        no_error = refl;
      }

  -- A formatted device has the identifier, where the kernel gives its size.
  formatted-holds_uuid :
      (stored : List ℕ → Device) (node : Node)
      → node.blk_size ≡ some s.dev.dev_size
      → stored (dev_prefix ++ node.entry) ≡ (formatted crc_of s).dev
      → holds_uuid device_identifier stored node ≡ true
  unfolding stored_super_block format_super_block take_outcome
  formatted-holds_uuid stored node size same =
      let room : ltb s.dev.dev_size (k_super_block_offset + k_super_block_size) ≡ false =
        le→ltb_false s.dev.dev_size (k_super_block_offset + k_super_block_size)
          (omega (arith, large)) in
      (λ i. has_uuid device_identifier (known_size (size i)) (same i)) ∙ rw (room, has_uuid) refl

  -- Formatting a device that is larger than its metadata and completes its transfers succeeds, where no
  -- checksum reads its own field. A start with the same checksums then succeeds where its configuration is
  -- complete and names the identifier 1234567890...9 of 59 digits, the device that was formatted opens with
  -- the size that it had, and no device before it opens and has this identifier: the process holds that
  -- device, and its file system is fresh, with the super block that was formatted. Fresh says that the
  -- mount point is the only directory, without children and stored in slot 0 of memory and device; that
  -- there are no files; and that all other slots and exactly the blocks below the count of the super block
  -- are free, each once.
  pub mount_file_system-formatted :
      (host : Host) (config_path : List ℕ) (p : Process) (before after : List Node) (node : Node)
      → is_complete config_path host.ini ≡ true
      → host.ini.get_string_value bfs_section device_uuid_key ≡ some device_identifier
      → host.nodes ≡ before ++ node ∷ after
      → first_match device_identifier host.stored before ≡ none
      → can_open node ≡ true
      → node.blk_size ≡ some s.dev.dev_size
      → host.stored (dev_prefix ++ node.entry) ≡ (state_after (format crc_of s)).dev
      → p.fs.crc32 ≡ s.crc32
      → (u : Process) × (succeeds (format crc_of s) ≡ true)
        × (mount_file_system crc_of host config_path p ≡ (true, u))
        × (outcome (true, u.holder) ≡ node_found (some node))
        × IsFresh (state_after (format crc_of s)).super_meta p.fs.next_directory u.fs
  unfolding mount_file_system mount_target initialize_process
  mount_file_system-formatted host config_path p before after node complete named listed none_before
        opens size stored crc =
      let parsed = parse_config config_path host.ini p.settings in
      let lem = parse_config_lem config_path host.ini p.settings in
      let present : is_empty config_path ≡ false = ground arith in
      let accepted : parsed.0 ≡ true = lem.0 ∙ rw (complete, named) refl in
      let wanted : parsed.1.device_uuid ≡ device_identifier =
        ap (λ c. c.device_uuid) (lem.1) ∙ rw (complete, named) refl in
      let written = ap (λ o. (state_after o).dev) (format_lem crc_of s quiet large word) in
      let holds = formatted-holds_uuid host.stored node size (stored ∙ written) in
      let matched : first_match device_identifier host.stored host.nodes ≡ some node =
        ap (first_match device_identifier host.stored) listed
        ∙ first_match-behind device_identifier host.stored before after node none_before opens
            holds in
      let r = open_target parsed.1.device_uuid host.stored host.nodes (new_device p.holder) in
      let search : outcome r ≡ node_found (some node) =
        open_target-first parsed.1.device_uuid host.stored host.nodes (new_device p.holder)
        ∙ ap node_found (ap (λ u. first_match u host.stored host.nodes) wanted ∙ matched) in
      let found =
        found_device r (dev_prefix ++ node.entry) node.fd_direct node.fd_cache node.blk_size
          node.blk_sector search in
      let on_device = ap host.stored (found.1) ∙ stored ∙ written in
      let sized : r.1.dev_size ≡ s.dev.dev_size = (let same = found.2 ∙ size in cc) in
      let u : Process = record {
        settings = parsed.1;
        holder = r.1;
        fs = with_root (up_from 1 99999) (loaded p.fs);
      } in
      (
        u,
        ap succeeds (format_lem crc_of s quiet large word),
        rw (present, accepted) rw (found.0)
            (rw
              (
                attach_device-formatted host r.1 p.fs on_device sized crc,
                mount_device-formatted p.fs,
              )
              refl),
        found.3,
        subst (λ m. IsFresh m p.fs.next_directory u.fs)
            (sym (ap (λ o. (state_after o).super_meta) (format_lem crc_of s quiet large word)))
            (root_state p.fs),
      )
