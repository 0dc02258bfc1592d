-- ===== src/FileSystem/Start.antt =====
-- `FileSystem::MountFileSystem` of lib/file_system.cc: the configuration, the search for the device
-- that it names, the metadata of that device and the mount point. The configuration file, the entries
-- of /sys/block and the contents of each device are parameters.
pub mod Mounted
use blockfs.Prelude.{ℕ, List, [], none, Bool, true, false, not, if◌then◌else◌, is_empty}
use blockfs.Meta.{SuperBlockMeta}
use blockfs.Paths.{root_path}
use blockfs.Config.{Ini, Settings, parse_config}
use blockfs.Device.Open.{Node, Holder, open_target}
use blockfs.FileSystem.{make_mount_point}
use blockfs.FileSystem.Format.{initialize, load_open_device}
use blockfs.State.{take_outcome, Fs, Device, Outcome, ok, err, Action, ◌>>=◌, ◌>>◌}

-- The settings, the device object and all else that the process holds.
pub record Process : Type 0 where
  pub settings : Settings
  pub holder : Holder
  pub fs : Fs

-- What the process meets: the configuration file, the devices in the order of their listing, and what
-- is stored on a device of a name.
pub record Host : Type 0 where
  pub ini : Ini
  pub nodes : List Node
  pub stored : List ℕ → Device

-- `new Device()`: descriptors of an earlier device stay with the process.
abbrev pub new_device : Holder → Holder
new_device holder = record holder {
  dev_name = [];
  direct = none;
  cache = none;
  dev_size = 0;
  sector_size = 0;
}

-- `Initialize`, with the new device object.
unfoldable pub initialize_process : Process → Process
initialize_process p = record p { holder = new_device p.holder; fs = initialize p.fs }

-- Reads and writes go to the device that is open, within the size that the kernel gave for it, behind
-- the read of its super block that the search has made.
unfoldable pub attach_device : Host → Holder → Fs → Fs
attach_device host holder s = record s {
  dev = record (host.stored holder.dev_name) { dev_size = holder.dev_size };
}

-- What follows the search.
unfoldable pub mount_device : (SuperBlockMeta → ℕ) → Action (Unit {0})
mount_device crc_of = do load_open_device crc_of; make_mount_point root_path

abbrev pub succeeds : {A : Type 0} → Outcome A → Bool
succeeds (ok a s) = true
succeeds (err s) = false

abbrev pub state_after : {A : Type 0} → Outcome A → Fs
state_after (ok a s) = s
state_after (err s) = s

-- The search, and what follows where it finds the device.
unfoldable pub mount_target : (SuperBlockMeta → ℕ) → Host → Process → Bool × Process
mount_target crc_of host p =
    let found = open_target p.settings.device_uuid host.stored host.nodes p.holder in
    let mounted = mount_device crc_of (attach_device host found.1 p.fs) in
    if found.0
    then (succeeds mounted, record p { holder = found.1; fs = state_after mounted })
    else (false, record p { holder = found.1 })

-- `MountFileSystem`.
unfoldable pub mount_file_system : (SuperBlockMeta → ℕ) → Host → List ℕ → Process → Bool × Process
mount_file_system crc_of host config_path p =
    let parsed = parse_config config_path host.ini p.settings in
    let configured = record p { settings = parsed.1 } in
    if is_empty config_path
    then (false, p)
    else if not parsed.0
    then (false, configured)
    else mount_target crc_of host (initialize_process configured)
