-- ===== src/Tool/Mount.antt =====
-- `main` of tool/block_fs_mount.cc: its options and the mount that it starts.
use blockfs.Prelude.{ℕ, ◌≡◌, refl, ap, List, [], ◌∷◌, Bool, false, ◌||◌, if◌then◌else◌, is_empty}

pub data MountArg : Type 0 where
  config : List ℕ → MountArg
  device : List ℕ → MountArg
  mountpoint : List ℕ → MountArg
  help : MountArg

pub record MountOptions : Type 0 where
  pub config_path : List ℕ
  pub device_name : List ℕ
  pub mount_point : List ℕ

-- Either the process exits with a status, or it mounts with a configuration file and serves a
-- mount point.
pub data Started : Type 0 where
  exits : ℕ → Started
  serves : List ℕ → List ℕ → Started

unfoldable parse_mount : List MountArg → MountOptions → Started
parse_mount [] o =
    if is_empty o.device_name || is_empty o.mount_point
    then exits 1
    else serves o.config_path o.mount_point
parse_mount (config a ∷ rest) o = parse_mount rest (record o { config_path = a })
parse_mount (device a ∷ rest) o = parse_mount rest (record o { device_name = a })
parse_mount (mountpoint a ∷ rest) o = parse_mount rest (record o { mount_point = a })
parse_mount (help ∷ rest) o = exits 0

abbrev options_at_start : List ℕ → MountOptions
options_at_start default_config = record {
  config_path = default_config;
  device_name = [];
  mount_point = [];
}

-- What follows the options: the mount, the log file of `LogPreInit` and the service of the mount point.
unfoldable pub start : (List ℕ → Bool) → Bool → Started → Started
start mounted log_opens (exits code) = exits code
start mounted log_opens (serves path point) =
    if mounted path then if log_opens then serves path point else exits 1 else exits 255

-- `main`: what `MountFileSystem` answers, and whether the log file opens, decide whether the mount
-- point is served. The default is the path in the source.
unfoldable mount_main : (List ℕ → Bool) → Bool → List ℕ → List MountArg → Started
mount_main mounted log_opens default_config args =
    start mounted log_opens (parse_mount args (options_at_start default_config))

-- The command line with another device in each -d that is not empty.
abbrev pub renamed : List ℕ → List MountArg → List MountArg
renamed d [] = []
renamed d (device a ∷ rest) = device (if is_empty a then a else d) ∷ renamed d rest
renamed d (config a ∷ rest) = config a ∷ renamed d rest
renamed d (mountpoint a ∷ rest) = mountpoint a ∷ renamed d rest
renamed d (help ∷ rest) = help ∷ renamed d rest

renamed_empty :
    (a d : List ℕ) → is_empty d ≡ false → is_empty (if is_empty a then a else d) ≡ is_empty a
renamed_empty [] d full = refl
renamed_empty (x ∷ xs) d full = full

parse_mount-renamed :
    (d : List ℕ) (args : List MountArg) (o : MountOptions) (e : List ℕ)
    → is_empty d ≡ false
    → is_empty e ≡ is_empty o.device_name
    → parse_mount (renamed d args) (record o { device_name = e }) ≡ parse_mount args o
unfolding parse_mount
parse_mount-renamed d [] o e full same = rw same refl
parse_mount-renamed d (config a ∷ rest) o e full same =
    parse_mount-renamed d rest (record o { config_path = a }) e full same
parse_mount-renamed d (mountpoint a ∷ rest) o e full same =
    parse_mount-renamed d rest (record o { mount_point = a }) e full same
parse_mount-renamed d (help ∷ rest) o e full same = refl
parse_mount-renamed d (device a ∷ rest) o e full same =
    parse_mount-renamed d rest (record o { device_name = a }) (if is_empty a then a else d) full
      (renamed_empty a d full)

-- The device that -d names is not used: a command line that names another device mounts the same
-- file system at the same place, or exits with the same status.
mount_main-renamed :
    (mounted : List ℕ → Bool) (log_opens : Bool) (default_config d : List ℕ) (args : List MountArg)
    → is_empty d ≡ false
    → mount_main mounted log_opens default_config (renamed d args)
      ≡ mount_main mounted log_opens default_config args
unfolding mount_main
mount_main-renamed mounted log_opens default_config d args full =
    ap (start mounted log_opens)
      (parse_mount-renamed d args (options_at_start default_config) [] full refl)
