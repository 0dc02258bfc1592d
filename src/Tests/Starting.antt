-- ===== src/Tests/Starting.antt =====
-- A start on the demonstration device, the third of the devices that the system lists.
use blockfs.Prelude.{◌++◌, bytes_eq, if◌then◌else◌, [], ◌∷◌, ◌≡◌, refl, none, some, true, arith}
use blockfs.Logging.{info}
use blockfs.State.{take_outcome}
use blockfs.Device.Open.{
  dev_prefix, can_open, stored_super_block, Node, first_match, outcome, node_found, is_refused,
}
use blockfs.FileSystem.Format.{format}
use blockfs.FileSystem.Start.{Process, Host, mount_file_system, succeeds, state_after}
use blockfs.FileSystem.Start.Mounted.{device_identifier, IsFresh, mount_file_system-formatted}
use blockfs.Tests.Mounting.{blank}

abbrev sda : Node
sda = record {
  entry = b's' ∷ b'd' ∷ b'a' ∷ [];
  is_blk_dev = true;
  fd_direct = some 3;
  fd_cache = some 4;
  blk_size = some 4096;
  blk_sector = some 512;
}

abbrev sdb : Node
sdb = record sda { entry = b's' ∷ b'd' ∷ b'b' ∷ [] }

abbrev sdc : Node
sdc = record sda { entry = b's' ∷ b'd' ∷ b'c' ∷ []; blk_size = some blank.dev.dev_size }

abbrev sound_host : Host
sound_host = record {
  ini = record {
    loads = true;
    has_section = λ s. true;
    get_string_value = λ s k. some device_identifier;
  };
  nodes = sda ∷ sdb ∷ sdc ∷ [];
  stored = λ name.
      if bytes_eq name (dev_prefix ++ sdc.entry)
      then (state_after (format (λ m. m.magic) blank)).dev
      else blank.dev;
}

abbrev new_process : Process
new_process = record {
  settings = record { log_level = []; log_path = []; device_uuid = []; min_level = info };
  holder = record {
    dev_name = [];
    direct = none;
    cache = none;
    dev_size = 0;
    sector_size = 0;
    open_fds = [];
  };
  fs = blank;
}

-- The first device is refused by its name, and the second stores no identifier.
none_before : first_match device_identifier sound_host.stored (sda ∷ sdb ∷ []) ≡ none
unfolding first_match is_refused stored_super_block take_outcome
none_before = refl

sdc_opens : can_open sdc ≡ true
unfolding is_refused
sdc_opens = refl

mount_file_system-formatted_example :
    (u : Process) × (succeeds (format (λ m. m.magic) blank) ≡ true)
    × (mount_file_system (λ m. m.magic) sound_host (b'c' ∷ []) new_process ≡ (true, u))
    × (outcome (true, u.holder) ≡ node_found (some sdc))
    × IsFresh (state_after (format (λ m. m.magic) blank)).super_meta blank.next_directory u.fs
mount_file_system-formatted_example =
    mount_file_system-formatted (λ m. m.magic) blank refl (omega arith) (omega arith)
      (record {
        of_super = λ m c. refl;
        of_dir = λ m c. refl;
        of_file = λ m c. refl;
        of_file_block = λ m c. refl;
      })
      sound_host (b'c' ∷ []) new_process (sda ∷ sdb ∷ []) [] sdc refl refl refl none_before
      sdc_opens refl refl refl
