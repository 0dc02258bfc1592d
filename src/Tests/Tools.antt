-- ===== src/Tests/Tools.antt =====
-- The theorems on the log, the configuration, the search for a device and the tools, at small
-- instances.
use blockfs.Prelude.{
  ℕ, bytes_eq, ◌+◌, ◌≤◌, ◌≡◌, ◌⊎◌, ◌&&◌, refl, List, [], ◌∷◌, ◌++◌, none, some, Bool, true, false,
  ltb, leb, length, if◌then◌else◌, arith,
}
use blockfs.Prelude.Int.{pos, negsuc}
use blockfs.Logging.{
  warning, info, Value, int32, pointer, chars, string, log, line_head, to_base, log_level_convert,
  digit_loop, reverse_onto, signed_text, name_of_level, buffer_size,
}
use blockfs.Logging.Digits.{Clean}
use blockfs.Logging.Values.{shown}
use blockfs.Logging.Line.{shown_all, log-shows}
use blockfs.Config.{Ini, Settings, parse_config, parse_config_lem}
use blockfs.State.{Device, take_outcome}
use blockfs.Tests.Demo.{demo, demo_super_meta}
use blockfs.Device.Open.{
  dev_prefix, stored_super_block, Node, Holder, open_device, open_direct, open_cache, read_sizes,
  close_device, close_held, close_fd, is_refused, open_target, first_match,
}
use blockfs.Device.Open.Search.{open_target-open_fds, found_fds, all_whole}
use blockfs.Tool.{parse_option, parse_args, parse_arg, choose, Arg, device, format_option, dump}
use blockfs.Tool.Options.{device_of, all_fit, tools}
use blockfs.Tool.Run.{main, finish, do_block_fs_tool, formatted, only_format, main-formats}
use blockfs.Tool.Export.{completes, falls_short, Target, export_range, size_after, blk_range}
use blockfs.Tool.Export.Range.{export_range-copies, export_range-quiet}
use blockfs.Tool.Export.Text.{blk_range-print}

abbrev noon : List ℕ
noon = b'1' ∷ b'2' ∷ []

abbrev source_file : List ℕ
source_file = b'f' ∷ b'.' ∷ b'c' ∷ []

abbrev values : List Value
values = string (b'x' ∷ []) ∷ int32 (negsuc 41) ∷ pointer 255 ∷ chars none ∷ []

-- The line reads "12 WARN f.c:7 - x-420xFF(null)".
shown_values :
    shown_all values
    ≡ b'x' ∷ b'-' ∷ b'4' ∷ b'2' ∷ b'0' ∷ b'x' ∷ b'F' ∷ b'F' ∷ b'(' ∷ b'n' ∷ b'u' ∷ b'l' ∷ b'l'
      ∷ b')' ∷ []
unfolding shown_all shown signed_text to_base digit_loop reverse_onto
shown_values = refl

head_Clean : Clean (line_head noon warning source_file (pos 7))
unfolding name_of_level signed_text to_base digit_loop reverse_onto
head_Clean = omega arith

line_fits :
    length (line_head noon warning source_file (pos 7)) + length (shown_all values) + 2
    ≤ buffer_size
unfolding name_of_level shown_all shown signed_text to_base digit_loop reverse_onto
line_fits = omega arith

log-shows_example :
    log info warning noon source_file (pos 7) [] values
    ≡ some ((line_head noon warning source_file (pos 7) ++ shown_all values) ∷ [])
log-shows_example =
    log-shows info warning noon source_file (pos 7) [] values refl head_Clean (omega arith)
      line_fits

abbrev sample : Ini
sample = record {
  loads = true;
  has_section = λ s. true;
  get_string_value = λ s k. some (b'D' ∷ []);
}

abbrev before : Settings
before = record { log_level = []; log_path = []; device_uuid = []; min_level = info }

parse_config_example :
    let text : List ℕ = b'D' ∷ [] in
    ((parse_config (b'c' ∷ []) sample before).0 ≡ true)
    × ((parse_config (b'c' ∷ []) sample before).1 ≡ record {
      log_level = text;
      log_path = text;
      device_uuid = text;
      min_level = log_level_convert text;
    })
parse_config_example = parse_config_lem (b'c' ∷ []) sample before

-- A device that opens and one of another file system, behind one that does not open.
abbrev vdb : Node
vdb = record {
  entry = b'v' ∷ b'd' ∷ b'b' ∷ [];
  is_blk_dev = true;
  fd_direct = none;
  fd_cache = none;
  blk_size = none;
  blk_sector = none;
}

abbrev vdc : Node
vdc = record {
  entry = b'v' ∷ b'd' ∷ b'c' ∷ [];
  is_blk_dev = true;
  fd_direct = some 5;
  fd_cache = some 6;
  blk_size = some 65536;
  blk_sector = some 512;
}

abbrev vdd : Node
vdd = record vdc { entry = b'v' ∷ b'd' ∷ b'd' ∷ [] }

-- The last device holds the file system `B`, the others `A`.
abbrev two_systems : List ℕ → Device
two_systems name = record demo.dev {
  super_block = record demo_super_meta {
    uuid = if bytes_eq name (dev_prefix ++ vdd.entry) then b'B' ∷ [] else b'A' ∷ [];
  };
}

abbrev closed : Holder
closed = record {
  dev_name = [];
  direct = none;
  cache = none;
  dev_size = 0;
  sector_size = 0;
  open_fds = 1 ∷ [];
}

all_devices_whole : all_whole (vdb ∷ vdc ∷ vdd ∷ []) ≡ true
unfolding is_refused
all_devices_whole = refl

open_target-open_fds_example :
    (open_target (b'B' ∷ []) two_systems (vdb ∷ vdc ∷ vdd ∷ []) closed).1.open_fds
    ≡ found_fds (first_match (b'B' ∷ []) two_systems (vdb ∷ vdc ∷ vdd ∷ [])) (1 ∷ [])
open_target-open_fds_example =
    open_target-open_fds (b'B' ∷ []) two_systems (vdb ∷ vdc ∷ vdd ∷ []) closed all_devices_whole

-- The search has closed the second device and left the third open.
search_fds :
    (open_target (b'B' ∷ []) two_systems (vdb ∷ vdc ∷ vdd ∷ []) closed).1.open_fds ≡ 6 ∷ 5 ∷ 1 ∷ []
unfolding open_target open_device open_direct open_cache read_sizes close_device close_held close_fd
    is_refused stored_super_block take_outcome
search_fds = refl

abbrev format_line : List Arg
format_line = device (b'x' ∷ []) ∷ format_option ∷ []

main-formats_example : formatted (main (λ c. true) 4 format_line).1 ≡ (
    if all_fit 4 format_line && only_format (tools format_line)
    then device_of [] format_line ∷ []
    else [])
main-formats_example = main-formats (λ c. true) 4 format_line

-- The right side of it, and a command line with two tools.
format_line_formats : formatted (main (λ c. true) 4 format_line).1 ≡ (b'x' ∷ []) ∷ []
unfolding main finish do_block_fs_tool parse_option parse_args parse_arg
format_line_formats = refl

two_tools : formatted (main (λ c. true) 5 (format_option ∷ dump (b'x' ∷ []) ∷ [])).1 ≡ []
unfolding main finish do_block_fs_tool parse_option parse_args parse_arg choose
two_tools = refl

abbrev empty_target : Target
empty_target = record { size = 0; bytes = λ a. 0 }

export_range-copies_example :
    (b : Bool) × (n : ℕ) × (out : Target) × (export_range 100000
        (λ a. a)
        (pos 10)
        (pos 20000)
        empty_target
        (completes ∷ completes ∷ falls_short 5000 ∷ [])
      ≡ (b, out))
    × ((a : ℕ) → out.bytes a ≡ (if leb 10 a && ltb a (10 + n) then a else 0))
    × (n ≤ 20000)
    × ((b ≡ false) ⊎ (n ≡ 20000))
export_range-copies_example =
    export_range-copies 100000 (λ a. a) 10 20000 empty_target
      (completes ∷ completes ∷ falls_short 5000 ∷ [])

export_range-quiet_example :
    (out : Target) × (export_range 100000 (λ a. a) (pos 10) (pos 20000) empty_target []
      ≡ (true, out))
    × (out.size ≡ size_after (size_after 0 20000) (10 + 20000))
export_range-quiet_example =
    export_range-quiet 100000 (λ a. a) 10 20000 empty_target (omega arith) (omega arith)

blk_range-print_example :
    blk_range (to_base 10 4096 ++ b':' ∷ to_base 10 512) ≡ some (pos 4096, pos 512)
blk_range-print_example = blk_range-print 4096 512 (omega arith) (omega arith)
