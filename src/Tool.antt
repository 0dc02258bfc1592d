-- ===== src/Tool.antt =====
-- The command line tool (tool/block_fs_tool.cc): its options, the calls that it makes and its exit
-- status. `getopt_long` gives the list of the options, in order, up to its -1.
pub mod Options
pub mod Export
pub mod Run
pub mod Extract
pub mod Mount
use blockfs.Prelude.{ℕ, List, [], ◌∷◌, Bool, true, false, ltb, if◌then◌else◌, is_empty}

pub data ToolType : Type 0 where
  blockfs_none : ToolType
  blockfs_format : ToolType
  blockfs_dump : ToolType
  blockfs_blk : ToolType
  blockfs_file_meta : ToolType

pub record BlockFsTool : Type 0 where
  pub tool_type : ToolType
  pub dump_arg : List ℕ
  pub dev_name : List ℕ
  pub blk_info : List ℕ
  pub file_name : List ℕ

-- What `getopt_long` reports; `help` stands for -h and for whatever it does not know.
pub data Arg : Type 0 where
  device : List ℕ → Arg
  format_option : Arg
  dump : List ℕ → Arg
  blk : List ℕ → Arg
  meta : List ℕ → Arg
  help : Arg

-- The options are taken, or the process exits with a status.
pub data Parsed : Type 0 where
  parsed : BlockFsTool → Parsed
  exits : ℕ → Parsed

abbrev pub is_none : ToolType → Bool
is_none blockfs_none = true
is_none blockfs_format = false
is_none blockfs_dump = false
is_none blockfs_blk = false
is_none blockfs_file_meta = false

abbrev pub initial : BlockFsTool
initial = record {
  tool_type = blockfs_none;
  dump_arg = [];
  dev_name = [];
  blk_info = [];
  file_name = [];
}

-- A tool option with an argument: there are arguments enough, and no other tool was chosen.
unfoldable pub choose : ℕ → BlockFsTool → BlockFsTool → Parsed
choose argc t chosen =
    if ltb argc 5 then exits 1 else if is_none t.tool_type then parsed chosen else exits 1

-- One round of the loop of `ParseOption`.
unfoldable pub parse_arg : ℕ → Arg → BlockFsTool → Parsed
parse_arg argc (device a) t =
    if ltb argc 4
    then exits 1
    else if is_empty a
    then exits 1
    else parsed (record t { dev_name = a })
parse_arg argc format_option t =
    if is_none t.tool_type then parsed (record t { tool_type = blockfs_format }) else exits 1
parse_arg argc (dump a) t = choose argc t (record t { tool_type = blockfs_dump; dump_arg = a })
parse_arg argc (blk a) t = choose argc t (record t { tool_type = blockfs_blk; blk_info = a })
parse_arg argc (meta a) t =
    choose argc t (record t { tool_type = blockfs_file_meta; file_name = a })
parse_arg argc help t = exits 0

unfoldable pub parse_args : ℕ → List Arg → BlockFsTool → Parsed
parse_args argc [] t = if is_none t.tool_type then exits 1 else parsed t
parse_args argc (a ∷ rest) t = elim (parse_arg argc a t) [
  | parsed next ↦ parse_args argc rest next
  | exits code ↦ exits code
]

-- `ParseOption`.
unfoldable pub parse_option : ℕ → List Arg → Parsed
parse_option argc args = parse_args argc args initial
