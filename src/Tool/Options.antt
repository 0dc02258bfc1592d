-- ===== src/Tool/Options.antt =====
-- Which command lines `ParseOption` of tool/block_fs_tool.cc accepts, and what it takes from them.
use blockfs.Prelude.{
  ℕ, ◌≡◌, refl, List, [], ◌∷◌, Option, none, some, Bool, true, false, leb, not, ◌==◌, ◌&&◌,
  if◌then◌else◌, is_empty, length, arith,
}
use blockfs.Tool.{
  ToolType, blockfs_format, blockfs_dump, blockfs_blk, blockfs_file_meta, BlockFsTool, Arg, device,
  format_option, dump, blk, meta, help, Parsed, parsed, exits, is_none, initial, choose, parse_arg,
  parse_args, parse_option,
}

-- The tool options of a command line, in order.
unfoldable pub tools : List Arg → List ToolType
tools [] = []
tools (device a ∷ rest) = tools rest
tools (format_option ∷ rest) = blockfs_format ∷ tools rest
tools (dump a ∷ rest) = blockfs_dump ∷ tools rest
tools (blk a ∷ rest) = blockfs_blk ∷ tools rest
tools (meta a ∷ rest) = blockfs_file_meta ∷ tools rest
tools (help ∷ rest) = tools rest

-- Each option by itself is in order.
abbrev is_fit : ℕ → Arg → Bool
is_fit argc (device a) = leb 4 argc && not (is_empty a)
is_fit argc format_option = true
is_fit argc (dump a) = leb 5 argc
is_fit argc (blk a) = leb 5 argc
is_fit argc (meta a) = leb 5 argc
is_fit argc help = false

unfoldable pub all_fit : ℕ → List Arg → Bool
all_fit argc [] = true
all_fit argc (a ∷ rest) = is_fit argc a && all_fit argc rest

-- The arguments of the last options of each kind, with what stands where there is none.
unfoldable pub device_of : List ℕ → List Arg → List ℕ
device_of d [] = d
device_of d (device a ∷ rest) = device_of a rest
device_of d (format_option ∷ rest) = device_of d rest
device_of d (dump a ∷ rest) = device_of d rest
device_of d (blk a ∷ rest) = device_of d rest
device_of d (meta a ∷ rest) = device_of d rest
device_of d (help ∷ rest) = device_of d rest

-- The tool of a command line with one tool option.
unfoldable pub chosen : List ℕ → List Arg → BlockFsTool
chosen d [] = record initial { dev_name = d }
chosen d (device a ∷ rest) = chosen a rest
chosen d (format_option ∷ rest) = record initial {
  tool_type = blockfs_format;
  dev_name = device_of d rest;
}
chosen d (dump a ∷ rest) = record initial {
  tool_type = blockfs_dump;
  dump_arg = a;
  dev_name = device_of d rest;
}
chosen d (blk a ∷ rest) = record initial {
  tool_type = blockfs_blk;
  blk_info = a;
  dev_name = device_of d rest;
}
chosen d (meta a ∷ rest) = record initial {
  tool_type = blockfs_file_meta;
  file_name = a;
  dev_name = device_of d rest;
}
chosen d (help ∷ rest) = chosen d rest

abbrev pub tool_of : Parsed → Option BlockFsTool
tool_of (parsed t) = some t
tool_of (exits code) = none

-- Once a tool is chosen, only devices may follow.
parse_args_chosen :
    (argc : ℕ) (args : List Arg) (t : BlockFsTool)
    → is_none t.tool_type ≡ false
    → tool_of (parse_args argc args t) ≡ (
        if all_fit argc args && is_empty (tools args)
        then some (record t { dev_name = device_of t.dev_name args })
        else none)
unfolding parse_args parse_arg choose tools all_fit device_of
parse_args_chosen argc [] t h = ground arith
parse_args_chosen argc (device a ∷ rest) t h =
    ground (arith, parse_args_chosen argc rest (record t { dev_name = a }) h)
parse_args_chosen argc (format_option ∷ rest) t h = ground arith
parse_args_chosen argc (dump a ∷ rest) t h = ground arith
parse_args_chosen argc (blk a ∷ rest) t h = ground arith
parse_args_chosen argc (meta a ∷ rest) t h = ground arith
parse_args_chosen argc (help ∷ rest) t h = ground arith

parse_args-initial :
    (argc : ℕ) (args : List Arg) (d : List ℕ)
    → tool_of (parse_args argc args (record initial { dev_name = d }))
      ≡ (if all_fit argc args && (length (tools args) == 1) then some (chosen d args) else none)
unfolding parse_args parse_arg choose tools all_fit chosen
parse_args-initial argc [] d = refl
parse_args-initial argc (device a ∷ rest) d = ground (arith, parse_args-initial argc rest a)
parse_args-initial argc (format_option ∷ rest) d = ground (
  arith,
  parse_args_chosen argc rest (record initial { tool_type = blockfs_format; dev_name = d }) refl,
)
parse_args-initial argc (dump a ∷ rest) d = ground (
  arith,
  parse_args_chosen argc rest
      (record initial { tool_type = blockfs_dump; dump_arg = a; dev_name = d }) refl,
)
parse_args-initial argc (blk a ∷ rest) d = ground (
  arith,
  parse_args_chosen argc rest
      (record initial { tool_type = blockfs_blk; blk_info = a; dev_name = d }) refl,
)
parse_args-initial argc (meta a ∷ rest) d = ground (
  arith,
  parse_args_chosen argc rest
      (record initial { tool_type = blockfs_file_meta; file_name = a; dev_name = d }) refl,
)
parse_args-initial argc (help ∷ rest) d = refl

-- The options are accepted exactly when each is in order, none of them asks for help and exactly one
-- chooses a tool; the tool then has the argument of that option and the last device.
pub parse_option_lem :
    (argc : ℕ) (args : List Arg)
    → tool_of (parse_option argc args)
      ≡ (if all_fit argc args && (length (tools args) == 1) then some (chosen [] args) else none)
unfolding parse_option
parse_option_lem argc args = parse_args-initial argc args []
