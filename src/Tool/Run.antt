-- ===== src/Tool/Run.antt =====
-- What the tool does with its options (`DoBlockFsTool` and `main` of tool/block_fs_tool.cc): the
-- calls that it makes on the file system, and its exit status.
use blockfs.Prelude.{
  ℕ, ◌≡◌, ◌∙◌, refl, ap, List, [], ◌∷◌, Option, none, some, Bool, true, false, ◌&&◌, ◌==◌,
  if◌then◌else◌, length, arith, Bool-cases, inl, inr,
}
use blockfs.Tool.{
  ToolType, blockfs_none, blockfs_format, blockfs_dump, blockfs_blk, blockfs_file_meta, BlockFsTool,
  Arg, device, format_option, dump, blk, meta, help, Parsed, parsed, exits, parse_option,
}
use blockfs.Tool.Export.{find_text}
use blockfs.Tool.Options.{tools, all_fit, device_of, chosen, tool_of, parse_option_lem}

pub data ToolCall : Type 0 where
  format_device : List ℕ → ToolCall
  check_device : List ℕ → ToolCall
  dump_super : ToolCall
  dump_uuid : ToolCall
  dump_files : ToolCall
  dump_file_meta : List ℕ → ToolCall
  export_blk : List ℕ → ToolCall

-- `s.find(t) != npos`.
abbrev holds_text : List ℕ → List ℕ → Bool
holds_text t s = elim (find_text t s) [ none ↦ false | some k ↦ true ]

abbrev super_text : List ℕ
super_text = b's' ∷ b'u' ∷ b'p' ∷ b'e' ∷ b'r' ∷ []

abbrev uuid_text : List ℕ
uuid_text = b'u' ∷ b'u' ∷ b'i' ∷ b'd' ∷ []

abbrev files_text : List ℕ
files_text = b'f' ∷ b'i' ∷ b'l' ∷ b'e' ∷ b's' ∷ []

-- The parts that -p selects.
unfoldable pub dump_calls : List ℕ → List ToolCall
dump_calls arg =
    if holds_text super_text arg
    then dump_super ∷ []
    else if holds_text uuid_text arg
    then dump_uuid ∷ []
    else if holds_text files_text arg
    then dump_files ∷ []
    else dump_super ∷ dump_files ∷ []

-- The switch on the tool, after the device is checked.
unfoldable pub run_tool : (ToolCall → Bool) → BlockFsTool → ToolType → Bool × List ToolCall
run_tool answer t blockfs_dump = (true, dump_calls t.dump_arg)
run_tool answer t blockfs_blk = (answer (export_blk t.blk_info), export_blk t.blk_info ∷ [])
run_tool answer t blockfs_file_meta = (true, dump_file_meta t.file_name ∷ [])
run_tool answer t blockfs_none = (false, [])
run_tool answer t blockfs_format = (false, [])

abbrev is_format : ToolType → Bool
is_format blockfs_format = true
is_format blockfs_none = false
is_format blockfs_dump = false
is_format blockfs_blk = false
is_format blockfs_file_meta = false

-- `DoBlockFsTool`; `answer` says what the file system's functions return.
unfoldable pub do_block_fs_tool : (ToolCall → Bool) → BlockFsTool → Bool × List ToolCall
do_block_fs_tool answer t =
    let check = check_device t.dev_name in
    let run = run_tool answer t t.tool_type in
    if is_format t.tool_type
    then (answer (format_device t.dev_name), format_device t.dev_name ∷ [])
    else if answer check
    then (run.0, check ∷ run.1)
    else (false, check ∷ [])

unfoldable pub finish : (ToolCall → Bool) → Parsed → ℕ × List ToolCall
finish answer (exits code) = (code, [])
finish answer (parsed t) =
    let run = do_block_fs_tool answer t in ((if run.0 then 0 else 255), run.1)

-- `main`: the exit status and the calls. A result of -1 is status 255.
unfoldable pub main : (ToolCall → Bool) → ℕ → List Arg → ℕ × List ToolCall
main answer argc args = finish answer (parse_option argc args)

-- The devices that a sequence of calls formats.
abbrev pub formatted : List ToolCall → List (List ℕ)
formatted [] = []
formatted (format_device d ∷ rest) = d ∷ formatted rest
formatted (check_device d ∷ rest) = formatted rest
formatted (dump_super ∷ rest) = formatted rest
formatted (dump_uuid ∷ rest) = formatted rest
formatted (dump_files ∷ rest) = formatted rest
formatted (dump_file_meta n ∷ rest) = formatted rest
formatted (export_blk i ∷ rest) = formatted rest

-- Only the format_option tool is chosen, and once.
abbrev pub only_format : List ToolType → Bool
only_format [] = false
only_format (t ∷ []) = is_format t
only_format (t ∷ u ∷ rest) = false

dump_calls-formatted : (arg : List ℕ) → formatted (dump_calls arg) ≡ []
unfolding dump_calls
dump_calls-formatted arg = ground arith

run_tool-formatted :
    (answer : ToolCall → Bool) (t : BlockFsTool) (tool : ToolType)
    → formatted (run_tool answer t tool).1 ≡ []
unfolding run_tool
run_tool-formatted answer t blockfs_dump = dump_calls-formatted t.dump_arg
run_tool-formatted answer t blockfs_blk = refl
run_tool-formatted answer t blockfs_file_meta = refl
run_tool-formatted answer t blockfs_none = refl
run_tool-formatted answer t blockfs_format = refl

-- The device that a parsed command line formats.
target : Option BlockFsTool → List (List ℕ)
target none = []
target (some t) = if is_format t.tool_type then t.dev_name ∷ [] else []

finish-formatted :
    (answer : ToolCall → Bool) (p : Parsed) → formatted (finish answer p).1 ≡ target (tool_of p)
unfolding finish do_block_fs_tool target
finish-formatted answer (exits code) = refl
finish-formatted answer (parsed t) = elim (Bool-cases (is_format t.tool_type)) [
  | inl yes_format ↦ rw yes_format refl
  | inr other ↦ rw other (elim (Bool-cases (answer (check_device t.dev_name))) [
    | inl checked ↦ rw checked (run_tool-formatted answer t t.tool_type)
    | inr failed ↦ rw failed refl
  ])
]

one_tool :
    (b : Bool) (t : BlockFsTool) (ts : List ToolType)
    → target (if b && (length (t.tool_type ∷ ts) == 1) then some t else none)
      ≡ (if b && only_format (t.tool_type ∷ ts) then t.dev_name ∷ [] else [])
unfolding target
one_tool false t ts = refl
one_tool true t [] = refl
one_tool true t (u ∷ us) = ground arith

chosen-target :
    (argc : ℕ) (args : List Arg) (d : List ℕ)
    → target
        (if all_fit argc args && (length (tools args) == 1) then some (chosen d args) else none)
      ≡ (if all_fit argc args && only_format (tools args) then device_of d args ∷ [] else [])
unfolding target tools all_fit chosen device_of
chosen-target argc [] d = refl
chosen-target argc (device a ∷ rest) d = ground (arith, chosen-target argc rest a)
chosen-target argc (format_option ∷ rest) d =
    one_tool (all_fit argc (format_option ∷ rest)) (chosen d (format_option ∷ rest)) (tools rest)
chosen-target argc (dump a ∷ rest) d =
    one_tool (all_fit argc (dump a ∷ rest)) (chosen d (dump a ∷ rest)) (tools rest)
chosen-target argc (blk a ∷ rest) d =
    one_tool (all_fit argc (blk a ∷ rest)) (chosen d (blk a ∷ rest)) (tools rest)
chosen-target argc (meta a ∷ rest) d =
    one_tool (all_fit argc (meta a ∷ rest)) (chosen d (meta a ∷ rest)) (tools rest)
chosen-target argc (help ∷ rest) d = refl

-- The tool formats the last device that is given, and nothing else, when the command line is in order
-- and its one tool option is --format; no other command line formats anything, whatever the file
-- system answers.
pub main-formats :
    (answer : ToolCall → Bool) (argc : ℕ) (args : List Arg)
    → formatted (main answer argc args).1
      ≡ (if all_fit argc args && only_format (tools args) then device_of [] args ∷ [] else [])
unfolding main
main-formats answer argc args =
    finish-formatted answer (parse_option argc args)
    ∙ ap target (parse_option_lem argc args)
    ∙ chosen-target argc args []
