-- ===== src/Tool/Export.antt =====
-- The export of a range of the device into a file (`ExportBlkDeviceContents` of
-- tool/block_fs_tool.cc and `ExportBlkDevice` of tool/block_fs_extract_device.cc).
pub mod Copies
pub mod Range
pub mod Text
use blockfs.Prelude.{
  ℕ, zero, suc, ◌+◌, ◌-◌, ◌*◌, ◌/◌, List, [], ◌∷◌, Option, none, some, Bool, true, false, leb, ◌==◌,
  ◌&&◌, ◌||◌, if◌then◌else◌, is_empty, length, take, drop, min, not,
}
use mathlib.Core.Option
use blockfs.Prelude.Int.{ℤ, pos, negsuc}
use blockfs.Device.{write_bytes}

abbrev pub starts_with : List ℕ → List ℕ → Bool
starts_with [] s = true
starts_with (d ∷ ds) [] = false
starts_with (d ∷ ds) (c ∷ cs) = if d == c then starts_with ds cs else false

-- `s.find(delim)`.
unfoldable pub find_text : List ℕ → List ℕ → Option ℕ
find_text delim [] = if is_empty delim then some 0 else none
find_text delim (c ∷ cs) =
    let later = Option.map suc (find_text delim cs) in
    if starts_with delim (c ∷ cs) then some 0 else later

-- The loop of `StringSplit`, on what is left of the text from `pos`.
unfoldable pub split_loop : ℕ → List ℕ → List ℕ → List (List ℕ)
split_loop zero delim s = []
split_loop (suc fuel) delim [] = []
split_loop (suc fuel) delim (c ∷ cs) = elim (find_text delim (c ∷ cs)) [
  | none ↦ (c ∷ cs) ∷ []
  | some found ↦ take found (c ∷ cs) ∷ split_loop fuel delim (drop (found + length delim) (c ∷ cs))
]

-- `StringSplit`.
unfoldable pub string_split : List ℕ → List ℕ → List (List ℕ)
string_split s delim = if is_empty delim then [] else split_loop (length s + 1) delim s

abbrev pub colon : List ℕ
colon = b':' ∷ []

abbrev pub long_max : ℕ
long_max = 9223372036854775807

abbrev is_space : ℕ → Bool
is_space c = c == 32 || (leb 9 c && leb c 13)

-- The digits at the head of a text.
unfoldable pub read_digits : ℕ → List ℕ → ℕ
read_digits acc [] = acc
read_digits acc (c ∷ cs) =
    let more = read_digits (acc * 10 + (c - b'0')) cs in
    if leb b'0' c && leb c b'9' then more else acc

abbrev negated : ℕ → ℤ
negated zero = pos 0
negated (suc n) = negsuc (min long_max n)

-- `atol`: white space, a sign and digits; a value out of range becomes the nearest bound.
unfoldable pub atol : List ℕ → ℤ
atol [] = pos 0
atol (c ∷ cs) =
    let rest = atol cs in
    if is_space c
    then rest
    else if c == b'-'
    then negated (read_digits 0 cs)
    else if c == b'+'
    then pos (min long_max (read_digits 0 cs))
    else pos (min long_max (read_digits 0 (c ∷ cs)))

-- Offset and size of `offset:size`; `none` where there are fewer than two parts, which the code reads
-- past the end of the vector.
unfoldable pub blk_range : List ℕ → Option (ℤ × ℤ)
blk_range info = elim (string_split info colon) [
  | [] ↦ none
  | first ∷ rest ↦ elim rest [ [] ↦ none | second ∷ more ↦ some (atol first, atol second) ]
]

-- A file: its size and its bytes.
pub record Target : Type 0 where
  pub size : ℕ
  pub bytes : ℕ → ℕ

abbrev pub size_after : ℕ → ℕ → ℕ
size_after size end = if leb size end then end else size

-- `pwrite` of a whole buffer.
abbrev pub put_bytes : ℕ → ℕ → (ℕ → ℕ) → Target → Target
put_bytes len offset buffer t = record {
  size = size_after t.size (offset + len);
  bytes = write_bytes len buffer offset t.bytes;
}

abbrev pub export_buffer_size : ℕ
export_buffer_size = 16384

-- What a system call comes to: all that it was asked for, a failure, or a write of fewer bytes.
pub data CallResult : Type 0 where
  completes fails : CallResult
  falls_short : ℕ → CallResult

-- The next answer and the later ones; past the end of the list every call completes.
unfoldable pub take_result : List CallResult → CallResult × List CallResult
take_result [] = (completes, [])
take_result (a ∷ rest) = (a, rest)

abbrev pub is_complete_call : CallResult → Bool
is_complete_call completes = true
is_complete_call fails = false
is_complete_call (falls_short n) = false

-- How many bytes a write of `len` bytes moves.
abbrev pub written_count : ℕ → CallResult → ℕ
written_count len completes = len
written_count len fails = 0
written_count len (falls_short n) = min n len

-- `pwrite` of the first bytes of a buffer; a write of nothing changes nothing.
unfoldable pub put_part : ℕ → ℕ → (ℕ → ℕ) → Target → Target
put_part zero offset buffer t = t
put_part (suc n) offset buffer t = put_bytes (suc n) offset buffer t

-- One chunk: the file and the answers that are left, and whether all calls completed.
abbrev Moved : Type 0
Moved = Bool × Target × List CallResult

-- A read that the device has the bytes for, a write, and at the last part a flush. A write that moves
-- fewer bytes has put them into the file.
unfoldable pub move_chunk : ℕ → (ℕ → ℕ) → Bool → ℕ → ℕ → Target → List CallResult → Moved
move_chunk dev_size dev sync len offset t answers =
    let (read, left) = take_result answers in
    let (wrote, last) = take_result left in
    let (synced, rest) = take_result last in
    let count = written_count len wrote in
    let moved = put_part count offset (λ i. dev (offset + i)) t in
    if leb (offset + len) dev_size && is_complete_call read
    then if count == len
      then if sync then (is_complete_call synced, moved, rest) else (true, moved, last)
      else (false, moved, last)
    else (false, t, left)

-- `while (export_size > 0)`; `none` means that the fuel ran out.
unfoldable pub export_loop :
    ℕ → ℕ → (ℕ → ℕ) → ℕ → ℕ → Target → List CallResult → Option (Bool × Target)
export_loop zero dev_size dev size offset t answers = none
export_loop (suc fuel) dev_size dev size offset t answers =
    let full = leb export_buffer_size size in
    let len = if full then export_buffer_size else size in
    let moved = move_chunk dev_size dev (not full) len offset t answers in
    let rest = export_loop fuel dev_size dev (size - len) (offset + len) moved.1 moved.2 in
    if size == 0 then some (true, t) else if moved.0 then rest else some (false, moved.1)

-- The exports after the target is open: `fallocate` refuses a length below one, and a negative offset
-- is refused by the first read.
unfoldable pub export_range : ℕ → (ℕ → ℕ) → ℤ → ℤ → Target → List CallResult → Bool × Target
export_range dev_size dev offset (pos zero) t answers = (false, t)
export_range dev_size dev offset (negsuc n) t answers = (false, t)
export_range dev_size dev offset (pos (suc n)) t answers =
    let (allocated, left) = take_result answers in
    let reserved = record t { size = size_after t.size (suc n) } in
    if is_complete_call allocated
    then elim offset [
      | negsuc k ↦ (false, reserved)
      | pos from ↦
          elim (export_loop (suc n / export_buffer_size + 2) dev_size dev (suc n) from reserved
            left) [ none ↦ (false, reserved) | some done ↦ done ]
    ]
    else (false, t)

-- `ExportBlkDeviceContents`: `none` where the text has no second part.
unfoldable export_blk_device_contents :
    ℕ → (ℕ → ℕ) → List ℕ → Target → List CallResult → Option (Bool × Target)
export_blk_device_contents dev_size dev info t answers = elim (blk_range info) [
  | none ↦ none
  | some (offset, size) ↦
      let (opened, left) = take_result answers in
      some (
        if is_complete_call opened
        then export_range dev_size dev offset size t left
        else (false, t))
]

-- `ExportBlkDevice`: the device is opened first.
unfoldable export_blk_device : ℕ → (ℕ → ℕ) → ℤ → ℤ → Target → List CallResult → Bool × Target
export_blk_device dev_size dev offset size t answers =
    let (dev_open, left) = take_result answers in
    let (opened, rest) = take_result left in
    if is_complete_call dev_open && is_complete_call opened
    then export_range dev_size dev offset size t rest
    else (false, t)
