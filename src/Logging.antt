-- ===== src/Logging.antt =====
-- lib/logging.h and lib/logging.cc: the levels of the log, the line buffer of a `Logger` and the
-- values that `<<` appends to it. Text is the list of its bytes.
pub mod Digits
pub mod Buffer
pub mod Values
pub mod Line
pub mod Levels
use blockfs.Prelude.{
  ℕ, zero, suc, ◌+◌, ◌-◌, ◌*◌, ◌/◌, ◌%◌, List, [], ◌∷◌, ◌++◌, map, Option, none, some, Bool, true,
  false, ◌==◌, leb, if◌then◌else◌, length, take, drop, replicate,
}
use mathlib.Core.Option
unfoldable pub use Levels.*
use blockfs.Prelude.Int.{ℤ, pos, negsuc}

-- A digit of a base up to sixteen, as `digitsHex` and the conversions of `sprintf` spell it.
abbrev pub digit : ℕ → ℕ
digit d = if leb 10 d then b'A' + (d - 10) else b'0' + d

-- The digits that the loop of `ConvertHex` stores, the last digit first: at least one. The fuel is one
-- more than the number.
unfoldable pub digit_loop : ℕ → ℕ → ℕ → List ℕ
digit_loop base zero i = []
digit_loop base (suc fuel) i =
    let more = digit_loop base fuel (i / base) in
    digit (i % base) ∷ (if i / base == 0 then [] else more)

-- `std::reverse`.
unfoldable pub reverse_onto : List ℕ → List ℕ → List ℕ
reverse_onto [] done = done
reverse_onto (x ∷ xs) done = reverse_onto xs (x ∷ done)

-- The text of a number in a base.
unfoldable pub to_base : ℕ → ℕ → List ℕ
to_base base n = reverse_onto (digit_loop base (suc n) n) []

-- An array of bytes, into which text is stored with a NUL behind it; `none` where it does not fit.
unfoldable pub store_text : List ℕ → List ℕ → Option (List ℕ)
store_text array text =
    if leb (length text + 1) (length array)
    then some (text ++ 0 ∷ drop (length text + 1) array)
    else none

-- `ConvertHex`: the array and the number of digits.
unfoldable pub convert_hex : List ℕ → ℕ → Option (List ℕ × ℕ)
convert_hex array value =
    let text = to_base 16 value in
    elim (store_text array text) [ none ↦ none | some stored ↦ some (stored, length text) ]

-- `strlen` of an array: `none` where it holds no NUL, so that the search leaves the array.
unfoldable pub strlen : List ℕ → Option ℕ
strlen [] = none
strlen (c ∷ cs) = let rest = Option.map suc (strlen cs) in if c == 0 then some 0 else rest

abbrev pub buffer_size : ℕ
buffer_size = 4096

-- `Append` of the first `len` bytes of an array: `none` where it reads outside of an array.
unfoldable pub append : List ℕ → ℕ → List ℕ → Option (List ℕ)
append bytes len buffer = elim (strlen buffer) [
  | none ↦ none
  | some used ↦
      if leb (used + len) buffer_size
      then if leb len (length bytes)
        then some (take used buffer ++ take len bytes ++ drop (used + len) buffer)
        else none
      else some buffer
]

-- The text of an `int`, as `%d` prints it.
unfoldable pub signed_text : ℤ → List ℕ
signed_text (pos n) = to_base 10 n
signed_text (negsuc n) = b'-' ∷ to_base 10 (n + 1)

-- The values that `<<` takes, but for floating point numbers.
pub data Value : Type 0 where
  bool : Bool → Value
  int8 : ℤ → Value
  uint8 : ℕ → Value
  int16 : ℤ → Value
  uint16 : ℕ → Value
  int32 : ℤ → Value
  uint32 : ℕ → Value
  int64 : ℤ → Value
  uint64 : ℕ → Value
  chars : Option (List ℕ) → Value
  pointer : ℕ → Value
  string : List ℕ → Value

-- `sprintf` into a local array and `<<` of that array.
unfoldable pub print_local : ℕ → List ℕ → List ℕ → Option (List ℕ)
print_local size text buffer = elim (store_text (replicate size 0) text) [
  | none ↦ none
  | some temp ↦ append text (length text) buffer
]

abbrev pub bool_text : Bool → List ℕ
bool_text true = b't' ∷ b'r' ∷ b'u' ∷ b'e' ∷ []
bool_text false = b'f' ∷ b'a' ∷ b'l' ∷ b's' ∷ b'e' ∷ []

abbrev pub null_text : List ℕ
null_text = b'(' ∷ b'n' ∷ b'u' ∷ b'l' ∷ b'l' ∷ b')' ∷ []

abbrev pub hex_prefix : List ℕ
hex_prefix = b'0' ∷ b'x' ∷ []

abbrev append_address : Option (List ℕ × ℕ) → List ℕ → Option (List ℕ)
append_address none buffer = none
append_address (some (array, len)) buffer = append array (len + 2) buffer

-- `operator<<(const void*)`: nothing for a null pointer.
unfoldable pub print_pointer : ℕ → List ℕ → Option (List ℕ)
print_pointer zero buffer = some buffer
print_pointer (suc n) buffer = elim (append hex_prefix 2 buffer) [
  | none ↦ none
  | some prefixed ↦ append_address (convert_hex (replicate 16 0) (suc n)) prefixed
]

-- The family of `operator<<`.
unfoldable pub print : Value → List ℕ → Option (List ℕ)
print (bool b) = print_local 8 (bool_text b)
print (int8 v) = print_local 8 (signed_text v)
print (uint8 v) = print_local 8 (to_base 10 v)
print (int16 v) = print_local 16 (signed_text v)
print (uint16 v) = print_local 16 (to_base 10 v)
print (int32 v) = print_local 32 (signed_text v)
print (uint32 v) = print_local 64 (to_base 10 v)
print (int64 v) = print_local 64 (signed_text v)
print (uint64 v) = print_local 64 (to_base 10 v)
print (chars none) = append null_text 6
print (chars (some text)) = append text (length text)
print (pointer p) = print_pointer p
print (string text) = append text (length text)

unfoldable pub print_all : List Value → List ℕ → Option (List ℕ)
print_all [] buffer = some buffer
print_all (v ∷ vs) buffer = elim (print v buffer) [ none ↦ none | some next ↦ print_all vs next ]

-- A logger writes where its level reaches the least level of the process.
abbrev pub passes : LogLevel → LogLevel → Bool
passes min_level level = leb (level_number min_level) (level_number level)

-- The head of a line, with the time that `GetCurrentTime` gives.
abbrev pub line_head : List ℕ → LogLevel → List ℕ → ℤ → List ℕ
line_head now level file line =
    now
    ++ b' '
      ∷ (log_level_name level
          ++ b' ' ∷ (file ++ b':' ∷ (signed_text line ++ b' ' ∷ b'-' ∷ b' ' ∷ [])))

-- A buffer that holds a text and zeros behind it.
abbrev pub holding : List ℕ → List ℕ
holding text = text ++ replicate (buffer_size - length text) 0

-- The constructor: `memset` and `snprintf` with one byte less than the buffer has. A logger that is
-- filtered keeps what its memory held before.
unfoldable pub construct : LogLevel → LogLevel → List ℕ → List ℕ → ℤ → List ℕ → List ℕ
construct min_level level now file line memory =
    if passes min_level level
    then holding (take (buffer_size - 2) (line_head now level file line))
    else memory

-- The destructor: the lines that go to the error stream.
unfoldable pub destroy : LogLevel → LogLevel → List ℕ → Option (List (List ℕ))
destroy min_level level buffer =
    if passes min_level level
    then elim (strlen buffer) [ none ↦ none | some n ↦ some (take n buffer ∷ []) ]
    else some []

-- `LOG(level) << values`.
unfoldable pub log :
    LogLevel → LogLevel → List ℕ → List ℕ → ℤ → List ℕ → List Value → Option (List (List ℕ))
log min_level level now file line memory values =
    elim (print_all values (construct min_level level now file line memory)) [
      | none ↦ none
      | some buffer ↦ destroy min_level level buffer
    ]
