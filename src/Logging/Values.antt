-- ===== src/Logging/Values.antt =====
-- What each value adds to a log line (the family of `operator<<` in lib/logging.cc): its text, and
-- that the local arrays and the buffer have room for it.
use blockfs.Prelude.{
  ℕ, zero, suc, ◌+◌, ◌-◌, ◌≤◌, ◌<◌, ◌≡◌, ◌∙◌, refl, ap, sym, List, [], ◌∷◌, ◌++◌, none, some, Bool,
  true, false, length, drop, replicate, arith, length-append, length-replicate, append_assoc,
  append_nil, le→leb, u32, u64,
}
use blockfs.Prelude.Int.{ℤ, pos, negsuc, pos_part, neg_part}
use blockfs.Logging.{
  Value, bool, int8, uint8, int16, uint16, int32, uint32, int64, uint64, chars, pointer, string,
  to_base, signed_text, bool_text, null_text, hex_prefix, store_text, convert_hex, append,
  print_local, print_pointer, print, buffer_size, holding,
}
use blockfs.Logging.Digits.{Clean, to_base-Clean, length-to_base, power}
use blockfs.Logging.Buffer.{zeros, drop-zeros, zeros-suc, append-Clean, append-holding, append-text}

-- The text that a value adds to a line.
unfoldable pub shown : Value → List ℕ
shown (bool b) = bool_text b
shown (int8 v) = signed_text v
shown (uint8 v) = to_base 10 v
shown (int16 v) = signed_text v
shown (uint16 v) = to_base 10 v
shown (int32 v) = signed_text v
shown (uint32 v) = to_base 10 v
shown (int64 v) = signed_text v
shown (uint64 v) = to_base 10 v
shown (chars none) = null_text
shown (chars (some text)) = text
shown (pointer zero) = []
shown (pointer (suc n)) = hex_prefix ++ to_base 16 (suc n)
shown (string text) = text

-- A signed number of w + 1 bits, by its two halves.
abbrev pub Fits : ℕ → ℤ → Type 0
Fits half v = (pos_part v < half) × (neg_part v ≤ half)

-- The values of each type; addresses have at most fourteen digits and texts hold no NUL.
abbrev pub InRange : Value → Type 0
InRange (bool b) = Unit
InRange (int8 v) = Fits 128 v
InRange (uint8 v) = v < 256
InRange (int16 v) = Fits 32768 v
InRange (uint16 v) = v < 65536
InRange (int32 v) = Fits 2147483648 v
InRange (uint32 v) = v < u32
InRange (int64 v) = Fits 9223372036854775808 v
InRange (uint64 v) = v < u64
InRange (chars none) = Unit
InRange (chars (some text)) = Clean text
InRange (pointer p) = p < 72057594037927936
InRange (string text) = Clean text

signed_text-Clean : (v : ℤ) → Clean (signed_text v)
unfolding signed_text
signed_text-Clean (pos n) = to_base-Clean 10 n
signed_text-Clean (negsuc n) = ((omega arith), to_base-Clean 10 (n + 1))

length-signed_text :
    (v : ℤ) (half k : ℕ)
    → Fits half v
    → half < power 10 (suc k)
    → length (signed_text v) ≤ suc (suc k)
unfolding signed_text
length-signed_text (pos n) half k fits h =
    omega (arith, length-to_base 10 n k (omega arith) (omega arith))
length-signed_text (negsuc n) half k fits h =
    omega (arith, length-to_base 10 (n + 1) k (omega arith) (omega arith))

bool_text-Clean : (b : Bool) → Clean (bool_text b)
bool_text-Clean true = omega arith
bool_text-Clean false = omega arith

pub shown-Clean : (v : Value) → InRange v → Clean (shown v)
unfolding shown
shown-Clean (bool b) h = bool_text-Clean b
shown-Clean (int8 v) h = signed_text-Clean v
shown-Clean (uint8 v) h = to_base-Clean 10 v
shown-Clean (int16 v) h = signed_text-Clean v
shown-Clean (uint16 v) h = to_base-Clean 10 v
shown-Clean (int32 v) h = signed_text-Clean v
shown-Clean (uint32 v) h = to_base-Clean 10 v
shown-Clean (int64 v) h = signed_text-Clean v
shown-Clean (uint64 v) h = to_base-Clean 10 v
shown-Clean (chars none) h = omega arith
shown-Clean (chars (some text)) h = h
shown-Clean (pointer zero) h = tt
shown-Clean (pointer (suc n)) h = (omega arith, (omega arith, to_base-Clean 16 (suc n)))
shown-Clean (string text) h = h

-- An append of a text with room to spare.
append_room :
    (text m : List ℕ)
    → Clean text
    → length text + length m < buffer_size
    → append m (length m) (holding text) ≡ some (holding (text ++ m))
append_room text m clean room =
    append-text text m clean (omega arith)
    ∙ rw (le→leb (length text + length m) buffer_size (omega arith)) refl

store_text-fits :
    (array m : List ℕ)
    → length m < length array
    → store_text array m ≡ some (m ++ 0 ∷ drop (length m + 1) array)
unfolding store_text
store_text-fits array m h = rw (le→leb (length m + 1) (length array) (omega arith)) refl

print_local-holding :
    (size : ℕ) (text m : List ℕ)
    → length m < size
    → Clean text
    → length text + length m < buffer_size
    → print_local size m (holding text) ≡ some (holding (text ++ m))
unfolding print_local
print_local-holding size text m fits clean room =
    rw
      (
        store_text-fits (replicate size 0) m (omega (arith, length-replicate {A = ℕ} size 0)),
        print_local,
      )
      (append_room text m clean room)

-- The array that `ConvertHex` leaves has two NUL bytes behind at most fourteen digits.
hex_array :
    (m : List ℕ)
    → length m ≤ 14
    → m ++ 0 ∷ drop (length m + 1) (replicate 16 0)
      ≡ m ++ replicate 2 0 ++ replicate (14 - length m) 0
unfolding zeros
hex_array m h =
    let tail : drop (length m + 1) (zeros 16) ≡ 0 ∷ zeros (14 - length m) =
      drop-zeros (length m + 1) 16
      ∙ zeros-suc (16 - (length m + 1)) (omega arith)
      ∙ ap (λ k. 0 ∷ zeros k) (omega arith) in
    ap (λ r. m ++ 0 ∷ r) tail ∙ sym (append_assoc m (0 ∷ 0 ∷ []) (zeros (14 - length m)))

convert_hex-fits :
    (n : ℕ)
    → n < 72057594037927936
    → convert_hex (replicate 16 0) n
      ≡ some (
        to_base 16 n ++ replicate 2 0 ++ replicate (14 - length (to_base 16 n)) 0,
        length (to_base 16 n),
      )
unfolding convert_hex
convert_hex-fits n h =
    let short : length (to_base 16 n) ≤ 14 = length-to_base 16 n 13 (omega arith) h in
    rw (store_text-fits (replicate 16 0) (to_base 16 n) (omega arith), convert_hex)
      (rw (hex_array (to_base 16 n) short) refl)

print_pointer-holding :
    (text : List ℕ) (n : ℕ)
    → n < 72057594037927936
    → Clean text
    → length text + length (shown (pointer n)) + 2 ≤ buffer_size
    → print_pointer n (holding text) ≡ some (holding (text ++ shown (pointer n)))
unfolding print_pointer shown
print_pointer-holding text zero h clean room = ap (λ t. some (holding t)) (sym (append_nil text))
print_pointer-holding text (suc n) h clean room =
    rw (append_room text hex_prefix clean (omega arith), print_pointer)
      (rw (convert_hex-fits (suc n) h) (
        append-holding (text ++ hex_prefix) (to_base 16 (suc n))
          (replicate (14 - length (to_base 16 (suc n))) 0) 2
          (append-Clean text hex_prefix clean (omega arith))
          (omega (arith, length-append text hex_prefix))
          (omega (arith, length-append text hex_prefix))
        ∙ ap (λ t. some (holding t)) (append_assoc text hex_prefix (to_base 16 (suc n)))))

pub print-holding :
    (text : List ℕ) (v : Value)
    → InRange v
    → Clean text
    → length text + length (shown v) + 2 ≤ buffer_size
    → print v (holding text) ≡ some (holding (text ++ shown v))
unfolding print shown
print-holding text (bool true) h clean room =
    print_local-holding 8 text (bool_text true) (omega arith) clean (omega arith)
print-holding text (bool false) h clean room =
    print_local-holding 8 text (bool_text false) (omega arith) clean (omega arith)
print-holding text (int8 v) h clean room =
    print_local-holding 8 text (signed_text v)
      (omega (arith, length-signed_text v 128 2 h (omega arith))) clean (omega arith)
print-holding text (uint8 v) h clean room =
    print_local-holding 8 text (to_base 10 v)
      (omega (arith, length-to_base 10 v 2 (omega arith) (omega arith))) clean (omega arith)
print-holding text (int16 v) h clean room =
    print_local-holding 16 text (signed_text v)
      (omega (arith, length-signed_text v 32768 4 h (omega arith))) clean (omega arith)
print-holding text (uint16 v) h clean room =
    print_local-holding 16 text (to_base 10 v)
      (omega (arith, length-to_base 10 v 4 (omega arith) (omega arith))) clean (omega arith)
print-holding text (int32 v) h clean room =
    print_local-holding 32 text (signed_text v)
      (omega (arith, length-signed_text v 2147483648 9 h (omega arith))) clean (omega arith)
print-holding text (uint32 v) h clean room =
    print_local-holding 64 text (to_base 10 v)
      (omega (arith, length-to_base 10 v 9 (omega arith) (omega arith))) clean (omega arith)
print-holding text (int64 v) h clean room =
    print_local-holding 64 text (signed_text v)
      (omega (arith, length-signed_text v 9223372036854775808 18 h (omega arith))) clean
      (omega arith)
print-holding text (uint64 v) h clean room =
    print_local-holding 64 text (to_base 10 v)
      (omega (arith, length-to_base 10 v 19 (omega arith) (omega arith))) clean (omega arith)
print-holding text (chars none) h clean room = append_room text null_text clean (omega arith)
print-holding text (chars (some m)) h clean room = append_room text m clean (omega arith)
print-holding text (pointer p) h clean room = print_pointer-holding text p h clean room
print-holding text (string m) h clean room = append_room text m clean (omega arith)
