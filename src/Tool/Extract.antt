-- ===== src/Tool/Extract.antt =====
-- `main` of tool/block_fs_extract_device.cc: its options and the export that it starts.
use blockfs.Prelude.{
  ℕ, zero, suc, ◌+◌, ◌-◌, ◌*◌, ◌%◌, ◌≤◌, ◌<◌, ◌≡◌, refl, List, [], ◌∷◌, Option, none, some, Bool,
  true, false, ltb, if◌then◌else◌, arith, u32,
}
use blockfs.Prelude.Int.{ℤ, pos, negsuc}
use blockfs.Logging.{to_base}
use blockfs.Tool.Export.{atol, long_max}
use blockfs.Tool.Export.Text.{atol-print}

pub data ExtractArg : Type 0 where
  config : List ℕ → ExtractArg
  master : ExtractArg
  dev : List ℕ → ExtractArg
  name : List ℕ → ExtractArg
  offset : List ℕ → ExtractArg
  len : List ℕ → ExtractArg
  help : ExtractArg

-- The int of a long: its low 32 bits, as a signed number.
unfoldable low_int : ℕ → ℤ
low_int n = if ltb (n % u32) 2147483648 then pos (n % u32) else negsuc (u32 - 1 - n % u32)

-- `atoi` of the C library, which cuts the result of `strtol` to an int.
unfoldable atoi : List ℕ → ℤ
atoi s = elim (atol s) [ pos n ↦ low_int n | negsuc n ↦ low_int (u32 - 1 - n % u32) ]

pub record ExtractRequest : Type 0 where
  pub dev_name : Option (List ℕ)
  pub file_name : Option (List ℕ)
  pub from : ℤ
  pub length : ℤ

abbrev no_request : ExtractRequest
no_request = record { dev_name = none; file_name = none; from = pos 0; length = pos 0 }

-- The loop over the options: `none` where it prints the help and exits with status 0. The configuration
-- path is read and not used.
unfoldable parse_extract : List ExtractArg → ExtractRequest → Option ExtractRequest
parse_extract [] r = some r
parse_extract (config a ∷ rest) r = parse_extract rest r
parse_extract (master ∷ rest) r = parse_extract rest r
parse_extract (dev a ∷ rest) r = parse_extract rest (record r { dev_name = some a })
parse_extract (name a ∷ rest) r = parse_extract rest (record r { file_name = some a })
parse_extract (offset a ∷ rest) r = parse_extract rest (record r { from = atoi a })
parse_extract (len a ∷ rest) r = parse_extract rest (record r { length = atoi a })
parse_extract (help ∷ rest) r = none

abbrev is_zero : ℤ → Bool
is_zero (pos zero) = true
is_zero (pos (suc n)) = false
is_zero (negsuc n) = false

-- The export that the process starts; `none` where it exits with status 0 instead.
abbrev ExportCall : Type 0
ExportCall = List ℕ × List ℕ × ℤ × ℤ

unfoldable requested : ExtractRequest → Option ExportCall
requested r = elim r.dev_name [
  | none ↦ none
  | some d ↦ elim r.file_name [
    | none ↦ none
    | some f ↦ if is_zero r.length then none else some (d, f, r.from, r.length)
  ]
]

-- `main`: the exit status, with what `ExportBlkDevice` answers.
unfoldable extract_main : (ExportCall → Bool) → List ExtractArg → ℕ
extract_main answer args = elim (parse_extract args no_request) [
  | none ↦ 0
  | some r ↦ elim (requested r) [ none ↦ 0 | some e ↦ if answer e then 0 else 255 ]
]

low_int_cut : (n k : ℕ) → n < 2147483648 → low_int (n + k * u32) ≡ pos n
unfolding low_int
low_int_cut n k h = let low : (n + k * u32) % u32 ≡ n = omega arith in rw low (ground arith)

atoi-print :
    (n k : ℕ) → n < 2147483648 → n + k * u32 ≤ long_max → atoi (to_base 10 (n + k * u32)) ≡ pos n
unfolding atoi
atoi-print n k small fits = rw (atol-print (n + k * u32) fits, atoi) (low_int_cut n k small)

not_zero :
    (d f : List ℕ) (from : ℤ) (size : ℕ)
    → 0 < size
    → requested (record { dev_name = some d; file_name = some f; from = from; length = pos size })
      ≡ some (d, f, from, pos size)
unfolding requested
not_zero d f from zero h = elim h [ ]
not_zero d f from (suc n) h = refl

-- The offset and the length of an export are the printed numbers, less their multiples of 2 ^ 32: an
-- offset or a length from 2 ^ 31 on cannot be given.
requested-print :
    (d f : List ℕ) (from size k j : ℕ)
    → from < 2147483648
    → size < 2147483648
    → 0 < size
    → from + k * u32 ≤ long_max
    → size + j * u32 ≤ long_max
    → (r : ExtractRequest) × (parse_extract
          (dev d
            ∷ name f
            ∷ offset (to_base 10 (from + k * u32))
            ∷ len (to_base 10 (size + j * u32))
            ∷ [])
          no_request
        ≡ some r)
      × (requested r ≡ some (d, f, pos from, pos size))
unfolding parse_extract
requested-print d f from size k j low low' some_bytes fits fits' = (
  record { dev_name = some d; file_name = some f; from = pos from; length = pos size },
  λ i. some (record {
    dev_name = some d;
    file_name = some f;
    from = atoi-print from k low fits i;
    length = atoi-print size j low' fits' i;
  }),
  not_zero d f (pos from) size some_bytes,
)
