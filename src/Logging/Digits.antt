-- ===== src/Logging/Digits.antt =====
-- The digits of a number (`ConvertHex` and the integer conversions of `sprintf` in lib/logging.cc).
use blockfs.Prelude.{
  ℕ, zero, suc, ◌+◌, ◌-◌, ◌*◌, ◌/◌, ◌%◌, ◌≤◌, ◌<◌, ◌≡◌, ◌≢◌, ◌∙◌, ap, subst, List, [], ◌∷◌, inl,
  inr, ◌==◌, leb, if◌then◌else◌, length, arith, Bool-cases, ==_iff,
}
use native.Mathlib.Nat.{mod-add-div, mod-lt, div-eq_of_lt, div-lt_iff_lt-mul, div-lt_self, mul_comm}
use blockfs.Logging.{digit, digit_loop, reverse_onto, to_base}

-- What a digit stands for.
abbrev digit_value : ℕ → ℕ
digit_value c = if leb b'A' c then c - b'A' + 10 else c - b'0'

-- The number that a text of digits stands for, read from its head.
unfoldable pub read_base : ℕ → ℕ → List ℕ → ℕ
read_base base acc [] = acc
read_base base acc (c ∷ cs) = read_base base (acc * base + digit_value c) cs

-- The same for digits that stand the other way round.
read_back : ℕ → List ℕ → ℕ
read_back base [] = 0
read_back base (c ∷ cs) = digit_value c + base * read_back base cs

-- A text without NUL bytes.
abbrev pub Clean : List ℕ → Type 0
Clean [] = Unit {0}
Clean (c ∷ cs) = (c ≢ 0) × Clean cs

abbrev pub power : ℕ → ℕ → ℕ
power base zero = 1
power base (suc k) = base * power base k

digit_value-digit : (d : ℕ) → d < 16 → digit_value (digit d) ≡ d
digit_value-digit d h = ground arith

digit-ne-zero : (d : ℕ) → digit d ≢ 0
digit-ne-zero d = ground arith

read_back-digit_loop :
    (base fuel n : ℕ)
    → 2 ≤ base
    → base ≤ 16
    → n < fuel
    → read_back base (digit_loop base fuel n) ≡ n
unfolding digit_loop read_back
read_back-digit_loop base zero n low high enough = absurd (omega arith)
read_back-digit_loop base (suc fuel) n low high enough =
    let rest : n % base + base * (n / base) ≡ n = mod-add-div n base in
    let small : n % base < base = mod-lt n (omega arith) in
    let head : digit_value (digit (n % base)) ≡ n % base =
      digit_value-digit (n % base) (omega arith) in
    elim (Bool-cases (n / base == 0)) [
      | inl done ↦
          let none_left : n / base ≡ 0 = (==_iff (n / base) 0).0 done in
          rw (head, done) (rw none_left at rest)
      | inr more ↦
          let pos : 0 < n = ground (arith, div-eq_of_lt {n = n} {m = base}) in
          let less : n / base < fuel =
            omega (arith, div-lt_self {n = n} {k = base} pos (omega arith)) in
          rw (head, more, read_back-digit_loop base fuel (n / base) low high less) rest
    ]

digit_step : (b a p r d : ℕ) → (a * p + r) * b + d ≡ a * (b * p) + (d + b * r)
digit_step b a p r d = grind arith

read_base-read_back :
    (base acc : ℕ) (ds done : List ℕ)
    → read_base base acc (reverse_onto ds done)
      ≡ read_base base (acc * power base (length ds) + read_back base ds) done
unfolding reverse_onto read_base read_back
read_base-read_back base acc [] done = ap (λ t. read_base base t done) (omega arith)
read_base-read_back base acc (d ∷ ds) done =
    read_base-read_back base acc ds (d ∷ done)
    ∙ ap (λ t. read_base base t done)
        (digit_step base acc (power base (length ds)) (read_back base ds) (digit_value d))

zero_times : (p r : ℕ) → 0 * p + r ≡ r
zero_times p r = omega arith

-- The text of a number, in any base from two to sixteen, reads back as the number.
pub read_base-to_base : (base n : ℕ) → 2 ≤ base → base ≤ 16 → read_base base 0 (to_base base n) ≡ n
unfolding to_base read_base
read_base-to_base base n low high =
    read_base-read_back base 0 (digit_loop base (suc n) n) []
    ∙ zero_times (power base (length (digit_loop base (suc n) n))) _
    ∙ read_back-digit_loop base (suc n) n low high (omega arith)

length-digit_loop :
    (base fuel n k : ℕ)
    → 2 ≤ base
    → n < power base (suc k)
    → length (digit_loop base fuel n) ≤ suc k
unfolding digit_loop
length-digit_loop base zero n k low h = omega arith
length-digit_loop base (suc fuel) n zero low h =
    rw (div-eq_of_lt {n = n} {m = base} (omega arith)) (omega arith)
length-digit_loop base (suc fuel) n (suc k) low h =
    let fewer : n / base < power base (suc k) =
      (div-lt_iff_lt-mul {k = base} {x = n} {y = power base (suc k)} (omega arith)).1
        (subst (λ t. n < t) (mul_comm base (power base (suc k))) h) in
    ground (arith, length-digit_loop base fuel (n / base) k low fewer)

length-reverse_onto : (xs done : List ℕ) → length (reverse_onto xs done) ≡ length xs + length done
unfolding reverse_onto
length-reverse_onto [] done = omega arith
length-reverse_onto (x ∷ xs) done = omega (arith, length-reverse_onto xs (x ∷ done))

-- A number below a power of the base has at most as many digits as the exponent says.
pub length-to_base :
    (base n k : ℕ) → 2 ≤ base → n < power base (suc k) → length (to_base base n) ≤ suc k
unfolding to_base
length-to_base base n k low h = omega (
  arith,
  length-reverse_onto (digit_loop base (suc n) n) [],
  length-digit_loop base (suc n) n k low h,
)

digit_loop-Clean : (base fuel n : ℕ) → Clean (digit_loop base fuel n)
unfolding digit_loop
digit_loop-Clean base zero n = tt
digit_loop-Clean base (suc fuel) n = elim (Bool-cases (n / base == 0)) [
  | inl done ↦ rw done (digit-ne-zero (n % base), tt)
  | inr more ↦ rw more (digit-ne-zero (n % base), digit_loop-Clean base fuel (n / base))
]

reverse_onto-Clean : (xs done : List ℕ) → Clean xs → Clean done → Clean (reverse_onto xs done)
unfolding reverse_onto
reverse_onto-Clean [] done h k = k
reverse_onto-Clean (x ∷ xs) done h k = reverse_onto-Clean xs (x ∷ done) h.1 (h.0, k)

pub to_base-Clean : (base n : ℕ) → Clean (to_base base n)
unfolding to_base
to_base-Clean base n =
    reverse_onto-Clean (digit_loop base (suc n) n) [] (digit_loop-Clean base (suc n) n) tt

-- A text of decimal digits.
abbrev pub Decimal : List ℕ → Type 0
Decimal [] = Unit {0}
Decimal (c ∷ cs) = ((b'0' ≤ c) × (c ≤ b'9')) × Decimal cs

decimal_digit : (d : ℕ) → d < 10 → (b'0' ≤ digit d) × (digit d ≤ b'9')
decimal_digit d h = ground arith

digit_loop-Decimal : (fuel n : ℕ) → Decimal (digit_loop 10 fuel n)
unfolding digit_loop
digit_loop-Decimal zero n = tt
digit_loop-Decimal (suc fuel) n =
    let head = decimal_digit (n % 10) (omega arith) in
    elim (Bool-cases (n / 10 == 0)) [
      | inl done ↦ rw done (head, tt)
      | inr more ↦ rw more (head, digit_loop-Decimal fuel (n / 10))
    ]

reverse_onto-Decimal :
    (xs done : List ℕ) → Decimal xs → Decimal done → Decimal (reverse_onto xs done)
unfolding reverse_onto
reverse_onto-Decimal [] done h k = k
reverse_onto-Decimal (x ∷ xs) done h k = reverse_onto-Decimal xs (x ∷ done) h.1 (h.0, k)

pub to_base-Decimal : (n : ℕ) → Decimal (to_base 10 n)
unfolding to_base
to_base-Decimal n =
    reverse_onto-Decimal (digit_loop 10 (suc n) n) [] (digit_loop-Decimal (suc n) n) tt

pub to_base_pos : (base n : ℕ) → 0 < length (to_base base n)
unfolding to_base digit_loop
to_base_pos base n = omega (arith, length-reverse_onto (digit_loop base (suc n) n) [])
