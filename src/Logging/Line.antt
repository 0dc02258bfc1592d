-- ===== src/Logging/Line.antt =====
-- What a log line shows (the family of `operator<<`, the constructor and the destructor of `Logger`
-- in lib/logging.cc).
use blockfs.Prelude.{
  ℕ, ◌+◌, ◌-◌, ◌≤◌, ◌<◌, ◌≡◌, ◌∙◌, refl, ap, sym, List, [], ◌∷◌, ◌++◌, none, some, true, false,
  length, replicate, arith, length-append, take_all, take-append, Option-cases, inl, inr,
  append_assoc, append_nil,
}
use blockfs.Prelude.Int.{ℤ}
use blockfs.Logging.{
  Value, string, LogLevel, append, print, print_all, buffer_size, holding, passes, line_head,
  construct, destroy, log,
}
use blockfs.Logging.Digits.{Clean}
use blockfs.Logging.Buffer.{strlen-none, append-Clean, strlen-holding}
use blockfs.Logging.Values.{shown, InRange, shown-Clean, print-holding}

unfoldable pub shown_all : List Value → List ℕ
shown_all [] = []
shown_all (v ∷ vs) = shown v ++ shown_all vs

abbrev AllInRange : List Value → Type 0
AllInRange [] = Unit
AllInRange (v ∷ vs) = InRange v × AllInRange vs

print_all-holding :
    (text : List ℕ) (vs : List Value)
    → AllInRange vs
    → Clean text
    → length text + length (shown_all vs) + 2 ≤ buffer_size
    → print_all vs (holding text) ≡ some (holding (text ++ shown_all vs))
unfolding print_all shown_all
print_all-holding text [] h clean room = ap (λ t. some (holding t)) (sym (append_nil text))
print_all-holding text (v ∷ vs) h clean room =
    let split = length-append (shown v) (shown_all vs) in
    rw (print-holding text v h.0 clean (omega (arith, split)), print_all)
      (print_all-holding (text ++ shown v) vs h.1
          (append-Clean text (shown v) clean (shown-Clean v h.0))
          (omega (arith, split, length-append text (shown v)))
        ∙ ap (λ t. some (holding t)) (append_assoc text (shown v) (shown_all vs)))

shown_all-Clean : (vs : List Value) → AllInRange vs → Clean (shown_all vs)
unfolding shown_all
shown_all-Clean [] h = tt
shown_all-Clean (v ∷ vs) h =
    append-Clean (shown v) (shown_all vs) (shown-Clean v h.0) (shown_all-Clean vs h.1)

destroy-holding :
    (min_level level : LogLevel) (text : List ℕ)
    → passes min_level level ≡ true
    → Clean text
    → length text < buffer_size
    → destroy min_level level (holding text) ≡ some (text ∷ [])
unfolding destroy
destroy-holding min_level level text passed clean room =
    rw (passed, destroy)
      (rw (strlen-holding text clean room, destroy)
        (ap (λ t. some (t ∷ [])) (take-append text (replicate (buffer_size - length text) 0))))

-- A line of a level that passes is printed whole: the head with the time, the level and the place,
-- and then every value, where the values are in the ranges of their types, addresses have at most
-- fourteen digits, texts hold no NUL, and the line leaves two bytes of the buffer free.
pub log-shows :
    (min_level level : LogLevel) (now file : List ℕ) (line : ℤ) (memory : List ℕ) (vs : List Value)
    → passes min_level level ≡ true
    → Clean (line_head now level file line)
    → AllInRange vs
    → length (line_head now level file line) + length (shown_all vs) + 2 ≤ buffer_size
    → log min_level level now file line memory vs
      ≡ some ((line_head now level file line ++ shown_all vs) ∷ [])
unfolding log construct
log-shows min_level level now file line memory vs passed clean ranges room =
    let head = line_head now level file line in
    let values = shown_all vs in
    let whole = length-append head values in
    let made : construct min_level level now file line memory ≡ holding head =
      rw (passed, construct) (rw (take_all (buffer_size - 2) head (omega arith)) refl) in
    rw (made, log)
      (rw (print_all-holding head vs ranges clean room, log)
        (destroy-holding min_level level (head ++ values) passed
          (append-Clean head values clean (shown_all-Clean vs ranges)) (omega (arith, whole))))

-- A logger below the least level never prints a line.
log_filtered :
    (min_level level : LogLevel) (now file : List ℕ) (line : ℤ) (memory : List ℕ) (vs : List Value)
    → passes min_level level ≡ false
    → (lines : List (List ℕ)) → log min_level level now file line memory vs ≡ some lines
    → lines ≡ []
unfolding log destroy
log_filtered min_level level now file line memory vs filtered lines h =
    let silent : (b : List ℕ) → destroy min_level level b ≡ some [] =
      λ b. rw (filtered, destroy) refl in
    elim (Option-cases (print_all vs (construct min_level level now file line memory))) [
      | inl overrun ↦
          let fell : log min_level level now file line memory vs ≡ none = rw (overrun, log) refl in
          cc
      | inr (b, e) ↦
          let out : log min_level level now file line memory vs ≡ some [] =
            rw (e, log) (silent b) in
          cc
    ]

-- A filtered logger appends to memory that nothing has cleared: where that holds no NUL, the first
-- text reads past the buffer.
log_overrun :
    (min_level level : LogLevel) (now file : List ℕ) (line : ℤ) (memory m : List ℕ)
    (vs : List Value)
    → passes min_level level ≡ false
    → Clean memory
    → log min_level level now file line memory (string m ∷ vs) ≡ none
unfolding log construct print_all print append
log_overrun min_level level now file line memory m vs filtered clean =
    let kept : construct min_level level now file line memory ≡ memory =
      rw (filtered, construct) refl in
    rw (kept, log) (rw (strlen-none memory clean, log) refl)
