-- ===== src/Logging/Levels.antt =====
-- Names of log levels (the two `LogLevelConvert` of lib/logging.cc).
use blockfs.Prelude.{
  ◌==◌, if◌then◌else◌, ℕ, ◌≡◌, ◌⊎◌, inl, inr, refl, ◌∙◌, List, [], ◌∷◌, bytes_eq, bytes_eq_iff,
  Bool-cases,
}

pub data LogLevel : Type 0 where
  trace : LogLevel
  debug : LogLevel
  info : LogLevel
  warning : LogLevel
  error : LogLevel
  fatal : LogLevel
  num_log_levels : LogLevel

-- The numbers of the enumeration, by which levels are compared.
abbrev pub level_number : LogLevel → ℕ
level_number trace = 0
level_number debug = 1
level_number info = 2
level_number warning = 3
level_number error = 4
level_number fatal = 5
level_number num_log_levels = 6

abbrev info_name : List ℕ
info_name = b'I' ∷ b'N' ∷ b'F' ∷ b'O' ∷ []

-- `kLevelTable`.
abbrev level_table : List (LogLevel × List ℕ)
level_table =
    (trace, b'T' ∷ b'R' ∷ b'A' ∷ b'C' ∷ b'E' ∷ [])
    ∷ (debug, b'D' ∷ b'E' ∷ b'B' ∷ b'U' ∷ b'G' ∷ [])
    ∷ (info, info_name)
    ∷ (warning, b'W' ∷ b'A' ∷ b'R' ∷ b'N' ∷ [])
    ∷ (error, b'E' ∷ b'R' ∷ b'R' ∷ b'O' ∷ b'R' ∷ [])
    ∷ (fatal, b'F' ∷ b'A' ∷ b'T' ∷ b'A' ∷ b'L' ∷ [])
    ∷ (
      num_log_levels,
      b'N' ∷ b'U' ∷ b'M' ∷ b'_' ∷ b'L' ∷ b'O' ∷ b'G' ∷ b'_' ∷ b'L' ∷ b'E' ∷ b'V' ∷ b'E' ∷ b'L'
          ∷ b'S' ∷ [],
    )
    ∷ []

unfoldable pub level_of_name : List (LogLevel × List ℕ) → List ℕ → LogLevel
level_of_name [] name = info
level_of_name ((level, n) ∷ rest) name =
    let later = level_of_name rest name in if bytes_eq n name then level else later

unfoldable pub name_of_level : List (LogLevel × List ℕ) → LogLevel → List ℕ
name_of_level [] level = info_name
name_of_level ((l, name) ∷ rest) level =
    let later = name_of_level rest level in
    if level_number l == level_number level then name else later

-- The two `LogLevelConvert`.
abbrev pub log_level_convert : List ℕ → LogLevel
log_level_convert name = level_of_name level_table name

abbrev pub log_level_name : LogLevel → List ℕ
log_level_name level = name_of_level level_table level

convert-name : (level : LogLevel) → log_level_convert (log_level_name level) ≡ level
unfolding level_of_name name_of_level
convert-name trace = refl
convert-name debug = refl
convert-name info = refl
convert-name warning = refl
convert-name error = refl
convert-name fatal = refl
convert-name num_log_levels = refl

-- A part of the table names its levels as the whole table does.
abbrev Agrees : List (LogLevel × List ℕ) → Type 0
Agrees [] = Unit
Agrees ((level, n) ∷ rest) = (log_level_name level ≡ n) × Agrees rest

level_table-Agrees : Agrees level_table
unfolding name_of_level
level_table-Agrees = (refl, (refl, (refl, (refl, (refl, (refl, (refl, tt)))))))

level_of_name-known :
    (table : List (LogLevel × List ℕ)) (name : List ℕ)
    → Agrees table
    → (log_level_name (level_of_name table name) ≡ name) ⊎ (level_of_name table name ≡ info)
unfolding level_of_name
level_of_name-known [] name h = inr refl
level_of_name-known ((level, n) ∷ rest) name h = elim (Bool-cases (bytes_eq n name)) [
  | inl same ↦ inl (rw same (h.0 ∙ (bytes_eq_iff n name).0 same))
  | inr other ↦ rw other (level_of_name-known rest name h.1)
]

-- Every level comes back from its name, and a configured name is either the name of the level that
-- it selects or selects INFO.
log_level_convert_lem :
    (level : LogLevel) (name : List ℕ)
    → (log_level_convert (log_level_name level) ≡ level)
      × ((log_level_name (log_level_convert name) ≡ name) ⊎ (log_level_convert name ≡ info))
log_level_convert_lem level name =
    (convert-name level, level_of_name-known level_table name level_table-Agrees)
