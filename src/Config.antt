-- ===== src/Config.antt =====
-- lib/config_load.cc: which settings are taken from the configuration file. The parser of the file is
-- a parameter: whether it loads, which sections it has and the values of its keys.
use blockfs.Prelude.{
  ℕ, ◌≡◌, List, [], ◌∷◌, Option, none, some, Bool, true, false, ◌&&◌, ◌||◌, not, if◌then◌else◌,
  is_empty, arith,
}
use blockfs.Logging.{LogLevel, log_level_convert}

pub record Ini : Type 0 where
  pub loads : Bool
  pub has_section : List ℕ → Bool
  pub get_string_value : List ℕ → List ℕ → Option (List ℕ)

-- The settings that `ParseConfig` fills in, and the least level of the log.
pub record Settings : Type 0 where
  pub log_level : List ℕ
  pub log_path : List ℕ
  pub device_uuid : List ℕ
  pub min_level : LogLevel

abbrev pub common_section : List ℕ
common_section = b'c' ∷ b'o' ∷ b'm' ∷ b'm' ∷ b'o' ∷ b'n' ∷ []

abbrev pub bfs_section : List ℕ
bfs_section = b'b' ∷ b'f' ∷ b's' ∷ []

abbrev fuse_section : List ℕ
fuse_section = b'f' ∷ b'u' ∷ b's' ∷ b'e' ∷ []

abbrev pub log_level_key : List ℕ
log_level_key = b'l' ∷ b'o' ∷ b'g' ∷ b'_' ∷ b'l' ∷ b'e' ∷ b'v' ∷ b'e' ∷ b'l' ∷ []

abbrev pub log_path_key : List ℕ
log_path_key = b'l' ∷ b'o' ∷ b'g' ∷ b'_' ∷ b'p' ∷ b'a' ∷ b't' ∷ b'h' ∷ []

abbrev pub device_uuid_key : List ℕ
device_uuid_key = b'd' ∷ b'e' ∷ b'v' ∷ b'i' ∷ b'c' ∷ b'e' ∷ b'_' ∷ b'u' ∷ b'u' ∷ b'i' ∷ b'd' ∷ []

abbrev pub default_log_level : List ℕ
default_log_level = b'I' ∷ b'N' ∷ b'F' ∷ b'O' ∷ []

-- "/var/log/mfs/".
abbrev pub default_log_path : List ℕ
default_log_path =
    b'/' ∷ b'v' ∷ b'a' ∷ b'r' ∷ b'/' ∷ b'l' ∷ b'o' ∷ b'g' ∷ b'/' ∷ b'm' ∷ b'f' ∷ b's' ∷ b'/' ∷ []

abbrev pub or_default : Option (List ℕ) → List ℕ → List ℕ
or_default none d = d
or_default (some v) d = v

-- The two settings of the log, and the least level that takes effect.
unfoldable pub take_log_settings : Ini → Settings → Settings
take_log_settings ini c =
    let level = or_default (ini.get_string_value common_section log_level_key) default_log_level in
    record c {
      log_level = level;
      log_path = or_default (ini.get_string_value common_section log_path_key) default_log_path;
      min_level = log_level_convert level;
    }

-- `ParseConfig`: the result with the settings that it leaves.
unfoldable pub parse_config : List ℕ → Ini → Settings → Bool × Settings
parse_config path ini c =
    let logged = take_log_settings ini c in
    if is_empty path
    then (false, c)
    else if not ini.loads
    then (false, c)
    else if not (ini.has_section common_section)
        || (not (ini.has_section bfs_section) || not (ini.has_section fuse_section))
    then (false, c)
    else elim (ini.get_string_value bfs_section device_uuid_key) [
      | none ↦ (false, logged)
      | some uuid ↦ (true, record logged { device_uuid = uuid })
    ]

-- The file is there, loads and has the three sections.
abbrev pub is_complete : List ℕ → Ini → Bool
is_complete path ini =
    not (is_empty path)
    && (ini.loads
        && (ini.has_section common_section
            && (ini.has_section bfs_section && ini.has_section fuse_section)))

abbrev pub has_value : Option (List ℕ) → Bool
has_value none = false
has_value (some v) = true

-- A configuration is accepted exactly when its file loads with the three sections and it names a
-- device. The three settings of the log take effect, with their defaults, as soon as the sections are
-- there; the device is left as it was unless the configuration is accepted. An incomplete file changes
-- no setting.
pub parse_config_lem :
    (path : List ℕ) (ini : Ini) (c : Settings)
    → let level =
        or_default (ini.get_string_value common_section log_level_key) default_log_level in
      ((parse_config path ini c).0
        ≡ (is_complete path ini && has_value (ini.get_string_value bfs_section device_uuid_key)))
      × ((parse_config path ini c).1 ≡ (
          if is_complete path ini
          then record {
            log_level = level;
            log_path =
                or_default (ini.get_string_value common_section log_path_key) default_log_path;
            device_uuid =
                or_default (ini.get_string_value bfs_section device_uuid_key) c.device_uuid;
            min_level = log_level_convert level;
          }
          else c))
unfolding parse_config take_log_settings
parse_config_lem path ini c = (ground arith, ground arith)
