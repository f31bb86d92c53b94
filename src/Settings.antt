-- ===== src/Settings.antt =====
-- relayer/viper.go: how the settings are read from a file. The `viper` library and the file system are
-- parameters; a path is the list of its bytes.
pub mod Files
use bas_relay_hub.Prelude.{ℕ, Bool, true, false, ◌||◌, List, [], ◌∷◌, Bytes, ◌==◌, if◌then◌else◌}
use bas_relay_hub.Errors.{Result, ok, err, panic, fatal, ◌>>=◌}
use bas_relay_hub.Slices.{slice_from}
use bas_relay_hub.Node.{or_fatal}

-- `viper.Viper` and its methods, and `os.Stat`
pub record ViperOps (V : Type 0) : Type 0 where
  pub new : V
  pub automatic_env : V → V
  pub set_env_key_replacer : V → V
  pub get_string : Bytes → V → Bytes
  pub set_config_type : Bytes → V → V
  pub set_config_file : Bytes → V → V
  pub read_in_config : V → Result V
  pub stat : Bytes → Result (Unit {0})

-- `./config.yaml`
abbrev pub default_config_file : Bytes
default_config_file =
    b'.' ∷ b'/' ∷ b'c' ∷ b'o' ∷ b'n' ∷ b'f' ∷ b'i' ∷ b'g' ∷ b'.' ∷ b'y' ∷ b'a' ∷ b'm' ∷ b'l' ∷ []

-- `config-path`
abbrev pub config_path_key : Bytes
config_path_key = b'c' ∷ b'o' ∷ b'n' ∷ b'f' ∷ b'i' ∷ b'g' ∷ b'-' ∷ b'p' ∷ b'a' ∷ b't' ∷ b'h' ∷ []

-- whether a path has a dot or a slash
abbrev pub has_mark : Bytes → Bool
has_mark [] = false
has_mark (c ∷ s) = (c == b'.') || ((c == b'/') || has_mark s)

-- `filepath.Ext`: from the last dot on, if no slash comes behind it
abbrev pub ext : Bytes → Bytes
ext [] = []
ext (c ∷ s) = let later = ext s in if has_mark s then later else if c == b'.' then c ∷ s else []

-- the path that is configured, or the default
unfoldable pub config_path_of : Bytes → Bytes
config_path_of [] = default_config_file
config_path_of (c ∷ s) = c ∷ s

module _ {V : Type 0} (viper : ViperOps V) where
  -- the rest of `readFromFile`, on a path whose file is there
  unfoldable pub read_path : Bytes → V → Result V
  read_path config_path v = do
    ext' ← slice_from 1 (ext config_path)
    or_fatal
        (viper.read_in_config (viper.set_config_file config_path (viper.set_config_type ext' v)))

  unfoldable pub read_from_file : V → Result V
  unfolding config_path_of read_path
  read_from_file v =
      let config_path = config_path_of (viper.get_string config_path_key v) in
      let found = read_path config_path v in
      elim (viper.stat config_path) [ ok _ ↦ found | err e ↦ ok v | panic p ↦ panic p ]

  unfoldable pub new_viper : Result V
  new_viper = read_from_file (viper.set_env_key_replacer (viper.automatic_env viper.new))
