-- ===== src/Docker/Configs.antt =====
-- The config files of a deployment: writeConfigFiles and sanitizeFileName of
-- internal/shell/docker/orchestrator.go.
--
-- The file system is a parameter; what a write leaves is not modelled.
use hoster.Prelude.{
  ℕ, String, Bool, Option, none, some, List, [], ◌∷◌, ◌||◌, ◌==◌, map, str_eq, if◌then◌else◌,
  Result, ok, err,
}
use hoster.Prelude.Dict.{Dict, assign}
use hoster.Prelude.Text.{Text, codes, is_empty}
use hoster.Template.{ConfigFile}

-- A byte of the ten texts that strings.ReplaceAll puts an underscore for.
unfoldable pub is_unsafe : ℕ → Bool
is_unsafe c =
    c == b'/'
    || c == 92
    || c == b':'
    || c == b'*'
    || c == b'?'
    || c == 34
    || c == b'<'
    || c == b'>'
    || c == b'|'
    || c == b' '

abbrev pub safe : ℕ → ℕ
safe c = if is_unsafe c then b'_' else c

-- strings.Trim by underscores, at the left and at the right.
unfoldable pub trim_left : Text → Text
trim_left [] = []
trim_left (c ∷ s) = let rest = trim_left s in if c == b'_' then rest else c ∷ s

abbrev pub keep : ℕ → Text → Text
keep c [] = if c == b'_' then [] else c ∷ []
keep c (d ∷ s) = c ∷ d ∷ s

unfoldable pub trim_right : Text → Text
trim_right [] = []
trim_right (c ∷ s) = keep c (trim_right s)

-- `sanitizeFileName`.
unfoldable pub sanitize_file_name : Text → Text
unfolding is_unsafe trim_left trim_right
sanitize_file_name name = trim_right (trim_left (map safe name))

-- What `writeConfigFiles` calls: path/filepath, os, and fmt.Sscanf with "%o".
pub record FileSystem : Type 0 where
  pub is_abs : Text → Bool
  pub abs : Text → Result Text Text
  pub join : Text → Text → Text
  pub base : Text → Text
  pub mkdir_all : Text → Option Text
  pub parse_mode : String → Option ℕ
  pub write_file : Text → Text → ℕ → Option Text

-- An error of `writeConfigFiles`.
pub data ConfigError : Type 0 where
  absolute_path create_directory : Text → ConfigError
  write_failed : String → Text → ConfigError

unfoldable pub host_file_name : FileSystem → ConfigFile → Text
unfolding sanitize_file_name
host_file_name fs cf =
    let own = sanitize_file_name (codes cf.name) in
    if is_empty own then sanitize_file_name (fs.base (codes cf.path)) else own

-- The mode of a file: 0644, if none can be read.
unfoldable pub file_mode : FileSystem → ConfigFile → ℕ
file_mode fs cf =
    if str_eq cf.mode "" then 420 else elim (fs.parse_mode cf.mode) [ none ↦ 420 | some m ↦ m ]

-- The loop over the config files.
unfoldable pub write_each :
    FileSystem → Text → Dict Text → List ConfigFile → Result ConfigError (Dict Text)
unfolding host_file_name file_mode
write_each fs dir mounts [] = ok mounts
write_each fs dir mounts (cf ∷ files) =
    let host_path = fs.join dir (host_file_name fs cf) in
    elim (fs.write_file host_path (codes cf.content) (file_mode fs cf)) [
      | some e ↦ err (write_failed cf.name e)
      | none ↦ write_each fs dir (assign mounts cf.path host_path) files
    ]

abbrev absolute : FileSystem → Text → Result Text Text
absolute fs dir = if fs.is_abs dir then ok dir else fs.abs dir

-- `writeConfigFiles`.
unfoldable pub write_config_files :
    FileSystem → Text → String → List ConfigFile → Result ConfigError (Dict Text)
unfolding write_each
write_config_files fs config_dir deployment [] = ok []
write_config_files fs config_dir deployment (cf ∷ files) = elim (absolute fs config_dir) [
  | err e ↦ err (absolute_path e)
  | ok dir ↦
      let deployment_dir = fs.join dir (codes deployment) in
      elim (fs.mkdir_all deployment_dir) [
        | some e ↦ err (create_directory e)
        | none ↦ write_each fs deployment_dir [] (cf ∷ files)
      ]
]
