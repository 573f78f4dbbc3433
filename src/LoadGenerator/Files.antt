-- ===== src/LoadGenerator/Files.antt =====
-- load_generator/files/files.go: a name for the file of the results that no file has yet.
pub mod Free
use Prim.Native.String.{◌++◌ as join}
use logarithm.Prelude.{
  ℕ, zero, suc, ◌+◌, String, List, ◌++◌, ◌==◌, if◌then◌else◌, length, Result, ◌>>=◌, ok, err,
}
use logarithm.LoadGenerator.{System, file_exists}

-- `filepath.Ext`, `strings.TrimSuffix`, `strconv.Itoa`, and the names that `os.ReadDir` lists.
pub record Names : Type 0 where
  pub extension : String → String
  pub trim_suffix : String → String → String
  pub itoa : ℕ → String
  pub read_dir : String → Result (List String)

module _ (sys : System) (ns : Names) where
  unfoldable pub num_files_in_folder : String → Result ℕ
  num_files_in_folder path = do names ← ns.read_dir path; ok (length names)

  -- The name with a number, which is left out where it is 0.
  abbrev pub name_at : String → String → ℕ → String
  name_at base ext suffix = join (if suffix == 0 then base else join base (ns.itoa suffix)) ext

  -- The loop with so many rounds left.
  unfoldable pub try_names : String → String → String → ℕ → ℕ → Result String
  try_names path base ext zero suffix = err "no valid name found"
  try_names path base ext (suc left) suffix =
      let name = name_at base ext suffix in
      let rest = try_names path base ext left (suffix + 1) in
      do exists ← file_exists sys (sys.join_path path name); if exists then rest else ok name

  unfoldable pub generate_file_name : String → String → Result String
  unfolding num_files_in_folder try_names
  generate_file_name path filename = do
    n ← num_files_in_folder path
    try_names path (ns.trim_suffix filename (ns.extension filename)) (ns.extension filename) (suc n)
        0
