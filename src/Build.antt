-- ===== src/Build.antt =====
-- latent-source/build.rs: whether a build finds libewf, and what it tells Cargo. The machine that
-- builds is a parameter; a directory is listed twice, and answers the same both times.
pub mod Choice
use latent_dfir.Common.{
  ℕ, Bool, true, false, not, ◌&&◌, ◌||◌, Option, none, some, List, [], ◌∷◌, ◌++◌, map, Bytes,
  bytes_eq, starts_with, Outcome, ok, panic, is_none, if◌then◌else◌,
}
use latent_dfir.Text.{chars, split_whitespace, strip_prefix}
use latent_dfir.Text.Utf8.{from_utf8, from_utf8_lossy}
use latent_dfir.Source.{IoError}

-- `env::var` with `ok`, the output of `pkg-config` if it runs, `fs::read_dir` with the names and
-- paths of the entries that can be read, and whether `os::unix::fs::symlink` succeeds.
pub record Machine : Type 1 where
  pub Dir : Type 0
  pub from_text : List ℕ → Dir
  pub join : Dir → List ℕ → Dir
  pub env_var : List ℕ → Option (List ℕ)
  pub pkg_config : Option Bytes
  pub read_dir : Dir → Option (List (Bytes × Dir))
  pub symlink : Dir → Dir → Bool

module _ (m : Machine) where
  -- The lines that the script prints, and the two changes it makes to OUT_DIR, in order.
  pub data Step : Type 0 where
    check_cfg rerun cfg link_lib : List ℕ → Step
    warning : Step
    link_search : m.Dir → Step
    remove_file : m.Dir → Step
    make_symlink : (target link : m.Dir) → Step

  unfoldable pub stripped : List (List ℕ) → List m.Dir
  stripped [] = []
  stripped (tok ∷ toks) = elim (strip_prefix (chars "-L") tok) [
    | none ↦ stripped toks
    | some path ↦ m.from_text path ∷ stripped toks
  ]

  unfoldable pub of_pkg_config : Option Bytes → List m.Dir
  unfolding stripped
  of_pkg_config none = []
  of_pkg_config (some stdout) = stripped (split_whitespace (from_utf8_lossy stdout))

  unfoldable pub of_override : Option (List ℕ) → List m.Dir
  of_override none = []
  of_override (some dir) = m.from_text dir ∷ []

  unfoldable pub search_dirs : List m.Dir
  unfolding of_override of_pkg_config
  search_dirs =
      of_override (m.env_var (chars "LIBEWF_LIB_DIR"))
      ++ (of_pkg_config m.pkg_config
          ++ map m.from_text (
              chars "/usr/lib"
              ∷ chars "/usr/local/lib"
              ∷ chars "/lib/x86_64-linux-gnu"
              ∷ chars "/usr/lib/x86_64-linux-gnu"
              ∷ chars "/opt/homebrew/lib"
              ∷ chars "/usr/local/opt/libewf/lib"
              ∷ []))

  -- `hit`
  unfoldable pub is_library : List ℕ → Bool
  is_library name =
      bytes_eq name (chars "libewf.so")
      || (starts_with name (chars "libewf.so.") || bytes_eq name (chars "libewf.dylib"))

  -- The `for` of `library_in`. The path of an entry is given with its file name.
  unfoldable pub first_library : List (Bytes × m.Dir) → Option (Bytes × m.Dir)
  unfolding is_library
  first_library [] = none
  first_library ((name, path) ∷ entries) =
      let later = first_library entries in
      if is_library (from_utf8_lossy name) then some (name, path) else later

  unfoldable pub library_of : Option (List (Bytes × m.Dir)) → Option (Bytes × m.Dir)
  unfolding first_library
  library_of none = none
  library_of (some entries) = first_library entries

  unfoldable pub library_in : m.Dir → Option (Bytes × m.Dir)
  unfolding library_of
  library_in dir = library_of (m.read_dir dir)

  -- `locate`, by the `find` of an iterator.
  unfoldable pub find_dir : List m.Dir → Option m.Dir
  unfolding library_in
  find_dir [] = none
  find_dir (dir ∷ dirs) =
      let later = find_dir dirs in if not (is_none (library_in dir)) then some dir else later

  unfoldable pub locate : Option m.Dir
  unfolding find_dir search_dirs
  locate = find_dir search_dirs

  -- `linkable`
  unfoldable pub is_linkable : Option (List ℕ) → Bool
  is_linkable none = false
  is_linkable (some name) =
      bytes_eq name (chars "libewf.so") || bytes_eq name (chars "libewf.dylib")

  abbrev pub link_ewf : Step
  link_ewf = link_lib (chars "dylib=ewf")

  -- `link`, where the library is not linkable under its own name, after the look-up of OUT_DIR.
  unfoldable pub link_alias : m.Dir → Option (List ℕ) → List Step × Outcome IoError (Unit {0})
  link_alias lib none = ([], panic)
  link_alias lib (some out_dir) =
      let out = m.from_text out_dir in
      let alias = m.join out (chars "libewf.so") in
      if m.symlink lib alias
      then (remove_file alias ∷ make_symlink lib alias ∷ link_search out ∷ link_ewf ∷ [], ok tt)
      else (remove_file alias ∷ [], panic)

  abbrev pub after :
      List Step → List Step × Outcome IoError (Unit {0}) → List Step × Outcome IoError (Unit {0})
  after steps (more, r) = (steps ++ more, r)

  unfoldable pub link_found :
      m.Dir → Option (Bytes × m.Dir) → List Step × Outcome IoError (Unit {0})
  unfolding is_linkable link_alias
  link_found dir none = ([], panic)
  link_found dir (some (name, lib)) = after (cfg (chars "latent_ewf") ∷ []) (
      if is_linkable (from_utf8 name)
      then (link_search dir ∷ link_ewf ∷ [], ok tt)
      else link_alias lib (m.env_var (chars "OUT_DIR")))

  unfoldable pub link : m.Dir → List Step × Outcome IoError (Unit {0})
  unfolding link_found
  link dir = link_found dir (library_in dir)

  abbrev pub declared : List Step
  declared =
      check_cfg (chars "cfg(latent_ewf)")
      ∷ rerun (chars "LATENT_EWF")
      ∷ rerun (chars "LIBEWF_LIB_DIR")
      ∷ []

  -- The two early returns of `main`.
  unfoldable pub is_off : Option (List ℕ) → Bool
  is_off none = false
  is_off (some value) = bytes_eq value (chars "0")

  unfoldable pub is_enabled : Bool
  unfolding is_off
  is_enabled =
      not (is_off (m.env_var (chars "LATENT_EWF")))
      && not (is_none (m.env_var (chars "CARGO_CFG_UNIX")))

  unfoldable pub main_located : Option m.Dir → List Step × Outcome IoError (Unit {0})
  unfolding link
  main_located none = (warning ∷ [], ok tt)
  main_located (some dir) = link dir

  unfoldable pub main : List Step × Outcome IoError (Unit {0})
  unfolding main_located locate is_enabled
  main = after declared (if is_enabled then main_located locate else ([], ok tt))
