-- ===== src/Collection.antt =====
-- latent-source/src/collection.rs: the files of a directory tree. The file system is a parameter:
-- the tree that it answers. A path is the list of the names below the root; a name is its bytes.
pub mod Walk
use latent_dfir.Common.{
  ℕ, zero, suc, ◌+◌, max, Bool, true, false, Option, none, some, List, [], ◌∷◌, ◌++◌, map, Bytes,
  Outcome, ok, err, ◌>>=◌, ◌>>◌, require, map_err, length, ltb, ◌==◌, if◌then◌else◌,
}
use latent_dfir.Source.{Source, SourceError, IoError, FilePath, unrecognized, io}
use latent_dfir.Source.Raw.{Host}
use latent_dfir.Ewf.{Libewf}
use latent_dfir.Open.{open_path}

abbrev pub Name : Type 0
Name = Bytes

abbrev pub FileNames : Type 0
FileNames = List Name

mutual
  -- What an entry is, as far as `read_dir`, `file_type` and `metadata` tell.
  pub data Kind : Type 0 where
    directory : Entries → Kind
    unreadable_directory : Kind
    file : (len : Option ℕ) → Kind
    special : Kind
    unknown : Kind

  -- What reading a directory gives: an entry, or an error in place of one.
  pub data Entries : Type 0 where
    no_more : Entries
    failed : Entries → Entries
    found : Name → Kind → Entries → Entries

pub record Entry : Type 0 where
  pub name : Name
  pub kind : Kind

pub record Collection : Type 0 where
  pub root : FilePath
  pub files : List FileNames
  pub skipped : List FileNames

-- `rd.filter_map(Result::ok).collect()`
unfoldable pub readable : Entries → List Entry
readable no_more = []
readable (failed es) = readable es
readable (found name kind es) = record { name = name; kind = kind } ∷ readable es

-- The order of file names: that of their bytes.
unfoldable pub name_leb : Name → Name → Bool
name_leb [] ds = true
name_leb (c ∷ cs) [] = false
name_leb (c ∷ cs) (d ∷ ds) = let rest = name_leb cs ds in if c == d then rest else ltb c d

-- `sort_by_key`, which is stable.
unfoldable pub insert_entry : Entry → List Entry → List Entry
unfolding name_leb
insert_entry e [] = e ∷ []
insert_entry e (x ∷ xs) =
    let rest = insert_entry e xs in if name_leb (e.name) (x.name) then e ∷ x ∷ xs else x ∷ rest

unfoldable pub sort_entries : List Entry → List Entry
unfolding insert_entry
sort_entries [] = []
sort_entries (e ∷ es) = insert_entry e (sort_entries es)

unfoldable pub skip : Collection → FileNames → Collection
skip c path = record c { skipped = c.skipped ++ (path ∷ []) }

unfoldable pub add_file : Collection → FileNames → Option ℕ → Collection
unfolding skip
add_file c path none = skip c path
add_file c path (some zero) = skip c path
add_file c path (some (suc n)) = record c { files = c.files ++ (path ∷ []) }

-- The body of the loop over the entries; `walk` is the call for a directory below.
unfoldable pub visit :
    (FileNames → Entries → Collection → Collection) → FileNames → Kind → Collection → Collection
unfolding skip add_file
visit walk path (directory es) c = walk path es c
visit walk path unreadable_directory c = c
visit walk path (file len) c = add_file c path len
visit walk path special c = skip c path
visit walk path unknown c = skip c path

unfoldable pub visit_all :
    (FileNames → Entries → Collection → Collection)
    → FileNames
    → List Entry
    → Collection
    → Collection
unfolding visit
visit_all walk dir [] c = c
visit_all walk dir (e ∷ es) c = visit_all walk dir es (visit walk (dir ++ (e.name ∷ [])) (e.kind) c)

-- `Collection::walk`, on fuel: the depth of the tree is enough.
unfoldable pub walk : ℕ → FileNames → Entries → Collection → Collection
unfolding visit_all sort_entries readable
walk zero dir es c = c
walk (suc fuel) dir es c = visit_all (walk fuel) dir (sort_entries (readable es)) c

unfoldable mutual
  pub kind_depth : Kind → ℕ
  kind_depth (directory es) = depth es
  kind_depth unreadable_directory = 0
  kind_depth (file len) = 0
  kind_depth special = 0
  kind_depth unknown = 0

  pub depth : Entries → ℕ
  depth no_more = 1
  depth (failed es) = depth es
  depth (found name kind es) = max (suc (kind_depth kind)) (depth es)

-- `Collection::open`, given whether the root is a directory, and what reading it gives.
unfoldable pub walk_root : FilePath → Kind → Collection
walk_root root kind =
    visit (walk (kind_depth kind)) [] kind (record { root = root; files = []; skipped = [] })

unfoldable pub is_directory : Kind → Bool
is_directory (directory es) = true
is_directory unreadable_directory = true
is_directory (file len) = false
is_directory special = false
is_directory unknown = false

unfoldable pub collection_open : FilePath → Outcome IoError Kind → Outcome SourceError Collection
collection_open root meta = do
  kind ← map_err (io root) meta
  require (is_directory kind) (unrecognized root)
  ok (walk_root root kind)

abbrev no_files : List FileNames → Bool
no_files [] = true
no_files (p ∷ ps) = false

unfoldable pub is_empty : Collection → Bool
is_empty c = no_files c.files

unfoldable pub len : Collection → ℕ
len c = length c.files

-- `sources`, where `join` puts the names below the root.
unfoldable pub sources :
    Host
    → Option Libewf
    → (FilePath → FileNames → FilePath)
    → Collection
    → List (Outcome SourceError Source)
sources host lib join c = map (λ p. open_path host lib (join (c.root) p)) c.files
