-- ===== src/Collection/Walk.antt =====
-- Counting what the walk finds.
use latent_dfir.Common.{
  ℕ, zero, suc, ◌+◌, ◌≤◌, ◌<◌, ◌≡◌, refl, ◌∙◌, arith, Bool, true, false, both_ways, Option, none,
  some, List, [], ◌∷◌, ◌++◌, All, subst, if◌then◌else◌,
}
use latent_dfir.Source.{FilePath}
use latent_dfir.Collection.{
  FileNames, Kind, directory, unreadable_directory, file, special, unknown, Entries, no_more,
  failed, found, Entry, Collection, readable, name_leb, insert_entry, sort_entries, skip, add_file,
  visit, visit_all, walk, kind_depth, depth, walk_root,
}

-- How many of the paths satisfy `q`.
unfoldable pub count : (FileNames → Bool) → List FileNames → ℕ
count q [] = 0
count q (p ∷ ps) = (if q p then 1 else 0) + count q ps

count-append :
    (q : FileNames → Bool) (ps qs : List FileNames) → count q (ps ++ qs) ≡ count q ps + count q qs
unfolding count
count-append q [] qs = omega arith
count-append q (p ∷ ps) qs = omega (arith, count-append q ps qs)

-- Which files the walk keeps, and which other entries it skips.
pub data Fate : Type 0 where
  kept skipped : Fate

abbrev pub of_length : Fate → Option ℕ → ℕ
of_length kept (some (suc n)) = 1
of_length kept _ = 0
of_length skipped (some (suc n)) = 0
of_length skipped _ = 1

abbrev pub of_other : Fate → ℕ
of_other kept = 0
of_other skipped = 1

abbrev pub of_fate : Fate → Collection → List FileNames
of_fate kept c = c.files
of_fate skipped c = c.skipped

if_same : (b : Bool) → ◌≡◌ {A = ℕ} (if b then 0 else 0) 0
if_same true = refl
if_same false = refl

skip-count :
    (q : FileNames → Bool) (fate : Fate) (c : Collection) (path : FileNames)
    → count q (of_fate fate (skip c path))
      ≡ count q (of_fate fate c) + (if q path then of_other fate else 0)
unfolding skip count
skip-count q kept c path = omega (arith, if_same (q path))
skip-count q skipped c path = count-append q c.skipped (path ∷ []) ∙ omega arith

add_file-count :
    (q : FileNames → Bool) (fate : Fate) (c : Collection) (path : FileNames) (len : Option ℕ)
    → count q (of_fate fate (add_file c path len))
      ≡ count q (of_fate fate c) + (if q path then of_length fate len else 0)
unfolding add_file count
add_file-count q kept c path none = skip-count q kept c path
add_file-count q kept c path (some zero) = skip-count q kept c path
add_file-count q kept c path (some (suc n)) = count-append q c.files (path ∷ []) ∙ omega arith
add_file-count q skipped c path none = skip-count q skipped c path
add_file-count q skipped c path (some zero) = skip-count q skipped c path
add_file-count q skipped c path (some (suc n)) = omega (arith, if_same (q path))

module _ (q : FileNames → Bool) (fate : Fate) where
  -- How many entries of that fate there are in a tree whose paths satisfy `q`: a file with bytes in
  -- it is kept, and one that is empty or whose length is not known is skipped, as are entries that
  -- are neither file nor directory.
  unfoldable mutual
    pub tally_kind : FileNames → Kind → ℕ
    tally_kind path (directory es) = tally path es
    tally_kind path unreadable_directory = 0
    tally_kind path (file len) = if q path then of_length fate len else 0
    tally_kind path special = if q path then of_other fate else 0
    tally_kind path unknown = if q path then of_other fate else 0

    pub tally : FileNames → Entries → ℕ
    tally dir no_more = 0
    tally dir (failed es) = tally dir es
    tally dir (found name kind es) = tally_kind (dir ++ (name ∷ [])) kind + tally dir es

  tally_all : FileNames → List Entry → ℕ
  tally_all dir [] = 0
  tally_all dir (e ∷ es) = tally_kind (dir ++ (e.name ∷ [])) e.kind + tally_all dir es

  readable-tally : (dir : FileNames) (es : Entries) → tally_all dir (readable es) ≡ tally dir es
  unfolding tally tally_all readable
  readable-tally dir no_more = refl
  readable-tally dir (failed es) = readable-tally dir es
  readable-tally dir (found name kind es) = omega (arith, readable-tally dir es)

  insert_entry-tally :
      (dir : FileNames) (e : Entry) (es : List Entry)
      → tally_all dir (insert_entry e es)
        ≡ tally_kind (dir ++ (e.name ∷ [])) e.kind + tally_all dir es
  unfolding tally_all insert_entry
  insert_entry-tally dir e [] = refl
  insert_entry-tally dir e (x ∷ xs) =
      both_ways
        (λ l. tally_all dir l ≡ tally_kind (dir ++ (e.name ∷ [])) e.kind + tally_all dir (x ∷ xs))
        (name_leb e.name x.name) _ _ (λ h. refl) λ h. omega (arith, insert_entry-tally dir e xs)

  sort_entries-tally :
      (dir : FileNames) (es : List Entry) → tally_all dir (sort_entries es) ≡ tally_all dir es
  unfolding tally_all sort_entries
  sort_entries-tally dir [] = refl
  sort_entries-tally dir (e ∷ es) =
      insert_entry-tally dir e (sort_entries es) ∙ omega (arith, sort_entries-tally dir es)

  visit-count :
      (rec : FileNames → Entries → Collection → Collection) (path : FileNames) (kind : Kind)
      (c : Collection)
      → ((es : Entries)
          → kind ≡ directory es
          → count q (of_fate fate (rec path es c)) ≡ count q (of_fate fate c) + tally path es)
      → count q (of_fate fate (visit rec path kind c))
        ≡ count q (of_fate fate c) + tally_kind path kind
  unfolding visit tally_kind
  visit-count rec path (directory es) c h = h es refl
  visit-count rec path unreadable_directory c h = omega arith
  visit-count rec path (file len) c h = add_file-count q fate c path len
  visit-count rec path special c h = skip-count q fate c path
  visit-count rec path unknown c h = skip-count q fate c path

  Shallow : ℕ → List Entry → Type 0
  Shallow fuel = All (λ e. kind_depth e.kind ≤ fuel)

  readable-Shallow : (es : Entries) (fuel : ℕ) → depth es ≤ suc fuel → Shallow fuel (readable es)
  unfolding depth readable Shallow
  readable-Shallow no_more fuel h = tt
  readable-Shallow (failed es) fuel h = readable-Shallow es fuel h
  readable-Shallow (found name kind es) fuel h =
      (omega (arith, h), readable-Shallow es fuel (omega (arith, h)))

  insert_entry-Shallow :
      (fuel : ℕ) (e : Entry) (es : List Entry)
      → kind_depth e.kind ≤ fuel
      → Shallow fuel es
      → Shallow fuel (insert_entry e es)
  unfolding insert_entry Shallow
  insert_entry-Shallow fuel e [] h k = (h, tt)
  insert_entry-Shallow fuel e (x ∷ xs) h (a, b) =
      both_ways (Shallow fuel) (name_leb e.name x.name) _ _ (λ t. (h, (a, b)))
        λ t. (a, insert_entry-Shallow fuel e xs h b)

  sort_entries-Shallow :
      (fuel : ℕ) (es : List Entry) → Shallow fuel es → Shallow fuel (sort_entries es)
  unfolding sort_entries Shallow
  sort_entries-Shallow fuel [] h = tt
  sort_entries-Shallow fuel (e ∷ es) (a, b) =
      insert_entry-Shallow fuel e (sort_entries es) a (sort_entries-Shallow fuel es b)

  -- A walk on this fuel adds what there is in the tree, if the tree is not deeper.
  Adds : ℕ → Type 0
  Adds fuel =
      (dir : FileNames) (es : Entries) (c : Collection)
      → depth es ≤ fuel
      → count q (of_fate fate (walk fuel dir es c)) ≡ count q (of_fate fate c) + tally dir es

  visit_all-count :
      (fuel : ℕ) (dir : FileNames) (es : List Entry) (c : Collection)
      → Adds fuel
      → Shallow fuel es
      → count q (of_fate fate (visit_all (walk fuel) dir es c))
        ≡ count q (of_fate fate c) + tally_all dir es
  unfolding visit_all tally_all Shallow Adds kind_depth
  visit_all-count fuel dir [] c ih h = omega arith
  visit_all-count fuel dir (e ∷ es) c ih (a, b) =
      visit_all-count fuel dir es (visit (walk fuel) (dir ++ (e.name ∷ [])) e.kind c) ih b
      ∙ omega (
        arith,
        visit-count (walk fuel) (dir ++ (e.name ∷ [])) e.kind c
            (λ ds k. ih (dir ++ (e.name ∷ [])) ds c (subst (λ x. kind_depth x ≤ fuel) k a)),
      )

  depth-positive : (es : Entries) → 0 < depth es
  unfolding depth
  depth-positive no_more = omega arith
  depth-positive (failed es) = depth-positive es
  depth-positive (found name kind es) = omega (arith, depth-positive es)

  walk-Adds : (fuel : ℕ) → Adds fuel
  unfolding walk Adds
  walk-Adds zero dir es c h = absurd (omega (arith, depth-positive es))
  walk-Adds (suc fuel) dir es c h =
      visit_all-count fuel dir (sort_entries (readable es)) c (walk-Adds fuel)
        (sort_entries-Shallow fuel (readable es) (readable-Shallow es fuel h))
      ∙ omega (arith, sort_entries-tally dir (readable es), readable-tally dir es)

-- Whatever paths are counted: opening a directory as a collection keeps as many files with those
-- paths as there are files with bytes in them below it, and skips as many as there are empty files,
-- files without a known length, and other entries.
pub walk_root-tally :
    (q : FileNames → Bool) (root : FilePath) (es : Entries)
    → (count q (walk_root root (directory es)).files ≡ tally q kept [] es)
      × (count q (walk_root root (directory es)).skipped ≡ tally q skipped [] es)
unfolding walk_root visit kind_depth Adds count
walk_root-tally q root es =
    let start : Collection = record { root = root; files = []; skipped = [] } in
    (
      walk-Adds q kept (depth es) [] es start (omega arith) ∙ omega arith,
      walk-Adds q skipped (depth es) [] es start (omega arith) ∙ omega arith,
    )
