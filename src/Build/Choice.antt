-- ===== src/Build/Choice.antt =====
-- What a build decides about libewf: which library it links, and what it tells Cargo then.
use mathlib.Core.Option
use latent_dfir.Common.{
  ℕ, ◌≡◌, refl, sym, subst, ap, ◌∙◌, true, false, Bool-cases, Option-cases, inl, inr, Option, none,
  some, List, [], ◌∷◌, ◌++◌, All, Bytes, Outcome, ok,
}
use latent_dfir.Text.{chars}
use latent_dfir.Text.Utf8.{from_utf8, from_utf8_lossy}
use latent_dfir.Source.{IoError}
use latent_dfir.Build.{
  Machine, Step, cfg, warning, link_search, remove_file, make_symlink, search_dirs, is_library,
  first_library, library_of, library_in, find_dir, locate, is_linkable, link_ewf, link_alias, after,
  link_found, link, declared, is_enabled, main_located, main,
}

module _ (m : Machine) where
  abbrev pub IsOther : Bytes × m.Dir → Type 0
  IsOther (name, path) = is_library m (from_utf8_lossy name) ≡ false

  -- Nothing that the directory lists is the library, where it can be listed at all.
  abbrev pub HasNone : m.Dir → Type 0
  HasNone dir =
      (entries : List (Bytes × m.Dir)) → m.read_dir dir ≡ some entries → All IsOther entries

  -- The first library that the directory lists.
  pub record Holds (dir : m.Dir) (name : Bytes) (path : m.Dir) : Type 0 where
    pub front : List (Bytes × m.Dir)
    pub back : List (Bytes × m.Dir)
    pub listed : m.read_dir dir ≡ some (front ++ (name, path) ∷ back)
    pub others : All IsOther front
    pub library : is_library m (from_utf8_lossy name) ≡ true

  -- A directory of a list, where those before it have no library.
  pub record IsFirst (dir : m.Dir) (dirs : List m.Dir) : Type 0 where
    pub earlier : List m.Dir
    pub later : List m.Dir
    pub searched : dirs ≡ earlier ++ dir ∷ later
    pub without : All HasNone earlier

  -- How the linker comes to a file named libewf.so or libewf.dylib: in the library's directory
  -- under its own name, or by a link of that name in `out`. The steps that this takes, and the
  -- directory to search.
  pub data Provides (dir out : m.Dir) (name : Bytes) (path : m.Dir)
      : List (Step m) → m.Dir → Type 0 where
    by_name : is_linkable m (from_utf8 name) ≡ true → Provides dir out name path [] dir
    by_alias :
        is_linkable m (from_utf8 name) ≡ false
        → Provides dir out name path
            (remove_file (m.join out (chars "libewf.so"))
              ∷ make_symlink path (m.join out (chars "libewf.so"))
              ∷ [])
            out

  pub data Decision (out : m.Dir) : List (Step m) × Outcome IoError (Unit {0}) → Type 0 where
    off : is_enabled m ≡ false → Decision out (declared m, ok tt)
    absent :
        is_enabled m ≡ true
        → All HasNone (search_dirs m)
        → Decision out (declared m ++ (warning ∷ []), ok tt)
    linked :
        {searched : m.Dir} {steps : List (Step m)} (dir path : m.Dir) (name : Bytes)
        → is_enabled m ≡ true
        → IsFirst dir (search_dirs m)
        → Holds dir name path
        → Provides dir out name path steps searched
        → Decision out (
          declared m
              ++ cfg (chars "latent_ewf") ∷ (steps ++ link_search searched ∷ link_ewf m ∷ []),
          ok tt,
        )

  -- Cargo sets OUT_DIR for a build script, and the links in it can be made.
  pub record HasOutDir (out : m.Dir) : Type 0 where
    pub value : List ℕ
    pub is_set : m.env_var (chars "OUT_DIR") ≡ some value
    pub path : m.from_text value ≡ out
    pub links : (target link : m.Dir) → m.symlink target link ≡ true

  first_library-none :
      (entries : List (Bytes × m.Dir)) → first_library m entries ≡ none → All IsOther entries
  unfolding first_library
  first_library-none [] h = tt
  first_library-none ((name, path) ∷ entries) h =
      elim (Bool-cases (is_library m (from_utf8_lossy name))) [
        | inl hit ↦ absurd (Option.some-ne-none _ (rw hit at h))
        | inr miss ↦ (miss, first_library-none entries (rw miss at h))
      ]

  library_in-HasNone : (dir : m.Dir) → library_in m dir ≡ none → HasNone dir
  unfolding library_in library_of
  library_in-HasNone dir h entries e = first_library-none entries (rw e at h)

  first_library-split :
      (entries : List (Bytes × m.Dir)) (name : Bytes) (path : m.Dir)
      → first_library m entries ≡ some (name, path)
      → (front back : List (Bytes × m.Dir)) × (entries ≡ front ++ (name, path) ∷ back)
        × All IsOther front
        × (is_library m (from_utf8_lossy name) ≡ true)
  unfolding first_library
  first_library-split [] name path h = absurd (Option.none-ne-some _ h)
  first_library-split ((n, p) ∷ entries) name path h =
      elim (Bool-cases (is_library m (from_utf8_lossy n))) [
        | inl hit ↦
            let e : (n, p) ≡ (name, path) = Option.some-injective _ _ (rw hit at h) in
            (
              [],
              entries,
              ap (λ x. x ∷ entries) e,
              tt,
              subst (λ (x, y). is_library m (from_utf8_lossy x) ≡ true) e hit,
            )
        | inr miss ↦
            let (front, back, place, others, library) =
              first_library-split entries name path (rw miss at h) in
            ((n, p) ∷ front, back, ap (λ es. (n, p) ∷ es) place, (miss, others), library)
      ]

  library_in-Holds :
      (dir : m.Dir) (name : Bytes) (path : m.Dir)
      → library_in m dir ≡ some (name, path)
      → Holds dir name path
  unfolding library_in library_of
  library_in-Holds dir name path h = elim (Option-cases (m.read_dir dir)) [
    | inl unlisted ↦ absurd (Option.none-ne-some _ (rw unlisted at h))
    | inr (entries, e) ↦
        let (front, back, place, others, library) =
          first_library-split entries name path (rw e at h) in
        record {
          front = front;
          back = back;
          listed = e ∙ ap some place;
          others = others;
          library = library;
        }
  ]

  find_dir-none : (dirs : List m.Dir) → find_dir m dirs ≡ none → All HasNone dirs
  unfolding find_dir
  find_dir-none [] h = tt
  find_dir-none (dir ∷ dirs) h = elim (Option-cases (library_in m dir)) [
    | inl e ↦ (library_in-HasNone dir e, find_dir-none dirs (rw e at h))
    | inr (x, e) ↦ absurd (Option.some-ne-none _ (rw e at h))
  ]

  find_dir-IsFirst :
      (dirs : List m.Dir) (dir : m.Dir)
      → find_dir m dirs ≡ some dir
      → IsFirst dir dirs × (name : Bytes) × (path : m.Dir) × (library_in m dir ≡ some (name, path))
  unfolding find_dir
  find_dir-IsFirst [] dir h = absurd (Option.none-ne-some _ h)
  find_dir-IsFirst (d ∷ dirs) dir h = elim (Option-cases (library_in m d)) [
    | inl e ↦
        let (first, name, path, found) = find_dir-IsFirst dirs dir (rw e at h) in
        (
          record {
            earlier = d ∷ first.earlier;
            later = first.later;
            searched = ap (λ ds. d ∷ ds) first.searched;
            without = (library_in-HasNone d e, first.without);
          },
          name,
          path,
          found,
        )
    | inr ((name, path), e) ↦
        let same : d ≡ dir = Option.some-injective _ _ (rw e at h) in
        (
          record { earlier = []; later = dirs; searched = ap (λ x. x ∷ dirs) same; without = tt },
          name,
          path,
          rw (sym same) e,
        )
  ]

  module _ (out : m.Dir) (machine : HasOutDir out) where
    link_found-linked :
        (dir path : m.Dir) (name : Bytes)
        → is_enabled m ≡ true
        → IsFirst dir (search_dirs m)
        → Holds dir name path
        → Decision out (after m (declared m) (link_found m dir (some (name, path))))
    unfolding link_found link_alias
    link_found-linked dir path name on first holds =
        elim (Bool-cases (is_linkable m (from_utf8 name))) [
          | inl named ↦ rw named (linked dir path name on first holds (by_name named))
          | inr other ↦
              rw (other, machine.is_set, machine.path, machine.links)
                (linked dir path name on first holds (by_alias other))
        ]

    main_located-Decision :
        (o : Option m.Dir)
        → is_enabled m ≡ true
        → find_dir m (search_dirs m) ≡ o
        → Decision out (after m (declared m) (main_located m o))
    unfolding main_located link
    main_located-Decision none on e = absent on (find_dir-none (search_dirs m) e)
    main_located-Decision (some dir) on e =
        let (first, name, path, found) = find_dir-IsFirst (search_dirs m) dir e in
        rw found (link_found-linked dir path name on first (library_in-Holds dir name path found))

    -- If Cargo sets OUT_DIR and links can be made in it, the build script never panics, and it does
    -- one of three things: it leaves EWF off because it is told to or the target is not Unix; it
    -- warns because no directory that it searches has a libewf; or it turns EWF on with the first
    -- library of the first directory that has one, and gives the linker a directory where that
    -- library is found under a name without a version.
    pub main-Decision : Decision out (main m)
    unfolding main locate
    main-Decision = elim (Bool-cases (is_enabled m)) [
      | inl on ↦ rw on (main_located-Decision (locate m) on refl)
      | inr disabled ↦ rw disabled (off disabled)
    ]
