-- ===== src/Ewf/Ledger.antt =====
-- What the calls of libewf make and free.
use latent_dfir.Common.{
  ℕ, ◌≡◌, refl, ap, ◌∙◌, Bool, true, false, Option, none, some, List, [], ◌∷◌, ◌++◌, Bytes, Outcome,
  ok, leb, both_ways,
}
use latent_dfir.Source.{SourceError, FilePath}
use latent_dfir.Ewf.{
  Libewf, Call, make_names, free_names, make_handle, try_open, close_handle, free_handle,
  use_handle, EwfSource, hash_value, sized_hash, measured, tried, initialized, globbed, ewf_open,
  ewf_drop, has_nul,
}
use mathlib.Core.List.{append_assoc}

pub data HandleState : Type 0 where
  absent closed opened : HandleState

-- Whether there is a list of names, and what there is of a handle.
pub record Held : Type 0 where
  pub names : Bool
  pub handle : HandleState

abbrev pub nothing : Held
nothing = record { names = false; handle = absent }

-- What is held after a call; `none` is a misuse: something freed that is not there, or used before
-- it is open.
unfoldable pub call : Call → Bool → HandleState → Option Held
call make_names false h = some (record { names = true; handle = h })
call free_names true h = some (record { names = false; handle = h })
call make_handle n absent = some (record { names = n; handle = closed })
call (try_open true) true closed = some (record { names = true; handle = opened })
call (try_open false) true closed = some (record { names = true; handle = closed })
call use_handle n opened = some (record { names = n; handle = opened })
call close_handle n opened = some (record { names = n; handle = closed })
call free_handle n closed = some (record { names = n; handle = absent })
call _ _ _ = none

-- What is held after some calls.
unfoldable pub settle : List Call → Held → Option Held
settle [] held = some held
settle (c ∷ cs) held = elim (call c (held.names) (held.handle)) [
  | none ↦ none
  | some held' ↦ settle cs held'
]

abbrev ready : Held
ready = record { names = false; handle = opened }

module _ (lib : Libewf) where
  -- The calls that dropping a result makes.
  abbrev pub dropped : Outcome SourceError (EwfSource lib) → List Call
  dropped (ok e) = ewf_drop lib
  dropped _ = []

  hash_value-settle :
      (handle : lib.Handle) (id : Bytes) (rest : List Call)
      → settle ((hash_value lib handle id).0 ++ rest) ready ≡ settle rest ready
  unfolding hash_value settle call sized_hash
  hash_value-settle handle id rest = sized (lib.get_hash_value_size handle id)
    where
      sized :
          (o : Option ℕ) → settle ((sized_hash lib handle id o).0 ++ rest) ready ≡ settle rest ready
      sized none = refl
      sized (some size) =
          both_ways
            (λ (r : List Call × Option (List ℕ)). settle (r.0 ++ rest) ready ≡ settle rest ready)
            (leb size 1) _ _ (λ e. refl) λ e. refl

  module _ (path : FilePath) where
    -- The calls of opening and then dropping, as a list.
    abbrev pub all_calls : List Call × Outcome SourceError (EwfSource lib) → List Call
    all_calls r = r.0 ++ dropped r.1

    measured-settle :
        (handle : lib.Handle) (o : Option ℕ)
        → settle (all_calls (measured lib path handle o)) ready ≡ some nothing
    unfolding settle call measured
    measured-settle handle none = refl
    measured-settle handle (some size) =
        let md5 = b'M' ∷ b'D' ∷ b'5' ∷ [] in
        let sha1 = b'S' ∷ b'H' ∷ b'A' ∷ b'1' ∷ [] in
        let first = (hash_value lib handle md5).0 in
        let second = (hash_value lib handle sha1).0 in
        ap (λ l. settle l ready) (append_assoc first second (ewf_drop lib))
        ∙ hash_value-settle handle md5 (second ++ ewf_drop lib)
        ∙ hash_value-settle handle sha1 (ewf_drop lib)

    tried-settle :
        (handle : lib.Handle) (b : Bool)
        → settle (all_calls (tried lib path handle b)) (record { names = true; handle = closed })
          ≡ some nothing
    unfolding settle call tried
    tried-settle handle false = refl
    tried-settle handle true = measured-settle handle (lib.get_media_size handle)

    initialized-settle :
        (names : lib.Names) (o : Option lib.Handle)
        → settle
            (all_calls (initialized lib path names o))
            (record { names = true; handle = absent })
          ≡ some nothing
    unfolding settle call initialized
    initialized-settle names none = refl
    initialized-settle names (some handle) = tried-settle handle (lib.handle_open handle names)

    globbed-settle :
        (o : Option lib.Names) → settle (all_calls (globbed lib path o)) nothing ≡ some nothing
    unfolding settle call globbed
    globbed-settle none = refl
    globbed-settle (some names) = initialized-settle names lib.handle_initialize

    -- Whatever libewf answers, opening an EWF image and dropping it if it was opened makes calls in
    -- an order that libewf allows, and leaves no list of names and no handle behind.
    pub ewf_open-settle : settle (all_calls (ewf_open lib path)) nothing ≡ some nothing
    unfolding settle ewf_open
    ewf_open-settle =
        both_ways
          (λ (r : List Call × Outcome SourceError (EwfSource lib)).
            settle (all_calls r) nothing ≡ some nothing)
          (has_nul (lib.path_bytes path)) _ _ (λ e. refl)
          λ e. globbed-settle (lib.glob (lib.path_bytes path))
