-- ===== src/Examples/Building.antt =====
-- The choice of libewf, and an audit log, at concrete inputs.
use latent_dfir.Common.{
  ℕ, ◌≡◌, refl, true, Option, none, some, List, [], ◌∷◌, ◌++◌, bytes_eq, ok, if◌then◌else◌,
}
use latent_dfir.Text.{chars, split_whitespace, strip_prefix, is_whitespace}
use latent_dfir.Text.Utf8.{from_utf8_lossy, decode_from, step, first_byte, from_utf8, well_formed}
use latent_dfir.Build.{
  Machine, main, search_dirs, library_in, is_enabled, link, cfg, link_search, remove_file,
  make_symlink, declared, link_ewf,
}
use latent_dfir.Build.Choice.{HasOutDir, Decision, main-Decision}

-- A build for Unix, where pkg-config names /opt/ewf and that has a versioned library only.
abbrev environment : List ℕ → Option (List ℕ)
environment name =
    if bytes_eq name (chars "CARGO_CFG_UNIX")
    then some []
    else if bytes_eq name (chars "OUT_DIR")
    then some (chars "/out")
    else none

abbrev machine : Machine
machine = record {
  Dir = List ℕ;
  from_text = λ t. t;
  join = λ dir name. dir ++ (b'/' ∷ name);
  env_var = environment;
  pkg_config = some (chars "-L/opt/ewf \n");
  read_dir = λ dir.
      if bytes_eq dir (chars "/opt/ewf")
      then some (
          (chars "libewf.a", chars "/opt/ewf/libewf.a")
          ∷ (chars "libewf.so.3", chars "/opt/ewf/libewf.so.3")
          ∷ [])
      else none;
  symlink = λ target link. true;
}

machine-HasOutDir : HasOutDir machine (chars "/out")
machine-HasOutDir = record {
  value = chars "/out";
  is_set = refl;
  path = refl;
  links = λ target link. refl;
}

main-Decision_example : Decision machine (chars "/out") (main machine)
main-Decision_example = main-Decision machine (chars "/out") machine-HasOutDir

main_links : main machine ≡ (
  declared machine
      ++ cfg (chars "latent_ewf")
        ∷ remove_file (chars "/out/libewf.so")
        ∷ make_symlink (chars "/opt/ewf/libewf.so.3") (chars "/out/libewf.so")
        ∷ link_search (chars "/out")
        ∷ link_ewf machine
        ∷ [],
  ok tt,
)
unfolding main link search_dirs library_in is_enabled split_whitespace strip_prefix is_whitespace
    from_utf8_lossy decode_from step first_byte from_utf8 well_formed
main_links = refl
