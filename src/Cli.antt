-- ===== src/Cli.antt =====
-- latent-cli/src/main.rs: the subcommands, none of which is implemented yet. Reading the arguments
-- (clap) is a parameter: a command is what it gives.
use latent_dfir.Common.{ℕ, List, ◌++◌}
use latent_dfir.Source.{FilePath}
use latent_dfir.Text.{chars}

pub data CorpusAction : Type 0 where
  build : (reference : FilePath) → CorpusAction
  info : CorpusAction

pub data Command : Type 0 where
  scan gaps triage : (source : FilePath) → Command
  resolve : (artefacts : FilePath) → Command
  merge : (inputs : List FilePath) → Command
  report : (results : FilePath) → Command
  corpus : (action : CorpusAction) → Command
  verify : (manifest : FilePath) → Command

unfoldable pub name : Command → List ℕ
name (scan source) = chars "scan"
name (resolve artefacts) = chars "resolve"
name (merge inputs) = chars "merge"
name (gaps source) = chars "gaps"
name (report results) = chars "report"
name (corpus action) = chars "corpus"
name (verify manifest) = chars "verify"
name (triage source) = chars "triage"

-- What `main` prints to the standard error, and its exit code.
unfoldable pub main : Command → List ℕ × ℕ
unfolding name
main command = (chars "latent: '" ++ (name command ++ chars "' is not implemented yet\n"), 2)
