-- ===== src/Examples/Recovery.antt =====
-- A source that is scanned for EVTX structures, and what is carved from it.
use latent_dfir.Common.{◌≡◌, ◌↔◌, refl, arith, get_or, List, map, ok}
use latent_dfir.Scan.{Hit, ScanConfig, Scanner, new, scan, fit_block, resolve}
use latent_dfir.Scan.Reference.{occurrences}
use latent_dfir.Carve.Extractor.{Carved}
use latent_dfir.Carve.Registry.{Registry, build}
use latent_dfir.Carve.Registry.Workers.{extract_all}
use latent_dfir.Pipeline.Standing.{place, Stands}
use latent_dfir.Pipeline.Recovery.{Carries, run-recovers}
use latent_dfir.Examples.{memory-Serves, recorder}
use latent_dfir.Examples.Scanning.{naive, naive-Finds, naive-Collects}
use latent_dfir.Examples.Carving.{no_sum, any_time, record_bytes, disk, registry}

abbrev sixteen : ScanConfig
sixteen = record { block_size = 16; overlap = 7; threads = 2; memory_budget = 100 }

abbrev scanner : Scanner
scanner = record { find = occurrences registry.patterns 0; config = sixteen }

scanner_made : new naive registry.patterns sixteen ≡ ok scanner
unfolding new resolve fit_block build
scanner_made = refl

run-recovers_example :
    (hits : List Hit) × (carved : List (List Carved)) × (r : Registry) × (scan naive scanner disk
      ≡ ok hits)
    × (extract_all registry disk (map place hits) ≡ ok (carved, r))
    × ((c : Carved)
        → Carries carved c ↔ Stands no_sum recorder any_time (λ i. get_or record_bytes i 0) 40 c)
run-recovers_example =
    run-recovers naive no_sum recorder any_time sixteen scanner disk (λ i. get_or record_bytes i 0)
      (naive-Finds registry.patterns) (λ n h. refl) naive-Collects
      (memory-Serves (λ i. get_or record_bytes i 0) 40 (omega arith)) (omega arith) (omega arith)
      scanner_made
