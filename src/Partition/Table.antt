-- ===== src/Partition/Table.antt =====
-- `read`: GPT first, then MBR, then the whole source as one volume.
use latent_dfir.Common.{ℕ, List, [], Bytes, Outcome, ok, err, panic, stuck}
use latent_dfir.Source.{Source}
use latent_dfir.Partition.{Partition, PartitionTable, Scheme, gpt, mbr, unpartitioned, Absent}
use latent_dfir.Partition.Gpt.{read_gpt}
use latent_dfir.Partition.Mbr.{read_mbr}

-- `if let Some(partitions) = …` with what follows it.
unfoldable pub or_next :
    Scheme
    → Outcome Absent (List Partition)
    → Outcome Absent PartitionTable
    → Outcome Absent PartitionTable
or_next scheme (ok partitions) next = ok (record { scheme = scheme; partitions = partitions })
or_next scheme (err e) next = next
or_next scheme panic next = panic
or_next scheme stuck next = stuck

unfoldable pub read : (Bytes → ℕ) → Source → Outcome Absent PartitionTable
unfolding or_next
read crc32 src =
    or_next gpt (read_gpt crc32 src)
      (or_next mbr (read_mbr src) (ok (record { scheme = unpartitioned; partitions = [] })))
