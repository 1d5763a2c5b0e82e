-- ===== src/Lib.antt =====
-- Latent: a forensic carver that opens disk images read-only, scans them for signatures in parallel
-- blocks, and has extractors validate what the signatures point at.
--
-- A source (latent-source) is a numbered row of bytes with a read that may return less than asked
-- for. Raw files, windows and virtual disks are sources over other sources or over the operating
-- system. A session (integrity.rs) hashes a source when it is opened and when it is closed. The
-- scan engine (latent-scan) cuts a source into blocks with an overlap and reports where patterns
-- occur. The registry (latent-carve) gives each hit to the extractor that owns its pattern, which
-- reads a window of the source and validates it. latent-core has the hash loop, the audit trail and
-- the record type.
--
-- Partition tables are read off a source (partition.rs), and each partition is a window of it.
--
-- The dispatch of open() chooses the reader of a path by its first bytes, and a collection is the
-- files below a directory, each of which open() opens.
--
-- Common: Rust results with panics, machine arithmetic, slices. A u64 or usize operation that is
-- not checked wraps, as in a release build on a 64-bit target.
-- Source: latent-source/src/lib.rs and error.rs (Source::read_exact_at); Source.Reads says what a
-- source that serves the bytes f promises. Source.Window: window.rs. Source.Raw: raw.rs and
-- readonly.rs, with the operating system, Unix (on Linux with O_NOATIME) or Windows, as the
-- parameter Host.
-- Integrity: latent-source/src/integrity.rs. VerifiedSource::wrap is wrap, finish is finish, whose
-- source may have changed since; the audit events are a list passed on.
-- Audit: latent-core/src/audit.rs. AuditWriter::line is line, AuditLog::close is close; the file is
-- the parameter LogFile. Audit.Lines has the fields of each event and the line that they become, by
-- way of FieldVisitor; in Audit.Threads the threads share the writer behind its mutex; the text of
-- a JSON object (serde_json) is the parameter Texts; Audit.Failed has the writes that fail. Errors:
-- the conversions into FatalError.
-- Ewf: latent-source/src/ewf.rs, with libewf as the parameter Libewf; Ewf.Ledger says which of its
-- calls are allowed, and what they leave to be freed.
-- Open: open() of latent-source/src/lib.rs and VerifiedSource::open. Collection: collection.rs,
-- over the tree that the file system answers.
-- Core.Hash: latent-core/src/hash.rs; SHA-256 (sha2) is the parameter Digest. Core.Record:
-- record.rs, confidence.rs and error.rs. Core.Json has JSON values and what serde derives from a
-- list of fields; Core.Record.Form and Core.Record.Document give the fields of each struct with
-- their attributes, once to write them (to_fields over the columns) and once to read them. The
-- dates of the time crate are the parameter Rfc3339. A struct is read from an object only, not from
-- an array.
-- Scan: latent-scan/src/engine.rs and error.rs. Plan::resolve is resolve, Scanner::new is new,
-- Scanner::scan is scan; the Aho-Corasick automaton, the thread pool and its collect are the
-- parameter Engine; Scan.Blocks.Collects is what rayon promises of collect. Scan.Reported says what
-- the blocks read and report, Scan.Failed how a scan ends.
-- Vdisk: latent-source/src/vdisk/mod.rs and the read loop of the readers; Vdisk.Qcow2,
-- Vdisk.Vhdx and Vdisk.Vmdk: qcow2.rs, vhdx.rs and vmdk.rs.
-- Partition: latent-source/src/partition.rs. read_gpt is in Partition.Gpt, read_mbr and
-- read_logical in Partition.Mbr, read in Partition.Table; the Spec modules say what a table is,
-- read off the bytes. The 1024 rounds of read_logical are the source's own bound.
-- Text: the operations of Rust's standard library on texts that the sources use; a text is the list
-- of its code points.
-- Carve.Extractor, Carve.Registry and Carve.Evtx: latent-carve/src/extractor.rs, registry.rs and
-- evtx/. CRC-32 (crc32fast) is a parameter. In Carve.Registry the atomic counters are a state
-- passed on; in Carve.Registry.Workers a hit is a list of atomic additions, and a step is the next
-- addition of any thread.
-- Pipeline: the patterns of the registry as those of the scan, and in Pipeline.Standing and
-- Pipeline.Recovery the hits of the scan dispatched to the EVTX extractor.
-- Build: latent-source/build.rs, with the machine that builds as the parameter Machine. Cli:
-- latent-cli/src/main.rs, whose subcommands are stubs.
-- Examples: the code on concrete inputs.
--
-- Loops that wait for progress run on fuel: an exact read of n bytes gets n rounds, hashing n bytes
-- gets n + 1 reads, a read of n bytes of a virtual disk gets n rounds. Each round makes progress by
-- a byte at least if the source below keeps its promise, and the theorems that state a result show
-- that the fuel is enough. The walk over a directory tree gets the depth of the tree.
--
-- Not modelled: the arguments of the command line (clap), the text of a JSON value (serde_json),
-- the texts of errors (thiserror), the subscriber of tracing and the log lines that it prints, the
-- mutex of an EWF handle, and the crates that hold a comment only.
pub mod Common
pub mod Text
pub mod Source
pub mod Integrity
pub mod Core
pub mod Scan
pub mod Vdisk
pub mod Partition
pub mod Ewf
pub mod Audit
pub mod Build
pub mod Cli
pub mod Open
pub mod Collection
pub mod Errors
pub mod Carve
pub mod Pipeline
pub mod Examples
