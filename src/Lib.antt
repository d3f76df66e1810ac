-- ===== src/Lib.antt =====
-- Open Forensic File Format: the core of the container format (crates/offf-core).
--
-- An OFFF container keeps a disk image as chunks named after their SHA-256, the Merkle tree over
-- the chunk hashes and the metadata of the acquisition. On top of the chunks, byte ranges of the
-- image are read to find its partitions, and jobs on its objects are divided among shards.
--
-- Files and what they model:
--   Outcome: the error type of crates/offf-core/src/error.rs and the outcome of fallible code.
--     `panic` is a Rust panic, `stuck` a loop of the model that ran out of fuel.
--   Hex: the conversions hex_to_bytes32 and hex_from_bytes32 of crates/offf-core/src/hash.rs.
--   Merkle: the tree, the proofs (Merkle, Merkle.Proof, Merkle.Binding, Merkle.Forgery) and the
--     binary file merkle_tree.bin (Merkle.Format) of crates/offf-core/src/hash.rs.
--   Files: the calls of std::fs and std::path that the code makes.
--   Chunk: crates/offf-core/src/chunk.rs.
--   Evidence: crates/offf-core/src/evidence.rs.
--   Words: u64 arithmetic, little-endian integers, decimal, hexadecimal and UTF-16 texts.
--   Partition: crates/offf-core/src/partition.rs. Range: read_bytes_at and chunk_refs_for_range;
--     Names: the tables of type names, crc32 and the texts of GUIDs and names; Volume:
--     detect_volume_type; Mbr: parse_mbr with the chain of extended boot records; Gpt: parse_gpt;
--     Detect: detect_and_parse with the backup GPT. What reads one chunk is a parameter.
--   Maps: hash maps as association lists; Sorting: sort_by and dedup of a slice.
--   Ntfs: crates/offf-core/src/ntfs.rs. Vbr: parse_vbr; Runs: parse_data_runs; Fixup: apply_fixup;
--     Attributes: the timestamps, $STANDARD_INFORMATION and $FILE_NAME; Record: parse_mft_record;
--     AttrList: parse_attr_list_mft_refs; Cache: ChunkCache; Mft: read_mft; Paths: build_paths;
--     Resolve and Index: index_ntfs. A signed number is kept as the unsigned one with the same bits, and a shift
--     counts modulo 64, as in a release build.
--   Shard: crates/offf-core/src/shard.rs and its records in types.rs. Plan: plan_shards; Coverage:
--     compute_coverage_report; Parent: build_parent_result_manifest, over what the result files
--     hold and the duplicates that validate_parallel_job counts.
--   Objects: the rows of the object index and the input scope of a job, of types.rs.
--   Scope: crates/offf-core/src/scope.rs, over the rows of the index.
--   Lineage: the validation of the object graph of crates/offf-core/src/lineage.rs, with its search
--     for cycles (Walks, Edges, Cycles).
--   Tests: runs at concrete inputs.
--
-- A byte is a number below 256; a slice and the UTF-8 bytes of a string are lists of them. What the
-- program takes from other crates is a parameter: SHA-256 is a function on byte lists that gives 32
-- bytes, zstd a partial function each way of which decompression undoes compression. No theorem
-- assumes that SHA-256 is injective, or concludes that some collision exists: the statements that
-- need it end in two different inputs with one digest that the computations themselves hash.
--
-- Fuel: the loops that halve a level take the number of its nodes as fuel, which is enough since
-- each round halves it; the theorems that a result is given show it. The chain of extended boot
-- records has the bound of the code, 256. Arithmetic on u64 wraps around, as in a release build.
-- The loop over runs has one round for each byte and one more, those over the attributes of a record
-- one for each byte of the record and one more, since an attribute is not empty; the rounds of
-- build_paths are bounded by the entries and three, since each but the last adds a path; the search
-- for cycles has twice the edges and one, since each call sees an id that no call has seen. The time
-- and the version of the tool, the conversion of a timestamp by chrono, the JSON texts of serde_json,
-- to_lowercase and the order in which a hash map gives its keys are parameters.
--
-- Not modelled: the JSON readers and writers and validate_parallel_job of shard.rs, the statistics
-- and the exports of lineage.rs, storage.rs, packed.rs, extensions.rs, case.rs, message texts,
-- the caches of the operating system, concurrent writers, the panic of vec! in read_bytes_at and
-- read_at on lengths of 2^63 bytes and more, and the
-- tools (convert, verify, index, jobs, migrate, export, collect, access service) and SDKs.
pub mod Prelude
pub mod Bytes
pub mod Outcome
pub mod Hex
pub mod Merkle
pub mod Files
pub mod Chunk
pub mod Words
pub mod Partition
pub mod Shard
pub mod Objects
pub mod Scope
pub mod Lineage
pub mod Evidence
pub mod Maps
pub mod Ntfs
mod Tests
