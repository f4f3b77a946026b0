-- ===== src/Lib.antt =====
-- The `.timelocked` file format and its time-lock: what a lock writes, what the reader recovers from
-- a damaged file, and that unlocking undoes locking.
--
-- The program seals a payload under a random file key in chunks (the protected stream), spreads the
-- stream over shards with a Reed-Solomon code (the payload region), and writes a file of a
-- human-readable notice, a superblock, the region, and a second copy of the superblock. The file
-- key is wrapped under a mask that is the solution of a repeated-squaring puzzle, and optionally
-- under a password as well. Everything that a file authenticates hangs on the digest of its
-- superblock, which is part of the associated data of every chunk. The lock use case stages its input
-- and persists one new file; the unlock use case solves the puzzle once, asks for a password up to
-- three times and persists the payload at a free path. The text interface edits their requests in
-- text fields and picks files in a browser.
--
-- Files:
--   Common, Base     numbers, lists and bytes; src/base/error.rs, result.rs, cancellation_token.rs;
--                    Base/Read is a cursor over bytes, which the decoders read from
--   Primitives       the libraries that the program calls (crc32c, blake3, chacha20poly1305,
--                    reed-solomon-erasure, num-bigint, argon2, UTF-8): a record of operations, and
--                    in Primitives/Laws one record of documented promises for each
--   ChunkFrame       src/domains/timelocked_file/chunk_frame.rs, and the proofs RoundTrip, Validation,
--                    Binding
--   Stream           src/domains/timelocked_file/protected_stream.rs: Source (reads), Encrypt,
--                    Decrypt, Scan, and the proofs Sealed, RoundTrip, Soundness, Agreement,
--                    Termination, Totality
--   Region           payload_region.rs, shard_record.rs and reed_solomon.rs of the same directory:
--                    Shard, Codec, Layout, Encode, Reconstruct, and the proofs Padding, Recovery
--   Keys             password_protection.rs, and `key_protection_material` of
--                    src/usecases/lock/payload_writer.rs: Params, Xor, Wrap, Unwrap
--   Superblock       superblock_body.rs and superblock.rs: Body, Encode, Decode, RoundTrip, Copies,
--                    Restore
--   Artifact         notice.rs, writer.rs, reader.rs, artifact.rs, recovery.rs, verification.rs:
--                    Notice, Writer, Reader, Recovery, and the proofs Locate, RoundTrip, Written,
--                    Bounds, Unlocked, Verified, Totality
--   Puzzle           src/domains/timelock/puzzle_service.rs and puzzle_material.rs: Service,
--                    Generate, and the proofs Powers, Shortcut, Draws
--   Difficulty       src/domains/timelock/lock_difficulty.rs, delay_estimation.rs,
--                    calibration_service.rs, hardware_profile.rs: Resolve, and the proof Estimate
--   Paths            src/domains/timelocked_file/output_path.rs and lock_output_path.rs,
--                    src/base/path.rs and hidden_entry.rs: FilePath (with what the program uses of
--                    std::path on Unix), Decimal, Output, and the proofs Available, Numbering
--   Disk             the file system under the use cases: what files hold and which paths exist, and
--                    what the system answers to the calls that write; Directories is about disks
--                    that differ by directories only
--   Unlock           src/usecases/unlock.rs: Request, Key, Execute, and the proofs Safety, Prompts,
--                    Verdict, Once
--   Lock             src/usecases/lock: Shards, Staging, Payload, Execute, and the proofs
--                    ShardBounds, Written, RoundTrip, Safety
--   Inspect          src/domains/timelocked_file/header.rs, src/usecases/inspect.rs, verify.rs and
--                    calibrate.rs: Header, Execute, and the proofs Summary, Shown
--   Tui              src/userinterfaces/tui/state/text_field.rs, secret_text_field.rs, browser.rs:
--                    TextField, Browser, BrowserState, and the proofs Editing, Cursor, Sorting,
--                    Browsing; and of src/userinterfaces/tui/features, shared/form_navigation.rs
--                    and lock/file_form.rs without its drawing: FormNavigation, LockFileForm,
--                    LockFileKeys, and the proof LockFileInvariant
--   Examples         runs on small inputs
--
-- How the model stands to the code. Functions keep their names. A fallible function returns `Result`
-- with the error's message; a reader is a function from the bytes that are left; a writer is the
-- bytes that were written, also when an error follows. A source of plaintext may return fewer
-- bytes than asked for, or fail, at any read. A cancellation token is the list of its answers. A
-- `String` is its bytes and a `BigUint` a natural number. Integers are natural numbers: where the
-- code casts to a narrower type or may wrap, the model cuts at the width (`% 2 ^ 32`, `le_bytes`),
-- and a checked operation tests the bound. Sums of counters that would need 2 ^ 64 bytes of input
-- to wrap are not cut.
--
-- Loops. The encryption, decryption and scan loops run on fuel, one more than the bytes of their
-- input, which each round but the last shortens; running out is an error of its own,
-- `out_of_fuel`. The other loops are structural: over the rounds, stripes, records or offsets left.
--
-- Use cases. A disk is a function from paths to contents and a test whether a path exists; a
-- persisted file and the directories that `create_dir_all` makes, also where it fails half-way, are
-- updates of it. Each other call that writes is answered by the caller of the model, with success
-- or an error, as are the random draws, the clock, the prompts for a password and the cancellation
-- token at each stage. A temporary file is its bytes. A path is its components and its text; that two of them
-- may lead to one place, over a link or by `..`, is not followed. An unlock threads a session: the
-- mask that it caches, and the prompts that it made.
--
-- Not modelled: progress callbacks, failing writers below the use cases, random generators (keys,
-- nonces and salts are given, and for primes and bases the draws among which the code chooses),
-- the clocked benchmark loops, the command-line interface, and of the text interface its other
-- forms, screens, workers and drawing.
pub mod Common
pub mod Base
pub mod Primitives
pub mod ChunkFrame
pub mod Stream
pub mod Region
pub mod Keys
pub mod Superblock
pub mod Artifact
pub mod Puzzle
mod Examples
pub mod Difficulty
pub mod Paths
pub mod Disk
pub mod Unlock
pub mod Lock
pub mod Inspect
pub mod Tui
