-- ===== src/Lib.antt =====
-- wharf computes, ships and applies binary patches between two versions of a directory. This
-- library models its core and proves what makes it correct.
--
-- The parts, and how they work together. The old version is signed: every file is cut into blocks
-- of 64 KiB, and each block gets a weak (rolling) and a strong hash. A new file is diffed against
-- the library of those hashes: a window runs over it, and where the window is a known block a range
-- of the old file is sent in place of bytes. The operations are applied to the old files.
--
-- Which file models what:
--   Base: shared helpers, no code of the program.
--   Wsync/Types: wsync/types.go. `Operation` has a constructor for each `OpType`.
--   Wsync/Rolling: `βhash` (wsync/hashes.go) and the rolling update in `ComputeDiff`
--     (wsync/algo.go). uint32 arithmetic has its wraps written out.
--   Wsync/Library: `NewBlockLibrary` (wsync/block_library.go) and `findUniqueHash`
--     (wsync/hashes.go). The map is an association list.
--   Wsync/Emitter: the closures of `ComputeDiff` that hand operations on: `makeOperationCleaner`,
--     `enqueue` and the deferred function.
--   Wsync/Diff: `ComputeDiff`. The state is the function's variables, `buffer` the bytes below
--     `validTo`, `round` the body of the loop.
--   Wsync/Apply: `ApplyPatch`, `ApplyPatchFull`, `ApplySingleFull` (wsync/algo.go).
--   Wsync/Signature: `CreateSignature` (wsync/hashes.go), splitfunc/splitfunc.go.
--   Pwr/BlockMath: `ComputeNumBlocks`, `ComputeBlockSize` (pwr/diff.go).
--   Pwr/Sign: `ComputeSignature`, `ComputeSignatureToWriter` (pwr/sign.go).
--   Pwr/RoundTrip: signing, diffing and applying together.
--   Pwr/Overlay: pwr/overlay. `process_block` is `overlayProcessor.write`, `buffer_write` and `flush`
--     the bufio.Writer in front of it, `patch` is `OverlayPatchContext.Patch`.
--   Pwr/Wounds: pwr/wounds.go: `AggregateWounds` as the list that it sends for the list that it
--     receives, `WoundsGuardian.Do`, `WoundsPrinter.Do`.
--   Pwr/Validate: pwr/hashinfo.go, and `ValidateAsWound` and `ValidateAsError` of
--     pwr/blockvalidator.go.
--   Pwr/Genie: pwr/genie. The two splitting loops of `analyzeFile` are `split` at both kinds of
--     origin.
--   Pwr/Drip: pwr/drip. The underlying writer and the validation are functions on a state.
--   Bsdiff: `Patch` and `Apply` of bsdiff/patch.go, `AdderReader` of bsdiff/adder_reader.go.

--   Pwr/Bowl: pwr/bowl/bowl_overlay.go. Bowl.antt has what the bowl notes while a patch is applied,
--     Disk `copy` and `move`, Transpositions `applyTranspositions`, Ghosts `detectGhosts` and
--     `deleteGhosts`, Commit the rest. The file system is a record of calls, and `IsFileSystem`
--     states their documented behaviour. The orders in which Go visits the map are parameters.

--   Pwr/Patcher: pwr/patcher. Patcher.antt has the messages and the record of calls, Rsync
--     `processRsync`, Bsdiff `processBsdiff`, Resume `savingPatcher.Resume`, and Replay the plan
--     that a patch of rsync series stands for.

--   Pwr/Safekeeper: pwr/safekeeper.go, one reader with its keeper. Loading the signature is a
--     function on the world outside.

--   Wire: wire/write_context.go and read_context.go. A message is the bytes that protobuf makes of
--     it, a source is its bytes and where it resumes. The varint buffer of eight bytes is enough for
--     lengths below 2^56, and PutUvarint of the fuel n + 1 writes all of n. Frames are the messages
--     one after the other, Saves the checkpoints.
--
-- Bytes are natural numbers, and sizes that are never negative too. Code outside the repository is
-- a parameter: MD5 is `unique_hash`, a caller's writer the test `accepts` of what it has taken and
-- what it is offered, a pool (package lake) what its files hold and how reading them fails.
--
-- Fuel: a loop of the code that is no recursion on its input has fuel, and a run without enough ends
-- with the error `stuck`, which the code does not have. Each bound leaves a round for each byte, as
-- each round takes one at least: `compute_diff` has two rounds more than the source has bytes (the
-- last rounds take none), `create_signature` and the overlay's `process` one more, `drip` one more.
-- `buffer_write` of the overlay and `split` of the genie have two rounds for each byte and two more,
-- as every other round may only empty a buffer or a block that is full.
--
-- Not modelled: progress reports; the closing of pools; archives and compressors, which are other
-- libraries; the encoding of messages by protobuf; the header of a patch; the writers of a bowl's
-- entries, and the bowls that have no overlay; rediff and the healer; generated message code.
pub mod Base
pub mod Bsdiff
pub mod Pwr
pub mod Wire
pub mod Wsync
