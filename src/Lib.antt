-- ===== src/Lib.antt =====
-- A library of p2party-js, a peer-to-peer messenger whose rooms are meshes of authenticated edges.
--
-- PQ healing (src/cryptography/pqHealing.ts) refreshes the root key of one edge by an ML-KEM
-- exchange: the peer whose turn it is sends an OFFER with a public key, the other answers with an
-- ADVANCE that nests the OFFER and a ciphertext, both derive the next root by HKDF over the exact
-- bytes, and the offerer acknowledges. Epochs advance by one, two counters number the records of
-- each direction, and the turn passes over.
--
-- The double ratchet (src/cryptography/ratchet.ts) gives each message of an edge its own key: both
-- ends step a symmetric chain, a header names the sender's key and the index in its chain, and a new
-- key of the peer moves the receiver to a new chain. Message keys that out-of-order delivery skips are
-- stored, up to a bound. Chunks and receipts travel in frames (src/handlers/chunkFrame.ts,
-- receiptFrame.ts, frameType.ts); a chunk frame carries the ratchet's header. Records of PQ healing
-- and what a cover lane says travel in sealed cells of one size (pqHealingFrame.ts, coverCell.ts in
-- src/cryptography), under keys derived from the root of an epoch. Candidates for a connection that
-- arrive early wait in bounded queues, a gate for each edge keeps its channels waiting for the
-- handshake, and work on the shared memory of the compiled module is serialized by a mutex.
--
-- The cover scheduler (src/handlers/coverScheduler.ts) sends at fixed times on the lanes of an edge,
-- whether or not there is anything to say: cells of queued jobs, and dummies where a lane has none. A
-- cycle opens its lanes at a boundary of the timetable, admits a job to each and closes them at its
-- end; late timers, refused cells and failing lanes interrupt it and send its jobs back to the queue.
--
--   Base         shared names, Boolean tests, results that may be errors, lists on native numbers
--   Bytes        byte strings, big-endian words, the constant-time comparison `bytesEqual`
--   LibCrypto    src/cryptography/hkdf.ts and `x25519Dh`; the compiled module is a record parameter,
--                whose one law is that HKDF-expand fills the buffer it is given
--   Int          integers on native numbers
--   Maps         JavaScript's `Map`, as the list of its entries
--   MlKem        src/cryptography/mlkem.ts, the descriptors of the three parameter sets
--   PqHealing    src/cryptography/pqHealing.ts:
--     Record       constants, errors, guards, suite checks, the shared header
--     Codec        OFFER, ADVANCE and ACK (`encodeOffer`, `decodeAdvance`, ...), `deriveNextRoot`
--     Machine      `PqHealingMachine`: fields, phases, constructor, guards
--     Offering     prepareOffer, markOfferDispatched, abortUnsentOffer, acceptAuthenticatedAdvance,
--                  commitAcceptedAdvance, markAdvanceAcknowledgementDispatched
--     Answering    acceptAuthenticatedOffer, prepareAdvance, commitPreparedAdvance,
--                  acceptAuthenticatedAdvanceAcknowledgement, copyPendingOutboundRecord
--     Snapshot     snapshot, restore, clone and the validation of checkpoints
--     Ownership    destroy, adopt, wipePqHealingSnapshot
--     Session      a machine with the promise it awaits, its calls and replies as events but for
--                  those that make or take another machine; below it the invariant (Invariant, Guards,
--                  Calls, Commits, Awaits, Soundness, Birth), the key chain (Chain, Lockstep),
--                  checkpoints (Checkpoints, Adoption), histories of calls, replies, clones and
--                  adoptions (Histories), errors (Refusals) and the exchange of two machines
--                  (Acceptance, Agreement)
--     Examples     concrete records, sessions and an exchange
--   Ratchet      src/cryptography/ratchet.ts:
--     Kdf          kdfRk, kdfCk
--     State        `RatchetState`, and calls that write it, also where they throw
--     SlotKeys     toHex, fromHex and the strings that key the `skipped` map
--     Skipping     trySkipped, skipMessageKeys, dhRatchet
--     Messages     initRatchet, ratchetEncrypt, primeResponderRatchet, ratchetDecrypt
--     Checkpoint   serializeRatchet, deserializeRatchet, cloneRatchet, wipeRatchet, adoptRatchet
--     and on them: the keys of a chain (Keys), a receiver on it (Tracking, Delivery, AnyOrder), both
--     ends (Exchange), the size of the store (Bounds), repeated headers (Replay), the start of an edge
--     (Bootstrap) and its copies (Copies)
--   Frames       src/handlers/frameType.ts; Frames.Chunk is chunkFrame.ts, Frames.Receipt is
--                receiptFrame.ts
--   IceQueue     src/api/webrtc/pendingIceCandidates.ts, its queues and their bounds
--   Mutex        src/utils/mutex.ts; Mutex.Order has the runs of many clients
--   RatchetGate  src/handlers/ratchetGate.ts, the gates that a handshake opens; their leases across a
--                reset (Leases), and how often a promise is settled over all runs (Settling, Runs)
--   Cells        the cells of fixed size and what seals them; the AEAD is a record parameter of
--                LibCrypto, whose laws are the length of a ciphertext and that what is sealed opens
--     CoverCell    src/cryptography/coverCell.ts: sealCoverCell, openCoverCell
--     PqControl    src/cryptography/pqHealingFrame.ts: sealPqControlFrame, openPqControlFrame
--   Double       the rounding of the doubles in slotAt
--   Cover        src/handlers/coverScheduler.ts:
--     Schedule     `CoverSchedule`, validateCoverSchedule, the boundaries of cycles, slotAt
--     Jobs         jobs and the order of their queue
--     State        `CoverScheduler`, what it reports, requeue, settle, arm
--     Cycle        openCycle, degrade, suspend, handleCycleBoundary and the closing of a cycle
--     Sending      requestForSlot, sendSlot, cacheUnsent, acceptSent
--     Control      the constructor, enqueue, cancel, complete, start, resume, stop, the timer, and all
--                  of these as events of a run
--     and on them: the books on jobs (Counts, Books, Moves, Arrivals, Holding), what each operation does to
--     them (Opening, Boundaries, Sends, Methods, Restarts), all runs (Soundness), and the
--     timetable (Slots)
--
-- A random draw, such as the pair of `x25519Keypair` or the nonce of a cell, is an argument. In the
-- ratchet the bounds are those of src/utils/constants.ts, 512 keys for a gap and 2000 in all. A live
-- map of skipped keys has the pair as key of which the source makes a string; storing and rebuilding it
-- print that string and read it back. Strings are lists of character codes there.
--
-- An `async` method is two functions, before and after its `await`: what it holds across it is an
-- argument of the second. A reply of the ML-KEM backend is an Option, `none` for a rejection. A
-- `bigint` is a natural number with its 64-bit range check written out; what is thrown is an `err`.
-- In the scheduler jobs are shared objects, kept in a heap that references index. Times are natural
-- numbers, and a call reads the clock once; the times of a slot are rounded as doubles are (Double),
-- and all else is safe integers, on which doubles are exact. What lane factory, lanes and producers
-- return is part of each event, so they may fail at every point. A timer that was cleared does not
-- fire, observers do not call back into the scheduler (the one of src/handlers/coverTransfer.ts, which
-- enqueues, is outside this model), and the `catch` of a rejected handler runs at once. A lane outlives
-- its cycle only in a `sendSlot` that awaits, with its job already taken.
--
-- Every function is structural, a counted loop in the rounds left. Fuel has only the printing of a
-- number, one digit more than it is large, and the count of binary digits, 128: what is counted is the
-- product of two numbers below 2^53 or less.
--
-- Not modelled: the bytes of buffers that are wiped and dropped (only the wiping of fields that stay
-- reachable is), messages of errors, tests of JavaScript types at run time, the shape tests of plain
-- objects, and the parts of the repository outside the files above.
pub mod Base
pub mod Bytes
pub mod Int
pub mod LibCrypto
pub mod Cells
pub mod MlKem
pub mod PqHealing
pub mod Frames
pub mod IceQueue
pub mod Maps
pub mod Mutex
pub mod Ratchet
pub mod RatchetGate
pub mod Cover
pub mod Double
