-- ===== src/Lib.antt =====
-- cactus: a certification authority for Merkle Tree Certificates, modelled after its Go sources.
--
-- The program issues certificates as entries of a log. An ACME server (acme/) hands requests to
-- the CA (ca/), which appends an entry to the issuance log (log/). The log queues entries, writes
-- them to a tile writer (log/tilewriter/) once in each flush, signs a checkpoint and the at most
-- two subtrees that cover the new entries, and asks mirrors (mirror/) for more signatures of them.
-- Wait gives the CA a subtree, its signatures and an inclusion proof (tlogx/). After a flush the
-- landmark sequence (landmark/) may add a landmark, whose subtrees relying parties know.
--
-- Files and sources:
--   Prelude         shared names: Boolean tests, lists on native numbers, and the outcomes of a Go
--                   call (a value, an error, a panic, and `stuck` for a loop out of fuel);
--                   Prelude/Words has uint64 arithmetic and the functions of math/bits
--   Tlogx           tlogx/subtree.go: Subtree, IsValid, FindSubtrees, HashLeaf, HashChildren
--   Tlogx/Intervals, Tlogx/Covering   the valid subtrees of §4.1 and the covers of §4.5
--   Tlogx/Merkle    Merkle tree hash and audit path of RFC 9162, as the specification
--   Tlogx/Inclusion   tlogx/inclusion.go and EvaluateInclusionProof: each function under its name
--                   in snake case; the children Evaluate, Generate, RoundTrip and Binding
--                   relate them to the specification and to each other
--   Landmark        landmark/sequence.go: the list of landmarks and the file are the state, New,
--                   replay, Append and the lookups are functions on it; Order has the
--                   invariant, Restart and Runs the file, Lookup the subtrees of a landmark
--   Log             log/log.go: the record Log is the state under the mutex; append, flush,
--                   collect_mirror_sigs and wait_step are what happens in one hold of it
--   Log/Proof       the proofs of an issued entry, with the loops that log/log.go has for them
--   Log/Indices, Log/Coverage, Log/Kept, Log/Waits   runs of the log; Log/Writes has the log over the
--                   tile writer
--   Cert/TrustAnchorId   cert/trustanchorid.go: Binary and TrustAnchorIDFromBinary; Octets has the
--                   octets of an arc, RoundTrip whole IDs
--   TileWriter      log/tilewriter/tilewriter.go: appendDataEntry and SplitDataTile; Writer has Append
--                   on what is in memory, and Held what is there afterwards
--   Tlogx/Consistency   tlogx/consistency.go: VerifyConsistencyProof, GenerateConsistencyProof; Binding
--                   relates two accepted proofs
--   Cert/Der        cert/entry.go: the DER helpers wrapSequence, appendDERLength, stripDERHeader
--   Cert/Wire       cryptobyte as the record Cryptobyte with its laws, which Octets fills; addUint48
--                   and readUint48; Extensions has the extensions of an entry of cert/entry.go
--   Cert/Proof      cert/proof.go: MarshalTLS and ParseMTCProof; Order, Signatures and RoundTrip
--                   relate them
--   Cert/Serial     cert/caid.go: ComposeSerial and SplitSerial
--   Cert/Signing    cert/proof.go and cert/keyid.go: MarshalSignatureInput, CosignatureKeyID and
--                   timestamped signatures
--   Cert/Quorum     cert/cosigner_request.go: requestOne and the loop of RequestCosignatures, over
--                   any list of what its select takes
--   Ca              ca/validator.go: Validate and buildExtensionsFromCSR; Checked has what they let
--                   through
--   Mirror/Checkpoint   mirror/note.go: parseSignedNote
--   Mirror/Follower mirror/follower.go: loadFromDisk, poll and advance over what the upstream answers;
--                   Growth, Attested and Restart have what holds after any number of polls
--   Mirror/Notes    mirror/note_parse.go: signed notes
--   Mirror/Requests mirror/server.go: parseRequest; Bounds has what it accepts
--   Mirror/Server   mirror/server.go: handle, verifyCAOnSubtree and Follower.SubtreeHash; Signed and
--                   Answers have what is known of an answer
--   Acme/Nonces     acme/state.go: NewNonce, ConsumeNonce and gcNoncesLocked
--   Acme/State      acme/state.go and acme/types.go: accounts, orders, authorizations, challenges
--   Acme/Names      acme/handler.go: validDNSName
--   Acme/Orders     acme/handler.go: Handlers has the checks and the updates of the state, Requests and
--                   Finalize the requests handleNewOrder, handleChallenge, handleFinalize and
--                   handleCert, each with no other request in between; Interleaved has concurrent
--                   requests, each a step function from hold to hold of the mutex, in any order of
--                   turns; Settled, Turns, Outcomes, Created and Race what comes of them
--
-- Numbers are natural numbers; uint64 operations that can wrap are written with their remainder.
-- Hashes and other byte strings are lists of numbers. Fuel: the loops that halve a uint64 range
-- have 65 levels, those that shift one have 64 rounds; each level halves the range, so a range of
-- less than 2 ^ 64 entries needs no more. SplitDataTile has one round more than there are octets.
--
-- Parameters: SHA-256 and tlog.StoredHashIndex, encoding/json (`Json`, with `JsonLaws`), the
-- functions of strings and strconv (`Text`), the clock, the signer's answers and whether a write
-- to storage succeeds. The log takes the tile writer, the signature input and the signed note as
-- the record `Parts`, the first with `TileLaws`, which Log/Writes proves of TileWriter/Writer over
-- tlog.StoredHashes and tlog.StoredHashCount.
--
-- The ACME handlers take the decoded request and what net.ParseIP, time.Parse, the random source,
-- the fetch of a challenge and the issuer answer; the quorum takes HTTP, base64 and the verification
-- of a signature; the validator takes encoding/asn1 and what crypto/x509 parsed. The mirror's follower
-- takes base64, tlog.TreeHash and tlog.StoredHashes, and the sizes of a log are
-- taken as far below 2^63 there. The loop over data tiles has one round more than there are tiles.
--
-- Not modelled: HTTP, JOSE and encoding/asn1, the crypto packages, the file system below Get and
-- Put, configuration, logging and metrics; the tile writer's files, log/note.go, the log entry's
-- DER, the verification of whole certificates, and what the ACME state keeps on disk.
pub mod Prelude
pub mod Tlogx
pub mod Landmark
pub mod Log
pub mod Cert
pub mod TileWriter
pub mod Acme
pub mod Ca
pub mod Mirror
