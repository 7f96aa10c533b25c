-- ===== src/Lib.antt =====
-- Verification library of Nubilo, a self-hosted sync server and its agents.
--
-- A device pushes batches of changes to the server, which checks them one by one, writes them in
-- one transaction and appends a journal row for each; devices pull the journal by pages from a
-- cursor. Users own collections and share them with users and groups, read-only or read-write.
--
-- The parts, and the files that model them:
--   Prelude         names passed on, integers with the wrap-around of int64, list and order lemmas
--   Identity        the device, its role and its permissions (Identity/Device:
--                   internal/identity/identity.go), names (Names), the operations on users (Users:
--                   internal/identity/users.go), pairing (Pairing: StartPairing, Begin; Completion:
--                   Complete), changes of a device (Devices: Revoke, Rename, RotatePublicKey, Enroll,
--                   Touch); LockedOut is a theorem on users, devices and signed requests
--   Auth            the admin token and the signed request (Request: AuthenticateRequest and
--                   adminDevice of internal/auth/auth.go) and the cache of nonces (Nonces:
--                   Start, consumeNonce); Held, Replay, Accepted: theorems
--   Crypto          pairing codes and app passwords (internal/crypto/crypto.go)
--   Authz           Allow and AllowCollection (internal/authz/authz.go)
--   Store           the tables (internal/store/schema.go, migrate.go), what the server calls and does
--                   not implement (Store/Env), transactions (Store/Tx), blob rows
--                   (Store/Blobs: internal/store/blobs.go, meta_blobs.go)
--   Sync/Access     accessQ, accessForQ, the SQL of the listings (internal/syncengine/access.go)
--   Sync/Quota      charge, quotaAllows (internal/syncengine/quota.go); lemmas on sums of charges
--   Sync/Push       applyOne and Push (internal/syncengine/engine.go): Steps are the blob and journal
--                   steps, Checks what comes before the switch, Cases the switch and applyOne, Batch
--                   the idempotency table and Push. Outcome reads an answer of applyOne back into
--                   the branch it came from; the other files are theorems on it
--   Sync/Changes    HeadSeq, Hello, GetChanges (internal/syncengine/engine.go); Pull is the agent's
--                   loop (pull of internal/agent/sync.go), with theorems in CatchUp and Failures
--   Sync/Ack        Ack (internal/syncengine/engine.go)
--   Sync/Reconcile  Reconcile (internal/syncengine/engine.go)
--   Sync/Share      SetShare, RemoveShare (internal/syncengine/access.go)
--   Sync/Prefs      GetPref, SetPref (internal/syncengine/access.go)
--   Sync/Collections  CreateCollection, EnsureChildCollection, RenameCollection, TombstoneCollection
--                   (internal/syncengine/engine.go, lookup.go)
--   Sync/Tree       IsAncestor (internal/syncengine/tree.go), SetCollectionParent (lookup.go);
--                   Ancestors, Moves, Acyclic, Subtree, Trace, Owners, Roots, Growth, Creation,
--                   Lasting, Depth and Ending are theorems on them, Access one on accessQ and the tree
--   Integrity       the compaction of tombstones (internal/integrity/gc.go)
--   Tests           a small server on which each theorem is applied
--
-- Go and SQL in the model. The database is one record of tables (`Db`), a table a list of rows in
-- insertion order. (`Db.devices` are the rows with their permissions decoded.) A query is a
-- function of the database; a statement inside WithWrite is a step `Db → Result (A × Db)`, and a
-- step that fails leaves no state: that a rollback undoes the whole transaction is what the
-- database documents, and WithWrite itself is not modelled. Writers are serialised by
-- Store.writeMu, so a push is one step. A call of StartPairing, Begin or Complete and a signed
-- request are one step each too, although they are not one transaction: what overlapping calls do
-- is not modelled. A Go function with a guard and an early return is a function with `if`, and its
-- long tail is a function of its own (`after_target`, `create_at_cost`). Revisions are uint64 and
-- sizes int64, both with their wrap-around. Text is read as a sequence of bytes. Errors of the
-- database itself (a lost disk) are not modelled: a query that has no row in the source has none
-- here.
--
-- What the code calls and the repository does not implement is a parameter (`Env`): the ULID
-- parser, SHA-256, JSON decoding, SQLite's JSON functions, text functions, and the presence of a
-- blob's file; `Service` holds Argon2id, Ed25519 and the limits of the configuration, and what the
-- random source returns is an argument. Nothing is assumed of it.
--
-- Fuel. The pull loop has a list of `rounds`, which says of each what the calls in it answer: a
-- round passes a change or ends, so one more round than there are pending changes is enough. The
-- walk of IsAncestor passes a collection at most once, so one more step than there are collections
-- is enough. The recursive query of SetCollectionParent takes a round for each level of the tree;
-- where all collections are at most n levels deep a move takes 2 n + 2 of them, and one more is
-- enough. On a cycle the query itself has no result.
--
-- Not modelled: HTTP routing, the web and DAV front ends, invites, groups, backups, the file system
-- of the agent, rounding of SQLite's TOTAL above 2 ^ 53, the order in which Go walks a map.
pub mod Prelude
pub mod Identity
pub mod Authz
pub mod Store
pub mod Sync
pub mod Integrity
pub mod Auth
pub mod Crypto
pub mod Tests
