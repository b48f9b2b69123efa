-- ===== src/Lib.antt =====
-- Torrin downloads torrents, usenet posts and hoster links for its users, keeps what it fetched in
-- object stores, and serves it as streams. This library models the parts of it that decide: which
-- download may start and where, how its segments are read, what a range request is answered with,
-- which content is evicted, what a plan costs, and what is taken from a wallet.
--
-- Parts and files:
-- - Prelude and its children: shared names, tests on numbers, lists, texts, maps, results,
--   integers.
-- - Jobs/Model: shared/jobs/model.go (`Job`, the statuses, `ConsumesDownloadSlot`).
-- - Jobs/Table: the SQL of shared/jobs/queue.go, identity.go and queue_identity.go, as tests and
--   counts over a list of rows. Jobs/Rows has lemmas on them, Jobs/Upkeep the writes of postgres.go
--   by id.
-- - Jobs/Queue/Steps: `Admit`, `Readmit` and `PromoteQueued` of queue.go, `CreateOnce` of
--   identity.go, `Update` of postgres.go, and queue_state.go. Identity, Change, Cases, Promotion
--   and Writes say what a step does to the rows; Reach, Decision, Order and Progress hold the
--   results.
-- - Stream/Zip: stream/internal/server/ziplayout.go. Layout has the headers, `buildZipLayout` and
--   `writeRange`; Headers, Window and Offsets the proofs.
-- - Stream/ByteRange: `parseByteRange` of stream/internal/server/zip.go, and the part of its handler
--   that answers with a layout.
-- - Stream/Guards: streamlimit.go and ziplimit.go of stream/internal/server.
-- - Eviction/Policy, World and Engine: shared/eviction, over the blob tables of
--   shared/jobs/blobs.go and the objects of a node's store. Engine/Steps has the passes, its other
--   files the proofs.
-- - Plans: shared/plans, the catalog, the prices and the products.
-- - Billing: Expiry has the ends of plans and the reward for a referral, from shared/billing,
--   shared/auth/billing.go and api/internal/handlers/reseller.go; Purchase is `BuyPlanFromWallet`
--   and `RenewWalletPlans` of shared/billing/common.go. Pause is `PauseSub` and
--   `ResumeSub` of shared/auth/account.go. Repeated, Lasting and Renewal have the results.
-- - Reseller: Codes has the table of shared/auth/reseller.go and `settleCodes` of
--   api/internal/handlers/reseller.go, Redeem `redeemCode` as steps, Once its proof;
--   Limiter is the limit on attempts.
-- - Providers: shared/providers. Body has the loops that copy a body to a file, Download and Parallel
--   are download.go and parallel.go, Fetch is `FetchFile`; Served, Resumed, Writes, Chunks, Cover
--   and Retries have the proofs.
-- - Wallet: shared/auth/wallet.go, the ledger and the purchase of a plan.
-- - Keyed: shared/keyed/locker.go. Locker has `Lock` and the function that it returns, Threads
--   their interleaving; Invariant and Exclusion the proofs.
-- - Usenet/Yenc: shared/usenet/decoder/yenc.go, `Decode` and what it calls.
-- - Usenet/Pools: `AcquireShared` and `AcquireSharedMulti` of shared/usenet/download/pool.go.
--   Clients has the clients and timers that interleave.
-- - Usenet/Reader: shared/usenet/download/readerat.go. Machine has `FileReaderAt` and its methods,
--   Segments, Find and Reads the proofs where the servers have every article, Whole and Progress
--   those for any answers.
-- - Usenet/Lazy: shared/usenet/reader.go. Machine has `NewReader` and `ReadAt`, Layout the places of
--   the segments, Genuine and Reads the proofs.
-- - Usenet/Release: `NewFileReaderAt`, a reader whose articles come from the decoder.
-- - Usenet/Archive: `addFrag` and `ReadAt` of shared/usenet/rarfs/rar.go, over volumes as an
--   argument.
-- - Crypto: shared/crypto. Dare has `PlanRange` and `DecryptRange` of stream.go and their use in
--   stream/internal/server/encrypted.go, Packages and Ranges the proofs; Cipher is crypto.go.
-- - Cluster: shared/cluster/dispatch.go, `TargetNode`.
--
-- How they interact: the eviction writes rows by `Update` of Jobs/Queue/Steps; a byte range is
-- parsed by Stream/ByteRange and answered over the layout of Stream/Zip. The plans fix the limits
-- that the queue takes as arguments, and the prices that a wallet pays;
-- Billing buys and renews plans over the tables of Wallet. The reader takes what the
-- servers answer as an argument, and Usenet/Release puts the decoder between the two.
--
-- State and steps: a table is a list of rows, a transaction under its locks is one step from a table
-- to a table, and each statement can fail by an argument; a failed transaction leaves the table. A
-- history of the queue has the writes of others too: any job may be created, and a row may be
-- written over by one of the same identity; rows that such a write gives a slot are counted apart.
-- Rows are not deleted in it, and `Requeue`, which nothing calls, is left out. Maps are association
-- lists or functions. Numbers are natural numbers where the source's are not negative, and ℤ for
-- cents, for the priority of a job, for the bytes that nodes report and for the numbers of headers;
-- they do not overflow in what is modelled, but for the sizes of a release, whose test for it is
-- written out. Header fields keep their width: bytes are taken modulo 256. Threads, clients and
-- timers take turns: a section under a mutex is one step of an indexed relation, and results hold
-- for every sequence of steps from the start. What other processes answer at a time is a function of
-- the calls made before.
--
-- Loops: a loop over fetched rows is a recursion on the list. `RunGC` takes fuel, and one round
-- more than table blobs has rows is enough where the deletes work. The search of `segForOffset` has
-- the source's bound. Both methods `ReadAt` take as much fuel as bytes are asked for, since a turn
-- reads a byte at least; that of the archive does so only where the volumes have all bytes of the
-- fragments. The attempts of a download have the source's bound.
-- No other function takes fuel.
--
-- Outside the model: PostgreSQL, the object stores, the news servers, the clock and identifiers are
-- arguments, and so are the encryption of files (minio/sio), AES-GCM, base64 and CRC-32. Other
-- HTTP handlers, workers, clients of other services, listings and logging are not modelled.
pub mod Prelude
pub mod Jobs
pub mod Stream
pub mod Eviction
pub mod Plans
pub mod Reseller
pub mod Billing
pub mod Providers
pub mod Wallet
pub mod Keyed
pub mod Usenet
pub mod Crypto
pub mod Cluster
