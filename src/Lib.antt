-- ===== src/Lib.antt =====
-- BikesNest: a crowd-sourced map of bicycle parking, written in Rust as a web server over
-- PostgreSQL. These modules model parts of its crates as functions and prove what makes them
-- correct.
--
-- The crates: crates/domain holds the value objects, crates/application the use cases and the ports
-- that they go through, crates/infrastructure the SQL and ValKey implementations of the ports and
-- the job queue, crates/web the routes. A route calls a use case, which checks its rate limit, reads
-- and writes through its ports, and enqueues jobs; a worker polls the queue.
--
-- RateLimit.InMemory is `InMemoryRateLimiter` of crates/infrastructure/src/auth/rate_limit.rs: the
-- `HashMap` is an association list, an instant is a number, and `check` is the whole call under its
-- lock. Below it, Window has the specification of one key's window (the log of recorded events),
-- Eviction and Capacity the bound on the buckets, Log and Runs the refinement of a run.
-- RateLimit.ValKey is the Lua script and the failure branches of `ValKeyRateLimiter` in the same
-- file: the store runs the script in one step, and what it does to a sorted set is as documented.
-- Connections are not modelled.
--
-- Jobs is crates/infrastructure/src/job. Jobs.Repo is repo.rs: each SQL statement is one function on
-- the list of rows, and a list of Ops is an interleaving of any number of workers (Jobs.Repo.Ops).
-- Jobs.Schedule is schedule.rs, over a cron library that is a parameter. Jobs.Worker is worker.rs
-- without its timers: handlers enter by their results. Instants are milliseconds of one clock; a
-- sum past the range of the clock's type, on which the program would stop, is not modelled, and the
-- number of attempts, an INT of the table, is unbounded.
--
-- Auth is the accounts: Auth.Accounts, Auth.Sessions and Auth.Tokens are account_repo.rs,
-- session_store.rs and token_store.rs of crates/infrastructure/src/auth on lists of rows;
-- Auth.Service, Auth.SignIn and Auth.Roles are the calls of crates/application/src/auth.rs, as
-- actions on the tables that keep what they wrote when they end in an error (Auth.Monad). A call's
-- rate limits go through RateLimit.InMemory. Password hashing, SHA-256, base64url, lower case and the
-- identity provider are parameters (Outside), random draws and the instant are arguments. A statement
-- breaks a unique index as a conflict; failures of the connection, of the audit log and of the mail
-- queue are not modelled. Auth.Codes has the codes in which the columns hold states and roles; the
-- rows hold the values themselves.
--
-- Domain.Hours, Domain.Freshness and Domain.Confidence are hours.rs, freshness.rs and the confidence
-- of community.rs in crates/domain/src; a location's local day and time come from the time zone
-- library, outside.
--
-- Parking holds the rows of the content tables, their codes, and the two JSON codecs of them:
-- Parking.Proposals is `ProposedChange` and `ProposalPayload` of crates/domain/src/community.rs,
-- Parking.Snapshot the snapshots of a revision, as contribution.rs and actions.rs of
-- crates/infrastructure/src build them. A coordinate is a 64-bit float (Base.F64), and a value of JSON is
-- Base.Json, whose integers have any size. The time zone library and the printing of an instant and of
-- a number are parameters (Outside).
--
-- Moderation is the reports and what moderators do. Moderation.Reports, Moderation.Actions and
-- Moderation.Approval are report.rs and actions.rs of crates/infrastructure/src/moderation, each
-- statement a function on the rows and each transaction one step that takes back its writes when it
-- ends in an error (Base.Action); Moderation.Merge, Moderation.Service and Moderation.Content are
-- crates/application/src/moderation.rs, whose rules on reasons are Moderation.Reasons.
--
-- Community is what users contribute: Community.Locations, Community.Reviews and Community.Signals
-- are the repositories of crates/infrastructure/src/community, Community.Service the calls of
-- crates/application/src/community.rs. A mean of ratings is held in hundredths. The constraints of
-- opening hours and the foreign key of a review on its location are checked; the keys on users,
-- whose rows live in Auth, are not. The search for duplicates, the details page, the history, the
-- previews of reported targets and the listing of audit events are not modelled: they read by
-- similarity, by distance, or for display. A sequence value that a failed transaction used is used
-- again in the model, ids are natural numbers, and a failure of a connection is not a step.
--
-- Photos is crates/application/src/photo.rs over crates/infrastructure/src/photo/repository.rs, in
-- a store of its own: the rows of both tables, tagged with their kind, and the keys that the object
-- storage holds. Each write of the storage and of the rows may fail, before or after it was done
-- (Put), and a delete of the storage may be left undone. The image processor is a parameter;
-- dimensions of pictures and the listing of the queue are left out.
--
-- Base is what these share: the tests on numbers and lists, Base.Text
-- for strings, Base.Table for `UPDATE ... WHERE` on a list of rows, and Base.Action for calls that end
-- in a result or an error, with `transaction` for those that take back their writes.
--
-- ClientIp is client_ip.rs of crates/web/src, over a parser of IP addresses that is a parameter.
--
-- The recursions are on lists or on a number of rounds; only Base.F64 counts down, the 11 bits that
-- a number of 64 bits may have more than a significand, which is enough. Privacy, search and the
-- other web code are not modelled.
pub mod Base
pub mod Auth
pub mod ClientIp
pub mod Community
pub mod Domain
pub mod Jobs
pub mod Moderation
pub mod Parking
pub mod Photos
pub mod RateLimit
