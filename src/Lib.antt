-- ===== src/Lib.antt =====
-- A model of the API server of the exam platform, apps/api/src, and of the tables of
-- packages/database/src/schema.ts that it works on.
--
-- The program. A candidate logs in (routes/auth.ts), gets tokens (lib/token-manager.ts) and a cached
-- session (lib/session-cache.ts), and starts an attempt at an exam (routes/attempts.ts),
-- or enters one by an invitation (routes/exams.ts). A socket joins the attempt: one session per
-- candidate (socket/presenceService.ts), and a timer on the server (socket/timerService.ts); the
-- handlers are in socket/examHandlers.ts. The browser reports what happens to the window
-- (socket/proctorService.ts). While the candidate writes, files are saved to Redis and flushed to the
-- database every 30 seconds (lib/autosave-buffer.ts). A submission, or the scheduler when the time is up
-- (lib/exam-scheduler.ts), writes the row of the attempt and queues a job for the grader
-- (lib/grading.ts). Admins approve accounts and change roles (routes/admin-users.ts), and guards
-- (middleware/auth.ts) stand before the routes.
--
-- The files, and what they model (paths below apps/api/src):
--   Base                 Boolean tests, lists, and the answer of a route (middleware/errorHandler.ts)
--   Redis                the server: strings and sets with times to live, as interfaces with laws;
--                        Redis/Keys has the keys and values of the program, Redis/Memory an instance
--   Platform             the tables, the streams, the messages and the state `App` of an instance;
--                        Platform/Memory an instance, Platform/Sample the data of the examples
--   Tokens               lib/token-manager.ts; Tokens/Rotation, Tokens/Reuse and Tokens/Revocation
--   Sessions             lib/session-cache.ts; Sessions/Laws
--   Accounts             middleware/auth.ts, and the account that a registration stores;
--                        Accounts/Routes the routes of routes/auth.ts, Accounts/Admin those of
--                        routes/admin-users.ts; Accounts/Guards, Passwords, Vouching and Access
--   Presence             socket/presenceService.ts; Presence/Exclusion
--   Proctor              socket/proctorService.ts; Proctor/Counters, Proctor/Score
--   Autosave             lib/autosave-buffer.ts; Autosave/Laws, Refinement and Races
--   Grading              addGradingJob of lib/grading.ts; Grading/Laws
--   Timers               socket/timerService.ts; Timers/Clock, Timers/Expiry
--   Attempts             routes/attempts.ts, and handleGradingComplete of socket/index.ts;
--                        Attempts/Paths, Start, Runs, Writes, Submission, Latest and Concurrent
--   Invitations          the invitations of routes/exams.ts; Invitations/Entering, Unchecked and Concurrent,
--                        Invitations/Memory an instance of the table
--   Catalog              the rest of routes/exams.ts, routes/challenges.ts, and the schemas of their bodies in
--                        packages/shared/src/index.ts (from the root of the repository);
--                        Catalog/Links, Deleted, Unused, Invited, Runs, Visibility and Schedule, and
--                        Catalog/Memory, an instance of the tables
--   Reports              routes/reports.ts; Reports/Pages, Analytics, Top and Scores, and
--                        Reports/Memory, an instance of the numbers
--   Scheduler            lib/exam-scheduler.ts; Scheduler/Closing, Windows, Sweep, Fallback and Cycle
--   Sockets              socket/examHandlers.ts, and auth:refresh; Sockets/Events runs of one socket, Sockets/Frame,
--                        Ownership, Isolation, Joining and Replaced
--   Connections          the connected sockets of socket/index.ts: eviction and the check of their tokens;
--                        Connections/Tracking and Connections/Expiry
--   Client               the tokens of the web client, apps/web/src/lib/api.ts (from the root of the repository):
--                        Client/SignedIn one client and the server, Client/Tabs two tabs of one browser
--   Validator            lib/challenge-validator.ts; Validator/Filled and Contained texts, Validator/Agreement
--   Keystrokes           keystroke:batch of socket/keystrokeService.ts, and its client,
--                        apps/web/src/hooks/useKeystrokeTracker.ts (from the root of the repository);
--                        Keystrokes/Bounded, Accepted, Kept and Recorded, Keystrokes/Memory an instance of the lists
-- Files named Tests, and Accounts/AdminTests, run the model and apply the theorems to concrete data.
--
-- How the state corresponds. `Store` is Redis, `App` is Redis with the table of attempts, the queue, the
-- messages sent and the intervals of one instance. An operation takes the state and gives the state
-- after it, with its answer. A handler is one step: nothing else runs between its awaits, but where a
-- theorem is about two operations that interleave (Autosave/Races, Attempts/Concurrent,
-- Invitations/Concurrent). The time, random identifiers and
-- what a scan of keys finds are arguments, so a theorem holds for each of them. A route is modelled
-- behind its Zod schema and its rate limiter.
--
-- Bounds. Times are milliseconds and times to live seconds, natural numbers without a bound; they stay
-- far below 2 ^ 53, where the numbers of JavaScript are exact. No function takes fuel: every loop of the
-- modelled code runs over a list that was read before it, and is a recursion on that list.
--
-- Not part of the repository, and therefore interfaces with laws: Redis, PostgreSQL through drizzle-orm,
-- jsonwebtoken, bcrypt, and the floating point of the reports. Whether the database enforces its foreign keys is
-- an argument of the routes that could break them (Catalog). Each has an instance in memory, on which the examples run.
--
-- Not modelled: failures of the stores (the code logs them), console output, what an
-- evicted socket is sent, the speed of typing, screenshots, the lists of
-- exams, challenges and users, rate limits, the grader in Go and the rest of the web client.
pub mod Base
pub mod Redis
pub mod Tokens
pub mod Sessions
pub mod Accounts
pub mod Platform
pub mod Presence
pub mod Proctor
pub mod Autosave
pub mod Grading
pub mod Timers
pub mod Attempts
pub mod Invitations
pub mod Scheduler
pub mod Sockets
pub mod Connections
pub mod Catalog
pub mod Reports
pub mod Client
pub mod Validator
pub mod Keystrokes
