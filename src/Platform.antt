-- ===== src/Platform.antt =====
-- The state that the parts of the API server share: the tables of packages/database/src/schema.ts
-- that an attempt needs, the two Redis stores, the grading queue of apps/api/src/lib/grading.ts and
-- the messages sent to the clients. PostgreSQL (through drizzle-orm) and the streams of Redis are not
-- part of the repository: they are interfaces here.
pub mod Memory
pub mod Sample
use test_platform.Base.{
  ℕ, ◌+◌, ◌≡◌, Bool, true, false, ◌&&◌, Option, none, some, List, [], ◌∷◌, ◌++◌, ◌==◌,
  if◌then◌else◌, length,
}
use mathlib.Core.List.{Memᴰ}
use mathlib.Core.Option
use test_platform.Redis.{Store}
use test_platform.Redis.Keys.{Files}

-- `attemptStatusEnum`.
pub data Status : Type 0 where
  in_progress submitted grading completed failed : Status

-- `examAttempts`.
pub record Attempt : Type 0 where
  pub id : ℕ
  pub exam_id : ℕ
  pub candidate_id : ℕ
  pub status : Status
  pub started_at : ℕ
  pub submitted_at : Option ℕ
  pub files : Option Files
  pub public_score : Option ℕ
  pub hidden_score : Option ℕ
  pub total_public : Option ℕ
  pub total_hidden : Option ℕ
  pub grading_logs : Option (List ℕ)
  pub graded_at : Option ℕ
  pub tab_exits : ℕ
  pub total_out_of_window_seconds : ℕ
  pub fullscreen_exits : ℕ
  pub paste_attempts : ℕ

-- A hidden test of an SQL challenge: its name and its `referenceQuery`, the correct answer.
pub record SqlTest : Type 0 where
  pub name : ℕ
  pub reference_query : List ℕ

-- The column `runner`: for the mode `sql` what it holds besides `hiddenTests`, and these; for the other modes
-- one value, which no modelled code looks into.
pub data Runner : Type 0 where
  sql : ℕ → List SqlTest → Runner
  served : ℕ → Runner

-- `challenges`: dependencies, runner and version are passed on as they are.
pub record Challenge : Type 0 where
  pub id : ℕ
  pub starter_files : Files
  pub public_tests : List ℕ
  pub hidden_tests : List ℕ
  pub dependencies : ℕ
  pub node_version : ℕ
  pub runner : Option Runner

-- `exams`, joined with its challenge as the queries do.
pub record Exam : Type 0 where
  pub id : ℕ
  pub challenge : Option Challenge
  pub time_limit : ℕ
  pub max_attempts : ℕ
  pub scheduled_start_at : Option ℕ
  pub scheduled_end_at : Option ℕ
  pub is_published : Bool

abbrev pub status_eq : Status → Status → Bool
status_eq in_progress in_progress = true
status_eq submitted submitted = true
status_eq grading grading = true
status_eq completed completed = true
status_eq failed failed = true
status_eq _ _ = false

-- The table `exam_attempts` in the state `T`: SELECT by key, UPDATE by key, INSERT, and SELECT by a
-- test.
pub record AttemptTable (T : Type 0) : Type 0 where
  pub find : ℕ → T → Option Attempt
  pub update : ℕ → (Attempt → Attempt) → T → T
  pub insert : Attempt → T → T
  pub select : (Attempt → Bool) → T → List Attempt
  pub find-update :
      (i j : ℕ) (f : Attempt → Attempt) (t : T)
      → find j (update i f t) ≡ (if j == i then Option.map f (find j t) else find j t)
  pub find-insert :
      (j : ℕ) (a : Attempt) (t : T) → find j (insert a t) ≡ (if j == a.id then some a else find j t)
  pub count-insert :
      (p : Attempt → Bool) (a : Attempt) (t : T)
      → length (select p (insert a t))
        ≡ (if p a then length (select p t) + 1 else length (select p t))
  pub mem-select :
      (p : Attempt → Bool) (i : ℕ) (a : Attempt) (t : T)
      → find i t ≡ some a
      → p a ≡ true
      → Memᴰ a (select p t)

-- `GradingJobWithPreview`.
pub record GradingJob : Type 0 where
  pub attempt_id : ℕ
  pub files : Files
  pub public_tests : List ℕ
  pub hidden_tests : List ℕ
  pub dependencies : ℕ
  pub node_version : ℕ
  pub time_limit : ℕ
  pub memory_limit : ℕ
  pub runner : Option Runner
  pub challenge_id : ℕ
  pub is_preview : Bool

pub data Stream : Type 0 where
  high low : Stream

abbrev pub stream_eq : Stream → Stream → Bool
stream_eq high high = true
stream_eq low low = true
stream_eq _ _ = false

-- The hash under `grading:job:<id>` when a job is queued. Its `status` is `queued`, its `progress`
-- and its `attempts` are 0.
pub record JobHash : Type 0 where
  pub attempt_id : ℕ
  pub stream : Stream
  pub created_at : ℕ
  pub is_preview : Bool
  pub payload : GradingJob

-- XADD and the entries of a stream; HSET, EXPIRE and HGETALL of a job's hash; HINCRBY and HGET of the
-- counter `queued` of `grading:stats`, where a missing counter reads as 0.
pub record Streams (Q : Type 0) : Type 0 where
  pub xadd : Stream → ℕ → GradingJob → Q → Q
  pub entries : Stream → Q → List (ℕ × GradingJob)
  pub hset_job : ℕ → ℕ → JobHash → Q → Q
  pub job : ℕ → Q → Option JobHash
  pub incr_queued : Q → Q
  pub queued : Q → ℕ
  pub entries-xadd :
      (i s : Stream) (id : ℕ) (j : GradingJob) (q : Q)
      → entries i (xadd s id j q)
        ≡ (if stream_eq i s then entries i q ++ (id, j) ∷ [] else entries i q)
  pub entries-hset_job :
      (i : Stream) (now id : ℕ) (h : JobHash) (q : Q)
      → entries i (hset_job now id h q) ≡ entries i q
  pub entries-incr_queued : (i : Stream) (q : Q) → entries i (incr_queued q) ≡ entries i q
  pub job-hset_job :
      (now x id : ℕ) (h : JobHash) (q : Q)
      → job x (hset_job now id h q) ≡ (if x == id then some h else job x q)
  pub job-incr_queued : (x : ℕ) (q : Q) → job x (incr_queued q) ≡ job x q
  pub job-xadd :
      (x : ℕ) (s : Stream) (id : ℕ) (j : GradingJob) (q : Q) → job x (xadd s id j q) ≡ job x q
  pub queued-incr_queued : (q : Q) → queued (incr_queued q) ≡ queued q + 1
  pub queued-hset_job : (now id : ℕ) (h : JobHash) (q : Q) → queued (hset_job now id h q) ≡ queued q
  pub queued-xadd :
      (s : Stream) (id : ℕ) (j : GradingJob) (q : Q) → queued (xadd s id j q) ≡ queued q

-- What the server sends to the clients in the room of an attempt.
pub data Event : Type 0 where
  timer_tick : ℕ → ℕ → Event
  timer_expired : ℕ → Event

-- An interval of socket/timerService.ts, with what its callback closes over.
pub record Interval : Type 0 where
  pub attempt_id : ℕ
  pub end_time : ℕ

-- One instance of the API server with the stores behind it: Redis, the table, the queue, the messages
-- sent so far, and the map `localIntervals` of the instance.
pub record App (A B T Q : Type 0) : Type 0 where
  pub store : Store A B
  pub attempts : T
  pub queue : Q
  pub sent : List Event
  pub intervals : List Interval

-- `db.update(examAttempts).set(…).where(eq(examAttempts.id, id))` on the status and the files.
abbrev pub set_status : Status → Attempt → Attempt
set_status s a = record a { status = s }

abbrev pub set_files : Files → Attempt → Attempt
set_files f a = record a { files = some f }
