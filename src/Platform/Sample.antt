-- ===== src/Platform/Sample.antt =====
-- One exam, one attempt and the server in memory that the examples run on.
use test_platform.Base.{ℕ, ◌==◌, true, Option, none, some, [], ◌∷◌, if◌then◌else◌}
use test_platform.Redis.Keys.{Files}
use test_platform.Redis.Memory.{Cells, Groups}
use test_platform.Platform.{Attempt, Challenge, Exam, App, in_progress}
use test_platform.Platform.Memory.{Rows, Queue, no_jobs}

-- `a.js` and `b.js`.
abbrev pub old_files : Files
old_files = (97 ∷ 46 ∷ 106 ∷ 115 ∷ [], 1 ∷ []) ∷ []

abbrev pub new_files : Files
new_files = (98 ∷ 46 ∷ 106 ∷ 115 ∷ [], 2 ∷ 3 ∷ []) ∷ []

-- `../a`.
abbrev pub outside : Files
outside = (46 ∷ 46 ∷ 47 ∷ 97 ∷ [], []) ∷ []

abbrev pub challenge : Challenge
challenge = record {
  id = 5;
  starter_files = old_files;
  public_tests = 1 ∷ [];
  hidden_tests = 2 ∷ 3 ∷ [];
  dependencies = 0;
  node_version = 18;
  runner = none;
}

abbrev pub exam : Exam
exam = record {
  id = 3;
  challenge = some challenge;
  time_limit = 60;
  max_attempts = 1;
  scheduled_start_at = some 500;
  scheduled_end_at = some 9000000;
  is_published = true;
}

abbrev pub exam_of : ℕ → Option Exam
exam_of x = if x == 3 then some exam else none

abbrev pub attempt : Attempt
attempt = record {
  id = 7;
  exam_id = 3;
  candidate_id = 1;
  status = in_progress;
  started_at = 1000;
  submitted_at = none;
  files = some old_files;
  public_score = none;
  hidden_score = none;
  total_public = none;
  total_hidden = none;
  grading_logs = none;
  graded_at = none;
  tab_exits = 0;
  total_out_of_window_seconds = 0;
  fullscreen_exits = 0;
  paste_attempts = 0;
}

abbrev pub bare : Rows → App Cells Groups Rows Queue
bare rows = record {
  store = record { strings = λ _. none; sets = λ _. record { value = []; deadline = none } };
  attempts = rows;
  queue = no_jobs;
  sent = [];
  intervals = [];
}

abbrev pub app : App Cells Groups Rows Queue
app = bare ((7, attempt) ∷ [])
