-- ===== src/Attempts/Start.antt =====
-- `POST /attempts` of routes/attempts.ts: when an attempt is started or resumed, and how many there are.
use test_platform.Base.{
  if◌then◌else◌, ℕ, ◌≤◌, ◌<◌, ◌≡◌, refl, ◌↔◌, Bool, true, false, Option, none, some, List, [], ◌∷◌,
  arith, length, find?, ok, is_ok, api_error, Option-cases, inl, inr,
}
use test_platform.Redis.{Strings, Sets}
use test_platform.Platform.{Attempt, Challenge, Exam, AttemptTable, Streams, App}
use test_platform.Attempts.{
  resumed, created, new_attempt, before_window, after_window, belongs, is_in_progress,
  create_attempt, start_published, start_attempt,
}

find?_of_empty : (p : Attempt → Bool) (xs : List Attempt) → length xs < 1 → find? p xs ≡ none
find?_of_empty p [] h = refl
find?_of_empty p (x ∷ xs) h = absurd (omega arith)

module _ {A B T Q : Type 0} (kv : Strings A) (ss : Sets B) (table : AttemptTable T)
    (streams : Streams Q) (exam_of : ℕ → Option Exam) where
  abbrev pub own_attempts : ℕ → ℕ → App A B T Q → List Attempt
  own_attempts exam_id user_id app = table.select (belongs exam_id user_id) app.attempts

  -- When `POST /attempts` answers with an attempt, and with which: the exam is published, its window is
  -- open, the user has fewer attempts than the exam allows; an attempt in progress goes on and nothing
  -- changes; otherwise one row is inserted, in progress, with the starter files.
  pub start_attempt_iff :
      (now id user_id : ℕ) (e : Exam) (c : Challenge) (app : App A B T Q)
      → exam_of e.id ≡ some e
      → e.challenge ≡ some c
      → let result = start_attempt kv ss table streams exam_of now id user_id e.id app in
        let a = new_attempt now id e.id user_id c.starter_files in
        ((is_ok result.0 ≡ true) ↔ (
          (e.is_published ≡ true)
          × (before_window now e ≡ false)
          × (after_window now e ≡ false)
          × (length (own_attempts e.id user_id app) < e.max_attempts)))
        × (result ≡ (
            if is_ok result.0
            then elim (find? is_in_progress (own_attempts e.id user_id app)) [
              | none ↦ (ok (created a), record app { attempts = table.insert a app.attempts })
              | some old ↦ (ok (resumed old), app)
            ]
            else (result.0, app)))
  unfolding start_attempt start_published create_attempt
  start_attempt_iff now id user_id e c app found has_challenge =
      (((λ h. ground arith), λ h. ground arith), ground arith)

  -- No start takes a user above the number of attempts that the exam allows.
  pub start_attempt-max_attempts :
      (now id user_id : ℕ) (e : Exam) (app : App A B T Q)
      → exam_of e.id ≡ some e
      → length (own_attempts e.id user_id app) ≤ e.max_attempts
      → length (
          own_attempts e.id user_id
            (start_attempt kv ss table streams exam_of now id user_id e.id app).1)
        ≤ e.max_attempts
  unfolding start_attempt start_published create_attempt
  start_attempt-max_attempts now id user_id e app found h = elim (Option-cases e.challenge) [
    | inl missing ↦ ground (arith, found, missing)
    | inr (c, present) ↦ ground (
      arith,
      found,
      present,
      table.count-insert (belongs e.id user_id) (new_attempt now id e.id user_id c.starter_files)
          app.attempts,
    )
  ]

  -- An exam that allows one attempt, which is the default of the schema: whoever has an attempt in progress
  -- is refused with 400 and nothing changes, although the exam is published and its window is open. The
  -- count is tested before the attempt that could go on is looked for.
  pub start_attempt-in_progress :
      (now id user_id : ℕ) (e : Exam) (a : Attempt) (app : App A B T Q)
      → exam_of e.id ≡ some e
      → e.max_attempts ≡ 1
      → e.is_published ≡ true
      → before_window now e ≡ false
      → after_window now e ≡ false
      → find? is_in_progress (own_attempts e.id user_id app) ≡ some a
      → start_attempt kv ss table streams exam_of now id user_id e.id app ≡ (api_error 400, app)
  unfolding start_attempt start_published
  start_attempt-in_progress now id user_id e a app found one published begun going there =
      ground (arith, find?_of_empty is_in_progress (own_attempts e.id user_id app))
