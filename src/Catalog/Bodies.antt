-- ===== src/Catalog/Bodies.antt =====
-- The rows of exams, and the bodies of the requests of routes/exams.ts and routes/challenges.ts with their
-- schemas in packages/shared/src/index.ts.
use test_platform.Base.{
  ℕ, Bool, true, false, ◌&&◌, Option, none, some, List, length, or_else, ltb, leb,
}
use test_platform.Redis.Keys.{Files}
use test_platform.Platform.{Challenge, Runner}

-- `exams`.
pub record ExamRow : Type 0 where
  pub id : ℕ
  pub challenge_id : ℕ
  pub time_limit : ℕ
  pub max_attempts : ℕ
  pub scheduled_start_at : Option ℕ
  pub scheduled_end_at : Option ℕ
  pub is_published : Bool
  pub published_at : Option ℕ
  pub created_by : ℕ

-- A field of a body that may be missing: `none`. Its value is `none` for `null` and for a text that is
-- no date.
abbrev pub DateField : Type 0
DateField = Option (Option ℕ)

-- The transformation of `scheduledStartAt` and `scheduledEndAt` in both schemas, which runs on a missing
-- field too.
abbrev pub transform_date : DateField → Option ℕ
transform_date none = none
transform_date (some d) = d

-- The refinement of both schemas: if both dates are there, the end is after the start.
abbrev pub is_ordered : Option ℕ → Option ℕ → Bool
is_ordered (some start) (some end) = ltb start end
is_ordered _ _ = true

abbrev pub in_range : ℕ → ℕ → ℕ → Bool
in_range low high n = leb low n && leb n high

abbrev pub checked : (ℕ → Bool) → Option ℕ → Bool
checked p none = true
checked p (some n) = p n

-- The body of `POST /api/exams`. The title is its length.
pub record ExamBody : Type 0 where
  pub title : ℕ
  pub challenge_id : ℕ
  pub time_limit : ℕ
  pub max_attempts : Option ℕ
  pub scheduled_start_at : DateField
  pub scheduled_end_at : DateField

-- The body of `PUT /api/exams/:id`.
pub record ExamPatch : Type 0 where
  pub title : Option ℕ
  pub challenge_id : Option ℕ
  pub time_limit : Option ℕ
  pub max_attempts : Option ℕ
  pub scheduled_start_at : DateField
  pub scheduled_end_at : DateField

abbrev pub get_or {ℓ} : {A : Type ℓ} → Option A → A → A
get_or none d = d
get_or (some x) d = x

-- `createExamSchema`, of the fields that are modelled.
unfoldable pub create_exam_schema : ExamBody → Bool
create_exam_schema b =
    leb 3 b.title
    && in_range 5 480 b.time_limit
    && checked (in_range 1 10) b.max_attempts
    && is_ordered (transform_date b.scheduled_start_at) (transform_date b.scheduled_end_at)

-- `updateExamSchema`, of the fields that are modelled.
unfoldable pub update_exam_schema : ExamPatch → Bool
update_exam_schema b =
    checked (leb 3) b.title
    && checked (in_range 5 480) b.time_limit
    && checked (in_range 1 10) b.max_attempts
    && is_ordered (transform_date b.scheduled_start_at) (transform_date b.scheduled_end_at)

-- `values({ ...data, createdBy })`, with the defaults of the schema and of the table.
abbrev pub new_row : ℕ → ℕ → ExamBody → ExamRow
new_row id user_id b = record {
  id = id;
  challenge_id = b.challenge_id;
  time_limit = b.time_limit;
  max_attempts = get_or b.max_attempts 1;
  scheduled_start_at = transform_date b.scheduled_start_at;
  scheduled_end_at = transform_date b.scheduled_end_at;
  is_published = false;
  published_at = none;
  created_by = user_id;
}

-- `set({ ...data })`: a missing field is not written, and a date is never missing after the schema.
abbrev pub patch_exam : ExamPatch → ExamRow → ExamRow
patch_exam b r = record r {
  challenge_id = get_or b.challenge_id r.challenge_id;
  time_limit = get_or b.time_limit r.time_limit;
  max_attempts = get_or b.max_attempts r.max_attempts;
  scheduled_start_at = transform_date b.scheduled_start_at;
  scheduled_end_at = transform_date b.scheduled_end_at;
}

abbrev pub set_published : ℕ → ExamRow → ExamRow
set_published now r = record r { is_published = true; published_at = some now }

abbrev pub set_unpublished : ExamRow → ExamRow
set_unpublished r = record r { is_published = false }

-- The body of `POST /api/challenges`, and of `PUT`, where every field may be missing. The name is its
-- length.
pub record ChallengeBody : Type 0 where
  pub name : ℕ
  pub starter_files : Files
  pub public_tests : List ℕ
  pub hidden_tests : List ℕ
  pub dependencies : ℕ
  pub node_version : ℕ
  pub runner : Option Runner

pub record ChallengePatch : Type 0 where
  pub name : Option ℕ
  pub starter_files : Option Files
  pub public_tests : Option (List ℕ)
  pub hidden_tests : Option (List ℕ)
  pub dependencies : Option ℕ
  pub node_version : Option ℕ
  pub runner : Option Runner

abbrev pub new_challenge : ℕ → ChallengeBody → Challenge
new_challenge id b = record {
  id = id;
  starter_files = b.starter_files;
  public_tests = b.public_tests;
  hidden_tests = b.hidden_tests;
  dependencies = b.dependencies;
  node_version = b.node_version;
  runner = b.runner;
}

-- `createChallengeSchema`, of the fields that are modelled.
unfoldable pub create_challenge_schema : ChallengeBody → Bool
create_challenge_schema b =
    leb 3 b.name && leb 1 (length b.public_tests) && leb 1 (length b.hidden_tests)

abbrev pub is_filled : Option (List ℕ) → Bool
is_filled none = true
is_filled (some s) = leb 1 (length s)

unfoldable pub update_challenge_schema : ChallengePatch → Bool
update_challenge_schema b =
    checked (leb 3) b.name && is_filled b.public_tests && is_filled b.hidden_tests

abbrev pub patch_challenge : ChallengePatch → Challenge → Challenge
patch_challenge b c = record c {
  starter_files = get_or b.starter_files c.starter_files;
  public_tests = get_or b.public_tests c.public_tests;
  hidden_tests = get_or b.hidden_tests c.hidden_tests;
  dependencies = get_or b.dependencies c.dependencies;
  node_version = get_or b.node_version c.node_version;
  runner = or_else b.runner c.runner;
}
