-- ===== src/Redis/Keys.antt =====
-- The keys that the program builds by template strings and the values that it stores under them.
-- An identifier (a cuid, a UUID, a socket's name, a session's name) and an e-mail address is only
-- compared for equality, and is a number here. A key is its prefix with the identifiers in it. A
-- value is what `JSON.stringify` was given, since `JSON.parse` gives it back.
use test_platform.Base.{
  ==_refl, refl, ◌≡◌, ℕ, Bool, true, false, ◌&&◌, Option, none, some, List, ◌==◌, same_id,
}

-- The prefixes of lib/token-manager.ts, lib/session-cache.ts, lib/autosave-buffer.ts,
-- socket/timerService.ts, socket/presenceService.ts, lib/exam-scheduler.ts, routes/attempts.ts and
-- lib/grading.ts, in this order.
pub data Key : Type 0 where
  refresh revoked : Option ℕ → Key
  session login_cache : ℕ → Key
  autosave : ℕ → Key
  timer timer_lock timer_handled : ℕ → Key
  presence : ℕ → ℕ → Key
  scheduler_lock : Key
  processed : ℕ → ℕ → Key
  attempt_lock : ℕ → Key
  grading_lock : ℕ → Key
  job : ℕ → Key

pub data SetKey : Type 0 where
  token_family : ℕ → SetKey
  user_sessions : ℕ → SetKey
  autosave_dirty : SetKey
  presence_set : ℕ → SetKey

abbrev pub key_eq : Key → Key → Bool
key_eq (refresh a) (refresh b) = same_id a b
key_eq (revoked a) (revoked b) = same_id a b
key_eq (session a) (session b) = a == b
key_eq (login_cache a) (login_cache b) = a == b
key_eq (autosave a) (autosave b) = a == b
key_eq (timer a) (timer b) = a == b
key_eq (timer_lock a) (timer_lock b) = a == b
key_eq (timer_handled a) (timer_handled b) = a == b
key_eq (presence a b) (presence c d) = a == c && b == d
key_eq scheduler_lock scheduler_lock = true
key_eq (processed a b) (processed c d) = a == c && b == d
key_eq (attempt_lock a) (attempt_lock b) = a == b
key_eq (grading_lock a) (grading_lock b) = a == b
key_eq (job a) (job b) = a == b
key_eq _ _ = false

abbrev pub set_key_eq : SetKey → SetKey → Bool
set_key_eq (token_family a) (token_family b) = a == b
set_key_eq (user_sessions a) (user_sessions b) = a == b
set_key_eq autosave_dirty autosave_dirty = true
set_key_eq (presence_set a) (presence_set b) = a == b
set_key_eq _ _ = false

pub set_key_eq_refl : (k : SetKey) → set_key_eq k k ≡ true
set_key_eq_refl (token_family a) = ==_refl a
set_key_eq_refl (user_sessions a) = ==_refl a
set_key_eq_refl autosave_dirty = refl
set_key_eq_refl (presence_set a) = ==_refl a

-- `roleEnum` of packages/database/src/schema.ts.
pub data Role : Type 0 where
  admin candidate reviewer : Role

-- A candidate's files: path and content, `Record<string, string>`.
abbrev pub Files : Type 0
Files = List (List ℕ × List ℕ)

-- `RefreshTokenData` of lib/token-manager.ts.
pub record RefreshTokenData : Type 0 where
  pub user_id : ℕ
  pub email : ℕ
  pub role : Role
  pub family_id : ℕ
  pub created_at : ℕ
  pub rotation_count : ℕ

-- `SessionData` of lib/session-cache.ts. The hash is a text.
pub record SessionData : Type 0 where
  pub user_id : ℕ
  pub email : ℕ
  pub role : Role
  pub password_hash : List ℕ
  pub created_at : ℕ
  pub last_accessed_at : ℕ
  pub user_agent : Option ℕ
  pub ip : Option ℕ

-- The object that `saveToBuffer` of lib/autosave-buffer.ts stores.
pub record Buffered : Type 0 where
  pub files : Files
  pub updated_at : ℕ

-- `TimerMeta` of socket/timerService.ts.
pub record TimerMeta : Type 0 where
  pub attempt_id : ℕ
  pub started_at : ℕ
  pub end_time : ℕ
  pub time_limit : ℕ
  pub scheduled_end_at : Option ℕ

-- `SessionData` of socket/presenceService.ts.
pub record PresenceData : Type 0 where
  pub socket_id : ℕ
  pub user_id : ℕ
  pub attempt_id : ℕ
  pub last_active : ℕ

-- `flag` is the text that a lock or a mark holds, `text` an identifier stored as it is.
pub data Value : Type 0 where
  flag : Value
  text : ℕ → Value
  token_data : RefreshTokenData → Value
  session_data : SessionData → Value
  buffered : Buffered → Value
  timer_meta : TimerMeta → Value
  presence_data : PresenceData → Value

-- `JSON.parse` and the cast at each reader: a value of another shape does not parse.
abbrev pub parse_token : Value → Option RefreshTokenData
parse_token (token_data d) = some d
parse_token _ = none

abbrev pub parse_session : Value → Option SessionData
parse_session (session_data d) = some d
parse_session _ = none

abbrev pub parse_buffered : Value → Option Buffered
parse_buffered (buffered b) = some b
parse_buffered _ = none

abbrev pub parse_timer : Value → Option TimerMeta
parse_timer (timer_meta m) = some m
parse_timer _ = none

abbrev pub parse_presence : Value → Option PresenceData
parse_presence (presence_data d) = some d
parse_presence _ = none

abbrev pub parse_text : Value → Option ℕ
parse_text (text n) = some n
parse_text _ = none
