-- ===== src/Accounts/Tests.antt =====
-- The routes and guards of routes/auth.ts and middleware/auth.ts at concrete inputs.
use test_platform.Base.{
  ℕ, ◌+◌, ◌≡◌, refl, true, false, none, some, List, [], ◌∷◌, ok, api_error, is_ok,
}
use test_platform.Redis.{Store}
use test_platform.Redis.Keys.{
  admin, candidate, reviewer, session, login_cache, SessionData, text, session_data,
}
use test_platform.Redis.Memory.{empty, Cells, Groups, strings, sets}
use test_platform.Tokens.Memory.{jwt}
use test_platform.Tokens.{TokenPayload, generate_refresh_token, revoke_all_user_tokens}
use test_platform.Sessions.{
  create_session, get_session, get_cached_login, set_cached_login, remove_cached_login,
  invalidate_all_user_sessions, delete_sessions,
}
use test_platform.Accounts.Memory.{users, bcrypt}
use test_platform.Accounts.{pending, approved, User, require_role, new_account}
use test_platform.Accounts.Routes.{
  Registration, register, login, LoginRequest, logout_all, establish_session,
}

accounts : Unit {0}
unfolding require_role new_account register login establish_session generate_refresh_token
    create_session get_session get_cached_login set_cached_login
accounts = tt

abbrev ann : User
ann = record {
  id = 1;
  email = 11;
  password = 5 ∷ 6 ∷ [];
  name = 0;
  role = candidate;
  approval_status = approved;
  approved_by = none;
  approved_at = some 1;
}

abbrev bob : User
bob = record {
  id = 2;
  email = 12;
  password = 7 ∷ [];
  name = 0;
  role = reviewer;
  approval_status = pending;
  approved_by = none;
  approved_at = none;
}

abbrev table : List (ℕ × User)
table = (1, ann) ∷ (2, bob) ∷ []

abbrev ask : ℕ → ℕ → List ℕ → LoginRequest
ask now email password = record {
  now = now;
  email = email;
  password = password;
  user_agent = none;
  ip = none;
  new_session_id = 40 + now;
  token_id = 70 + now;
  family_id = 7;
}

abbrev bob_claims : TokenPayload
bob_claims = record { user_id = 2; email = 12; role = reviewer }

abbrev ann_claims : TokenPayload
ann_claims = record { user_id = 1; email = 11; role = candidate }

require_role_tests :
    (require_role users (admin ∷ reviewer ∷ []) (some bob_claims) table ≡ api_error 403)
    × (require_role users (candidate ∷ []) (some ann_claims) table ≡ ok tt)
    × (require_role users (reviewer ∷ []) (some (record bob_claims { user_id = 3 })) table
        ≡ api_error 404)
unfolding accounts
require_role_tests = (refl, refl, refl)

abbrev registration : Registration
registration = record {
  now = 3;
  id = 3;
  email = 13;
  password = 1 ∷ [];
  name = 0;
  role = some admin;
  bootstrap = false;
  token_id = 70;
  family_id = 7;
}

abbrev new_admin : User
new_admin = new_account users bcrypt 3 false 3 13 (1 ∷ []) 0 (some admin) table

abbrev cached_session : SessionData
cached_session = record {
  user_id = 1;
  email = 11;
  role = candidate;
  password_hash = 5 ∷ 6 ∷ [];
  created_at = 3;
  last_accessed_at = 3;
  user_agent = none;
  ip = none;
}

abbrev cached : Store Cells Groups
cached = record empty {
  strings =
      strings.set_ex 3 (login_cache 11) (text 40) 604800
        (strings.set_ex 3 (session 40) (session_data cached_session) 604800 empty.strings);
}

logged_out :
    is_ok
      (login users bcrypt strings sets jwt jwt
        (ask 5 11 (5 ∷ 6 ∷ []))
        table
        (logout_all users bcrypt strings sets jwt jwt 4 ann_claims [] cached)).0
    ≡ true
unfolding accounts logout_all invalidate_all_user_sessions delete_sessions remove_cached_login
    revoke_all_user_tokens
logged_out = refl
