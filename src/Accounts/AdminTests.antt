-- ===== src/Accounts/AdminTests.antt =====
-- The routes of routes/admin-users.ts and the tokens of routes/auth.ts at concrete inputs.
use mathlib.Core.Option
use test_platform.Base.{◌≡◌, refl, true, false, none, some, List, [], ◌∷◌, arith, ok, is_ok}
use test_platform.Redis.Keys.{admin, candidate, reviewer}
use test_platform.Redis.Memory.{Cells, Groups, empty, strings, sets}
use test_platform.Tokens.{
  TokenPayload, generate_access_token, generate_refresh_token, access_token_expiry_seconds,
}
use test_platform.Tokens.Memory.{Signed, jwt}
use test_platform.Sessions.{create_session, get_cached_login, set_cached_login}
use test_platform.Accounts.{
  User, pending, approved, require_role, check_approval, new_account, initial_status,
}
use test_platform.Accounts.Memory.{Accounts, users, bcrypt}
use test_platform.Accounts.Routes.{
  Registration, LoginRequest, LoginData, payload_of, register, login, establish_session,
  authenticate, generate_token, token_expiry_seconds,
}
use test_platform.Accounts.Admin.{
  decide, set_role, approve_user, reject_user, change_role, as_admin, Request, registers, approves,
  changes_role, step, run,
}
use test_platform.Accounts.Vouching.{Vouched, run-Vouched}

routes : Unit {0}
unfolding require_role check_approval new_account initial_status register login establish_session
    authenticate generate_token approve_user reject_user change_role as_admin step run
    generate_access_token generate_refresh_token create_session get_cached_login set_cached_login
routes = tt

-- An admin whom account 9 approved, a candidate and a reviewer who waits.
abbrev eve : User
eve = record {
  id = 1;
  email = 11;
  password = 5 ∷ [];
  name = 0;
  role = admin;
  approval_status = approved;
  approved_by = some 9;
  approved_at = some 2;
}

abbrev ann : User
ann = record eve { id = 2; email = 12; role = candidate; approved_by = none }

abbrev bob : User
bob = record ann { id = 3; email = 13; role = reviewer; approval_status = pending }

abbrev table : Accounts
table = (1, eve) ∷ (2, ann) ∷ (3, bob) ∷ []

abbrev claims : User → TokenPayload
claims x = payload_of x

table-Vouched : Vouched users table
table-Vouched id = ground arith

abbrev registration : Registration
registration = record {
  now = 3;
  id = 4;
  email = 14;
  password = 1 ∷ [];
  name = 0;
  role = some admin;
  bootstrap = false;
  token_id = 70;
  family_id = 7;
}

abbrev requests : List (Request Cells Groups)
requests =
    registers registration empty
    ∷ approves 5 (claims eve) 3
    ∷ changes_role (claims eve) 2 (some reviewer)
    ∷ approves 6 (claims bob) 2
    ∷ []

-- The new admin waits, the reviewer is approved, and the candidate who was made a reviewer waits: the
-- reviewer may not approve.
requests_test :
    let after = run users bcrypt strings sets jwt jwt requests table in
    (users.find_id 3 after ≡ some (decide approved 5 1 bob))
    × (users.find_id 2 after ≡ some (set_role reviewer ann))
    × (Option.map (λ x. x.approval_status) (users.find_id 4 after) ≡ some pending)
unfolding routes
requests_test = (refl, refl, refl)

run-Vouched_example : Vouched users (run users bcrypt strings sets jwt jwt requests table)
run-Vouched_example =
    run-Vouched users bcrypt strings sets jwt jwt requests table (refl, (refl, (refl, (refl, tt))))
      table-Vouched

rejected_ok :
    is_ok (as_admin users (λ actor. reject_user users 5 actor 3) (claims eve) table).0 ≡ true
unfolding routes
rejected_ok = refl

abbrev ask : LoginRequest
ask = record {
  now = 3;
  email = 12;
  password = 5 ∷ [];
  user_agent = none;
  ip = none;
  new_session_id = 40;
  token_id = 70;
  family_id = 7;
}

abbrev answer : LoginData Signed
answer = record {
  user = ann;
  token = jwt.sign 3 (record { payload = claims ann; refresh_claims = none }) token_expiry_seconds;
  access_token =
      jwt.sign 3 (record { payload = claims ann; refresh_claims = none })
        access_token_expiry_seconds;
  refresh_token =
      jwt.sign 3
        (record {
          payload = claims ann;
          refresh_claims = some (record { token_id = 70; family_id = 7 });
        })
        token_expiry_seconds;
  session_id = 40;
}

answered : (login users bcrypt strings sets jwt jwt ask table empty).0 ≡ ok answer
unfolding routes
answered = refl
