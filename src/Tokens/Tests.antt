-- ===== src/Tokens/Tests.antt =====
-- lib/token-manager.ts run on the server in memory, and its theorems at concrete inputs.
use test_platform.Base.{◌≡◌, refl, inr, true, none, some, arith, has, is_some}
use test_platform.Redis.{Store}
use test_platform.Redis.Keys.{refresh, revoked, token_family, candidate, flag, token_data}
use test_platform.Redis.Memory.{empty, Cells, Groups, strings, sets}
use test_platform.Tokens.Memory.{Signed, jwt}
use test_platform.Tokens.{
  TokenPayload, RefreshClaims, Claims, refresh_claims_of, token_data_of, revoke_token_family,
  revoke_ids, revoke_id, rotated, rotate_verified, rotate_refresh_token, revoke_refresh_token,
  generate_refresh_token, generate_access_token, revoke_all_user_tokens, revoke_if_owned,
  refresh_token_expiry_seconds, verify_access_token,
}
use test_platform.Tokens.Revocation.{Doomed}
use test_platform.Tokens.Rotation.{IsActive, rotate_once}
use test_platform.Tokens.Reuse.{rotate_theft}

tokens : Unit {0}
unfolding generate_refresh_token generate_access_token rotate_refresh_token rotate_verified rotated
    revoke_token_family revoke_ids revoke_id revoke_refresh_token revoke_all_user_tokens
    revoke_if_owned verify_access_token
tokens = tt

abbrev ann : TokenPayload
ann = record { user_id = 1; email = 11; role = candidate }

-- Ann logs in at time 5: token 70 of family 7.
abbrev login_store : Store Cells Groups
login_store = record {
  strings =
      strings.set_ex 5 (refresh (some 70)) (token_data (token_data_of ann 7 5 0))
        refresh_token_expiry_seconds empty.strings;
  sets =
      sets.expire 5 (token_family 7) refresh_token_expiry_seconds
        (sets.sadd 5 (token_family 7) 70 empty.sets);
}

abbrev ann_claims : Claims
ann_claims = refresh_claims_of ann 70 7

abbrev ann_ids : RefreshClaims
ann_ids = record { token_id = 70; family_id = 7 }

abbrev ann_token : Signed
ann_token = jwt.sign 5 ann_claims refresh_token_expiry_seconds

login_lem : generate_refresh_token strings sets jwt jwt 5 70 7 ann empty ≡ (ann_token, login_store)
unfolding tokens
login_lem = refl

active : IsActive strings sets jwt jwt 6 ann_ids login_store
active = record { entry = token_data_of ann 7 5 0; not_revoked = refl; stored = refl }

rotates : is_some (rotate_refresh_token strings sets jwt jwt 6 71 ann_token login_store).0 ≡ true
unfolding tokens
rotates = refl

-- The old token revoked, as after its rotation.
abbrev used_store : Store Cells Groups
used_store = record login_store {
  strings =
      strings.set_ex 6 (revoked (some 70)) flag refresh_token_expiry_seconds login_store.strings;
}

rotate_once_example :
    (rotate_refresh_token strings sets jwt jwt 9 72 ann_token
      (rotate_refresh_token strings sets jwt jwt 6 71 ann_token login_store).1).0
    ≡ none
rotate_once_example =
    rotate_once strings sets jwt jwt 6 9 71 72 ann_token login_store rotates (omega arith)

member :
    has 71 (
      sets.smembers 8
        (token_family 7)
        (rotate_refresh_token strings sets jwt jwt 6 71 ann_token login_store).1.sets)
    ≡ true
unfolding tokens
member = refl

rotate_theft_example :
    (pair : Signed × Signed) × ((rotate_refresh_token strings sets jwt jwt 6 71 ann_token
        login_store).0
      ≡ some pair)
    × ((rotate_refresh_token strings sets jwt jwt 10 73 pair.1
          (rotate_refresh_token strings sets jwt jwt 8 72 ann_token
            (rotate_refresh_token strings sets jwt jwt 6 71 ann_token login_store).1).1).0
        ≡ none)
rotate_theft_example =
    rotate_theft strings sets jwt jwt 6 8 10 71 72 73 ann_token ann_claims ann_ids login_store refl
      refl refl active (omega arith) (omega arith) member

doomed : Doomed strings sets jwt jwt 6 1 70 login_store
doomed = inr (token_data_of ann 7 5 0, refl, refl, refl)

-- An access token is read back until it expires, and is no refresh token.
access_token_tests :
    (verify_access_token strings sets jwt jwt 6 (generate_access_token strings sets jwt jwt 5 ann)
      ≡ some ann)
    × ((rotate_refresh_token strings sets jwt jwt 6 71
          (generate_access_token strings sets jwt jwt 5 ann)
          login_store).0
        ≡ none)
unfolding tokens
access_token_tests = (refl, refl)
