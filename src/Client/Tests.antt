-- ===== src/Client/Tests.antt =====
-- The tokens of apps/web/src/lib/api.ts, run with the server in memory, and their theorems at concrete inputs.
use test_platform.Base.{
  ℕ, ◌+◌, ◌*◌, ◌/◌, ◌<◌, ◌≡◌, refl, inl, true, none, some, arith, has, is_ok, api_error,
}
use test_platform.Redis.{Store}
use test_platform.Redis.Keys.{refresh, token_family, candidate, token_data}
use test_platform.Redis.Memory.{empty, Cells, Groups, strings, sets}
use test_platform.Tokens.Memory.{Signed, jwt}
use test_platform.Tokens.{
  TokenPayload, RefreshClaims, Claims, refresh_claims_of, token_data_of, revoke_token_family,
  revoke_ids, revoke_id, rotated, rotate_verified, rotate_refresh_token, generate_access_token,
  refresh_token_expiry_seconds,
}
use test_platform.Tokens.Rotation.{IsActive}
use test_platform.Accounts.Memory.{users, bcrypt}
use test_platform.Accounts.Routes.{refresh_tokens}
use test_platform.Client.{
  Storage, System, refresh_access_token, load_tokens, save_tokens, set_token, finish_refresh, ask,
  serve, calls,
}
use test_platform.Client.SignedIn.{IsUnused, IsSignedIn, Reached, begins, asks, serve-Reached}
use test_platform.Client.Tabs.{first_tab, second_tab, second_tab_lem, open_tab}

tokens : Unit {0}
unfolding generate_access_token rotate_refresh_token rotate_verified rotated revoke_token_family
    revoke_ids revoke_id refresh_access_token load_tokens save_tokens set_token finish_refresh ask
    serve refresh_tokens
tokens = tt

abbrev ann : TokenPayload
ann = record { user_id = 1; email = 11; role = candidate }

-- Ann logged in at time 5: token 70 of family 7.
abbrev login_store : Store Cells Groups
login_store = record {
  strings =
      strings.set_ex 5 (refresh (some 70)) (token_data (token_data_of ann 7 5 0))
        refresh_token_expiry_seconds empty.strings;
  sets =
      sets.expire 5 (token_family 7) refresh_token_expiry_seconds
        (sets.sadd 5 (token_family 7) 70 empty.sets);
}

abbrev ann_claims : Claims
ann_claims = refresh_claims_of ann 70 7

abbrev ann_ids : RefreshClaims
ann_ids = record { token_id = 70; family_id = 7 }

abbrev ann_token : Signed
ann_token = jwt.sign 5 ann_claims refresh_token_expiry_seconds

abbrev ann_storage : Storage Signed
ann_storage = record {
  access_key = some ann_token;
  refresh_key = some ann_token;
  legacy_key = some ann_token;
}

abbrev seven_days_on : ℕ
seven_days_on = 604800000

abbrev opened : System Cells Groups Signed
opened = open_tab users bcrypt strings sets jwt jwt ann_storage login_store

verified : (t : ℕ) → t < seven_days_on → jwt.verify t ann_token ≡ some ann_claims
verified t early = ground arith

active : (t : ℕ) → t < seven_days_on → IsActive strings sets jwt jwt t ann_ids login_store
active t early = record {
  entry = token_data_of ann 7 5 0;
  not_revoked = refl;
  stored = ground arith;
}

unused : IsUnused users bcrypt strings sets jwt jwt 71 login_store
unused t = (refl, refl)

opened-IsSignedIn : IsSignedIn users bcrypt strings sets jwt jwt seven_days_on opened
unfolding tokens
opened-IsSignedIn = record {
  token = ann_token;
  claims = ann_claims;
  ids = ann_ids;
  holds = refl;
  flight = inl refl;
  is_refresh = refl;
  verified = verified;
  active = active;
}

-- Two requests of the client are refused, and the second shares the call of the first.
abbrev asked : System Cells Groups Signed
asked = ask users bcrypt strings sets jwt jwt (ask users bcrypt strings sets jwt jwt opened)

under_way : asked.client.in_flight ≡ some ann_token
unfolding tokens
under_way = refl

asked-server : asked.server ≡ login_store
unfolding tokens
asked-server = refl

asked-Reached : Reached users bcrypt strings sets jwt jwt seven_days_on asked
asked-Reached = asks (asks (begins opened-IsSignedIn))

asked-IsUnused : IsUnused users bcrypt strings sets jwt jwt 71 asked.server
unfolding tokens
asked-IsUnused t = (refl, refl)

serve-Reached_example :
    (is_ok (refresh_tokens users bcrypt strings sets jwt jwt 6 71 (some ann_token) asked.server).0
      ≡ true)
    × IsSignedIn users bcrypt strings sets jwt jwt
        ((6 / 1000 + refresh_token_expiry_seconds) * 1000)
        (serve users bcrypt strings sets jwt jwt 6 71 ann_token asked)
serve-Reached_example =
    serve-Reached users bcrypt strings sets jwt jwt 6 71 ann_token asked-Reached (omega arith)
      asked-IsUnused under_way

member :
    has 71 (
      sets.smembers 8
        (token_family 7)
        (first_tab users bcrypt strings sets jwt jwt 6 71 ann_token ann_storage
          login_store).server.sets)
    ≡ true
unfolding tokens
member = refl

second_tab_lem_example :
    let second =
      second_tab users bcrypt strings sets jwt jwt 6 71 8 72 ann_token ann_storage login_store in
    ((refresh_access_token (load_tokens ann_storage)).0 ≡ calls ann_token)
    × (second.client.refresh_token ≡ none)
    × (second.storage ≡ record { access_key = none; refresh_key = none; legacy_key = none })
    × ((b : Signed) × ((first_tab users bcrypt strings sets jwt jwt 6 71 ann_token ann_storage
            login_store).client.refresh_token
          ≡ some b)
        × ((refresh_tokens users bcrypt strings sets jwt jwt 10 73 (some b) second.server).0
            ≡ api_error 401))
second_tab_lem_example =
    second_tab_lem users bcrypt strings sets jwt jwt 6 8 10 71 72 73 ann_token ann_claims ann_ids
      ann_storage login_store refl refl refl refl (active 6 (omega arith)) (omega arith)
      (omega arith) member

-- A storage from before the refresh tokens.
abbrev legacy_storage : Storage ℕ
legacy_storage = record { access_key = none; refresh_key = none; legacy_key = some 2 }

-- What is saved is loaded, and a token that is set leaves the refresh token.
storage_tests :
    ((load_tokens legacy_storage).access_token ≡ some 2)
    × (load_tokens (save_tokens (some 3) (some 4) (load_tokens legacy_storage) legacy_storage).1
        ≡ record { access_token = some 3; refresh_token = some 4; in_flight = none })
    × ((set_token
          (some 5)
          (load_tokens (record { access_key = some 3; refresh_key = some 4; legacy_key = some 3 }))
          legacy_storage).0
        ≡ record { access_token = some 5; refresh_token = some 4; in_flight = none })
unfolding tokens
storage_tests = (refl, refl, refl)
