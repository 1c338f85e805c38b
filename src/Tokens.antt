-- ===== src/Tokens.antt =====
-- apps/api/src/lib/token-manager.ts: refresh tokens, their rotation and their revocation.
-- The library that signs and verifies tokens is a parameter, one instance for each secret; that the
-- secrets are configured is assumed (`getSecrets` throws otherwise). The time and a fresh UUID are
-- arguments. One call is one step: nothing else runs between its commands.
pub mod Memory
pub mod Reuse
pub mod Revocation
pub mod Rotation
pub mod Tests
use test_platform.Base.{
  ℕ, ◌+◌, ◌*◌, ◌/◌, ◌≤◌, ◌≡◌, Bool, true, false, Option, none, some, List, [], ◌∷◌, ltb, ◌==◌,
  if◌then◌else◌, is_some,
}
use test_platform.Redis.{Strings, Sets, Store}
use test_platform.Redis.Keys.{
  Key, refresh, revoked, token_family, Role, RefreshTokenData, flag, token_data, parse_token,
}

pub record TokenPayload : Type 0 where
  pub user_id : ℕ
  pub email : ℕ
  pub role : Role

-- The claims `tokenId` and `familyId`, with `type: 'refresh'`.
pub record RefreshClaims : Type 0 where
  pub token_id : ℕ
  pub family_id : ℕ

pub record Claims : Type 0 where
  pub payload : TokenPayload
  pub refresh_claims : Option RefreshClaims

-- The package jsonwebtoken under one secret: `iat` and `exp` are whole seconds. `decode` is `verify` with `ignoreExpiration`.
pub record Jwt (Token : Type 0) : Type 0 where
  pub sign : ℕ → Claims → ℕ → Token
  pub verify : ℕ → Token → Option Claims
  pub decode : Token → Option Claims
  pub verify-sign :
      (t now : ℕ) (c : Claims) (ttl : ℕ)
      → verify t (sign now c ttl) ≡ (if ltb (t / 1000) (now / 1000 + ttl) then some c else none)
  pub decode_of_verify : (t : ℕ) (k : Token) (c : Claims) → verify t k ≡ some c → decode k ≡ some c

abbrev pub access_token_expiry_seconds : ℕ
access_token_expiry_seconds = 24 * 60 * 60

abbrev pub refresh_token_expiry_seconds : ℕ
refresh_token_expiry_seconds = 7 * 24 * 60 * 60

abbrev pub refresh_claims_of : TokenPayload → ℕ → ℕ → Claims
refresh_claims_of p token_id family_id = record {
  payload = p;
  refresh_claims = some (record { token_id = token_id; family_id = family_id });
}

abbrev pub token_data_of : TokenPayload → ℕ → ℕ → ℕ → RefreshTokenData
token_data_of p family_id now count = record {
  user_id = p.user_id;
  email = p.email;
  role = p.role;
  family_id = family_id;
  created_at = now;
  rotation_count = count;
}

-- The text of a token's identifier in a key; `undefined` for a token that carries none.
abbrev pub id_text : Claims → Option ℕ
id_text c = elim c.refresh_claims [ none ↦ none | some k ↦ some k.token_id ]

module _ {A B Token : Type 0} (kv : Strings A) (ss : Sets B) (access jwt : Jwt Token) where
  unfoldable pub generate_access_token : ℕ → TokenPayload → Token
  generate_access_token now p =
      access.sign now (record { payload = p; refresh_claims = none }) access_token_expiry_seconds

  unfoldable pub verify_access_token : ℕ → Token → Option TokenPayload
  verify_access_token now token = elim (access.verify now token) [
    | none ↦ none
    | some c ↦ some c.payload
  ]

  unfoldable pub generate_refresh_token : ℕ → ℕ → ℕ → TokenPayload → Store A B → Token × Store A B
  generate_refresh_token now token_id family_id p r = (
    jwt.sign now (refresh_claims_of p token_id family_id) refresh_token_expiry_seconds,
    record {
      strings =
          kv.set_ex now (refresh (some token_id)) (token_data (token_data_of p family_id now 0))
            refresh_token_expiry_seconds r.strings;
      sets =
          ss.expire now (token_family family_id) refresh_token_expiry_seconds
            (ss.sadd now (token_family family_id) token_id r.sets);
    },
  )

  -- The token is no longer active, and is remembered as revoked.
  unfoldable pub revoke_id : ℕ → Option ℕ → A → A
  revoke_id now id s =
      kv.set_ex now (revoked id) flag refresh_token_expiry_seconds (kv.del (refresh id) s)

  -- The loop of `revokeTokenFamily`.
  unfoldable pub revoke_ids : ℕ → List ℕ → A → A
  revoke_ids now [] s = s
  revoke_ids now (id ∷ ids) s = revoke_ids now ids (revoke_id now (some id) s)

  unfoldable pub revoke_token_family : ℕ → ℕ → Store A B → Store A B
  revoke_token_family now family_id r = record {
    strings = revoke_ids now (ss.smembers now (token_family family_id) r.sets) r.strings;
    sets = ss.del (token_family family_id) r.sets;
  }

  -- The new pair of tokens, and the store with the old one revoked and the new one added.
  unfoldable pub rotated :
      ℕ
      → ℕ
      → TokenPayload
      → RefreshClaims
      → RefreshTokenData
      → Store A B
      → Option (Token × Token) × Store A B
  unfolding generate_access_token
  rotated now new_token_id p k d r = (
    some (
      generate_access_token now p,
      jwt.sign now (refresh_claims_of p new_token_id k.family_id) refresh_token_expiry_seconds,
    ),
    record {
      strings =
          kv.set_ex now (refresh (some new_token_id))
            (token_data (token_data_of p k.family_id now (d.rotation_count + 1)))
            refresh_token_expiry_seconds (revoke_id now (some k.token_id) r.strings);
      sets = ss.sadd now (token_family k.family_id) new_token_id r.sets;
    },
  )

  -- `rotateRefreshToken` once the token is verified and is a refresh token.
  unfoldable pub rotate_verified :
      ℕ → ℕ → TokenPayload → RefreshClaims → Store A B → Option (Token × Token) × Store A B
  rotate_verified now new_token_id p k r =
      if is_some (kv.get now (revoked (some k.token_id)) r.strings)
      then (none, revoke_token_family now k.family_id r)
      else elim (kv.get now (refresh (some k.token_id)) r.strings) [
        | none ↦ (none, r)
        | some v ↦ elim (parse_token v) [
          | none ↦ (none, r)
          | some d ↦ rotated now new_token_id p k d r
        ]
      ]

  unfoldable pub rotate_refresh_token :
      ℕ → ℕ → Token → Store A B → Option (Token × Token) × Store A B
  rotate_refresh_token now new_token_id old_token r = elim (jwt.verify now old_token) [
    | none ↦ (none, r)
    | some c ↦ elim c.refresh_claims [
      | none ↦ (none, r)
      | some k ↦ rotate_verified now new_token_id c.payload k r
    ]
  ]

  unfoldable pub revoke_refresh_token : ℕ → Token → Store A B → Bool × Store A B
  revoke_refresh_token now token r = elim (jwt.decode token) [
    | none ↦ (false, r)
    | some c ↦ (true, record r { strings = revoke_id now (id_text c) r.strings })
  ]

  -- One round of the loop of `revokeAllUserTokens`.
  unfoldable pub revoke_if_owned : ℕ → ℕ → ℕ → Store A B → Store A B
  revoke_if_owned now user_id id r = elim (kv.get now (refresh (some id)) r.strings) [
    | none ↦ r
    | some v ↦ elim (parse_token v) [
      | none ↦ r
      | some d ↦ if d.user_id == user_id then revoke_token_family now d.family_id r else r
    ]
  ]

  -- The list holds the identifiers in the keys that the scan of `refresh:*` gave.
  unfoldable pub revoke_all_user_tokens : ℕ → ℕ → List ℕ → Store A B → Store A B
  revoke_all_user_tokens now user_id [] r = r
  revoke_all_user_tokens now user_id (id ∷ ids) r =
      revoke_all_user_tokens now user_id ids (revoke_if_owned now user_id id r)
