-- ===== src/Tokens/Reuse.antt =====
-- The use of a revoked refresh token in lib/token-manager.ts: a second use takes down the whole family.
use test_platform.Base.{
  ℕ, ◌+◌, ◌*◌, ◌<◌, ◌≡◌, refl, ap, true, none, some, arith, if◌then◌else◌, has, is_some,
}
use test_platform.Redis.{Strings, Sets, Store}
use test_platform.Redis.Keys.{refresh, revoked, token_family, flag}
use test_platform.Tokens.{
  RefreshClaims, Claims, Jwt, refresh_token_expiry_seconds, refresh_claims_of, revoke_token_family,
  rotated, rotate_verified, rotate_refresh_token, revoke_refresh_token,
}
use test_platform.Tokens.Revocation.{get-revoke_id_revoked, revoke_token_family_lem}
use test_platform.Tokens.Rotation.{IsActive, rotate_refused, rotated-revoked, rotate_of_active}

module _ {A B Token : Type 0} (kv : Strings A) (ss : Sets B) (access jwt : Jwt Token) where
  rotate_of_revoked :
      (now n : ℕ) (token : Token) (c : Claims) (k : RefreshClaims) (r : Store A B)
      → jwt.verify now token ≡ some c
      → c.refresh_claims ≡ some k
      → is_some (kv.get now (revoked (some k.token_id)) r.strings) ≡ true
      → rotate_refresh_token kv ss access jwt now n token r
        ≡ (none, revoke_token_family kv ss access jwt now k.family_id r)
  unfolding rotate_refresh_token rotate_verified
  rotate_of_revoked now n token c k r e e' h = rw (e, e', h, rotate_refresh_token, rotate_verified)

  -- Breach detection: when a revoked refresh token is used, no tokens are given and every token in
  -- the set of its family is revoked for the seven days that follow; no other token's keys change.
  pub rotate_reuse :
      (now t n x : ℕ) (token : Token) (c : Claims) (k : RefreshClaims) (r : Store A B)
      → jwt.verify now token ≡ some c
      → c.refresh_claims ≡ some k
      → is_some (kv.get now (revoked (some k.token_id)) r.strings) ≡ true
      → t < now + refresh_token_expiry_seconds * 1000
      → ((rotate_refresh_token kv ss access jwt now n token r).0 ≡ none)
        × (kv.get t
              (refresh (some x))
              (rotate_refresh_token kv ss access jwt now n token r).1.strings
            ≡ (if has x (ss.smembers now (token_family k.family_id) r.sets)
                then none
                else kv.get t (refresh (some x)) r.strings))
        × (kv.get t
              (revoked (some x))
              (rotate_refresh_token kv ss access jwt now n token r).1.strings
            ≡ (if has x (ss.smembers now (token_family k.family_id) r.sets)
                then some flag
                else kv.get t (revoked (some x)) r.strings))
  rotate_reuse now t n x token c k r e e' h early =
      let (gone, marked) = revoke_token_family_lem kv ss access jwt t now k.family_id x r early in
      rw (rotate_of_revoked now n token c k r e e' h) (refl, gone, marked)

  decode-sign :
      (now : ℕ) (c : Claims) → jwt.decode (jwt.sign now c refresh_token_expiry_seconds) ≡ some c
  decode-sign now c =
      jwt.decode_of_verify now _ c
        (ground (arith, jwt.verify-sign now now c refresh_token_expiry_seconds))

  -- After a theft: a token is rotated at `now`, and used again at `later`. From then on, for seven
  -- days, the refresh token that the rotation gave is refused too, if its identifier was still in
  -- the set of the family when the old token was used again.
  pub rotate_theft :
      (now later t n m i : ℕ) (token : Token) (c : Claims) (k : RefreshClaims) (r : Store A B)
      → jwt.verify now token ≡ some c
      → jwt.verify later token ≡ some c
      → c.refresh_claims ≡ some k
      → IsActive kv ss access jwt now k r
      → later < now + refresh_token_expiry_seconds * 1000
      → t < later + refresh_token_expiry_seconds * 1000
      → has n (
          ss.smembers later
            (token_family k.family_id)
            (rotate_refresh_token kv ss access jwt now n token r).1.sets)
        ≡ true
      → (pair : Token × Token) × ((rotate_refresh_token kv ss access jwt now n token r).0
          ≡ some pair)
        × ((rotate_refresh_token kv ss access jwt t i pair.1
              (rotate_refresh_token kv ss access jwt later m token
                (rotate_refresh_token kv ss access jwt now n token r).1).1).0
            ≡ none)
  unfolding rotated
  rotate_theft now later t n m i token c k r e e2 e' a early1 early2 member =
      let q = rotate_of_active kv ss access jwt now n token c k r e e' a in
      let new = refresh_claims_of c.payload n k.family_id in
      let s = (rotated kv ss access jwt now n c.payload k a.entry r).1 in
      (
        _,
        ap (λ x. x.0) q,
        rw q (
            rotate_refused kv ss access jwt t i _ new
              (record { token_id = n; family_id = k.family_id }) _ (decode-sign now new) refl
              (ground (
                arith,
                rw q at member,
                rotated-revoked kv ss access jwt later now n k.token_id c.payload k a.entry r
                    early1,
                rotate_reuse later t m n token c k s e2 e',
              ))),
      )

  -- A refresh token that was revoked, as at a logout, gives no tokens in the seven days that follow.
  pub revoke_then_rotate :
      (now t n : ℕ) (token : Token) (c : Claims) (k : RefreshClaims) (r : Store A B)
      → jwt.decode token ≡ some c
      → c.refresh_claims ≡ some k
      → t < now + refresh_token_expiry_seconds * 1000
      → ((revoke_refresh_token kv ss access jwt now token r).0 ≡ true)
        × ((rotate_refresh_token kv ss access jwt t n token
              (revoke_refresh_token kv ss access jwt now token r).1).0
            ≡ none)
  unfolding revoke_refresh_token
  revoke_then_rotate now t n token c k r e e' early = (
    rw (e, revoke_refresh_token),
    rw (e, e', revoke_refresh_token)
        (rotate_refused kv ss access jwt t n token c k _ e e' (
          ground (
            arith,
            get-revoke_id_revoked kv ss access jwt t now k.token_id k.token_id r.strings early,
          ))),
  )
