-- ===== src/Tokens/Rotation.antt =====
-- Rotation in lib/token-manager.ts: which tokens it accepts, that a token is good for one rotation,
-- and that the token it gives is accepted in its turn.
use test_platform.Base.{
  ℕ, ◌+◌, ◌*◌, ◌/◌, ◌<◌, ◌≡◌, refl, ap, ◌≢◌, ◌↔◌, inl, inr, true, none, some, arith, ltb, ◌==◌,
  if◌then◌else◌, is_some, Option-cases,
}
use test_platform.Redis.{Strings, Sets, Store}
use test_platform.Redis.Keys.{refresh, revoked, RefreshTokenData, flag, token_data, Value}
use test_platform.Tokens.{
  TokenPayload, RefreshClaims, Claims, Jwt, refresh_token_expiry_seconds, refresh_claims_of,
  token_data_of, revoke_id, rotated, rotate_verified, rotate_refresh_token,
}
use test_platform.Tokens.Revocation.{get-revoke_id_refresh, get-revoke_id_revoked}

module _ {A B Token : Type 0} (kv : Strings A) (ss : Sets B) (access jwt : Jwt Token) where
  -- The server's own record of a token: active, and not revoked.
  pub record IsActive (now : ℕ) (k : RefreshClaims) (r : Store A B) : Type 0 where
    pub entry : RefreshTokenData
    pub not_revoked : kv.get now (revoked (some k.token_id)) r.strings ≡ none
    pub stored : kv.get now (refresh (some k.token_id)) r.strings ≡ some (token_data entry)

  -- What a rotation that gives tokens was given, and did.
  pub record Accepted (now n : ℕ) (token : Token) (r : Store A B) : Type 0 where
    pub claims : Claims
    pub ids : RefreshClaims
    pub active : IsActive now ids r
    pub verified : jwt.verify now token ≡ some claims
    pub is_refresh : claims.refresh_claims ≡ some ids
    pub result :
        rotate_refresh_token kv ss access jwt now n token r
        ≡ rotated kv ss access jwt now n claims.payload ids active.entry r

  rotate_verified_inv :
      (now n : ℕ) (p : TokenPayload) (k : RefreshClaims) (r : Store A B)
      → is_some (rotate_verified kv ss access jwt now n p k r).0 ≡ true
      → (a : IsActive now k r) × (rotate_verified kv ss access jwt now n p k r
          ≡ rotated kv ss access jwt now n p k a.entry r)
  unfolding rotate_verified
  rotate_verified_inv now n p k r h =
      elim (Option-cases (kv.get now (revoked (some k.token_id)) r.strings)) [
        | inr (_, e) ↦ cc (rw (e, rotate_verified) at h)
        | inl fine ↦ elim (Option-cases (kv.get now (refresh (some k.token_id)) r.strings)) [
          | inl gone ↦ cc (rw (fine, gone, rotate_verified) at h)
          | inr (v, e) ↦ of_value v e fine
        ]
      ]
    where
      of_value :
          (v : Value)
          → kv.get now (refresh (some k.token_id)) r.strings ≡ some v
          → kv.get now (revoked (some k.token_id)) r.strings ≡ none
          → (a : IsActive now k r) × (rotate_verified kv ss access jwt now n p k r
              ≡ rotated kv ss access jwt now n p k a.entry r)
      of_value (token_data d) e fine =
          (record { entry = d; not_revoked = fine; stored = e }, rw (fine, e, rotate_verified) refl)
      of_value _ e fine = cc (rw (fine, e, rotate_verified) at h)

  pub rotate_inv :
      (now n : ℕ) (token : Token) (r : Store A B)
      → is_some (rotate_refresh_token kv ss access jwt now n token r).0 ≡ true
      → Accepted now n token r
  unfolding rotate_refresh_token
  rotate_inv now n token r h = elim (Option-cases (jwt.verify now token)) [
    | inl e ↦ cc (rw (e, rotate_refresh_token) at h)
    | inr (c, e) ↦ elim (Option-cases c.refresh_claims) [
      | inl e' ↦ cc (rw (e, e', rotate_refresh_token) at h)
      | inr (k, e') ↦
          let (a, q) =
            rotate_verified_inv now n c.payload k r (rw (e, e', rotate_refresh_token) at h) in
          record {
            claims = c;
            ids = k;
            active = a;
            verified = e;
            is_refresh = e';
            result = rw (e, e', rotate_refresh_token) q;
          }
    ]
  ]

  -- A rotation gives tokens exactly for a token that verifies, carries the claims of a refresh token,
  -- and whose identifier is stored and not revoked at the time.
  pub rotate_accepts_iff :
      (now n : ℕ) (token : Token) (r : Store A B)
      → (is_some (rotate_refresh_token kv ss access jwt now n token r).0 ≡ true) ↔ (
          (c : Claims) × (k : RefreshClaims) × (jwt.verify now token ≡ some c)
          × (c.refresh_claims ≡ some k)
          × IsActive now k r)
  unfolding rotate_refresh_token rotate_verified rotated
  rotate_accepts_iff now n token r = (
    (λ h.
        let a = rotate_inv now n token r h in
        (a.claims, a.ids, a.verified, a.is_refresh, a.active)),
    λ w. rw (w.2, w.3, w.4.not_revoked, w.4.stored, rotate_refresh_token, rotate_verified, rotated),
  )

  -- What a successful rotation leaves under the keys of any token.
  pub rotated-refresh :
      (t now n x : ℕ) (p : TokenPayload) (k : RefreshClaims) (d : RefreshTokenData) (r : Store A B)
      → kv.get t (refresh (some x)) (rotated kv ss access jwt now n p k d r).1.strings ≡ (
          if x == n
          then if ltb t (now + refresh_token_expiry_seconds * 1000)
            then some (token_data (token_data_of p k.family_id now (d.rotation_count + 1)))
            else none
          else if x == k.token_id
          then none
          else kv.get t (refresh (some x)) r.strings)
  unfolding rotated
  rotated-refresh t now n x p k d r = ground (
    arith,
    kv.get-set_ex t now (refresh (some x)) (refresh (some n))
        (token_data (token_data_of p k.family_id now (d.rotation_count + 1)))
        refresh_token_expiry_seconds (revoke_id kv ss access jwt now (some k.token_id) r.strings),
    get-revoke_id_refresh kv ss access jwt t now k.token_id x r.strings,
  )

  pub rotated-revoked :
      (t now n x : ℕ) (p : TokenPayload) (k : RefreshClaims) (d : RefreshTokenData) (r : Store A B)
      → t < now + refresh_token_expiry_seconds * 1000
      → kv.get t (revoked (some x)) (rotated kv ss access jwt now n p k d r).1.strings
        ≡ (if x == k.token_id then some flag else kv.get t (revoked (some x)) r.strings)
  unfolding rotated
  rotated-revoked t now n x p k d r h = ground (
    arith,
    kv.get-set_ex t now (revoked (some x)) (refresh (some n))
        (token_data (token_data_of p k.family_id now (d.rotation_count + 1)))
        refresh_token_expiry_seconds (revoke_id kv ss access jwt now (some k.token_id) r.strings),
    get-revoke_id_revoked kv ss access jwt t now k.token_id x r.strings h,
  )

  -- A token whose mark of revocation is seen gives no tokens.
  pub rotate_refused :
      (t m : ℕ) (token : Token) (c : Claims) (k : RefreshClaims) (r : Store A B)
      → jwt.decode token ≡ some c
      → c.refresh_claims ≡ some k
      → kv.get t (revoked (some k.token_id)) r.strings ≡ some flag
      → (rotate_refresh_token kv ss access jwt t m token r).0 ≡ none
  rotate_refused t m token c k r e e' h =
      elim (Option-cases (rotate_refresh_token kv ss access jwt t m token r).0) [
        | inl nothing ↦ nothing
        | inr (p, some_tokens) ↦
            let a = rotate_inv t m token r (rw some_tokens refl) in
            cc
              (a.active.not_revoked, a.is_refresh, jwt.decode_of_verify t token a.claims a.verified)
      ]

  -- A refresh token is good for one rotation: once it has given tokens, it gives none in the seven
  -- days that follow, whatever identifiers the rotations draw.
  pub rotate_once :
      (now t n m : ℕ) (token : Token) (r : Store A B)
      → is_some (rotate_refresh_token kv ss access jwt now n token r).0 ≡ true
      → t < now + refresh_token_expiry_seconds * 1000
      → (rotate_refresh_token kv ss access jwt t m token
          (rotate_refresh_token kv ss access jwt now n token r).1).0
        ≡ none
  rotate_once now t n m token r h early =
      let a = rotate_inv now n token r h in
      rw a.result (
        rotate_refused t m token a.claims a.ids _
          (jwt.decode_of_verify now token a.claims a.verified) a.is_refresh
          (ground (
            arith,
            rotated-revoked t now n a.ids.token_id a.claims.payload a.ids a.active.entry r early,
          )))

  pub rotate_of_active :
      (now n : ℕ) (token : Token) (c : Claims) (k : RefreshClaims) (r : Store A B)
      → jwt.verify now token ≡ some c
      → c.refresh_claims ≡ some k
      → (a : IsActive now k r)
      → rotate_refresh_token kv ss access jwt now n token r
        ≡ rotated kv ss access jwt now n c.payload k a.entry r
  unfolding rotate_refresh_token rotate_verified
  rotate_of_active now n token c k r e e' a =
      rw (e, e', a.not_revoked, a.stored, rotate_refresh_token, rotate_verified)

  -- A rotation of an active token gives a refresh token that is accepted in its turn, for seven
  -- days from the second of the rotation, if the identifier drawn for it is fresh: not the old token's, and not revoked.
  pub rotate_chain :
      (now t n m : ℕ) (token : Token) (c : Claims) (k : RefreshClaims) (r : Store A B)
      → jwt.verify now token ≡ some c
      → c.refresh_claims ≡ some k
      → IsActive now k r
      → t < (now / 1000 + refresh_token_expiry_seconds) * 1000
      → n ≢ k.token_id
      → kv.get t (revoked (some n)) r.strings ≡ none
      → (pair : Token × Token) × ((rotate_refresh_token kv ss access jwt now n token r).0
          ≡ some pair)
        × (is_some
              (rotate_refresh_token kv ss access jwt t m pair.1
                (rotate_refresh_token kv ss access jwt now n token r).1).0
            ≡ true)
  unfolding rotated
  rotate_chain now t n m token c k r e e' a early fresh unused =
      let q = rotate_of_active now n token c k r e e' a in
      (
        _,
        ap (λ x. x.0) q,
        rw q (
            (rotate_accepts_iff t m _ _).1 (
              refresh_claims_of c.payload n k.family_id,
              record { token_id = n; family_id = k.family_id },
              ground (
                arith,
                jwt.verify-sign t now (refresh_claims_of c.payload n k.family_id)
                    refresh_token_expiry_seconds,
              ),
              refl,
              record {
                entry = token_data_of c.payload k.family_id now (a.entry.rotation_count + 1);
                not_revoked =
                    ground (arith, rotated-revoked t now n n c.payload k a.entry r (omega arith));
                stored = ground (arith, rotated-refresh t now n n c.payload k a.entry r);
              },
            )),
      )
