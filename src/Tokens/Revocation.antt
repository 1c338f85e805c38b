-- ===== src/Tokens/Revocation.antt =====
-- What revocation in lib/token-manager.ts does to the keys of a token, in the store and over the
-- loops of `revokeTokenFamily` and `revokeAllUserTokens`.
use test_platform.Base.{
  ℕ, ◌+◌, ◌*◌, ◌<◌, ◌≡◌, refl, ◌⊎◌, inl, inr, true, none, some, List, [], ◌∷◌, arith, ◌==◌,
  if◌then◌else◌, has, not, ◌&&◌, Bool-cases, Option-cases, ==_iff,
}
use test_platform.Redis.{Strings, Sets, Store}
use test_platform.Redis.Keys.{
  refresh, revoked, token_family, RefreshTokenData, flag, token_data, parse_token,
}
use test_platform.Tokens.{
  Jwt, refresh_token_expiry_seconds, revoke_id, revoke_ids, revoke_token_family, revoke_if_owned,
  revoke_all_user_tokens,
}

module _ {A B Token : Type 0} (kv : Strings A) (ss : Sets B) (access jwt : Jwt Token) where
  -- Revoking one token touches its own two keys alone.
  pub get-revoke_id_refresh :
      (t now i x : ℕ) (s : A)
      → kv.get t (refresh (some x)) (revoke_id kv ss access jwt now (some i) s)
        ≡ (if x == i then none else kv.get t (refresh (some x)) s)
  unfolding revoke_id
  get-revoke_id_refresh t now i x s = ground (
    arith,
    kv.get-set_ex t now (refresh (some x)) (revoked (some i)) flag refresh_token_expiry_seconds
        (kv.del (refresh (some i)) s),
    kv.get-del t (refresh (some x)) (refresh (some i)) s,
  )

  pub get-revoke_id_revoked :
      (t now i x : ℕ) (s : A)
      → t < now + refresh_token_expiry_seconds * 1000
      → kv.get t (revoked (some x)) (revoke_id kv ss access jwt now (some i) s)
        ≡ (if x == i then some flag else kv.get t (revoked (some x)) s)
  unfolding revoke_id
  get-revoke_id_revoked t now i x s h = ground (
    arith,
    kv.get-set_ex t now (revoked (some x)) (revoked (some i)) flag refresh_token_expiry_seconds
        (kv.del (refresh (some i)) s),
    kv.get-del t (revoked (some x)) (refresh (some i)) s,
  )

  pub get-revoke_ids_refresh :
      (t now x : ℕ) (ids : List ℕ) (s : A)
      → kv.get t (refresh (some x)) (revoke_ids kv ss access jwt now ids s)
        ≡ (if has x ids then none else kv.get t (refresh (some x)) s)
  unfolding revoke_ids
  get-revoke_ids_refresh t now x [] s = refl
  get-revoke_ids_refresh t now x (i ∷ ids) s = ground (
    arith,
    get-revoke_ids_refresh t now x ids (revoke_id kv ss access jwt now (some i) s),
    get-revoke_id_refresh t now i x s,
  )

  pub get-revoke_ids_revoked :
      (t now x : ℕ) (ids : List ℕ) (s : A)
      → t < now + refresh_token_expiry_seconds * 1000
      → kv.get t (revoked (some x)) (revoke_ids kv ss access jwt now ids s)
        ≡ (if has x ids then some flag else kv.get t (revoked (some x)) s)
  unfolding revoke_ids
  get-revoke_ids_revoked t now x [] s h = refl
  get-revoke_ids_revoked t now x (i ∷ ids) s h = ground (
    arith,
    get-revoke_ids_revoked t now x ids (revoke_id kv ss access jwt now (some i) s) h,
    get-revoke_id_revoked t now i x s h,
  )

  -- Revoking a family takes every token of the family, and no other, out of the active ones, and
  -- marks each of them, and no other, as revoked for the seven days that follow.
  pub revoke_token_family_lem :
      (t now f x : ℕ) (r : Store A B)
      → t < now + refresh_token_expiry_seconds * 1000
      → (kv.get t (refresh (some x)) (revoke_token_family kv ss access jwt now f r).strings ≡ (
          if has x (ss.smembers now (token_family f) r.sets)
          then none
          else kv.get t (refresh (some x)) r.strings))
        × (kv.get t (revoked (some x)) (revoke_token_family kv ss access jwt now f r).strings ≡ (
            if has x (ss.smembers now (token_family f) r.sets)
            then some flag
            else kv.get t (revoked (some x)) r.strings))
  unfolding revoke_token_family
  revoke_token_family_lem t now f x r h = (
    get-revoke_ids_refresh t now x (ss.smembers now (token_family f) r.sets) r.strings,
    get-revoke_ids_revoked t now x (ss.smembers now (token_family f) r.sets) r.strings h,
  )

  -- A token of user `u` that is active and in its family, or one that is active no more.
  abbrev pub Doomed : ℕ → ℕ → ℕ → Store A B → Type 0
  Doomed now u x r =
      (kv.get now (refresh (some x)) r.strings ≡ none)
      ⊎ ((d : RefreshTokenData) × (kv.get now (refresh (some x)) r.strings ≡ some (token_data d))
          × (d.user_id ≡ u)
          × (has x (ss.smembers now (token_family d.family_id) r.sets) ≡ true))

  get-revoke_token_family :
      (now f x : ℕ) (r : Store A B)
      → kv.get now (refresh (some x)) (revoke_token_family kv ss access jwt now f r).strings ≡ (
          if has x (ss.smembers now (token_family f) r.sets)
          then none
          else kv.get now (refresh (some x)) r.strings)
  unfolding revoke_token_family
  get-revoke_token_family now f x r =
      get-revoke_ids_refresh now now x (ss.smembers now (token_family f) r.sets) r.strings

  members-revoke_token_family :
      (now f g x : ℕ) (r : Store A B)
      → has x (ss.smembers now (token_family g) (revoke_token_family kv ss access jwt now f r).sets)
        ≡ (not (g == f) && has x (ss.smembers now (token_family g) r.sets))
  unfolding revoke_token_family
  members-revoke_token_family now f g x r =
      ss.smembers-del now (token_family g) (token_family f) x r.sets

  revoke_token_family-Doomed :
      (now u f x : ℕ) (r : Store A B)
      → Doomed now u x r
      → Doomed now u x (revoke_token_family kv ss access jwt now f r)
  revoke_token_family-Doomed now u f x r (inl gone) =
      inl (ground (arith, get-revoke_token_family now f x r))
  revoke_token_family-Doomed now u f x r (inr (d, e, mine, member)) =
      elim (Bool-cases (has x (ss.smembers now (token_family f) r.sets))) [
        | inl here ↦ inl (ground (arith, get-revoke_token_family now f x r))
        | inr other ↦ inr (
          d,
          ground (arith, get-revoke_token_family now f x r),
          mine,
          ground (arith, members-revoke_token_family now f d.family_id x r),
        )
      ]

  -- A round leaves the store, or revokes one family.
  revoke_if_owned_cases {ℓ} :
      (P : Store A B → Type ℓ) (now u i : ℕ) (r : Store A B)
      → P r
      → ((f : ℕ) → P (revoke_token_family kv ss access jwt now f r))
      → P (revoke_if_owned kv ss access jwt now u i r)
  unfolding revoke_if_owned
  revoke_if_owned_cases P now u i r left family =
      elim (Option-cases (kv.get now (refresh (some i)) r.strings)) [
        | inl e ↦ rw (e, revoke_if_owned) left
        | inr (v, e) ↦ elim (Option-cases (parse_token v)) [
          | inl bad ↦ rw (e, bad, revoke_if_owned) left
          | inr (d, good) ↦ elim (Bool-cases (d.user_id == u)) [
            | inl mine ↦ rw (e, good, mine, revoke_if_owned) (family d.family_id)
            | inr other ↦ rw (e, good, other, revoke_if_owned) left
          ]
        ]
      ]

  -- The round of the token itself takes it out.
  revoke_if_owned_self :
      (now u x : ℕ) (r : Store A B)
      → Doomed now u x r
      → kv.get now (refresh (some x)) (revoke_if_owned kv ss access jwt now u x r).strings ≡ none
  unfolding revoke_if_owned
  revoke_if_owned_self now u x r (inl gone) = ground arith
  revoke_if_owned_self now u x r (inr (d, e, mine, member)) =
      ground (arith, get-revoke_token_family now d.family_id x r)

  stays_revoked :
      (now u x : ℕ) (ids : List ℕ) (r : Store A B)
      → kv.get now (refresh (some x)) r.strings ≡ none
      → kv.get now (refresh (some x)) (revoke_all_user_tokens kv ss access jwt now u ids r).strings
        ≡ none
  unfolding revoke_all_user_tokens
  stays_revoked now u x [] r h = h
  stays_revoked now u x (i ∷ ids) r h =
      stays_revoked now u x ids (revoke_if_owned kv ss access jwt now u i r) (
        revoke_if_owned_cases (λ q. kv.get now (refresh (some x)) q.strings ≡ none) now u i r h
          (λ f. ground (arith, get-revoke_token_family now f x r)))

  -- After `revokeAllUserTokens` none of the user's scanned tokens is active, if each was in its
  -- family's set, whatever other tokens were scanned before it.
  pub revoke_all_user_tokens_lem :
      (now u x : ℕ) (ids : List ℕ) (r : Store A B)
      → has x ids ≡ true
      → Doomed now u x r
      → kv.get now (refresh (some x)) (revoke_all_user_tokens kv ss access jwt now u ids r).strings
        ≡ none
  unfolding revoke_all_user_tokens
  revoke_all_user_tokens_lem now u x [] r h d = cc
  revoke_all_user_tokens_lem now u x (i ∷ ids) r h d = elim (Bool-cases (x == i)) [
    | inl here ↦
        stays_revoked now u x ids _ (rw (← (==_iff x i).0 here) (revoke_if_owned_self now u x r d))
    | inr later ↦ revoke_all_user_tokens_lem now u x ids _ (ground arith) (
        revoke_if_owned_cases (Doomed now u x) now u i r d
          (λ f. revoke_token_family-Doomed now u f x r d))
  ]
