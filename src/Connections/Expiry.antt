-- ===== src/Connections/Expiry.antt =====
-- The check of the tokens of the connected sockets, `startTokenValidation` of socket/index.ts.
use test_platform.Base.{
  ℕ, ◌+◌, ◌≤◌, ◌≡◌, refl, inl, inr, Bool, true, false, ◌||◌, Option, none, some, List, [], ◌∷◌,
  arith, if◌then◌else◌, ◌==◌, has, is_some, Option-cases, Bool-cases,
}
use test_platform.Tokens.{Jwt, Claims}
use test_platform.Connections.{
  Connection, Hub, token_check_interval, recently_checked, auth_refresh, check_token, check_tokens,
}
use test_platform.Connections.Tracking.{close_socket-sockets}

module _ {Token : Type 0} (access : Jwt Token) where
  abbrev pub verified : ℕ → Option Token → Bool
  verified now none = false
  verified now (some token) = is_some (access.verify now token)

  -- A socket that a check leaves connected: it was checked a short time ago, or its handshake's token is
  -- still good.
  abbrev pub survives : ℕ → Option (Connection Token) → Bool
  survives now none = false
  survives now (some c) = recently_checked now c.checked_at || verified now c.token

  check_token_lem :
      (now id x : ℕ) (h : Hub Token)
      → let after = (check_token access now id h).sockets x in
        (survives now after ≡ survives now (h.sockets x))
        × (is_some after ≡ (if x == id then survives now (h.sockets x) else is_some (h.sockets x)))
  unfolding check_token
  check_token_lem now id x h = elim (Option-cases (h.sockets id)) [
    | inl e ↦ rw (check_token, e) (ground (arith, e))
    | inr (c, e) ↦ elim (Bool-cases (recently_checked now c.checked_at)) [
      | inl r ↦ rw (check_token, e, r) (ground (arith, e, r))
      | inr r ↦ elim (Option-cases c.token) [
        | inl k ↦
            rw (check_token, e, r, k) (ground (arith, e, r, k, close_socket-sockets access id x h))
        | inr (token, k) ↦ elim (Option-cases (access.verify now token)) [
          | inl v ↦
              rw (check_token, e, r, k, v)
                (ground (arith, e, r, k, v, close_socket-sockets access id x h))
          | inr (claims, v) ↦ rw (check_token, e, r, k, v) (ground (arith, e, r, k, v))
        ]
      ]
    ]
  ]

  -- After the check of some sockets, those of them are connected that were checked in the last five
  -- minutes, at a time that is not 0, or whose handshake had a token that is good now. None of the others is closed.
  pub check_tokens_lem :
      (now x : ℕ) (ids : List ℕ) (h : Hub Token)
      → is_some ((check_tokens access now ids h).sockets x)
        ≡ (if has x ids then survives now (h.sockets x) else is_some (h.sockets x))
  unfolding check_tokens
  check_tokens_lem now x [] h = refl
  check_tokens_lem now x (id ∷ ids) h =
      ground (
        arith,
        check_tokens_lem now x ids (check_token access now id h),
        check_token_lem now id x h,
      )

  -- A socket that takes a new token by `auth:refresh` is disconnected all the same: a check of it
  -- five minutes later, when the token of its handshake does not verify any more, closes it, however long
  -- the new token is good for.
  pub auth_refresh-closed :
      (t now id : ℕ) (old new : Token) (claims : Claims) (c : Connection Token) (ids : List ℕ)
      (h : Hub Token)
      → h.sockets id ≡ some c
      → c.token ≡ some old
      → access.verify t new ≡ some claims
      → access.verify now old ≡ none
      → t + token_check_interval ≤ now
      → has id ids ≡ true
      → is_some ((check_tokens access now ids (auth_refresh access t id new h)).sockets id) ≡ false
  unfolding auth_refresh
  auth_refresh-closed t now id old new claims c ids h e k v w order member =
      rw (check_tokens_lem now id ids (auth_refresh access t id new h), auth_refresh, e, v)
        (ground (arith, k, w, order, member))
