-- ===== src/Connections/Tracking.antt =====
-- The map `userSockets` of socket/index.ts, and what an eviction by it reaches.
use mathlib.Core.Path.{subst}
use test_platform.Base.{
  ℕ, ◌≡◌, refl, sym, ◌∙◌, ap, inl, inr, Bool, false, ◌&&◌, ◌||◌, not, Option, none, some, List, [],
  ◌∷◌, ◌++◌, arith, if◌then◌else◌, ◌==◌, has, remove, has-remove, has_of_empty, Option-cases,
  Bool-cases,
}
use test_platform.Tokens.{Jwt}
use test_platform.Connections.{
  Connection, Hub, no_sockets, ids_of, add_id, forget_id, put_socket, new_connection,
  register_socket, drop_socket, connect, close_socket, auth_refresh, close_sockets, handle_eviction,
  recently_checked, check_token, check_tokens,
}

has-append : (x : ℕ) (xs ys : List ℕ) → has x (xs ++ ys) ≡ (has x xs || has x ys)
has-append x [] ys = refl
has-append x (z ∷ xs) ys = ground (arith, has-append x xs ys)

has-add_id : (x y : ℕ) (ids : List ℕ) → has x (add_id y ids) ≡ (x == y || has x ids)
has-add_id x y ids = ground (arith, has-append x ids (y ∷ []))

has-forget_id :
    (x y : ℕ) (o : Option (List ℕ))
    → has x (ids_of (forget_id y o)) ≡ (not (x == y) && has x (ids_of o))
has-forget_id x y none = ground arith
has-forget_id x y (some ids) = ground (arith, has-remove x y ids, has_of_empty x (remove y ids))

-- The socket, if there is one, was opened by the user.
abbrev pub opened : {Token : Type 0} → ℕ → Option (Connection Token) → Bool
opened u none = false
opened u (some c) = c.opened_by == u

-- The map holds of each user the sockets that are connected and that he opened.
abbrev pub IsTracked : {Token : Type 0} → Hub Token → Type 0
IsTracked h = (u x : ℕ) → has x (ids_of (h.user_sockets u)) ≡ opened u (h.sockets x)

module _ {Token : Type 0} (access : Jwt Token) where
  close-none : (id : ℕ) (h : Hub Token) → h.sockets id ≡ none → close_socket access id h ≡ h
  unfolding close_socket
  close-none id h e = rw (e, close_socket) refl

  close-some :
      (id : ℕ) (c : Connection Token) (h : Hub Token)
      → h.sockets id ≡ some c
      → close_socket access id h ≡ drop_socket access id c h
  unfolding close_socket
  close-some id c h e = rw (e, close_socket) refl

  pub close_socket-sockets :
      (id x : ℕ) (h : Hub Token)
      → (close_socket access id h).sockets x ≡ (if x == id then none else h.sockets x)
  close_socket-sockets id x h = elim (Option-cases (h.sockets id)) [
    | inl e ↦ rw (close-none id h e) (ground (arith, e))
    | inr (c, e) ↦ ap (λ k. k.sockets x) (close-some id c h e)
  ]

  put_socket-IsTracked :
      (id : ℕ) (c d : Connection Token) (h : Hub Token)
      → h.sockets id ≡ some c
      → d.opened_by ≡ c.opened_by
      → IsTracked h
      → IsTracked (put_socket access id (some d) h)
  put_socket-IsTracked id c d h e same tracked u x =
      ground (arith, e, same, tracked u x, tracked u id)

  register_socket-IsTracked :
      (id : ℕ) (c : Connection Token) (h : Hub Token)
      → h.sockets id ≡ none
      → IsTracked h
      → IsTracked (register_socket access id c h)
  register_socket-IsTracked id c h e tracked u x =
      ground (arith, e, tracked u x, tracked u id, has-add_id x id (ids_of (h.user_sockets u)))

  drop_socket-IsTracked :
      (id : ℕ) (c : Connection Token) (h : Hub Token)
      → h.sockets id ≡ some c
      → IsTracked h
      → IsTracked (drop_socket access id c h)
  drop_socket-IsTracked id c h e tracked u x =
      ground (arith, e, tracked u x, tracked u id, has-forget_id x id (h.user_sockets u))

  close_socket-IsTracked :
      (id : ℕ) (h : Hub Token) → IsTracked h → IsTracked (close_socket access id h)
  close_socket-IsTracked id h tracked = elim (Option-cases (h.sockets id)) [
    | inl e ↦ subst IsTracked (sym (close-none id h e)) tracked
    | inr (c, e) ↦
        subst IsTracked (sym (close-some id c h e)) (drop_socket-IsTracked id c h e tracked)
  ]

  close_sockets-sockets :
      (ids : List ℕ) (x : ℕ) (h : Hub Token)
      → (close_sockets access ids h).sockets x ≡ (if has x ids then none else h.sockets x)
  unfolding close_sockets
  close_sockets-sockets [] x h = refl
  close_sockets-sockets (id ∷ ids) x h =
      ground
        (arith, close_sockets-sockets ids x (close_socket access id h), close_socket-sockets id x h)

  close_sockets-IsTracked :
      (ids : List ℕ) (h : Hub Token) → IsTracked h → IsTracked (close_sockets access ids h)
  unfolding close_sockets
  close_sockets-IsTracked [] h tracked = tracked
  close_sockets-IsTracked (id ∷ ids) h tracked =
      close_sockets-IsTracked ids (close_socket access id h) (close_socket-IsTracked id h tracked)

  connect-IsTracked :
      (now id : ℕ) (token : Option Token) (h : Hub Token)
      → h.sockets id ≡ none
      → IsTracked h
      → IsTracked (connect access now id token h).1
  unfolding connect
  connect-IsTracked now id none h e tracked = tracked
  connect-IsTracked now id (some token) h e tracked =
      elim (Option-cases (access.verify now token)) [
        | inl v ↦ rw (connect, v) tracked
        | inr (claims, v) ↦
            rw (connect, v)
              (register_socket-IsTracked id (new_connection access now token claims) h e tracked)
      ]

  auth_refresh-IsTracked :
      (now id : ℕ) (token : Token) (h : Hub Token)
      → IsTracked h
      → IsTracked (auth_refresh access now id token h)
  unfolding auth_refresh
  auth_refresh-IsTracked now id token h tracked = elim (Option-cases (h.sockets id)) [
    | inl e ↦ rw (auth_refresh, e) tracked
    | inr (c, e) ↦ elim (Option-cases (access.verify now token)) [
      | inl v ↦ rw (auth_refresh, e, v) (close_socket-IsTracked id h tracked)
      | inr (claims, v) ↦ rw (auth_refresh, e, v) (put_socket-IsTracked id c _ h e refl tracked)
    ]
  ]

  check_token-IsTracked :
      (now id : ℕ) (h : Hub Token) → IsTracked h → IsTracked (check_token access now id h)
  unfolding check_token
  check_token-IsTracked now id h tracked = elim (Option-cases (h.sockets id)) [
    | inl e ↦ rw (check_token, e) tracked
    | inr (c, e) ↦ elim (Bool-cases (recently_checked now c.checked_at)) [
      | inl r ↦ rw (check_token, e, r) tracked
      | inr r ↦ elim (Option-cases c.token) [
        | inl k ↦ rw (check_token, e, r, k) (close_socket-IsTracked id h tracked)
        | inr (token, k) ↦ elim (Option-cases (access.verify now token)) [
          | inl v ↦ rw (check_token, e, r, k, v) (close_socket-IsTracked id h tracked)
          | inr (claims, v) ↦
              rw (check_token, e, r, k, v) (put_socket-IsTracked id c _ h e refl tracked)
        ]
      ]
    ]
  ]

  check_tokens-IsTracked :
      (now : ℕ) (ids : List ℕ) (h : Hub Token)
      → IsTracked h
      → IsTracked (check_tokens access now ids h)
  unfolding check_tokens
  check_tokens-IsTracked now [] h tracked = tracked
  check_tokens-IsTracked now (id ∷ ids) h tracked =
      check_tokens-IsTracked now ids (check_token access now id h)
        (check_token-IsTracked now id h tracked)

  handle_eviction-IsTracked :
      (socket_id user_id : Option ℕ) (h : Hub Token)
      → IsTracked h
      → IsTracked (handle_eviction access socket_id user_id h)
  unfolding handle_eviction
  handle_eviction-IsTracked (some id) user_id h tracked = close_socket-IsTracked id h tracked
  handle_eviction-IsTracked none (some u) h tracked =
      close_sockets-IsTracked (ids_of (h.user_sockets u)) h tracked
  handle_eviction-IsTracked none none h tracked = tracked

  -- What an instance goes through: sockets connect under identifiers that are not taken, and every
  -- handler and the interval run at any time.
  pub data Reached : Hub Token → Type 0 where
    starts : Reached no_sockets
    connects :
        (now id : ℕ) (token : Option Token) (h : Hub Token)
        → h.sockets id ≡ none
        → Reached h
        → Reached (connect access now id token h).1
    closes : (id : ℕ) (h : Hub Token) → Reached h → Reached (close_socket access id h)
    refreshes :
        (now id : ℕ) (token : Token) (h : Hub Token)
        → Reached h
        → Reached (auth_refresh access now id token h)
    checks :
        (now : ℕ) (ids : List ℕ) (h : Hub Token)
        → Reached h
        → Reached (check_tokens access now ids h)
    evicts :
        (socket_id user_id : Option ℕ) (h : Hub Token)
        → Reached h
        → Reached (handle_eviction access socket_id user_id h)

  Reached-IsTracked : {h : Hub Token} → Reached h → IsTracked h
  Reached-IsTracked starts = λ u x. refl
  Reached-IsTracked (connects now id token h e r) =
      connect-IsTracked now id token h e (Reached-IsTracked r)
  Reached-IsTracked (closes id h r) = close_socket-IsTracked id h (Reached-IsTracked r)
  Reached-IsTracked (refreshes now id token h r) =
      auth_refresh-IsTracked now id token h (Reached-IsTracked r)
  Reached-IsTracked (checks now ids h r) = check_tokens-IsTracked now ids h (Reached-IsTracked r)
  Reached-IsTracked (evicts i u h r) = handle_eviction-IsTracked i u h (Reached-IsTracked r)

  -- In every state that an instance reaches from its start, the eviction of a user closes each of its
  -- sockets that was opened with a token of the user, and leaves every other socket as it is.
  pub evict_user_lem :
      (user_id x : ℕ) (h : Hub Token)
      → Reached h
      → (handle_eviction access none (some user_id) h).sockets x
        ≡ (if opened user_id (h.sockets x) then none else h.sockets x)
  unfolding handle_eviction
  evict_user_lem user_id x h r =
      close_sockets-sockets (ids_of (h.user_sockets user_id)) x h
      ∙ ap (λ b. if b then none else h.sockets x) (Reached-IsTracked r user_id x)
