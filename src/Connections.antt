-- ===== src/Connections.antt =====
-- The connected sockets of one instance of the API server, apps/api/src/socket/index.ts: authentication
-- of a handshake, the map `userSockets`, eviction, and the check of the tokens every five minutes.
pub mod Tracking
pub mod Expiry
pub mod Tests
use mathlib.Core.Option
use test_platform.Base.{
  ℕ, ◌-◌, ◌*◌, Bool, true, false, ◌&&◌, not, Option, none, some, List, [], ◌∷◌, ◌++◌, if◌then◌else◌,
  ◌==◌, ltb, has, length, remove,
}
use test_platform.Tokens.{Jwt, Claims, TokenPayload}

-- `TOKEN_CHECK_INTERVAL`, in milliseconds.
abbrev pub token_check_interval : ℕ
token_check_interval = 5 * 60 * 1000

-- A socket: `socket.user`, the `userId` that its handlers were set up with, the token of its handshake
-- and `tokenCheckedAt`.
pub record Connection (Token : Type 0) : Type 0 where
  pub user : TokenPayload
  pub opened_by : ℕ
  pub token : Option Token
  pub checked_at : Option ℕ

-- `io.sockets.sockets` and `userSockets`.
pub record Hub (Token : Type 0) : Type 0 where
  pub sockets : ℕ → Option (Connection Token)
  pub user_sockets : ℕ → Option (List ℕ)

abbrev pub no_sockets : {Token : Type 0} → Hub Token
no_sockets = record { sockets = λ _. none; user_sockets = λ _. none }

abbrev pub ids_of : Option (List ℕ) → List ℕ
ids_of none = []
ids_of (some ids) = ids

abbrev pub add_id : ℕ → List ℕ → List ℕ
add_id x ids = if has x ids then ids else ids ++ x ∷ []

-- A set that gets empty is deleted.
abbrev pub forget_id : ℕ → Option (List ℕ) → Option (List ℕ)
forget_id x none = none
forget_id x (some ids) = let rest = remove x ids in if length rest == 0 then none else some rest

-- A time of 0 counts as no time.
abbrev pub recently_checked : ℕ → Option ℕ → Bool
recently_checked now none = false
recently_checked now (some t) = not (t == 0) && ltb (now - t) token_check_interval

module _ {Token : Type 0} (access : Jwt Token) where
  abbrev pub put_socket : ℕ → Option (Connection Token) → Hub Token → Hub Token
  put_socket id c h = record h { sockets = λ x. if x == id then c else h.sockets x }

  abbrev pub register_socket : ℕ → Connection Token → Hub Token → Hub Token
  register_socket id c h = record (put_socket id (some c) h) {
    user_sockets = λ u.
        if u == c.opened_by then some (add_id id (ids_of (h.user_sockets u))) else h.user_sockets u;
  }

  abbrev pub new_connection : ℕ → Token → Claims → Connection Token
  new_connection now token claims = record {
    user = claims.payload;
    opened_by = claims.payload.user_id;
    token = some token;
    checked_at = some now;
  }

  -- The middleware, and the handler of `connection`.
  unfoldable pub connect : ℕ → ℕ → Option Token → Hub Token → Bool × Hub Token
  connect now id none h = (false, h)
  connect now id (some token) h = elim (access.verify now token) [
    | none ↦ (false, h)
    | some claims ↦ (true, register_socket id (new_connection now token claims) h)
  ]

  abbrev pub drop_socket : ℕ → Connection Token → Hub Token → Hub Token
  drop_socket id c h = record (put_socket id none h) {
    user_sockets =
        λ u. if u == c.opened_by then forget_id id (h.user_sockets u) else h.user_sockets u;
  }

  -- The handler of `disconnect`, which `socket.disconnect(true)` runs too.
  unfoldable pub close_socket : ℕ → Hub Token → Hub Token
  close_socket id h = elim (h.sockets id) [ none ↦ h | some c ↦ drop_socket id c h ]

  -- `auth:refresh`.
  unfoldable pub auth_refresh : ℕ → ℕ → Token → Hub Token → Hub Token
  auth_refresh now id token h = elim (h.sockets id) [
    | none ↦ h
    | some c ↦ elim (access.verify now token) [
      | none ↦ close_socket id h
      | some claims ↦
          put_socket id (some (record c { user = claims.payload; checked_at = some now })) h
    ]
  ]

  unfoldable pub close_sockets : List ℕ → Hub Token → Hub Token
  close_sockets [] h = h
  close_sockets (id ∷ ids) h = close_sockets ids (close_socket id h)

  -- `handleEviction`, for a message with a socket, a user or neither.
  unfoldable pub handle_eviction : Option ℕ → Option ℕ → Hub Token → Hub Token
  handle_eviction (some socket_id) user_id h = close_socket socket_id h
  handle_eviction none (some user_id) h = close_sockets (ids_of (h.user_sockets user_id)) h
  handle_eviction none none h = h

  unfoldable pub check_token : ℕ → ℕ → Hub Token → Hub Token
  check_token now id h = elim (h.sockets id) [
    | none ↦ h
    | some c ↦ if recently_checked now c.checked_at then h else elim c.token [
      | none ↦ close_socket id h
      | some token ↦ elim (access.verify now token) [
        | none ↦ close_socket id h
        | some claims ↦ put_socket id (some (record c { checked_at = some now })) h
      ]
    ]
  ]

  -- One run of the interval of `startTokenValidation`, over the sockets that are connected.
  unfoldable pub check_tokens : ℕ → List ℕ → Hub Token → Hub Token
  check_tokens now [] h = h
  check_tokens now (id ∷ ids) h = check_tokens now ids (check_token now id h)
