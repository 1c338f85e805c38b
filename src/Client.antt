-- ===== src/Client.antt =====
-- The tokens of the web client, class `ApiClient` of apps/web/src/lib/api.ts (from the repository's root):
-- their copy in `localStorage`, the refresh that requests share, and the retry of a request. The server
-- answers by `POST /api/auth/refresh` (`Accounts.Routes`). The callbacks on a change of the tokens, and what a
-- request carries besides its token, are left out.
pub mod SignedIn
pub mod Tabs
pub mod Tests
use mathlib.Core.Option
use test_platform.Base.{
  ℕ, Bool, true, false, ◌&&◌, ◌||◌, not, Option, none, some, ◌==◌, is_some, if◌then◌else◌, Reply,
  ok, api_error,
}
use test_platform.Redis.{Strings, Sets, Store}
use test_platform.Tokens.{Jwt}
use test_platform.Accounts.{UserTable, Bcrypt}
use test_platform.Accounts.Routes.{refresh_tokens}

-- The three keys of `localStorage`, which the tabs of a browser share.
pub record Storage (Token : Type 0) : Type 0 where
  pub access_key : Option Token
  pub refresh_key : Option Token
  pub legacy_key : Option Token

-- The fields of `ApiClient`. `in_flight` is the token that the call of `refreshPromise` carries; there is
-- none unless `isRefreshing`.
pub record Client (Token : Type 0) : Type 0 where
  pub access_token : Option Token
  pub refresh_token : Option Token
  pub in_flight : Option Token

-- What a request that was answered with 401 finds when it asks for a refresh: a call that is under way, no
-- token, or a call of its own with a token.
pub data Started (Token : Type 0) : Type 0 where
  shares no_token : Started Token
  calls : Token → Started Token

-- The answer to the call: tokens, a status that is not OK, or none that can be read.
pub data Answer (Token : Type 0) : Type 0 where
  gives : Token → Token → Answer Token
  refuses lost : Answer Token

module _ {Token : Type 0} where
  -- `loadTokens`, in a new client.
  unfoldable pub load_tokens : Storage Token → Client Token
  load_tokens s = record {
    access_token =
        if not (is_some s.access_key) && not (is_some s.refresh_key)
        then s.legacy_key
        else s.access_key;
    refresh_token = s.refresh_key;
    in_flight = none;
  }

  -- `saveTokens`.
  unfoldable pub save_tokens :
      Option Token → Option Token → Client Token → Storage Token → Client Token × Storage Token
  save_tokens access refresh c s = (
    record c { access_token = access; refresh_token = refresh },
    record { access_key = access; refresh_key = refresh; legacy_key = access },
  )

  -- `setToken`.
  unfoldable pub set_token :
      Option Token → Client Token → Storage Token → Client Token × Storage Token
  set_token token c s = save_tokens token c.refresh_token c s

  abbrev pub has_tokens : Client Token → Bool
  has_tokens c = is_some c.access_token || is_some c.refresh_token

  -- `refreshAccessToken`, up to its call.
  unfoldable pub refresh_access_token : Client Token → Started Token × Client Token
  refresh_access_token c = elim c.in_flight [
    | some k ↦ (shares, c)
    | none ↦ elim c.refresh_token [
      | none ↦ (no_token, c)
      | some k ↦ (calls k, record c { in_flight = some k })
    ]
  ]

  -- `refreshAccessToken`, from the answer to its call on, with its result.
  unfoldable pub finish_refresh :
      Answer Token → Client Token → Storage Token → Bool × Client Token × Storage Token
  finish_refresh (gives access refresh) c s =
      let (c', s') = save_tokens (some access) (some refresh) c s in
      (true, record c' { in_flight = none }, s')
  finish_refresh refuses c s =
      let (c', s') = save_tokens none none c s in (false, record c' { in_flight = none }, s')
  finish_refresh lost c s = (false, record c { in_flight = none }, s)

  -- The test of `fetch` after the first answer: whether the request waits for a refresh.
  unfoldable pub needs_refresh : ℕ → Bool → Client Token → Bool
  needs_refresh status skip_auth c = status == 401 && is_some c.refresh_token && not skip_auth

  abbrev pub answer_of : Reply (Token × Token) → Answer Token
  answer_of (ok (access, refresh)) = gives access refresh
  answer_of (api_error code) = refuses

-- A client, the storage of its browser, and the server.
pub record System (A B Token : Type 0) : Type 0 where
  pub client : Client Token
  pub storage : Storage Token
  pub server : Store A B

module _ {U A B Token : Type 0} (users : UserTable U) (bcrypt : Bcrypt) (kv : Strings A)
    (ss : Sets B) (access jwt : Jwt Token) where
  -- A request of the client is answered with 401 and asks for a refresh.
  unfoldable pub ask : System A B Token → System A B Token
  ask s = record s { client = (refresh_access_token s.client).1 }

  -- The server handles the call that is under way, and its answer arrives.
  unfoldable pub serve : ℕ → ℕ → Token → System A B Token → System A B Token
  serve now new_id k s =
      let (reply, server) =
        refresh_tokens users bcrypt kv ss access jwt now new_id (some k) s.server in
      let (refreshed, client, storage) = finish_refresh (answer_of reply) s.client s.storage in
      record { client = client; storage = storage; server = server }
