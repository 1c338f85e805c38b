-- ===== src/Client/Tabs.antt =====
-- Two tabs of one browser (apps/web/src/lib/api.ts): each loads the tokens when it opens and keeps its own copy.
use test_platform.Base.{
  ℕ, ◌+◌, ◌*◌, ◌<◌, ◌≡◌, refl, true, none, some, arith, is_some, api_error, has,
}
use test_platform.Redis.{Strings, Sets, Store}
use test_platform.Redis.Keys.{token_family}
use test_platform.Tokens.{
  Jwt, Claims, RefreshClaims, refresh_token_expiry_seconds, rotate_refresh_token,
}
use test_platform.Tokens.Rotation.{IsActive, rotate_once}
use test_platform.Tokens.Reuse.{rotate_theft}
use test_platform.Accounts.{UserTable, Bcrypt}
use test_platform.Accounts.Routes.{refresh_tokens}
use test_platform.Client.{
  Storage, System, load_tokens, refresh_access_token, save_tokens, finish_refresh, ask, serve,
  calls,
}

module _ {U A B Token : Type 0} (users : UserTable U) (bcrypt : Bcrypt) (kv : Strings A)
    (ss : Sets B) (access jwt : Jwt Token) where
  -- A tab that opens, on the storage that is there.
  abbrev pub open_tab : Storage Token → Store A B → System A B Token
  open_tab storage server = record {
    client = load_tokens storage;
    storage = storage;
    server = server;
  }

  -- A tab asks for a refresh with the token that it holds, and is answered.
  abbrev pub refresh_tab : ℕ → ℕ → Token → System A B Token → System A B Token
  refresh_tab now n k s =
      serve users bcrypt kv ss access jwt now n k (ask users bcrypt kv ss access jwt s)

  -- The first tab refreshes, and later the second, which opened with the first.
  abbrev pub first_tab : ℕ → ℕ → Token → Storage Token → Store A B → System A B Token
  first_tab now n k storage server = refresh_tab now n k (open_tab storage server)

  abbrev pub second_tab : ℕ → ℕ → ℕ → ℕ → Token → Storage Token → Store A B → System A B Token
  second_tab now n later m k storage server =
      let s = first_tab now n k storage server in
      refresh_tab later m k
        (record { client = load_tokens storage; storage = s.storage; server = s.server })

  server_of :
      (now n : ℕ) (k : Token) (s : System A B Token)
      → (refresh_tab now n k s).server ≡ (rotate_refresh_token kv ss access jwt now n k s.server).1
  unfolding serve ask refresh_tokens
  server_of now n k s = refl

  -- A tab whose refresh the server refuses.
  refused_tab :
      (now n : ℕ) (k : Token) (s : System A B Token)
      → (rotate_refresh_token kv ss access jwt now n k s.server).0 ≡ none
      → let after = refresh_tab now n k s in
        (after.client.refresh_token ≡ none)
        × (after.client.access_token ≡ none)
        × (after.storage ≡ record { access_key = none; refresh_key = none; legacy_key = none })
  unfolding serve ask refresh_tokens finish_refresh save_tokens
  refused_tab now n k s h = rw (h, serve, refresh_tokens) (refl, refl, refl)

  taken_tab :
      (now n : ℕ) (k a b : Token) (s : System A B Token)
      → (rotate_refresh_token kv ss access jwt now n k s.server).0 ≡ some (a, b)
      → (refresh_tab now n k s).client.refresh_token ≡ some b
  unfolding serve ask refresh_tokens finish_refresh save_tokens
  taken_tab now n k a b s h = rw (h, serve, refresh_tokens) refl

  -- Two tabs that opened with one refresh token sign each other out: the first gets a new token by a refresh;
  -- the second, whose copy is the old one, sends that when its access token has run out too, and is refused.
  -- It clears its tokens and those in the storage of the browser, and the token of the first tab gives no
  -- tokens any more, for seven days, if its identifier was still in the set of the family.
  pub second_tab_lem :
      (now later t n m i : ℕ) (k : Token) (c : Claims) (ids : RefreshClaims)
      (storage : Storage Token) (server : Store A B)
      → storage.refresh_key ≡ some k
      → jwt.verify now k ≡ some c
      → jwt.verify later k ≡ some c
      → c.refresh_claims ≡ some ids
      → IsActive kv ss access jwt now ids server
      → later < now + refresh_token_expiry_seconds * 1000
      → t < later + refresh_token_expiry_seconds * 1000
      → has n (
          ss.smembers later
            (token_family ids.family_id)
            (first_tab now n k storage server).server.sets)
        ≡ true
      → let second = second_tab now n later m k storage server in
        ((refresh_access_token (load_tokens storage)).0 ≡ calls k)
        × (second.client.refresh_token ≡ none)
        × (second.storage ≡ record { access_key = none; refresh_key = none; legacy_key = none })
        × ((b : Token) × ((first_tab now n k storage server).client.refresh_token ≡ some b)
            × ((refresh_tokens users bcrypt kv ss access jwt t i (some b) second.server).0
                ≡ api_error 401))
  unfolding serve ask refresh_tokens refresh_access_token load_tokens
  second_tab_lem now later t n m i k c ids storage server kept e1 e2 e' a early1 early2 member =
      let (pair, given, refused) =
        rotate_theft kv ss access jwt now later t n m i k c ids server e1 e2 e' a early1 early2
          member in
      let s = first_tab now n k storage server in
      let taken : is_some (rotate_refresh_token kv ss access jwt now n k server).0 ≡ true =
        rw given refl in
      let gone =
        refused_tab later m k
          (record { client = load_tokens storage; storage = s.storage; server = s.server })
          (rotate_once kv ss access jwt now later n m k server taken early1) in
      (
        ground (arith, kept),
        gone.0,
        gone.2,
        (
          pair.1,
          taken_tab now n k pair.0 pair.1 (open_tab storage server) given,
          rw (refused, refresh_tokens) refl,
        ),
      )
