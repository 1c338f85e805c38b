-- ===== src/Client/SignedIn.antt =====
-- The refresh that the requests of the web client share (apps/web/src/lib/api.ts), against the rotation of
-- lib/token-manager.ts: while the answers arrive, the client stays signed in.
use mathlib.Core.Path.{subst}
use test_platform.Base.{
  ℕ, ◌+◌, ◌*◌, ◌/◌, ◌<◌, ◌≡◌, ◌≢◌, refl, sym, inl, inr, ◌⊎◌, true, none, some, arith, is_ok,
}
use test_platform.Redis.{Strings, Sets, Store}
use test_platform.Redis.Keys.{refresh, revoked}
use test_platform.Tokens.{
  Jwt, Claims, RefreshClaims, refresh_token_expiry_seconds, refresh_claims_of, token_data_of,
  rotate_refresh_token, rotated, generate_access_token,
}
use test_platform.Tokens.Rotation.{IsActive, rotate_of_active, rotated-revoked, rotated-refresh}
use test_platform.Accounts.{UserTable, Bcrypt}
use test_platform.Accounts.Routes.{refresh_tokens}
use test_platform.Client.{System, refresh_access_token, save_tokens, finish_refresh, ask, serve}

module _ {U A B Token : Type 0} (users : UserTable U) (bcrypt : Bcrypt) (kv : Strings A)
    (ss : Sets B) (access jwt : Jwt Token) where
  -- No token, active or revoked, has the identifier, at any time.
  abbrev pub IsUnused : ℕ → Store A B → Type 0
  IsUnused n r =
      (t : ℕ)
      → (kv.get t (revoked (some n)) r.strings ≡ none)
        × (kv.get t (refresh (some n)) r.strings ≡ none)

  -- The client holds a refresh token that the server takes at every time before `deadline`, and a call that
  -- is under way carries this token.
  pub record IsSignedIn (deadline : ℕ) (s : System A B Token) : Type 0 where
    pub token : Token
    pub claims : Claims
    pub ids : RefreshClaims
    pub holds : s.client.refresh_token ≡ some token
    pub flight : (s.client.in_flight ≡ none) ⊎ (s.client.in_flight ≡ some token)
    pub is_refresh : claims.refresh_claims ≡ some ids
    pub verified : (t : ℕ) → t < deadline → jwt.verify t token ≡ some claims
    pub active : (t : ℕ) → t < deadline → IsActive kv ss access jwt t ids s.server

  ask-IsSignedIn :
      (d : ℕ) (s : System A B Token)
      → IsSignedIn d s
      → IsSignedIn d (ask users bcrypt kv ss access jwt s)
  unfolding ask refresh_access_token
  ask-IsSignedIn d s w = elim w.flight [
    | inl e ↦
        rw (ask, refresh_access_token, e, w.holds)
          (record {
            token = w.token;
            claims = w.claims;
            ids = w.ids;
            holds = w.holds;
            flight = inr refl;
            is_refresh = w.is_refresh;
            verified = w.verified;
            active = w.active;
          })
    | inr e ↦ rw (ask, refresh_access_token, e) w
  ]

  pub serve-rotated :
      (now n : ℕ) (k a b : Token) (r : Store A B) (s : System A B Token)
      → rotate_refresh_token kv ss access jwt now n k s.server ≡ (some (a, b), r)
      → serve users bcrypt kv ss access jwt now n k s ≡ record {
        client = record { access_token = some a; refresh_token = some b; in_flight = none };
        storage = record { access_key = some a; refresh_key = some b; legacy_key = some a };
        server = r;
      }
  unfolding serve refresh_tokens finish_refresh save_tokens
  serve-rotated now n k a b r s h = rw (h, serve, refresh_tokens) refl

  -- The server gives a new refresh token for one that it takes.
  serve_taken :
      (now n : ℕ) (token : Token) (c : Claims) (k : RefreshClaims) (s : System A B Token)
      → jwt.verify now token ≡ some c
      → c.refresh_claims ≡ some k
      → n ≢ k.token_id
      → IsUnused n s.server
      → IsActive kv ss access jwt now k s.server
      → IsSignedIn
          ((now / 1000 + refresh_token_expiry_seconds) * 1000)
          (serve users bcrypt kv ss access jwt now n token s)
  unfolding rotated
  serve_taken now n token c k s e e' fresh unused a =
      let q = rotate_of_active kv ss access jwt now n token c k s.server e e' a in
      let after = (rotated kv ss access jwt now n c.payload k a.entry s.server).1 in
      let eq =
        serve-rotated now n token (generate_access_token kv ss access jwt now c.payload)
          (jwt.sign now (refresh_claims_of c.payload n k.family_id) refresh_token_expiry_seconds)
          after s q in
      rw eq (record {
        token =
            jwt.sign now (refresh_claims_of c.payload n k.family_id) refresh_token_expiry_seconds;
        claims = refresh_claims_of c.payload n k.family_id;
        ids = record { token_id = n; family_id = k.family_id };
        holds = refl;
        flight = inl refl;
        is_refresh = refl;
        verified = λ t early. ground (
          arith,
          jwt.verify-sign t now (refresh_claims_of c.payload n k.family_id)
              refresh_token_expiry_seconds,
        );
        active = λ t early. record {
          entry = token_data_of c.payload k.family_id now (a.entry.rotation_count + 1);
          not_revoked = ground (
            arith,
            rotated-revoked kv ss access jwt t now n n c.payload k a.entry s.server (omega arith),
            (unused t).0,
          );
          stored =
              ground
                (arith, rotated-refresh kv ss access jwt t now n n c.payload k a.entry s.server);
        };
      })

  serve-IsSignedIn :
      (d now n : ℕ) (k : Token) (s : System A B Token)
      → now < d
      → IsUnused n s.server
      → s.client.in_flight ≡ some k
      → IsSignedIn d s
      → IsSignedIn
          ((now / 1000 + refresh_token_expiry_seconds) * 1000)
          (serve users bcrypt kv ss access jwt now n k s)
  serve-IsSignedIn d now n k s early unused under_way w =
      let same : k ≡ w.token = elim w.flight [ inl e ↦ absurd (cc) | inr e ↦ (cc) ] in
      let a = w.active now early in
      let fresh : n ≢ w.ids.token_id = λ e. cc (a.stored, (unused now).1, e) in
      rw same (
        serve_taken now n w.token w.claims w.ids s (w.verified now early) w.is_refresh fresh unused
          a)

  -- What a client goes through from a state in which it is signed in: requests that ask for a refresh, as many
  -- as there may be, and answers, each to the call that is under way, at a time before the deadline and with
  -- an identifier that is not in use. The index is the deadline.
  pub data Reached : ℕ → System A B Token → Type 0 where
    begins : {d : ℕ} {s : System A B Token} → IsSignedIn d s → Reached d s
    asks :
        {d : ℕ} {s : System A B Token}
        → Reached d s
        → Reached d (ask users bcrypt kv ss access jwt s)
    serves :
        {d : ℕ} {s : System A B Token} (e now n : ℕ) (k : Token)
        → e ≡ (now / 1000 + refresh_token_expiry_seconds) * 1000
        → now < d
        → IsUnused n s.server
        → s.client.in_flight ≡ some k
        → Reached d s
        → Reached e (serve users bcrypt kv ss access jwt now n k s)

  Reached-IsSignedIn : {d : ℕ} {s : System A B Token} → Reached d s → IsSignedIn d s
  Reached-IsSignedIn (begins w) = w
  Reached-IsSignedIn (asks {d} {s} r) = ask-IsSignedIn d s (Reached-IsSignedIn r)
  Reached-IsSignedIn (serves {d} {s} e now n k same early unused under_way r) =
      subst (λ x. IsSignedIn x (serve users bcrypt kv ss access jwt now n k s)) (sym same)
        (serve-IsSignedIn d now n k s early unused under_way (Reached-IsSignedIn r))

  -- However many requests of a client find its access token refused, and whenever they do, while every answer
  -- arrives: the call that is under way is answered with tokens, if it is handled before the deadline of the
  -- token that it carries and draws an identifier that is not in use. So the client never uses a refresh
  -- token twice, and is signed in up to a new deadline: seven days from the second in which the call was
  -- handled, as the times in a token are whole seconds.
  pub serve-Reached :
      {d : ℕ} {s : System A B Token} (now n : ℕ) (k : Token)
      → Reached d s
      → now < d
      → IsUnused n s.server
      → s.client.in_flight ≡ some k
      → (is_ok (refresh_tokens users bcrypt kv ss access jwt now n (some k) s.server).0 ≡ true)
        × IsSignedIn
            ((now / 1000 + refresh_token_expiry_seconds) * 1000)
            (serve users bcrypt kv ss access jwt now n k s)
  unfolding refresh_tokens rotated
  serve-Reached {d} {s} now n k r early unused under_way =
      let w = Reached-IsSignedIn r in
      let a = w.active now early in
      let same : k ≡ w.token = elim w.flight [ inl e ↦ absurd (cc) | inr e ↦ cc ] in
      let q =
        rotate_of_active kv ss access jwt now n w.token w.claims w.ids s.server
          (w.verified now early) w.is_refresh a in
      (rw same (rw (q, refresh_tokens) refl), serve-IsSignedIn d now n k s early unused under_way w)
