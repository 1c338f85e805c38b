-- ===== src/Tokens/Memory.antt =====
-- A signer in memory, which shows that the laws of `Jwt` can be met. Examples run on it.
use test_platform.Base.{ℕ, ◌+◌, ◌/◌, ◌≡◌, refl, Option, none, some, arith, ltb, if◌then◌else◌}
use test_platform.Tokens.{Claims, Jwt}

-- A token that is its claims and the second in which it expires.
pub record Signed : Type 0 where
  pub claims : Claims
  pub expires_second : ℕ

abbrev pub open_token : ℕ → Signed → Option Claims
open_token t k = if ltb (t / 1000) k.expires_second then some k.claims else none

pub open_token_lem :
    (t : ℕ) (k : Signed) (c : Claims)
    → open_token t k ≡ some c
    → ◌≡◌ {A = Option Claims} (some k.claims) (some c)
open_token_lem t k c h = ground arith

abbrev pub jwt : Jwt Signed
jwt = record {
  sign = λ now c ttl. record { claims = c; expires_second = now / 1000 + ttl };
  verify = open_token;
  decode = λ k. some k.claims;
  verify-sign = λ t now c ttl. refl;
  decode_of_verify = open_token_lem;
}
