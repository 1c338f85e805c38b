-- ===== src/Connections/Tests.antt =====
-- The sockets of socket/index.ts at concrete inputs.
use test_platform.Base.{
  ℕ, ◌+◌, ◌≡◌, refl, true, false, some, none, [], ◌∷◌, arith, is_some, if◌then◌else◌,
}
use test_platform.Redis.Keys.{candidate}
use test_platform.Tokens.{Claims}
use test_platform.Tokens.Memory.{Signed, jwt}
use test_platform.Connections.{
  Hub, no_sockets, new_connection, connect, close_socket, auth_refresh, close_sockets,
  handle_eviction, check_token, check_tokens,
}
use test_platform.Connections.Tracking.{Reached, starts, connects, opened, evict_user_lem}
use test_platform.Connections.Expiry.{auth_refresh-closed}

handlers : Unit {0}
unfolding connect close_socket auth_refresh close_sockets handle_eviction check_token check_tokens
handlers = tt

abbrev claims_of : ℕ → Claims
claims_of user_id = record {
  payload = record { user_id = user_id; email = 10 + user_id; role = candidate };
  refresh_claims = none;
}

-- Tokens of users 1 and 2 for an hour, and a later one of user 1.
abbrev ann : Signed
ann = jwt.sign 1000 (claims_of 1) 3600

abbrev ben : Signed
ben = jwt.sign 1000 (claims_of 2) 3600

abbrev ann_again : Signed
ann_again = jwt.sign 3000000 (claims_of 1) 7200

abbrev ann_only : Hub Signed
ann_only = (connect jwt 2000 50 (some ann) no_sockets).1

abbrev both : Hub Signed
both = (connect jwt 2500 51 (some ben) ann_only).1

free : ann_only.sockets 51 ≡ none
unfolding handlers
free = refl

both-Reached : Reached jwt both
both-Reached =
    connects 2500 51 (some ben) ann_only free (connects 2000 50 (some ann) no_sockets refl starts)

connect_test :
    ((connect jwt 2000 50 none no_sockets).0 ≡ false)
    × ((connect jwt 4000000 50 (some ann) no_sockets).0 ≡ false)
    × ((connect jwt 2000 50 (some ann) no_sockets).0 ≡ true)
unfolding handlers
connect_test = (refl, refl, refl)

evict_test :
    let after = handle_eviction jwt none (some 1) both in
    (is_some (after.sockets 50) ≡ false) × (is_some (after.sockets 51) ≡ true)
unfolding handlers
evict_test = (refl, refl)

evict_user_lem_example :
    (handle_eviction jwt none (some 1) both).sockets 50
    ≡ (if opened 1 (both.sockets 50) then none else both.sockets 50)
evict_user_lem_example = evict_user_lem jwt 1 50 both both-Reached

ann_connected : both.sockets 50 ≡ some (new_connection jwt 2000 ann (claims_of 1))
unfolding handlers
ann_connected = refl

auth_refresh-closed_example :
    is_some (
      (check_tokens jwt 4000000 (50 ∷ 51 ∷ []) (auth_refresh jwt 3000000 50 ann_again both)).sockets
        50)
    ≡ false
auth_refresh-closed_example =
    auth_refresh-closed jwt 3000000 4000000 50 ann ann_again (claims_of 1)
      (new_connection jwt 2000 ann (claims_of 1)) (50 ∷ 51 ∷ []) both ann_connected refl refl refl
      (omega arith) refl
