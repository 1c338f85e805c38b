-- ===== src/Presence/Exclusion.antt =====
-- When socket/presenceService.ts lets a session in, and that a candidate has one session at a time.
use test_platform.Base.{
  ℕ, ◌+◌, ◌*◌, ◌≤◌, ◌<◌, ◌≡◌, refl, ◌≢◌, Bool, true, false, ◌&&◌, not, Option, none, some, List, [],
  ◌∷◌, arith, ◌==◌, any, has, inl, inr, Bool-cases, ==_refl,
}
use test_platform.Redis.{Strings, Sets, Store}
use test_platform.Redis.Keys.{
  presence, presence_set, PresenceData, presence_data, parse_presence, set_key_eq_refl,
}
use test_platform.Presence.{
  is_active, forget_socket, remove_session, check_other, check_others, add_session, track_session,
}

module _ {A B : Type 0} (kv : Strings A) (ss : Sets B) where
  -- The session that is stored for a socket.
  abbrev pub session_at : ℕ → ℕ → ℕ → Store A B → Option PresenceData
  session_at now attempt_id id r = elim (kv.get now (presence attempt_id id) r.strings) [
    | none ↦ none
    | some v ↦ parse_presence v
  ]

  -- Another socket that has an active session of the user.
  abbrev pub blocks : ℕ → ℕ → ℕ → ℕ → ℕ → Store A B → ℕ → Bool
  blocks now timeout attempt_id socket_id user_id r other =
      not (other == socket_id) && elim (session_at now attempt_id other r) [
        | none ↦ false
        | some d ↦ is_active now timeout d && d.user_id == user_id
      ]

  check_other-answer :
      (now timeout a s u other : ℕ) (r : Store A B)
      → (check_other kv ss now timeout a s u other r).0 ≡ blocks now timeout a s u r other
  unfolding check_other
  check_other-answer now timeout a s u other r = ground arith

  -- A round that goes on changes nothing for whom it has to refuse.
  check_other-blocks :
      (now timeout a s u other x : ℕ) (r : Store A B)
      → blocks now timeout a s u (check_other kv ss now timeout a s u other r).1 x
        ≡ blocks now timeout a s u r x
  unfolding check_other remove_session forget_socket
  check_other-blocks now timeout a s u other x r =
      ground (arith, kv.get-del now (presence a x) (presence a other) r.strings)

  any-blocks :
      (now timeout a s u other : ℕ) (ids : List ℕ) (r : Store A B)
      → any (blocks now timeout a s u (check_other kv ss now timeout a s u other r).1) ids
        ≡ any (blocks now timeout a s u r) ids
  any-blocks now timeout a s u other [] r = refl
  any-blocks now timeout a s u other (x ∷ ids) r = ground (
    arith,
    check_other-blocks now timeout a s u other x r,
    any-blocks now timeout a s u other ids r,
  )

  check_others-answer :
      (now timeout a s u : ℕ) (ids : List ℕ) (r : Store A B)
      → (check_others kv ss now timeout a s u ids r).0 ≡ any (blocks now timeout a s u r) ids
  unfolding check_others
  check_others-answer now timeout a s u [] r = refl
  check_others-answer now timeout a s u (i ∷ ids) r =
      let next = (check_other kv ss now timeout a s u i r).1 in
      ground (
        arith,
        check_other-answer now timeout a s u i r,
        check_others-answer now timeout a s u ids next,
        any-blocks now timeout a s u i ids r,
      )

  -- A session is let in exactly if no other socket in the attempt's set has an active session of the
  -- same user.
  pub track_session_lem :
      (now timeout a s u : ℕ) (r : Store A B)
      → (track_session kv ss now timeout a s u r).0
        ≡ not (any (blocks now timeout a s u r) (ss.smembers now (presence_set a) r.sets))
  unfolding track_session
  track_session_lem now timeout a s u r =
      let ids = ss.smembers now (presence_set a) r.sets in
      ground (arith, check_others-answer now timeout a s u ids r)

  -- A session that is let in is stored for the timeout.
  session_at-track_session :
      (now t timeout a s u : ℕ) (r : Store A B)
      → (track_session kv ss now timeout a s u r).0 ≡ true
      → t < now + timeout * 1000
      → session_at t a s (track_session kv ss now timeout a s u r).1
        ≡ some (record { socket_id = s; user_id = u; attempt_id = a; last_active = now })
  unfolding track_session add_session
  session_at-track_session now t timeout a s u r tracked early =
      let ids = ss.smembers now (presence_set a) r.sets in
      let left = (check_others kv ss now timeout a s u ids r).1 in
      let d : PresenceData = record {
        socket_id = s;
        user_id = u;
        attempt_id = a;
        last_active = now;
      } in
      ground (
        arith,
        kv.get-set_ex t now (presence a s) (presence a s) (presence_data d) timeout left.strings,
      )

  any_of_has :
      (p : ℕ → Bool) (x : ℕ) (ids : List ℕ) → has x ids ≡ true → p x ≡ true → any p ids ≡ true
  any_of_has p x [] h q = cc
  any_of_has p x (i ∷ ids) h q = elim (Bool-cases (x == i)) [
    | inl same ↦ let e : x ≡ i = ground (arith, same) in rw (← e, q)
    | inr other ↦ ground (arith, any_of_has p x ids (ground (arith, other, h)) q)
  ]

  member-track_session :
      (now t timeout a s u : ℕ) (r : Store A B)
      → (track_session kv ss now timeout a s u r).0 ≡ true
      → now ≤ t
      → t < now + timeout * 1000
      → has s (ss.smembers t (presence_set a) (track_session kv ss now timeout a s u r).1.sets)
        ≡ true
  unfolding track_session add_session
  member-track_session now t timeout a s u r tracked order early =
      let ids = ss.smembers now (presence_set a) r.sets in
      let left = (check_others kv ss now timeout a s u ids r).1 in
      ground (
        arith,
        ==_refl s,
        set_key_eq_refl (presence_set a),
        ss.smembers-expire_later t now (presence_set a) (timeout + 60) s
            (ss.sadd now (presence_set a) s left.sets),
        ss.smembers-sadd now (presence_set a) (presence_set a) s s left.sets,
      )

  -- While a session that was let in lasts, no other socket is let in for the same user and attempt.
  pub track_session_excludes :
      (now t timeout a s other u : ℕ) (r : Store A B)
      → (track_session kv ss now timeout a s u r).0 ≡ true
      → now ≤ t
      → t < now + timeout * 1000
      → s ≢ other
      → (track_session kv ss t timeout a other u (track_session kv ss now timeout a s u r).1).0
        ≡ false
  track_session_excludes now t timeout a s other u r tracked order early different =
      let r' = (track_session kv ss now timeout a s u r).1 in
      let stored = session_at-track_session now t timeout a s u r tracked early in
      let blocked : blocks t timeout a other u r' s ≡ true = ground (arith, stored, ==_refl u) in
      let member = member-track_session now t timeout a s u r tracked order early in
      ground (
        arith,
        track_session_lem t timeout a other u r',
        any_of_has (blocks t timeout a other u r') s (ss.smembers t (presence_set a) r'.sets) member
            blocked,
      )

  -- A socket that leaves makes way: after `removeSession` it refuses nobody, and whoever another
  -- socket's session refuses is refused as before.
  pub remove_session_frees :
      (now t timeout a s socket_id u x : ℕ) (r : Store A B)
      → blocks t timeout a socket_id u (remove_session kv ss now a s r) x
        ≡ (not (x == s) && blocks t timeout a socket_id u r x)
  unfolding remove_session forget_socket
  remove_session_frees now t timeout a s socket_id u x r =
      ground (arith, kv.get-del t (presence a x) (presence a s) r.strings)
