-- ===== src/Catalog/Invited.antt =====
-- The references between the tables under the invitations of routes/exams.ts.
use test_platform.Base.{
  ℕ, ◌≡◌, refl, inl, inr, Bool, true, false, Option, none, some, is_some, ◌==◌, arith, Reply,
  Option-cases, Bool-cases, ==_iff, Reply-cases, List-cases,
}
use test_platform.Platform.{Attempt, Challenge, Exam, AttemptTable}
use test_platform.Invitations.{
  Text, Invitation, InvitationTable, accept_invitation, accept_bound, enter_exam, create_invitation,
  mark_used, Entered, check_email, is_expired, matches_email, new_invitation,
}
use test_platform.Attempts.{new_attempt, belongs}
use test_platform.Catalog.{Table, ExamRow, Catalog, joined}
use test_platform.Catalog.Links.{has_exam, IsLinked}

module _ {C E I T : Type 0} (challenges : Table Challenge C (λ c. c.id))
    (exams : Table ExamRow E (λ r. r.id)) (invitations : InvitationTable I)
    (table : AttemptTable T) where
  has_exam-joined :
      (id : ℕ) (e : Exam) (s : Catalog C E I T)
      → joined challenges exams invitations table s id ≡ some e
      → (e.id ≡ id) × (has_exam challenges exams invitations table id s ≡ true)
  has_exam-joined id e s h = elim (Option-cases (exams.find id s.exams)) [
    | inl gone ↦ absurd (ground (arith, gone, h))
    | inr (r, found) ↦
        (ground (arith, found, h, exams.key_of_find id r s.exams found), ground (arith, found))
  ]

  insert_invitation-IsLinked :
      (v : Invitation) (s : Catalog C E I T)
      → has_exam challenges exams invitations table v.exam_id s ≡ true
      → IsLinked challenges exams invitations table s
      → IsLinked challenges exams invitations table
          (record s { invitations = invitations.insert v s.invitations })
  insert_invitation-IsLinked v s there linked = record {
    exams_linked = linked.exams_linked;
    attempts_linked = linked.attempts_linked;
    invitations_linked = λ x h. elim (Bool-cases (v.exam_id == x)) [
      | inl same ↦ ground (arith, same, ==_iff v.exam_id x, there)
      | inr other ↦
          linked.invitations_linked x
            (ground (arith, h, other, invitations.refers_to-insert x v s.invitations))
    ];
  }

  -- An invitation is marked, and an attempt at its exam may start.
  mark-IsLinked :
      (now i : ℕ) (s : Catalog C E I T)
      → IsLinked challenges exams invitations table s
      → IsLinked challenges exams invitations table
          (record s { invitations = invitations.update i (mark_used now) s.invitations })
  mark-IsLinked now i s linked = record {
    exams_linked = linked.exams_linked;
    attempts_linked = linked.attempts_linked;
    invitations_linked = λ x h. linked.invitations_linked x (
        ground
          (arith, h, invitations.refers_to-update x i (mark_used now) s.invitations (λ v. refl)));
  }

  insert_attempt-IsLinked :
      (a : Attempt) (s : Catalog C E I T)
      → has_exam challenges exams invitations table a.exam_id s ≡ true
      → IsLinked challenges exams invitations table s
      → IsLinked challenges exams invitations table
          (record s { attempts = table.insert a s.attempts })
  insert_attempt-IsLinked a s there linked = record {
    exams_linked = linked.exams_linked;
    attempts_linked = λ j b h. elim (Bool-cases (j == a.id)) [
      | inl same ↦
          let e : b ≡ a = ground (arith, h, same, table.find-insert j a s.attempts) in rw e there
      | inr other ↦
          linked.attempts_linked j b (ground (arith, h, other, table.find-insert j a s.attempts))
    ];
    invitations_linked = linked.invitations_linked;
  }

  -- The tables after `POST /invite/:token/accept`.
  abbrev pub after_accept :
      Bool → ℕ → ℕ → ℕ → Text → ℕ → Catalog C E I T → Reply Entered × Catalog C E I T
  after_accept required now id user_id email token s =
      let result =
        accept_invitation invitations table (joined challenges exams invitations table s) required
          now id user_id email token (s.invitations, s.attempts) in
      (result.0, record s { invitations = result.1.0; attempts = result.1.1 })

  -- The tables after `POST /:id/invite`.
  abbrev pub after_invite :
      Bool → ℕ → ℕ → ℕ → ℕ → Option Text → Option ℕ → Catalog C E I T → Reply ℕ × Catalog C E I T
  after_invite required now id token exam_id email expires_in s =
      let result =
        create_invitation invitations table (joined challenges exams invitations table s) required
          now id token exam_id email expires_in s.invitations in
      (result.0, record s { invitations = result.1 })

  enter_exam-IsLinked :
      (required : Bool) (now id user_id : ℕ) (v : Invitation) (s : Catalog C E I T)
      → IsLinked challenges exams invitations table s
      → let result =
          enter_exam invitations table
            (joined challenges exams invitations table s)
            required
            now
            id
            user_id
            v
            (s.invitations, s.attempts) in
        IsLinked challenges exams invitations table
          (record s { invitations = result.1.0; attempts = result.1.1 })
  unfolding enter_exam
  enter_exam-IsLinked required now id user_id v s linked =
      let marked = mark-IsLinked now v.id s linked in
      elim (Option-cases (joined challenges exams invitations table s v.exam_id)) [
        | inl e ↦ rw (enter_exam, e) marked
        | inr (x, e) ↦ elim (Option-cases x.challenge) [
          | inl none' ↦ rw (enter_exam, e, none') marked
          | inr (c, some') ↦
              rw (enter_exam, e, some')
                (insert_attempt-IsLinked (new_attempt now id v.exam_id user_id c.starter_files)
                  (record s { invitations = invitations.update v.id (mark_used now) s.invitations })
                  (has_exam-joined v.exam_id x s e).1 marked)
        ]
      ]

  bound-IsLinked :
      (required : Bool) (now id user_id : ℕ) (v : Invitation) (s : Catalog C E I T)
      → IsLinked challenges exams invitations table s
      → let result =
          accept_bound invitations table
            (joined challenges exams invitations table s)
            required
            now
            id
            user_id
            v
            (s.invitations, s.attempts) in
        IsLinked challenges exams invitations table
          (record s { invitations = result.1.0; attempts = result.1.1 })
  unfolding accept_bound
  bound-IsLinked required now id user_id v s linked = elim (Bool-cases (is_expired now v)) [
    | inl late ↦ rw (accept_bound, late) linked
    | inr early ↦ elim (Bool-cases (is_some v.used_at)) [
      | inl used ↦ rw (accept_bound, early, used) linked
      | inr fresh ↦ elim (List-cases (table.select (belongs v.exam_id user_id) s.attempts)) [
        | inl e ↦
            rw (accept_bound, early, fresh, e)
              (enter_exam-IsLinked required now id user_id v s linked)
        | inr (a, rest, e) ↦ rw (accept_bound, early, fresh, e) linked
      ]
    ]
  ]

  pub accept-IsLinked :
      (required : Bool) (now id user_id : ℕ) (email : Text) (token : ℕ) (s : Catalog C E I T)
      → IsLinked challenges exams invitations table s
      → IsLinked challenges exams invitations table
          (after_accept required now id user_id email token s).1
  unfolding accept_invitation accept_bound
  accept-IsLinked required now id user_id email token s linked =
      elim (Option-cases (invitations.find_token token s.invitations)) [
        | inl e ↦ rw (accept_invitation, e) linked
        | inr (v, e) ↦ elim (Reply-cases (check_email required v.email email)) [
          | inr (code, refused) ↦ rw (accept_invitation, e, refused) linked
          | inl (u, fits) ↦
              rw (accept_invitation, e, fits) (bound-IsLinked required now id user_id v s linked)
        ]
      ]

  pub invite-IsLinked :
      (required : Bool) (now id token exam_id : ℕ) (email : Option Text) (expires_in : Option ℕ)
      (s : Catalog C E I T)
      → IsLinked challenges exams invitations table s
      → IsLinked challenges exams invitations table
          (after_invite required now id token exam_id email expires_in s).1
  unfolding create_invitation
  invite-IsLinked required now id token exam_id none expires_in s linked =
      elim (Bool-cases required) [
        | inl e ↦ rw (create_invitation, e) linked
        | inr e ↦ elim (Option-cases (joined challenges exams invitations table s exam_id)) [
          | inl gone ↦ rw (create_invitation, e, gone) linked
          | inr (x, there) ↦ rw (create_invitation, e, there) linked
        ]
      ]
  invite-IsLinked required now id token exam_id (some email) expires_in s linked =
      elim (Bool-cases (matches_email false email)) [
        | inr bad ↦ rw (create_invitation, bad) linked
        | inl good ↦ elim (Option-cases (joined challenges exams invitations table s exam_id)) [
          | inl gone ↦ rw (create_invitation, good, gone) linked
          | inr (x, there) ↦
              rw (create_invitation, good, there)
                (insert_invitation-IsLinked (new_invitation now id token x.id email expires_in) s
                  (ground (arith, has_exam-joined exam_id x s there)) linked)
        ]
      ]
