-- ===== src/Catalog/Links.antt =====
-- The references between the tables of packages/database/src/schema.ts, under the routes of
-- routes/exams.ts and routes/challenges.ts.
use test_platform.Base.{
  false, ℕ, ◌≡◌, refl, ◌&&◌, ◌||◌, not, inl, inr, Bool, true, Option, none, some, is_some, ◌==◌,
  arith, Option-cases, Bool-cases, ==_iff,
}
use test_platform.Platform.{Attempt, Challenge, AttemptTable}
use test_platform.Invitations.{InvitationTable}
use test_platform.Catalog.{
  Table, ExamRow, ExamBody, ExamPatch, Catalog, create_exam, update_exam, publish_exam,
  unpublish_exam, patch_exam, set_published, set_unpublished, refers, create_exam_schema,
  update_exam_schema, get_or, new_row,
}

module _ {C E I T : Type 0} (challenges : Table Challenge C (λ c. c.id))
    (exams : Table ExamRow E (λ r. r.id)) (invitations : InvitationTable I)
    (table : AttemptTable T) where
  abbrev pub has_exam : ℕ → Catalog C E I T → Bool
  has_exam id s = is_some (exams.find id s.exams)

  -- Every exam has its challenge, and every attempt and every invitation its exam.
  pub record IsLinked (s : Catalog C E I T) : Type 0 where
    pub exams_linked :
        (j : ℕ) (r : ExamRow)
        → exams.find j s.exams ≡ some r
        → is_some (challenges.find r.challenge_id s.challenges) ≡ true
    pub attempts_linked :
        (j : ℕ) (a : Attempt) → table.find j s.attempts ≡ some a → has_exam a.exam_id s ≡ true
    pub invitations_linked :
        (x : ℕ) → invitations.refers_to x s.invitations ≡ true → has_exam x s ≡ true

  -- An update of an exam that leaves the references good.
  update-IsLinked :
      (id : ℕ) (f : ExamRow → ExamRow) (s : Catalog C E I T)
      → ((r : ExamRow) → (f r).id ≡ r.id)
      → ((r : ExamRow)
          → exams.find id s.exams ≡ some r
          → is_some (challenges.find (f r).challenge_id s.challenges) ≡ true)
      → IsLinked s
      → IsLinked (record s { exams = exams.update id f s.exams })
  update-IsLinked id f s keeps good linked = record {
    exams_linked = λ j r h. elim (Option-cases (exams.find j s.exams)) [
      | inl e ↦ ground (arith, exams.find-update id j f s.exams keeps, e)
      | inr (r0, e) ↦ ground (
        arith,
        exams.find-update id j f s.exams keeps,
        e,
        good r0,
        linked.exams_linked j r0 e,
        ==_iff j id,
      )
    ];
    attempts_linked = λ j a h.
        ground
          (arith, exams.find-update id a.exam_id f s.exams keeps, linked.attempts_linked j a h);
    invitations_linked = λ x h.
        ground (arith, exams.find-update id x f s.exams keeps, linked.invitations_linked x h);
  }

  -- Nothing but the references of an exam to a challenge that stays.
  pub challenges-IsLinked :
      (c : C) (s : Catalog C E I T)
      → ((j : ℕ) (r : ExamRow)
          → exams.find j s.exams ≡ some r
          → is_some (challenges.find r.challenge_id s.challenges) ≡ true
          → is_some (challenges.find r.challenge_id c) ≡ true)
      → IsLinked s
      → IsLinked (record s { challenges = c })
  challenges-IsLinked c s keeps linked = record {
    exams_linked = λ j r h. keeps j r h (linked.exams_linked j r h);
    attempts_linked = linked.attempts_linked;
    invitations_linked = linked.invitations_linked;
  }

  insert-IsLinked :
      (r : ExamRow) (s : Catalog C E I T)
      → is_some (challenges.find r.challenge_id s.challenges) ≡ true
      → IsLinked s
      → IsLinked (record s { exams = exams.insert r s.exams })
  insert-IsLinked r s good linked = record {
    exams_linked = λ j x h. elim (Bool-cases (j == r.id)) [
      | inl same ↦ ground (arith, exams.find-insert j r s.exams, same, good)
      | inr other ↦
          linked.exams_linked j x (ground (arith, exams.find-insert j r s.exams, other, h))
    ];
    attempts_linked = λ j a h.
        ground (arith, exams.find-insert a.exam_id r s.exams, linked.attempts_linked j a h);
    invitations_linked =
        λ x h. ground (arith, exams.find-insert x r s.exams, linked.invitations_linked x h);
  }

  patched-IsLinked :
      (o : Option ℕ) (old : ℕ) (s : Catalog C E I T)
      → refers challenges exams invitations table o s ≡ true
      → is_some (challenges.find old s.challenges) ≡ true
      → is_some (challenges.find (get_or o old) s.challenges) ≡ true
  patched-IsLinked none old s known good = good
  patched-IsLinked (some id) old s known good = known

  known_of_taken :
      (enforced : Bool) (o : Option ℕ) (s : Catalog C E I T)
      → (enforced || not (is_some o)) ≡ true
      → (enforced && not (refers challenges exams invitations table o s)) ≡ false
      → refers challenges exams invitations table o s ≡ true
  known_of_taken enforced none s checked taken = refl
  known_of_taken enforced (some id) s checked taken = ground arith

  pub create_exam-IsLinked :
      (id user_id : ℕ) (b : ExamBody) (s : Catalog C E I T)
      → IsLinked s
      → IsLinked (create_exam challenges exams invitations table id user_id b s).1
  unfolding create_exam
  create_exam-IsLinked id user_id b s linked = elim (Bool-cases (create_exam_schema b)) [
    | inr bad ↦ rw (create_exam, bad) linked
    | inl good ↦ elim (Option-cases (challenges.find b.challenge_id s.challenges)) [
      | inl e ↦ rw (create_exam, good, e) linked
      | inr (c, e) ↦
          rw (create_exam, good, e)
            (insert-IsLinked (new_row id user_id b) s (ground (arith, e)) linked)
    ]
  ]

  -- The references after a change of an exam: the database checks the challenge, or the change names none.
  pub update_exam-IsLinked :
      (enforced : Bool) (id : ℕ) (b : ExamPatch) (s : Catalog C E I T)
      → (enforced || not (is_some b.challenge_id)) ≡ true
      → IsLinked s
      → IsLinked (update_exam challenges exams invitations table enforced id b s).1
  unfolding update_exam
  update_exam-IsLinked enforced id b s checked linked = elim (Bool-cases (update_exam_schema b)) [
    | inr bad ↦ rw (update_exam, bad) linked
    | inl good ↦ elim (Option-cases (exams.find id s.exams)) [
      | inl e ↦ rw (update_exam, good, e) linked
      | inr (r, e) ↦
          elim (Bool-cases
            (enforced && not (refers challenges exams invitations table b.challenge_id s))) [
              | inl refused ↦ rw (update_exam, good, e, refused) linked
              | inr taken ↦
                  rw (update_exam, good, e, taken)
                    (update-IsLinked id (patch_exam b) s (λ r. refl)
                      (λ r0 h.
                        patched-IsLinked b.challenge_id r0.challenge_id s
                          (known_of_taken enforced b.challenge_id s checked taken)
                          (linked.exams_linked id r0 h))
                      linked)
            ]
    ]
  ]

  pub publish_exam-IsLinked :
      (now id : ℕ) (s : Catalog C E I T)
      → IsLinked s
      → IsLinked (publish_exam challenges exams invitations table now id s).1
  unfolding publish_exam
  publish_exam-IsLinked now id s linked = elim (Option-cases (exams.find id s.exams)) [
    | inl e ↦ rw (publish_exam, e) linked
    | inr (r, e) ↦
        rw (publish_exam, e)
          (update-IsLinked id (set_published now) s (λ r. refl) (linked.exams_linked id) linked)
  ]

  pub unpublish_exam-IsLinked :
      (id : ℕ) (s : Catalog C E I T)
      → IsLinked s
      → IsLinked (unpublish_exam challenges exams invitations table id s).1
  unfolding unpublish_exam
  unpublish_exam-IsLinked id s linked =
      let after =
        update-IsLinked id set_unpublished s (λ r. refl) (linked.exams_linked id) linked in
      elim (Option-cases (exams.find id (exams.update id set_unpublished s.exams))) [
        | inl e ↦ rw (unpublish_exam, e) after
        | inr (r, e) ↦ rw (unpublish_exam, e) after
      ]
