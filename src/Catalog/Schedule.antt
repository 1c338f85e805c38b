-- ===== src/Catalog/Schedule.antt =====
-- The window of an exam under `PUT /api/exams/:id` of routes/exams.ts.
use mathlib.Core.Path.{subst}
use test_platform.Base.{
  ℕ, ◌≡◌, refl, Bool, inl, inr, false, none, some, arith, ok, Option-cases, ==_refl,
}
use test_platform.Platform.{Challenge, Exam, AttemptTable}
use test_platform.Invitations.{InvitationTable}
use test_platform.Attempts.{before_window, after_window}
use test_platform.Catalog.{Table, ExamRow, ExamPatch, Catalog, joined, update_exam, patch_exam}

module _ {C E I T : Type 0} (challenges : Table Challenge C (λ c. c.id))
    (exams : Table ExamRow E (λ r. r.id)) (invitations : InvitationTable I)
    (table : AttemptTable T) where
  updated :
      (enforced : Bool) (id : ℕ) (b : ExamPatch) (s : Catalog C E I T)
      → (update_exam challenges exams invitations table enforced id b s).0 ≡ ok tt
      → (r : ExamRow) × (exams.find id s.exams ≡ some r)
        × ((update_exam challenges exams invitations table enforced id b s).1
            ≡ record s { exams = exams.update id (patch_exam b) s.exams })
  unfolding update_exam
  updated enforced id b s done = elim (Option-cases (exams.find id s.exams)) [
    | inl e ↦ absurd (ground (arith, e, done))
    | inr (r, e) ↦ (r, e, ground (arith, e, done))
  ]

  -- A change that says nothing of the window of an exam takes it away: whatever window the exam had, after
  -- a change that succeeds it has none, and `POST /api/attempts` finds it open at every time.
  pub update_exam-window :
      (enforced : Bool) (id now : ℕ) (b : ExamPatch) (e : Exam) (s : Catalog C E I T)
      → b.scheduled_start_at ≡ none
      → b.scheduled_end_at ≡ none
      → (update_exam challenges exams invitations table enforced id b s).0 ≡ ok tt
      → joined challenges exams invitations table
          (update_exam challenges exams invitations table enforced id b s).1
          id
        ≡ some e
      → (before_window now e ≡ false) × (after_window now e ≡ false)
  update_exam-window enforced id now b e s start end done found =
      let (r, there, after) = updated enforced id b s done in
      let row = exams.find-update id id (patch_exam b) s.exams (λ r0. refl) in
      let e' = subst (λ k. joined challenges exams invitations table k id ≡ some e) after found in
      ground (arith, e', row, there, start, end, ==_refl id)
