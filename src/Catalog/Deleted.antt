-- ===== src/Catalog/Deleted.antt =====
-- `DELETE /:id` of routes/exams.ts: the references after an exam is deleted.
use mathlib.Core.List.{Memᴰ}
use mathlib.Core.List.Memᴰ.{head, tail}
use test_platform.Base.{
  ℕ, ◌≡◌, inl, inr, Bool, true, false, some, List, length, is_some, if◌then◌else◌, ◌==◌, arith, ok,
  api_error, Bool-cases, ==_refl,
}
use test_platform.Platform.{Attempt, Challenge, AttemptTable}
use test_platform.Invitations.{InvitationTable}
use test_platform.Catalog.{Table, ExamRow, Catalog, of_exam, remove_exam, delete_exam}
use test_platform.Catalog.Links.{IsLinked}

module _ {C E I T : Type 0} (challenges : Table Challenge C (λ c. c.id))
    (exams : Table ExamRow E (λ r. r.id)) (invitations : InvitationTable I)
    (table : AttemptTable T) where
  -- A route that deletes an exam is never refused by the database: what it looks at, and what it deletes
  -- first, is all that refers to the exam.
  delete_exam-eq :
      (enforced : Bool) (id : ℕ) (s : Catalog C E I T)
      → delete_exam challenges exams invitations table enforced id s ≡ (
          if is_some (exams.find id s.exams)
          then if length (table.select (of_exam id) s.attempts) == 0
            then (
              ok tt,
              record s {
                invitations = invitations.delete_of_exam id s.invitations;
                exams = exams.delete id s.exams;
              },
            )
            else (api_error 400, s)
          else (api_error 404, s))
  unfolding delete_exam remove_exam
  delete_exam-eq enforced id s =
      ground (arith, invitations.refers_to-delete_of_exam id id s.invitations, ==_refl id)

  length-of_mem : {a : Attempt} {xs : List Attempt} → Memᴰ a xs → (length xs == 0) ≡ false
  length-of_mem (head e) = ground arith
  length-of_mem (tail m) = ground arith

  -- A row that is there is selected if it passes the test.
  unselected :
      (p : Attempt → Bool) (j : ℕ) (a : Attempt) (t : T)
      → table.find j t ≡ some a
      → (length (table.select p t) == 0) ≡ true
      → p a ≡ false
  unselected p j a t found empty = elim (Bool-cases (p a)) [
    | inr e ↦ e
    | inl e ↦ ground (arith, length-of_mem (table.mem-select p j a t found e))
  ]

  dropped-IsLinked :
      (id : ℕ) (s : Catalog C E I T)
      → (length (table.select (of_exam id) s.attempts) == 0) ≡ true
      → IsLinked challenges exams invitations table s
      → IsLinked challenges exams invitations table (record s {
        invitations = invitations.delete_of_exam id s.invitations;
        exams = exams.delete id s.exams;
      })
  dropped-IsLinked id s empty linked = record {
    exams_linked =
        λ j r h. linked.exams_linked j r (ground (arith, exams.find-delete id j s.exams, h));
    attempts_linked = λ j a h. ground (
      arith,
      exams.find-delete id a.exam_id s.exams,
      unselected (of_exam id) j a s.attempts h empty,
      linked.attempts_linked j a h,
    );
    invitations_linked = λ x h. ground (
      arith,
      exams.find-delete id x s.exams,
      invitations.refers_to-delete_of_exam x id s.invitations,
      h,
      linked.invitations_linked x,
    );
  }

  pub delete_exam-IsLinked :
      (enforced : Bool) (id : ℕ) (s : Catalog C E I T)
      → IsLinked challenges exams invitations table s
      → IsLinked challenges exams invitations table
          (delete_exam challenges exams invitations table enforced id s).1
  delete_exam-IsLinked enforced id s linked =
      let there = is_some (exams.find id s.exams) in
      let empty = length (table.select (of_exam id) s.attempts) == 0 in
      rw (delete_exam-eq enforced id s) (elim (Bool-cases there) [
        | inr gone ↦ rw gone linked
        | inl found ↦ elim (Bool-cases empty) [
          | inr taken ↦ rw (found, taken) linked
          | inl free ↦ rw (found, free) (dropped-IsLinked id s free linked)
        ]
      ])
