-- ===== src/Platform/Memory.antt =====
-- A table and a queue in memory, which show that the laws of `AttemptTable` and `Streams` can be met.
-- Examples run on them.
use mathlib.Core.List.{Memᴰ}
use mathlib.Core.List.Memᴰ.{head, tail}
use mathlib.Core.Option
use test_platform.Base.{
  ℕ, ◌+◌, ◌≡◌, refl, Bool, true, false, Option, none, some, List, [], ◌∷◌, ◌++◌, ◌==◌,
  if◌then◌else◌, arith, length, Bool-cases, ◌⊎◌, inl, inr,
}
use test_platform.Platform.{
  Attempt, AttemptTable, GradingJob, Stream, high, low, stream_eq, JobHash, Streams,
}

-- The rows by their keys, and the rows in the order of their insertion for a selection.
abbrev pub Rows : Type 0
Rows = List (ℕ × Attempt)

abbrev pub find_row : ℕ → Rows → Option Attempt
find_row j [] = none
find_row j ((i, a) ∷ t) = if j == i then some a else find_row j t

abbrev pub update_row : ℕ → (Attempt → Attempt) → Rows → Rows
update_row i f [] = []
update_row i f ((j, a) ∷ t) = (j, if j == i then f a else a) ∷ update_row i f t

abbrev pub select_rows : (Attempt → Bool) → Rows → List Attempt
select_rows p [] = []
select_rows p ((i, a) ∷ t) = if p a then a ∷ select_rows p t else select_rows p t

pub find-update_row :
    (i j : ℕ) (f : Attempt → Attempt) (t : Rows)
    → find_row j (update_row i f t) ≡ (if j == i then Option.map f (find_row j t) else find_row j t)
find-update_row i j f [] = ground arith
find-update_row i j f ((k, a) ∷ t) = ground (arith, find-update_row i j f t)

pub find-insert_row :
    (j : ℕ) (a : Attempt) (t : Rows)
    → find_row j ((a.id, a) ∷ t) ≡ (if j == a.id then some a else find_row j t)
find-insert_row j a t = refl

pub count-insert_row :
    (p : Attempt → Bool) (a : Attempt) (t : Rows)
    → length (select_rows p ((a.id, a) ∷ t))
      ≡ (if p a then length (select_rows p t) + 1 else length (select_rows p t))
count-insert_row p a t = ground arith

pub mem-select_row :
    (p : Attempt → Bool) (i : ℕ) (a : Attempt) (t : Rows)
    → find_row i t ≡ some a
    → p a ≡ true
    → Memᴰ a (select_rows p t)
mem-select_row p i a [] h q = absurd (cc h)
mem-select_row p i a ((j, b) ∷ t) h q = elim (Bool-cases (i == j)) [
  | inl same ↦ let e : b ≡ a = ground (arith, same) in rw (e, q) (head refl)
  | inr other ↦ later (Bool-cases (p b)) (mem-select_row p i a t (ground (arith, other)) q)
]
  where
    later :
        ((p b ≡ true) ⊎ (p b ≡ false))
        → Memᴰ a (select_rows p t)
        → Memᴰ a (select_rows p ((j, b) ∷ t))
    later (inl e) m = rw (e) (tail m)
    later (inr e) m = rw (e) m

abbrev pub table : AttemptTable Rows
table = record {
  find = find_row;
  update = update_row;
  insert = λ a t. (a.id, a) ∷ t;
  select = select_rows;
  find-update = find-update_row;
  find-insert = find-insert_row;
  count-insert = count-insert_row;
  mem-select = mem-select_row;
}

pub record Queue : Type 0 where
  pub high_entries : List (ℕ × GradingJob)
  pub low_entries : List (ℕ × GradingJob)
  pub jobs : ℕ → Option JobHash
  pub count : ℕ

abbrev entries_of : Stream → Queue → List (ℕ × GradingJob)
entries_of high q = q.high_entries
entries_of low q = q.low_entries

abbrev add_entry : Stream → ℕ → GradingJob → Queue → Queue
add_entry high id j q = record q { high_entries = q.high_entries ++ (id, j) ∷ [] }
add_entry low id j q = record q { low_entries = q.low_entries ++ (id, j) ∷ [] }

pub entries-add_entry :
    (i s : Stream) (id : ℕ) (j : GradingJob) (q : Queue)
    → entries_of i (add_entry s id j q)
      ≡ (if stream_eq i s then entries_of i q ++ (id, j) ∷ [] else entries_of i q)
entries-add_entry high high id j q = refl
entries-add_entry high low id j q = refl
entries-add_entry low high id j q = refl
entries-add_entry low low id j q = refl

pub jobs-add_entry :
    (x : ℕ) (s : Stream) (id : ℕ) (j : GradingJob) (q : Queue)
    → (add_entry s id j q).jobs x ≡ q.jobs x
jobs-add_entry x high id j q = refl
jobs-add_entry x low id j q = refl

pub count-add_entry :
    (s : Stream) (id : ℕ) (j : GradingJob) (q : Queue) → (add_entry s id j q).count ≡ q.count
count-add_entry high id j q = refl
count-add_entry low id j q = refl

abbrev put_job : ℕ → ℕ → JobHash → Queue → Queue
put_job now id h q = record q { jobs = λ x. if x == id then some h else q.jobs x }

pub entries-put_job :
    (i : Stream) (now id : ℕ) (h : JobHash) (q : Queue)
    → entries_of i (put_job now id h q) ≡ entries_of i q
entries-put_job high now id h q = refl
entries-put_job low now id h q = refl

pub entries-count :
    (i : Stream) (q : Queue) → entries_of i (record q { count = q.count + 1 }) ≡ entries_of i q
entries-count high q = refl
entries-count low q = refl

abbrev pub streams : Streams Queue
streams = record {
  xadd = add_entry;
  entries = entries_of;
  hset_job = put_job;
  job = λ x q. q.jobs x;
  incr_queued = λ q. record q { count = q.count + 1 };
  queued = λ q. q.count;
  entries-xadd = entries-add_entry;
  entries-hset_job = entries-put_job;
  entries-incr_queued = entries-count;
  job-hset_job = λ now x id h q. refl;
  job-incr_queued = λ x q. refl;
  job-xadd = jobs-add_entry;
  queued-incr_queued = λ q. refl;
  queued-hset_job = λ now id h q. refl;
  queued-xadd = count-add_entry;
}

abbrev pub no_jobs : Queue
no_jobs = record { high_entries = []; low_entries = []; jobs = λ _. none; count = 0 }
