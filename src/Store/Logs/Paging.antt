-- ===== src/Store/Logs/Paging.antt =====
-- The log of an operation is numbered from 1 without gaps, and a page is a slice of it.
use mathlib.Core.List.{append-nil}
use native.Mathlib.Nat.{add-zero, sub-zero}
use space_elevator.Base.{
  Bool-cases, inl, inr, ℕ, zero, suc, ◌+◌, ◌-◌, ◌≤◌, ◌<◌, ◌≡◌, refl, sym, ap, ◌∙◌, max, String,
  Bool, ◌&&◌, List, [], ◌∷◌, ◌++◌, ltb, sift, tally, take, drop, length, length-drop, length-take,
  drop-length, take-append-drop, Bytes, is_empty, arith, eq_iff,
}
use space_elevator.Store.Rows.{DeployLog, Db}
use space_elevator.Store.Operations.{has_id, bounded_error}
use space_elevator.Store.Logs.{
  log_of, max_sequence, append_deploy_log, insert_by_sequence, by_sequence, page_limit,
  list_deploy_logs,
}

-- The sequences are k + 1, k + 2, and so on.
abbrev pub IsNumbered : ℕ → List DeployLog → Type 0
IsNumbered k [] = Unit
IsNumbered k (l ∷ ls) = (l.sequence ≡ k + 1) × IsNumbered (k + 1) ls

abbrev pub log_lines : String → Db → List DeployLog
log_lines operation_id db = sift (log_of operation_id) db.logs

pub record IsValid (db : Db) : Type 0 where
  pub numbered : (operation_id : String) → IsNumbered 0 (log_lines operation_id db)

max-numbered :
    (k : ℕ) (ls : List DeployLog) → IsNumbered k ls → max k (max_sequence ls) ≡ k + length ls
unfolding max_sequence
max-numbered k [] h = omega arith
max-numbered k (l ∷ ls) h = omega (arith, h.0, max-numbered (k + 1) ls h.1)

IsNumbered-append :
    (k : ℕ) (ls : List DeployLog) (l : DeployLog)
    → IsNumbered k ls
    → l.sequence ≡ k + length ls + 1
    → IsNumbered k (ls ++ l ∷ [])
IsNumbered-append k [] l h e = (omega arith, tt)
IsNumbered-append k (x ∷ xs) l h e = (h.0, IsNumbered-append (k + 1) xs l h.1 (omega arith))

sift-append :
    (p : DeployLog → Bool) (xs ys : List DeployLog) → sift p (xs ++ ys) ≡ sift p xs ++ sift p ys
unfolding sift
sift-append p [] ys = refl
sift-append p (x ∷ xs) ys = ground (arith, sift-append p xs ys)

with_line-IsNumbered :
    (row : DeployLog) (db : Db)
    → IsValid db
    → row.sequence ≡ max_sequence (log_lines row.operation_id db) + 1
    → (i : String) → IsNumbered 0 (sift (log_of i) (db.logs ++ row ∷ []))
unfolding sift
with_line-IsNumbered row db v e i =
    rw (sift-append (log_of i) db.logs (row ∷ [])) (elim (Bool-cases (log_of i row)) [
      | inl own ↦
          let same : row.operation_id ≡ i = (eq_iff row.operation_id i).0 own in
          let top = max-numbered 0 (log_lines i db) (v.numbered i) in
          rw own (
            IsNumbered-append 0 (log_lines i db) row (v.numbered i)
              (omega (arith, e, ap (λ (j : String). max_sequence (log_lines j db)) same, top)))
      | inr other ↦ rw (other, append-nil) (v.numbered i)
    ])

-- A line more keeps the log of every operation numbered.
pub append_deploy_log-IsValid :
    (now : ℕ) (operation_id step level : String) (message : Bytes) (db : Db)
    → IsValid db
    → IsValid (append_deploy_log now operation_id step level message db).1
unfolding append_deploy_log
append_deploy_log-IsValid now operation_id step level message db v =
    let row : DeployLog = record {
      operation_id = operation_id;
      sequence = max_sequence (log_lines operation_id db) + 1;
      step = step;
      level = level;
      message = bounded_error message;
      created_at = now;
    } in
    elim (Bool-cases (is_empty (bounded_error message))) [
      | inl e ↦ rw e v
      | inr e ↦ rw e (elim (Bool-cases (ltb 0 (tally (has_id operation_id) db.operations))) [
        | inl f ↦ rw f (record { numbered = with_line-IsNumbered row db v refl })
        | inr f ↦ rw f v
      ])
    ]

by_sequence-numbered : (k : ℕ) (ls : List DeployLog) → IsNumbered k ls → by_sequence ls ≡ ls
unfolding by_sequence insert_by_sequence
by_sequence-numbered k [] h = refl
by_sequence-numbered k (l ∷ []) h = refl
by_sequence-numbered k (l ∷ x ∷ xs) h = ground (arith, by_sequence-numbered (k + 1) (x ∷ xs) h.1)

IsNumbered-drop : (n k : ℕ) (ls : List DeployLog) → IsNumbered k ls → IsNumbered (k + n) (drop n ls)
IsNumbered-drop zero k ls h = rw (add-zero k) h
IsNumbered-drop (suc n) k [] h = tt
IsNumbered-drop (suc n) k (l ∷ ls) h = rw (shift k n) (IsNumbered-drop n (k + 1) ls h.1)
  where
    shift : (a b : ℕ) → a + suc b ≡ a + 1 + b
    shift a b = omega arith

sift-and :
    (p q : DeployLog → Bool) (xs : List DeployLog) → sift (λ x. p x && q x) xs ≡ sift q (sift p xs)
unfolding sift
sift-and p q [] = refl
sift-and p q (x ∷ xs) = ground (arith, sift-and p q xs)

drop-nil : (n : ℕ) → drop {A = DeployLog} n [] ≡ []
drop-nil zero = refl
drop-nil (suc n) = refl

take-nil : (n : ℕ) → take {A = DeployLog} n [] ≡ []
take-nil zero = refl
take-nil (suc n) = refl

sift-newer :
    (after k : ℕ) (ls : List DeployLog)
    → IsNumbered k ls
    → sift (λ l. ltb after l.sequence) ls ≡ drop (after - k) ls
unfolding sift
sift-newer after k [] h = sym (drop-nil (after - k))
sift-newer after k (l ∷ ls) h = elim (Bool-cases (ltb after l.sequence)) [
  | inl new ↦
      let now : after - k ≡ 0 = ground arith in
      let next : after - (k + 1) ≡ 0 = ground arith in
      let rest = sift-newer after (k + 1) ls h.1 in rw (new, now) (ap (λ t. l ∷ t) (rest ∙ rw next))
  | inr old ↦
      let now : after - k ≡ suc (after - (k + 1)) = ground arith in
      rw (old, now) (sift-newer after (k + 1) ls h.1)
]

-- A page of ListDeployLogs is a slice of the operation's log: the lines after the first `after`, at
-- most as many as the page limit, in order; beside it stands the length of the whole log.
pub list_deploy_logs-slice :
    (operation_id : String) (after limit : ℕ) (db : Db)
    → IsValid db
    → list_deploy_logs operation_id after limit db ≡ (
      take (page_limit limit) (drop after (log_lines operation_id db)),
      length (log_lines operation_id db),
    )
unfolding list_deploy_logs
list_deploy_logs-slice operation_id after limit db v =
    let lines = log_lines operation_id db in
    let numbered = v.numbered operation_id in
    let top = max-numbered 0 lines numbered in
    let total : max_sequence lines ≡ length lines = omega (arith, top) in
    rw
      (
        sift-and (log_of operation_id) (λ l. ltb after l.sequence) db.logs,
        sift-newer after 0 lines numbered,
        sub-zero,
      )
      (rw (
        total,
        by_sequence-numbered (0 + after) (drop after lines)
            (IsNumbered-drop after 0 lines numbered),
      ))

take-all {ℓ} : {A : Type ℓ} (n : ℕ) (xs : List A) → length xs ≤ n → take n xs ≡ xs
take-all zero [] h = refl
take-all zero (x ∷ xs) h = absurd (omega arith)
take-all (suc n) [] h = refl
take-all (suc n) (x ∷ xs) h = ap (λ t. x ∷ t) (take-all n xs (omega arith))

-- A client that has read `after` lines and polls for more gets all the lines that it has not read,
-- in order, when these are at most as many as the page limit; the sequence that it goes on from is
-- then the number of lines read.
pub poll_complete :
    (operation_id : String) (after limit : ℕ) (db : Db)
    → IsValid db
    → length (log_lines operation_id db) ≤ after + page_limit limit
    → let (lines, latest) = list_deploy_logs operation_id after limit db in
      (take after (log_lines operation_id db) ++ lines ≡ log_lines operation_id db)
      × (latest ≡ length (log_lines operation_id db))
poll_complete operation_id after limit db v h =
    let all = log_lines operation_id db in
    let whole : take (page_limit limit) (drop after all) ≡ drop after all =
      take-all (page_limit limit) (drop after all) (omega (arith, length-drop after all)) in
    rw (list_deploy_logs-slice operation_id after limit db v)
      (rw whole (take-append-drop after all, refl))

-- Where more lines than the page limit are new, the sequence in the answer is that of the last line of
-- the whole log and not of the page: a client that goes on from it gets no line in its next poll, so
-- the lines behind the page never reach it.
pub poll-loses :
    (operation_id : String) (after limit : ℕ) (db : Db)
    → IsValid db
    → after + page_limit limit < length (log_lines operation_id db)
    → let (lines, latest) = list_deploy_logs operation_id after limit db in
      ((list_deploy_logs operation_id latest limit db).0 ≡ [])
      × (after + length lines < length (log_lines operation_id db))
poll-loses operation_id after limit db v h =
    let all = log_lines operation_id db in
    rw (list_deploy_logs-slice operation_id after limit db v) (
      rw (list_deploy_logs-slice operation_id (length all) limit db v)
          (rw (drop-length all) (take-nil (page_limit limit))),
      omega (arith, length-take (page_limit limit) (drop after all)),
    )
