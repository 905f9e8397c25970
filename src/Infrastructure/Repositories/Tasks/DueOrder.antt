-- ===== src/Infrastructure/Repositories/Tasks/DueOrder.antt =====
-- `get_due_tasks` of repositories/task.py: which rows it returns, and in which order.
use mathlib.Core.List.{Perm}
use mathlib.Core.List.Perm
use qiankun.Prelude.{
  ap, ℕ, zero, suc, ◌≤◌, ◌≡◌, refl, inl, inr, true, false, List, [], ◌∷◌, ◌++◌, arith, Bool-cases,
}
use qiankun.Prelude.Lists.{length, take, drop, keep_if, All, All-mono}
use qiankun.Prelude.Exec.{ok}
use qiankun.Infrastructure.Database.{Task, Db}
use qiankun.Infrastructure.Repositories.Tasks.{
  is_due, runs_before, insert_by_run, sort_by_run, get_due_tasks,
}

-- Every row comes before all that follow it.
abbrev pub IsSorted : List Task → Type 0
IsSorted [] = Unit
IsSorted (t ∷ ts) = All (λ u. runs_before t u ≡ true) ts × IsSorted ts

runs_before_trans :
    (a b c : Task) → runs_before a b ≡ true → runs_before b c ≡ true → runs_before a c ≡ true
unfolding runs_before
runs_before_trans a b c p q = ground arith

runs_before_total : (a b : Task) → runs_before a b ≡ false → runs_before b a ≡ true
unfolding runs_before
runs_before_total a b p = ground arith

insert_by_run-All :
    (P : Task → Type 0) (t : Task) (ts : List Task) → P t → All P ts → All P (insert_by_run t ts)
unfolding insert_by_run
insert_by_run-All P t [] p h = (p, tt)
insert_by_run-All P t (u ∷ us) p h =
    let ih = insert_by_run-All P t us p h.1 in
    elim (Bool-cases (runs_before t u)) [ inl e ↦ rw e (p, h) | inr e ↦ rw e (h.0, ih) ]

insert_by_run-IsSorted : (t : Task) (ts : List Task) → IsSorted ts → IsSorted (insert_by_run t ts)
unfolding insert_by_run
insert_by_run-IsSorted t [] h = (tt, tt)
insert_by_run-IsSorted t (u ∷ us) h =
    let ih = insert_by_run-IsSorted t us h.1 in
    elim (Bool-cases (runs_before t u)) [
      | inl e ↦ rw e (
        (
          e,
          All-mono (λ v. runs_before u v ≡ true) (λ v. runs_before t v ≡ true)
              (λ v. runs_before_trans t u v e) us h.0,
        ),
        h,
      )
      | inr e ↦
          rw e
            (insert_by_run-All (λ v. runs_before u v ≡ true) t us (runs_before_total t u e) h.0, ih)
    ]

sort_by_run-IsSorted : (ts : List Task) → IsSorted (sort_by_run ts)
unfolding sort_by_run
sort_by_run-IsSorted [] = tt
sort_by_run-IsSorted (t ∷ ts) = insert_by_run-IsSorted t (sort_by_run ts) (sort_by_run-IsSorted ts)

pub sort_by_run-All : (P : Task → Type 0) (ts : List Task) → All P ts → All P (sort_by_run ts)
unfolding sort_by_run
sort_by_run-All P [] h = tt
sort_by_run-All P (t ∷ ts) h = insert_by_run-All P t (sort_by_run ts) h.0 (sort_by_run-All P ts h.1)

insert_by_run-perm : (t : Task) (ts : List Task) → Perm (insert_by_run t ts) (t ∷ ts)
unfolding insert_by_run
insert_by_run-perm t [] = Perm.refl (t ∷ [])
insert_by_run-perm t (u ∷ us) =
    let ih = insert_by_run-perm t us in
    elim (Bool-cases (runs_before t u)) [
      | inl e ↦ rw e (Perm.refl (t ∷ u ∷ us))
      | inr e ↦ rw e (Perm.trans (Perm.cons u ih) (Perm.swap t u us))
    ]

sort_by_run-perm : (ts : List Task) → Perm (sort_by_run ts) ts
unfolding sort_by_run
sort_by_run-perm [] = Perm.refl []
sort_by_run-perm (t ∷ ts) =
    Perm.trans (insert_by_run-perm t (sort_by_run ts)) (Perm.cons t (sort_by_run-perm ts))

take-before-drop :
    (n : ℕ) (ts : List Task)
    → IsSorted ts
    → All (λ t. All (λ u. runs_before t u ≡ true) (drop n ts)) (take n ts)
take-before-drop zero ts h = tt
take-before-drop (suc n) [] h = tt
take-before-drop (suc n) (t ∷ ts) h = (All-drop n ts h.0, take-before-drop n ts h.1)
  where
    All-drop :
        (k : ℕ) (us : List Task)
        → All (λ u. runs_before t u ≡ true) us
        → All (λ u. runs_before t u ≡ true) (drop k us)
    All-drop zero us a = a
    All-drop (suc k) [] a = tt
    All-drop (suc k) (u ∷ us) a = All-drop k us a.1

-- What the query returns: `due` is in order and is cut off from all due rows at the limit, so
-- every due row that is left over comes after each one that is returned.
pub record IsEarliest (now : ℕ) (exclude_ids : List ℕ) (limit : ℕ) (db : Db) (due : List Task)
    : Type 0 where
  pub left_over : List Task
  pub all_due : Perm (due ++ left_over) (keep_if (is_due now exclude_ids) db.tasks)
  pub in_order : IsSorted (due ++ left_over)
  pub earliest : All (λ t. All (λ u. runs_before t u ≡ true) left_over) due
  pub within : length due ≤ limit

take-append-drop : (n : ℕ) (ts : List Task) → take n ts ++ drop n ts ≡ ts
take-append-drop zero ts = refl
take-append-drop (suc n) [] = refl
take-append-drop (suc n) (t ∷ ts) = ap (λ us. t ∷ us) (take-append-drop n ts)

length-take : (n : ℕ) (ts : List Task) → length (take n ts) ≤ n
length-take zero ts = omega arith
length-take (suc n) [] = omega arith
length-take (suc n) (t ∷ ts) = omega (arith, length-take n ts)

pub get_due_tasks-IsEarliest :
    (now : ℕ) (exclude_ids : List ℕ) (limit : ℕ) (db : Db)
    → (due : List Task) × (get_due_tasks now exclude_ids limit db ≡ (ok due, db))
      × IsEarliest now exclude_ids limit db due
unfolding get_due_tasks
get_due_tasks-IsEarliest now exclude_ids limit db =
    let rows = keep_if (is_due now exclude_ids) db.tasks in
    let sorted = sort_by_run rows in
    (
      take limit sorted,
      refl,
      record {
        left_over = drop limit sorted;
        all_due = rw take-append-drop (sort_by_run-perm rows);
        in_order = rw take-append-drop (sort_by_run-IsSorted rows);
        earliest = take-before-drop limit sorted (sort_by_run-IsSorted rows);
        within = length-take limit sorted;
      },
    )
