-- ===== src/Infrastructure/Repositories/Tasks/Claim.antt =====
-- `claim_due_task` of repositories/task.py: the compare-and-swap on `next_run_time`.
use qiankun.Prelude.{
  ℕ, ◌<◌, ◌≡◌, ◌≢◌, refl, true, false, Option, none, List, [], ◌∷◌, arith, maybe, ltb, ap,
}
use qiankun.Prelude.Exec.{ok}
use qiankun.Infrastructure.Database.{Task, Db}
use qiankun.Infrastructure.Database.Rows.{find_row}
use qiankun.Infrastructure.Repositories.Tasks.{
  run_at, is_claimable, advance_claimed, claim_due_task,
}

abbrev pub find_task : ℕ → List Task → Option Task
find_task = find_row (λ t. t.id)

-- No identifier is that of two rows: `id` is the primary key.
abbrev pub HasUniqueIds : List Task → Type 0
HasUniqueIds [] = Unit
HasUniqueIds (t ∷ ts) = (find_task t.id ts ≡ none) × HasUniqueIds ts

-- The row with this identifier, if there is one, has a run time after `now`.
abbrev pub RunsAfter : ℕ → ℕ → List Task → Type 0
RunsAfter now id rows = maybe (find_task id rows) true (λ t. ltb now (run_at t)) ≡ true

pub find-advance_claimed-none :
    (j id e new : ℕ) (rows : List Task)
    → find_task j rows ≡ none
    → find_task j (advance_claimed id e new rows).0 ≡ none
unfolding advance_claimed
find-advance_claimed-none j id e new [] h = refl
find-advance_claimed-none j id e new (x ∷ rows) h =
    ground (arith, find-advance_claimed-none j id e new rows)

pub advance_claimed-HasUniqueIds :
    (id e new : ℕ) (rows : List Task)
    → HasUniqueIds rows
    → HasUniqueIds (advance_claimed id e new rows).0
unfolding advance_claimed
advance_claimed-HasUniqueIds id e new [] h = tt
advance_claimed-HasUniqueIds id e new (x ∷ rows) h = ground (
  arith,
  advance_claimed-HasUniqueIds id e new rows h.1,
  find-advance_claimed-none x.id id e new rows h.0,
)

-- A claim to a time after `now` leaves no row earlier than it was found.
pub advance_claimed-RunsAfter :
    (now j id e new : ℕ) (rows : List Task)
    → now < new
    → RunsAfter now j rows
    → RunsAfter now j (advance_claimed id e new rows).0
unfolding advance_claimed
advance_claimed-RunsAfter now j id e new [] up h = refl
advance_claimed-RunsAfter now j id e new (x ∷ rows) up h =
    ground (arith, advance_claimed-RunsAfter now j id e new rows up)

advance_claimed_twice :
    (id e new new' : ℕ) (rows : List Task)
    → new ≢ e
    → (advance_claimed id e new' (advance_claimed id e new rows).0).1 ≡ false
unfolding advance_claimed is_claimable
advance_claimed_twice id e new new' [] ne = refl
advance_claimed_twice id e new new' (x ∷ rows) ne =
    ground (arith, advance_claimed_twice id e new new' rows ne)

advance_claimed_missing :
    (id e new : ℕ) (rows : List Task)
    → find_task id rows ≡ none
    → (advance_claimed id e new rows).1 ≡ false
unfolding advance_claimed is_claimable
advance_claimed_missing id e new [] h = refl
advance_claimed_missing id e new (x ∷ rows) h =
    ground (arith, advance_claimed_missing id e new rows)

-- A claim that succeeds has moved its row to the new time.
pub advance_claimed_hit :
    (now id e new : ℕ) (rows : List Task)
    → HasUniqueIds rows
    → now < new
    → (advance_claimed id e new rows).1 ≡ true
    → RunsAfter now id (advance_claimed id e new rows).0
unfolding advance_claimed is_claimable
advance_claimed_hit now id e new [] u up hit = cc
advance_claimed_hit now id e new (x ∷ rows) u up hit = ground (
  arith,
  advance_claimed_hit now id e new rows u.1 up,
  advance_claimed_missing id e new rows,
  advance_claimed_missing x.id e new rows,
)

-- Of two claims of one task at the same expected time, the second fails, whatever it would have
-- set: a firing is claimed at most once, as the claim moves the row off the expected time.
pub claim_due_task_once :
    (id expected new new' : ℕ) (db : Db)
    → new ≢ expected
    → (claim_due_task id expected new' (claim_due_task id expected new db).1).0 ≡ ok false
unfolding claim_due_task
claim_due_task_once id expected new new' db ne =
    ap ok (advance_claimed_twice id expected new new' db.tasks ne)
