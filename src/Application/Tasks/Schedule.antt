-- ===== src/Application/Tasks/Schedule.antt =====
-- When the task service sets and clears `next_run_time`.
use qiankun.Prelude.{
  ℕ, ◌+◌, ◌≡◌, refl, sym, subst, ap, ◌∙◌, String, Bool, true, false, Option, none, some, List, [],
  ◌∷◌, ◌++◌, is_some, inl, inr, Bool-cases, ◌==◌, ==→eq, if-elim, str_eq,
}
use qiankun.Prelude.Lists.{All, All-append, any_of}
use qiankun.Prelude.Exec.{
  Error, Result, ok, err, Exec, Ensures, Ensures-mono, >>=-Ensures, pure, lift, raise_if, ◌>>=◌,
  ◌>>◌,
}
use qiankun.Infrastructure.Database.{Task, Db}
use qiankun.Infrastructure.Database.Rows.{
  find_row, find_row-key, change_row, find_row-change_row-none,
}
use qiankun.Infrastructure.Repositories.Tasks.{get_task, add_task, update_task}
use qiankun.Infrastructure.Repositories.Tasks.Claim.{HasUniqueIds}
use qiankun.Engine.World.{World, Host, in_transaction, close_transaction, on_db}
use qiankun.Scheduler.Calculator.{Cron, calculate_next_run_time}
use qiankun.Application.Tasks.{
  TaskValues, or_else, set_next, next_from_now, first_run, recompute, refuse_taken, name_taken,
  apply_values, update_found, update, create, default_task, validate_payload,
}

-- An enabled task has a next run time, and a disabled one has none: "NULL while the task is
-- disabled" (models/task.py).
abbrev pub IsScheduled : Task → Type 0
IsScheduled t = t.enabled ≡ is_some t.next_run_time

-- The same of every row.
abbrev pub AllScheduled : World → Type 0
AllScheduled w = All IsScheduled w.db.tasks

close-Ensures :
    {A : Type 0} (P : A → World → Type 0) (before : Db) (r : Result A) (w : World)
    → Ensures P (r, w)
    → Ensures P (close_transaction before r w)
close-Ensures P before (ok a) w h = h
close-Ensures P before (err e) w h = tt

All-change_row_found :
    (k : ℕ) (f : Task → Task) (rows : List Task)
    → HasUniqueIds rows
    → All IsScheduled rows
    → ((t : Task) → find_row (λ t. t.id) k rows ≡ some t → IsScheduled t → IsScheduled (f t))
    → All IsScheduled (change_row (λ t. t.id) k f rows)
All-change_row_found k f [] unique all here = tt
All-change_row_found k f (x ∷ rows) unique all here = elim (Bool-cases (x.id == k)) [
  | inl e ↦
      let missing : find_row (λ t. t.id) k rows ≡ none =
        subst (λ j. find_row (λ t. t.id) j rows ≡ none) (==→eq x.id k e) unique.0 in
      let same : change_row (λ t. t.id) k f rows ≡ rows =
        find_row-change_row-none (λ t. t.id) k f rows missing in
      rw e (here x (rw e refl) all.0, subst (All IsScheduled) (sym same) all.1)
  | inr e ↦
      rw e (all.0, All-change_row_found k f rows unique.1 all.1 (λ t found. here t (rw e found)))
]

module _ (h : Host) (cron : Cron) where
  -- A time is set, and the database is left alone.
  SetsNext : World → Option (Option ℕ) → World → Type 0
  SetsNext w next w' = (w'.db ≡ w.db) × ((n : ℕ) × (next ≡ some (some n)))

  set_next-Ensures :
      (expression : String) (w : World) → Ensures (SetsNext w) (set_next h cron expression w)
  unfolding set_next next_from_now SetsNext
  set_next-Ensures expression w =
      go (calculate_next_run_time cron expression (h.clock w.reads) none)
    where
      go :
          (r : Result ℕ)
          → Ensures
              (SetsNext w)
              ((lift r >>= λ n. pure (some (some n))) (record w { reads = w.reads + 1 }))
      go (ok n) = (refl, (n, refl))
      go (err e) = tt

  -- What `recompute` sets fits the task under the new `enabled`.
  Fits : Task → Option Bool → World → Option (Option ℕ) → World → Type 0
  Fits task enabled w next w' =
      (w'.db ≡ w.db)
      × (IsScheduled task
          → or_else enabled task.enabled ≡ is_some (or_else next task.next_run_time))

  recompute-Fits :
      (task : Task) (enabled : Option Bool) (expression : Option String) (w : World)
      → Ensures (Fits task enabled w) (recompute h cron task enabled expression w)
  unfolding recompute Fits SetsNext
  recompute-Fits task (some false) expression w = (refl, λ _. refl)
  recompute-Fits task (some true) expression w =
      Ensures-mono (SetsNext w) (Fits task (some true) w)
        (λ v next sets. (
          sets.0,
          λ _. subst (λ o. true ≡ is_some (or_else o task.next_run_time)) (sym sets.1.1) refl,
        ))
        _ (set_next-Ensures (or_else expression task.cron_expression) w)
  recompute-Fits task none none w = (refl, λ s. s)
  recompute-Fits task none (some expression) w =
      if-elim (λ (c : Exec World (Option (Option ℕ))). Ensures (Fits task none w) (c w))
        task.enabled
        (λ on.
          Ensures-mono (SetsNext w) (Fits task none w)
            (λ v next sets. (
              sets.0,
              λ _.
                  subst (λ o. task.enabled ≡ is_some (or_else o task.next_run_time)) (sym sets.1.1)
                    on,
            ))
            _ (set_next-Ensures expression w))
        (λ _. (refl, λ s. s))

  refuse_taken-Ensures :
      (task : Task) (name : Option String) (w : World)
      → Ensures (λ _ v. v.db ≡ w.db) (refuse_taken task name w)
  unfolding refuse_taken name_taken
  refuse_taken-Ensures task none w = refl
  refuse_taken-Ensures task (some name) w =
      if-elim (λ (c : Exec World (Unit {0})). Ensures (λ _ v. v.db ≡ w.db) (c w))
        (str_eq name task.name) (λ _. refl) (λ _. raise_if-Ensures _)
    where
      raise_if-Ensures : (b : Bool) → Ensures (λ _ v. v.db ≡ w.db) (raise_if b Error.conflict w)
      raise_if-Ensures true = tt
      raise_if-Ensures false = refl

  update_found-Ensures :
      (values : TaskValues) (k : ℕ) (w : World)
      → HasUniqueIds w.db.tasks
      → AllScheduled w
      → Ensures
          (λ _ v. AllScheduled v)
          (update_found h cron values (find_row (λ t. t.id) k w.db.tasks) w)
  unfolding update_task apply_values update_found Fits
  update_found-Ensures values k w unique all = go (find_row (λ t. t.id) k w.db.tasks) refl
    where
      write :
          (task : Task) (next : Option (Option ℕ)) (v : World)
          → v.db ≡ w.db
          → find_row (λ t. t.id) task.id w.db.tasks ≡ some task
          → (IsScheduled task
              → or_else values.enabled task.enabled ≡ is_some (or_else next task.next_run_time))
          → All IsScheduled (update_task task.id (apply_values values next) v.db).1.tasks
      write task next v same found fits =
          subst
            (λ d.
              All IsScheduled (change_row (λ t. t.id) task.id (apply_values values next) d.tasks))
            (sym same)
            (All-change_row_found task.id (apply_values values next) w.db.tasks unique all
              (λ t here scheduled.
                let e : t ≡ task = cc in
                subst (λ t. IsScheduled (apply_values values next t)) (sym e)
                  (fits (subst IsScheduled e scheduled))))

      key :
          (task : Task)
          → find_row (λ t. t.id) k w.db.tasks ≡ some task
          → find_row (λ t. t.id) task.id w.db.tasks ≡ some task
      key task e =
          subst (λ j. find_row (λ t. t.id) j w.db.tasks ≡ some task)
            (sym (find_row-key (λ t. t.id) k task w.db.tasks e)) e

      go :
          (o : Option Task)
          → find_row (λ t. t.id) k w.db.tasks ≡ o
          → Ensures (λ _ v. AllScheduled v) (update_found h cron values o w)
      go none e = tt
      go (some task) e =
          >>=-Ensures (λ _ v. v.db ≡ w.db) _ (refuse_taken task values.name) _ w
            (refuse_taken-Ensures task values.name w)
            λ _ v same.
              >>=-Ensures (Fits task values.enabled v) _
                (recompute h cron task values.enabled values.cron_expression) _ v
                (recompute-Fits task values.enabled values.cron_expression v)
                λ next u (again, fits). write task next u (again ∙ same) (key task e) fits

  in_transaction-AllScheduled :
      {A : Type 0} (c : Exec World A) (w : World)
      → Ensures (λ _ v. AllScheduled v) (c w)
      → Ensures (λ _ v. AllScheduled v) (in_transaction c w)
  in_transaction-AllScheduled c w e = close-Ensures (λ _ v. AllScheduled v) w.db (c w).0 (c w).1 e

  -- Where identifiers are unique and every task had a next run time exactly when it was enabled, the
  -- same holds of the run times after a partial update that succeeds, whichever of `enabled`,
  -- `cron_expression` and the other fields it sets.
  pub update-AllScheduled :
      (has_provider : String → Bool) (task_id : ℕ) (values : TaskValues) (w : World)
      → HasUniqueIds w.db.tasks
      → AllScheduled w
      → Ensures (λ _ v. AllScheduled v) (update h cron has_provider task_id values w)
  unfolding update get_task
  update-AllScheduled has_provider task_id values w unique all =
      go (validate_payload h cron has_provider false values)
    where
      go :
          (r : Result (Unit {0}))
          → Ensures
              (λ _ v. AllScheduled v)
              ((lift r
                  >> in_transaction
                      do found ← on_db (get_task task_id); update_found h cron values found)
                w)
      go (err e) = tt
      go (ok _) =
          in_transaction-AllScheduled
            (update_found h cron values (find_row (λ t. t.id) task_id w.db.tasks)) w
            (update_found-Ensures values task_id w unique all)

  -- What `create` sets fits the new row.
  Starts : Bool → World → Option (Option ℕ) → World → Type 0
  Starts enabled w next w' = (w'.db ≡ w.db) × (enabled ≡ is_some (or_else next none))

  first_run-Starts :
      (enabled : Bool) (expression : String) (w : World)
      → Ensures (Starts enabled w) (first_run h cron enabled expression w)
  unfolding first_run Starts SetsNext
  first_run-Starts true expression w =
      Ensures-mono (SetsNext w) (Starts true w)
        (λ v next sets. (
          sets.0,
          subst (λ (o : Option (Option ℕ)). true ≡ is_some (or_else o none)) (sym sets.1.1) refl,
        ))
        _ (set_next-Ensures expression w)
  first_run-Starts false expression w = (refl, refl)

  -- Where every task has a next run time exactly when it is enabled, a creation that succeeds adds
  -- one task of which the same is true at the end of the table, and leaves the others as they were.
  pub create-AllScheduled :
      (has_provider : String → Bool) (values : TaskValues) (w : World)
      → AllScheduled w
      → Ensures
          (λ t v. IsScheduled t × AllScheduled v × (v.db.tasks ≡ w.db.tasks ++ t ∷ []))
          (create h cron has_provider values w)
  unfolding create name_taken add_task apply_values Starts
  create-AllScheduled has_provider values w all =
      go (validate_payload h cron has_provider true values)
    where
      P : Task → World → Type 0
      P t v = IsScheduled t × AllScheduled v × (v.db.tasks ≡ w.db.tasks ++ t ∷ [])

      enabled : Bool
      enabled = or_else values.enabled true

      expression : String
      expression = or_else values.cron_expression ""

      write :
          (next : Option (Option ℕ)) (v : World)
          → Starts enabled w next v
          → Ensures P (on_db (add_task (apply_values values next default_task)) v)
      write next v starts =
          let tasks : v.db.tasks ≡ w.db.tasks = ap (λ d. d.tasks) starts.0 in
          let row : Task = record (apply_values values next default_task) { id = v.db.next_id } in
          (
            starts.1,
            All-append IsScheduled v.db.tasks (row ∷ []) (subst (All IsScheduled) (sym tasks) all)
                (starts.1, tt),
            ap (λ ts. ts ++ row ∷ []) tasks,
          )

      insert :
          (taken : Bool)
          → Ensures P (
              (raise_if taken Error.conflict
                  >> (first_run h cron enabled expression >>= λ next.
                      on_db (add_task (apply_values values next default_task))))
                w)
      insert true = tt
      insert false =
          >>=-Ensures (Starts enabled w) P (first_run h cron enabled expression) _ w
            (first_run-Starts enabled expression w) write'
        where
          write' :
              (next : Option (Option ℕ)) (v : World)
              → Starts enabled w next v
              → Ensures P (on_db (add_task (apply_values values next default_task)) v)
          write' next v starts = write next v starts

      go :
          (r : Result (Unit {0}))
          → Ensures P (
              (lift r
                  >> in_transaction (
                      on_db (name_taken (or_else values.name "")) >>= λ taken.
                      raise_if taken Error.conflict
                      >> (first_run h cron enabled expression >>= λ next.
                          on_db (add_task (apply_values values next default_task)))))
                w)
      go (err e) = tt
      go (ok _) =
          close-Ensures P w.db _ _
            (insert (any_of (λ t. str_eq t.name (or_else values.name "")) w.db.tasks))
