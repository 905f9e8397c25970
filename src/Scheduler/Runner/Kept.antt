-- ===== src/Scheduler/Runner/Kept.antt =====
-- What the parts of a round leave alone: the retry limit of every task, and the number of rows.
use qiankun.Prelude.{
  ◌≢◌, ℕ, ◌+◌, ◌≤◌, ◌≡◌, refl, subst, ◌∙◌, sym, inl, inr, String, Bool, Option, none, some, List,
  [], ◌∷◌, ◌++◌, arith, maybe, if-elim, Option-cases,
}
use qiankun.Prelude.Json.{Value}
use qiankun.Prelude.Lists.{length, length-append}
use qiankun.Prelude.Exec.{Error, Result, ok, err, Exec, pure, continue, ◌>>=◌}
use qiankun.Runtime.Enums.{ExecutionStatus, is_terminal}
use qiankun.Infrastructure.Database.{Task, TaskExecution, Db}
use qiankun.Infrastructure.Database.Rows.{find_row, change_row}
use qiankun.Infrastructure.Repositories.Tasks.{get_task, update_task}
use qiankun.Infrastructure.Repositories.Executions.{get_execution, add_execution, update_execution}
use qiankun.Engine.World.{Event, EventType, World, Host, in_transaction, close_transaction}
use qiankun.Engine.Finalizer.{
  touch_last_run, dispatch, deliver_all, deliver_if, finish_run, handle_finished, handle_event,
  usable_channels, channels_of, notifies,
}
use qiankun.Engine.Bus.{emit, handle_stream_event}
use qiankun.Infrastructure.Repositories.Settings.{by_key}
use qiankun.Scheduler.Runner.{TaskRunner, publish_event}

-- The retry limit of a task, as the loop reads it.
abbrev pub retries_of : ℕ → Db → Option ℕ
retries_of id db = maybe (find_row (λ t. t.id) id db.tasks) none (λ t. some t.max_retries)

-- The same tasks with the same limits, and at most `n` rows more.
pub record Grows (n : ℕ) (before after : Db) : Type 0 where
  pub retries : (id : ℕ) → retries_of id after ≡ retries_of id before
  pub rows : length after.executions ≤ length before.executions + n

pub Grows-refl : (db : Db) → Grows 0 db db
Grows-refl db = record { retries = λ id. refl; rows = omega arith }

pub Grows-trans : (m n : ℕ) (a b c : Db) → Grows m a b → Grows n b c → Grows (m + n) a c
Grows-trans m n a b c f g = record {
  retries = λ id. g.retries id ∙ f.retries id;
  rows = omega (arith, f.rows, g.rows);
}

pub Grows-mono : (m n : ℕ) (a b : Db) → m ≤ n → Grows m a b → Grows n a b
Grows-mono m n a b le g = record { retries = g.retries; rows = omega (arith, g.rows) }

find-change_retries :
    (id k : ℕ) (f : Task → Task) (ts : List Task)
    → ((t : Task) → (f t).id ≡ t.id)
    → ((t : Task) → (f t).max_retries ≡ t.max_retries)
    → maybe (find_row (λ t. t.id) id (change_row (λ t. t.id) k f ts)) none (λ t. some t.max_retries)
      ≡ maybe (find_row (λ t. t.id) id ts) none (λ t. some t.max_retries)
find-change_retries id k f [] same_id same = refl
find-change_retries id k f (x ∷ ts) same_id same =
    ground (arith, same_id x, same x, find-change_retries id k f ts same_id same)

length-change_row :
    (k : ℕ) (f : TaskExecution → TaskExecution) (xs : List TaskExecution)
    → length (change_row (λ x. x.id) k f xs) ≡ length xs
length-change_row k f [] = refl
length-change_row k f (x ∷ xs) = omega (arith, length-change_row k f xs)

pub update_task-Grows :
    (k : ℕ) (f : Task → Task) (db : Db)
    → ((t : Task) → (f t).id ≡ t.id)
    → ((t : Task) → (f t).max_retries ≡ t.max_retries)
    → Grows 0 db (update_task k f db).1
unfolding update_task
update_task-Grows k f db same_id same = record {
  retries = λ id. find-change_retries id k f db.tasks same_id same;
  rows = omega arith;
}

pub update_execution-Grows :
    (k : ℕ) (f : TaskExecution → TaskExecution) (db : Db) → Grows 0 db (update_execution k f db).1
unfolding update_execution
update_execution-Grows k f db = record {
  retries = λ id. refl;
  rows = omega (arith, length-change_row k f db.executions);
}

pub add_execution-Grows : (x : TaskExecution) (db : Db) → Grows 1 db (add_execution x db).1
unfolding add_execution
add_execution-Grows x db = record {
  retries = λ id. refl;
  rows = omega (arith, length-append db.executions (record x { id = db.next_id } ∷ []));
}

-- A call that lets the database grow by `n` rows at most, whether it returns or raises, and that
-- does not run out of fuel.
pub record GrowsBy {A : Type 0} (n : ℕ) (c : Exec World A) (w : World) : Type 0 where
  pub kept : Grows n w.db (c w).1.db
  pub fueled : (c w).0 ≢ err Error.out_of_fuel

pub ok-fueled : {A : Type 0} (a : A) → ok a ≢ err Error.out_of_fuel
ok-fueled a e = cc

pub close-result :
    {A : Type 0} (before : Db) (r : Result A) (w : World) → (close_transaction before r w).0 ≡ r
close-result before (ok a) w = refl
close-result before (err e) w = refl

err_inj :
    {e d : Error} {A B : Type 0} → Path (Result A) (err e) (err d) → Path (Result B) (err e) (err d)
err_inj h = cc

pub close-Grows :
    {A : Type 0} (n : ℕ) (r : Result A) (w t : World)
    → Grows n w.db t.db
    → Grows n w.db (close_transaction w.db r t).1.db
close-Grows n (ok a) w t g = g
close-Grows n (err e) w t g = Grows-mono 0 n w.db w.db (omega arith) (Grows-refl w.db)

continue-Grows :
    {A B : Type 0} (m n : ℕ) (r : Result A) (f : A → Exec World B) (w t : World)
    → Grows m w.db t.db
    → ((a : A) → r ≡ ok a → GrowsBy n (f a) t)
    → Grows (m + n) w.db (continue r f t).1.db
continue-Grows m n (ok a) f w t g rest = Grows-trans m n w.db t.db _ g (rest a refl).kept
continue-Grows m n (err e) f w t g rest = Grows-mono m (m + n) w.db t.db (omega arith) g

continue-fueled :
    {A B : Type 0} (n : ℕ) (r : Result A) (f : A → Exec World B) (t : World)
    → r ≢ err Error.out_of_fuel
    → ((a : A) → r ≡ ok a → GrowsBy n (f a) t)
    → (continue r f t).0 ≢ err Error.out_of_fuel
continue-fueled n (ok a) f t ne rest h = (rest a refl).fueled h
continue-fueled n (err e) f t ne rest h = ne (err_inj h)

module _ {A B : Type 0} (m n : ℕ) {c : Exec World A} {f : A → Exec World B} {w : World} where
  -- The rule for a sequence.
  pub >>=-GrowsBy :
      GrowsBy m c w
      → ((a : A) → (c w).0 ≡ ok a → GrowsBy n (f a) (c w).1)
      → GrowsBy (m + n) (c >>= f) w
  >>=-GrowsBy g rest = record {
    kept = continue-Grows m n (c w).0 f w (c w).1 g.kept rest;
    fueled = continue-fueled n (c w).0 f (c w).1 g.fueled rest;
  }

pub in_transaction-GrowsBy :
    {A : Type 0} (n : ℕ) {c : Exec World A} {w : World}
    → GrowsBy n c w
    → GrowsBy n (in_transaction c) w
in_transaction-GrowsBy n {c} {w} g = record {
  kept = close-Grows n (c w).0 w (c w).1 g.kept;
  fueled = λ h. g.fueled (sym (close-result w.db (c w).0 (c w).1) ∙ h);
}

-- A call that leaves the database alone.
pub still-GrowsBy :
    {A : Type 0} {c : Exec World A} {w : World}
    → (c w).1.db ≡ w.db
    → (c w).0 ≢ err Error.out_of_fuel
    → GrowsBy 0 c w
still-GrowsBy {A} {c} {w} e ne = record {
  kept = subst (Grows 0 w.db) (sym e) (Grows-refl w.db);
  fueled = ne;
}

touch_last_run-GrowsBy : (h : Host) (id : ℕ) (w : World) → GrowsBy 0 (touch_last_run h id) w
unfolding touch_last_run get_task update_task
touch_last_run-GrowsBy h id w = elim (Option-cases (find_row (λ t. t.id) id w.db.tasks)) [
  | inl e ↦ record { kept = rw e (Grows-refl w.db); fueled = rw e (ok-fueled tt) }
  | inr (t, e) ↦ record {
    kept = rw e (update_task-Grows t.id _ w.db (λ _. refl) (λ _. refl));
    fueled = rw e (ok-fueled tt);
  }
]

usable_channels-ok :
    (channels : List String) (db : Db)
    → (cs : List (String × Value)) × (usable_channels channels db ≡ (ok cs, db))
unfolding usable_channels by_key
usable_channels-ok [] db = ([], refl)
usable_channels-ok (channel ∷ channels) db = more-ok _ (usable_channels-ok channels db)
  where
    more-ok :
        (f : List (String × Value) → List (String × Value))
        {r : Result (List (String × Value)) × Db}
        → (cs : List (String × Value)) × (r ≡ (ok cs, db))
        → (cs : List (String × Value)) × (continue r.0 (λ cs. pure (f cs)) r.1 ≡ (ok cs, db))
    more-ok f (cs, e) = (f cs, rw e refl)

deliver_all-GrowsBy :
    (h : Host) (has_driver : String → Bool) (t : Task) (x : TaskExecution) (s : ExecutionStatus)
    (w : World)
    → GrowsBy 0 (deliver_all h has_driver t x s) w
unfolding deliver_all
deliver_all-GrowsBy h has_driver t x s w =
    let (cs, e) = usable_channels-ok (channels_of t.notification_config) w.db in
    still-GrowsBy (rw e refl) (rw e (ok-fueled _))

module _ (h : Host) (has_driver : String → Bool) where
  deliver_if-GrowsBy :
      (t : Option Task) (x : Option TaskExecution) (s : ExecutionStatus) (w : World)
      → GrowsBy 0 (deliver_if h has_driver s t x) w
  unfolding deliver_if
  deliver_if-GrowsBy none x s w = still-GrowsBy refl (ok-fueled _)
  deliver_if-GrowsBy (some t) none s w = still-GrowsBy refl (ok-fueled _)
  deliver_if-GrowsBy (some t) (some x) s w =
      if-elim (λ (c : Exec World (List String)). GrowsBy 0 c w) (notifies h t.notification_config s)
        (λ _. deliver_all-GrowsBy h has_driver t x s w) (λ _. still-GrowsBy refl (ok-fueled _))

dispatch-GrowsBy :
    (h : Host) (has_driver : String → Bool) (task_id id : ℕ) (s : ExecutionStatus) (w : World)
    → GrowsBy 0 (dispatch h has_driver task_id id s) w
unfolding dispatch get_task get_execution
dispatch-GrowsBy h has_driver task_id id s w =
    let t = find_row (λ t. t.id) task_id w.db.tasks in
    let x = find_row (λ x. x.id) id w.db.executions in
    let closed = in_transaction-GrowsBy 0 (deliver_if-GrowsBy h has_driver t x s w) in
    record { kept = closed.kept; fueled = closed.fueled }

finish_run-GrowsBy :
    (h : Host) (has_driver : String → Bool) (task_id id : ℕ) (s : ExecutionStatus) (w : World)
    → GrowsBy 0 (finish_run h has_driver task_id id s) w
unfolding finish_run
finish_run-GrowsBy h has_driver task_id id s w =
    >>=-GrowsBy 0 0 (touch_last_run-GrowsBy h task_id w)
      (λ _ _. dispatch-GrowsBy h has_driver task_id id s _)

handle_event-GrowsBy :
    (h : Host) (has_driver : String → Bool) (type : EventType) (task_id id : ℕ) (w : World)
    → GrowsBy 0
        (handle_event h has_driver
          (record { type = type; execution_id = some id; task_id = some task_id }))
        w
unfolding handle_event handle_finished
handle_event-GrowsBy h has_driver EventType.started task_id id w = still-GrowsBy refl (ok-fueled _)
handle_event-GrowsBy h has_driver (EventType.finished s) task_id id w =
    if-elim (λ (c : Exec World (List String)). GrowsBy 0 c w) (is_terminal s)
      (λ _. finish_run-GrowsBy h has_driver task_id id s w) (λ _. still-GrowsBy refl (ok-fueled _))

handle_stream_event-db :
    (h : Host) (type : EventType) (task_id id : ℕ) (w : World)
    → (handle_stream_event h
        (record { type = type; execution_id = some id; task_id = some task_id })
        w).db
      ≡ w.db
unfolding handle_stream_event
handle_stream_event-db h EventType.started task_id id w = refl
handle_stream_event-db h (EventType.finished s) task_id id w =
    if-elim (λ (u : World). u.db ≡ w.db) (is_terminal s) (λ _. refl) (λ _. refl)

pub publish_event-GrowsBy :
    (r : TaskRunner) (type : EventType) (id task_id : ℕ) (w : World)
    → GrowsBy 0 (publish_event r type id task_id) w
unfolding emit
publish_event-GrowsBy r type id task_id w =
    let event : Event = record { type = type; execution_id = some id; task_id = some task_id } in
    let w₁ = record w { events = w.events ++ event ∷ [] } in
    let w₂ = handle_stream_event r.host event w₁ in
    let same : w₂.db ≡ w.db = handle_stream_event-db r.host type task_id id w₁ in
    let handled = handle_event-GrowsBy r.host r.has_driver type task_id id w₂ in
    record {
      kept =
          subst (λ d. Grows 0 d (handle_event r.host r.has_driver event w₂).1.db) same handled.kept;
      fueled = ok-fueled tt;
    }
