-- ===== src/Application/Container/Steps.antt =====
-- Rules for the steps of a start in app/application/container.py: what a step leaves alone, and what a
-- list of steps leads to.
use qiankun.Prelude.{
  ℕ, suc, ◌≡◌, refl, sym, subst, ◌∙◌, Bool, true, false, Option, none, some, List, [], ◌∷◌,
  Bool-cases, inl, inr,
}
use qiankun.Prelude.Exec.{Error, Result, ok, err, Exec, raise_if, continue, ◌>>=◌, ◌>>◌}
use qiankun.Infrastructure.Database.{Db}
use qiankun.Application.Configuration.{SystemBaseSettings}
use qiankun.Application.Container.{
  Container, Startup, raise_fault, on_tables, ignore_exception, attempt, run_steps,
}
use qiankun.Scheduler.Registration.{TaskScheduler}
use qiankun.Scheduler.Loop.{is_cancelled}

-- What the end of a start is told by: the lock, the scheduler and its settings, and the loop.
pub record Frame : Type 0 where
  pub locked : Bool
  pub base : Option SystemBaseSettings
  pub scheduler : Option TaskScheduler
  pub looping : Bool

abbrev pub frame : Container → Frame
frame c = record { locked = c.locked; base = c.base; scheduler = c.scheduler; looping = c.looping }

-- A step that leaves all of it alone, however it ends.
pub record Quiet {A : Type 0} (m : Exec Container A) : Type 0 where
  pub quiet : (c : Container) → frame (m c).1 ≡ frame c

continue-frame :
    {A B : Type 0} (r : Result A) (f : A → Exec Container B) (c : Container)
    → ((a : A) → Quiet (f a))
    → frame (continue r f c).1 ≡ frame c
continue-frame (ok a) f c rest = (rest a).quiet c
continue-frame (err e) f c rest = refl

pub >>=-Quiet :
    {A B : Type 0} (m : Exec Container A) (f : A → Exec Container B)
    → Quiet m
    → ((a : A) → Quiet (f a))
    → Quiet (m >>= f)
>>=-Quiet m f h rest = record { quiet = λ c. continue-frame (m c).0 f (m c).1 rest ∙ h.quiet c }

pub on_tables-Quiet : {A : Type 0} (m : Exec Db A) → Quiet (on_tables m)
on_tables-Quiet m = record { quiet = λ c. refl }

pub raise_if-Quiet : (b : Bool) (e : Error) → Quiet (raise_if b e)
raise_if-Quiet true e = record { quiet = λ c. refl }
raise_if-Quiet false e = record { quiet = λ c. refl }

ignore_exception-Quiet : {A : Type 0} (r : Result A) → Quiet (ignore_exception r)
ignore_exception-Quiet (ok a) = record { quiet = λ c. refl }
ignore_exception-Quiet (err e) = elim (Bool-cases (is_cancelled e)) [
  | inl y ↦ record { quiet = λ c. rw y refl }
  | inr n ↦ record { quiet = λ c. rw n refl }
]

pub attempt-Quiet : {A : Type 0} (m : Exec Container A) → Quiet m → Quiet (attempt m)
attempt-Quiet m h = record {
  quiet = λ c. (ignore_exception-Quiet (m c).0).quiet (m c).1 ∙ h.quiet c;
}

abbrev pub IsIdle : Frame → Type 0
IsIdle f = f.looping ≡ false

abbrev pub Ends : (Frame → Type 0) → Result (Unit {0}) × Container → Type 0
Ends R (ok _, c) = R (frame c)
Ends R (err e, c) = IsIdle (frame c)

-- A step from `Q` to `R` that starts no loop where it raises.
pub record Goes (Q R : Frame → Type 0) (m : Exec Container Unit) : Type 0 where
  pub goes : (c : Container) → Q (frame c) → Ends R (m c)

continue-Ends :
    (P R : Frame → Type 0) (o : Result (Unit {0}) × Container) (f : Unit {0} → Exec Container Unit)
    → Ends P o
    → Goes P R (f tt)
    → Ends R (continue o.0 f o.1)
continue-Ends P R (ok tt, c) f p rest = rest.goes c p
continue-Ends P R (err e, c) f p rest = p

Quiet-Ends :
    (Q : Frame → Type 0) (o : Result (Unit {0}) × Container) (f : Frame)
    → frame o.1 ≡ f
    → ((g : Frame) → Q g → IsIdle g)
    → Q f
    → Ends Q o
Quiet-Ends Q (ok _, c) f e idle q = subst Q (sym e) q
Quiet-Ends Q (err _, c) f e idle q = idle (frame c) (subst Q (sym e) q)

pub Quiet-Goes :
    (Q : Frame → Type 0) (m : Exec Container Unit)
    → ((g : Frame) → Q g → IsIdle g)
    → Quiet m
    → Goes Q Q m
Quiet-Goes Q m idle h = record { goes = λ c q. Quiet-Ends Q (m c) (frame c) (h.quiet c) idle q }

pub >>-Goes :
    (Q P R : Frame → Type 0) (m k : Exec Container Unit)
    → Goes Q P m
    → Goes P R k
    → Goes Q R (m >> k)
>>-Goes Q P R m k h rest = record {
  goes = λ c q. continue-Ends P R (m c) (λ _. k) (h.goes c q) rest;
}

raise_fault-Quiet : (fault : Option Error) → Quiet (raise_fault {S = Container} fault)
raise_fault-Quiet none = record { quiet = λ c. refl }
raise_fault-Quiet (some e) = record { quiet = λ c. refl }

-- The same of steps that are taken in turn.
pub record Chain (s : Startup) (Q R : Frame → Type 0) (n : ℕ) (rest : List (Exec Container Unit))
    : Type 0 where
  pub chain : Goes Q R (run_steps s n rest)

module _ (s : Startup) (n : ℕ) (R : Frame → Type 0) where
  pub run_steps_nil-Chain : Chain s R R n []
  unfolding run_steps
  run_steps_nil-Chain = record { chain = record { goes = λ c q. q } }

  module _ (Q : Frame → Type 0) (step : Exec Container Unit)
      (rest : List (Exec Container Unit)) where
    pub run_steps_cons-Chain :
        (P : Frame → Type 0)
        → ((g : Frame) → Q g → IsIdle g)
        → Goes Q P step
        → Chain s P R (suc n) rest
        → Chain s Q R n (step ∷ rest)
    unfolding run_steps
    run_steps_cons-Chain P idle h k = record {
      chain =
          >>-Goes Q Q R _ _ (Quiet-Goes Q _ idle (raise_fault-Quiet (s.fault n)))
            (>>-Goes Q P R step _ h k.chain);
    }

    pub run_steps-Quiet-Chain :
        ((g : Frame) → Q g → IsIdle g)
        → Quiet step
        → Chain s Q R (suc n) rest
        → Chain s Q R n (step ∷ rest)
    run_steps-Quiet-Chain idle h k = run_steps_cons-Chain Q idle (Quiet-Goes Q step idle h) k
