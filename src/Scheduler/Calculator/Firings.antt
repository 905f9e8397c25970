-- ===== src/Scheduler/Calculator/Firings.antt =====
-- The result of calculator.py against the sequence of the points at which a cron expression fires.
use qiankun.Prelude.{
  ℕ, zero, suc, ◌+◌, ◌≤◌, ◌<◌, ◌≡◌, ◌≢◌, ◌⊎◌, subst, refl, inl, inr, String, true, Option, none,
  some, arith, leb, leb→le, leb-false→lt, Bool-cases, Option-cases,
}
use qiankun.Prelude.Exec.{Error, ok, err}
use qiankun.Scheduler.Calculator.{Cron, IsAdvancing, skip_missed, calculate_next_run_time}

-- The k-th time after `base` at which the expression fires.
abbrev pub firing : Cron → String → ℕ → ℕ → Option ℕ
firing cron e base zero = cron.get_next e base
firing cron e base (suc k) = elim (firing cron e base k) [
  | none ↦ none
  | some t ↦ cron.get_next e t
]

-- `n` is a firing after `base`, later than `minimum`, and every earlier firing is not.
pub record IsFirstAfter (cron : Cron) (e : String) (base minimum n : ℕ) : Type 0 where
  pub index : ℕ
  pub fires : firing cron e base index ≡ some n
  pub later : minimum < n
  pub missed : (j p : ℕ) → j < index → firing cron e base j ≡ some p → p ≤ minimum

below_suc : (j i : ℕ) → j < suc i → (j ≡ i) ⊎ (j < i)
below_suc j i h = grind arith

module _ (cron : Cron) (e : String) (base minimum : ℕ) where
  -- Where the loop stands: every firing before the current one has been missed.
  record Skipped (n : ℕ) : Type 0 where
    index : ℕ
    fires : firing cron e base index ≡ some n
    missed : (j p : ℕ) → j < index → firing cron e base j ≡ some p → p ≤ minimum

  Skipped-step : (n m : ℕ) → Skipped n → n ≤ minimum → cron.get_next e n ≡ some m → Skipped m
  Skipped-step n m s le next = record {
    index = suc s.index;
    fires = rw s.fires next;
    missed = λ j p lt f. elim (below_suc j s.index lt) [
      | inl same ↦
          let now : firing cron e base s.index ≡ some p =
            subst (λ i. firing cron e base i ≡ some p) same f in
          let eq : n ≡ p = cc (s.fires) in subst (λ t. t ≤ minimum) eq le
      | inr before ↦ s.missed j p before f
    ];
  }

  Skipped-start : (n : ℕ) → cron.get_next e base ≡ some n → Skipped n
  Skipped-start n h = record { index = 0; fires = h; missed = λ j p lt f. absurd (omega arith) }

  Skipped-end : (n : ℕ) → Skipped n → minimum < n → IsFirstAfter cron e base minimum n
  Skipped-end n s later = record {
    index = s.index;
    fires = s.fires;
    later = later;
    missed = s.missed;
  }

  skip_missed-IsFirstAfter :
      (fuel next n : ℕ)
      → Skipped next
      → skip_missed cron e fuel minimum next ≡ ok n
      → IsFirstAfter cron e base minimum n
  unfolding skip_missed
  skip_missed-IsFirstAfter zero next n s h = cc
  skip_missed-IsFirstAfter (suc fuel) next n s h = elim (Bool-cases (leb next minimum)) [
    | inl missed ↦ elim (Option-cases (cron.get_next e next)) [
      | inl nothing ↦ cc (let h' : err Error.unexpected ≡ ok n = rw (missed, nothing) at h in h')
      | inr (later, found) ↦
          skip_missed-IsFirstAfter fuel later n
            (Skipped-step next later s (leb→le next minimum missed) found) (rw (missed, found) at h)
    ]
    | inr reached ↦
        let here : ok next ≡ ok n = rw reached at h in
        let eq : next ≡ n = cc here in
        subst (IsFirstAfter cron e base minimum) eq
          (Skipped-end next s (leb-false→lt next minimum reached))
  ]

-- With the iterator advancing, fuel above `minimum + 1 - next` is enough.
skip_missed-ne-out_of_fuel :
    (cron : Cron) (e : String) (minimum fuel next : ℕ)
    → IsAdvancing cron
    → minimum + 1 < fuel + next
    → 0 < fuel
    → skip_missed cron e fuel minimum next ≢ err Error.out_of_fuel
unfolding skip_missed
skip_missed-ne-out_of_fuel cron e minimum zero next adv enough some_left h = elim some_left [ ]
skip_missed-ne-out_of_fuel cron e minimum (suc fuel) next adv enough some_left h =
    elim (Bool-cases (leb next minimum)) [
      | inl missed ↦ elim (Option-cases (cron.get_next e next)) [
        | inl nothing ↦ cc (
            let h' : err Error.unexpected ≡ err Error.out_of_fuel = rw (missed, nothing) at h in h')
        | inr (later, found) ↦
            let up : next < later = adv.advances e next later found in
            let le : next ≤ minimum = leb→le next minimum missed in
            skip_missed-ne-out_of_fuel cron e minimum fuel later adv (omega arith) (omega arith)
              (rw (missed, found) at h)
      ]
      | inr reached ↦ cc (let h' : ok next ≡ err Error.out_of_fuel = rw reached at h in h')
    ]

-- Whatever the expression, the base and the minimum: a result of `calculate_next_run_time` is a
-- firing after the base that is later than the minimum, and every firing before it is not.
pub calculate_next_run_time-IsFirstAfter :
    (cron : Cron) (e : String) (base minimum n : ℕ)
    → calculate_next_run_time cron e base (some minimum) ≡ ok n
    → IsFirstAfter cron e base minimum n
unfolding calculate_next_run_time
calculate_next_run_time-IsFirstAfter cron e base minimum n h = elim (Bool-cases (cron.parses e)) [
  | inl parsed ↦ elim (Option-cases (cron.get_next e base)) [
    | inl nothing ↦ cc (let h' : err Error.unexpected ≡ ok n = rw (parsed, nothing) at h in h')
    | inr (first, found) ↦
        skip_missed-IsFirstAfter cron e base minimum (suc (suc minimum)) first n
          (Skipped-start cron e base minimum first found) (rw (parsed, found) at h)
  ]
  | inr refused ↦ cc (let h' : err Error.unexpected ≡ ok n = rw refused at h in h')
]

skip_missed-cases :
    (cron : Cron) (e : String) (minimum fuel next : ℕ)
    → ((t : ℕ) → cron.get_next e t ≢ none)
    → (skip_missed cron e fuel minimum next ≡ err Error.out_of_fuel)
      ⊎ ((n : ℕ) × (skip_missed cron e fuel minimum next ≡ ok n))
unfolding skip_missed
skip_missed-cases cron e minimum zero next fires = inl refl
skip_missed-cases cron e minimum (suc fuel) next fires = elim (Bool-cases (leb next minimum)) [
  | inl missed ↦ elim (Option-cases (cron.get_next e next)) [
    | inl nothing ↦ absurd (fires next nothing)
    | inr (later, found) ↦ rw (missed, found) (skip_missed-cases cron e minimum fuel later fires)
  ]
  | inr reached ↦ rw reached (inr (next, refl))
]

-- The loop over missed points ends: for an expression that croniter accepts and that fires after
-- every time, there is a result, whatever the base and the minimum.
pub calculate_next_run_time_total :
    (cron : Cron) (e : String) (base minimum : ℕ)
    → IsAdvancing cron
    → cron.parses e ≡ true
    → ((t : ℕ) → cron.get_next e t ≢ none)
    → (n : ℕ) × (calculate_next_run_time cron e base (some minimum) ≡ ok n)
unfolding calculate_next_run_time
calculate_next_run_time_total cron e base minimum adv parsed fires =
    elim (Option-cases (cron.get_next e base)) [
      | inl nothing ↦ absurd (fires base nothing)
      | inr (first, found) ↦
          rw (parsed, found)
            (elim (skip_missed-cases cron e minimum (suc (suc minimum)) first fires) [
              | inl stuck ↦ absurd (
                  skip_missed-ne-out_of_fuel cron e minimum (suc (suc minimum)) first adv
                    (omega arith) (omega arith) stuck)
              | inr result ↦ result
            ])
    ]
