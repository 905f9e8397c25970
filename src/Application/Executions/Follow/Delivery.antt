-- ===== src/Application/Executions/Follow/Delivery.antt =====
-- What a client of the log endpoint of execution.py is sent from its queue.
use Prim.Native.Nat.{max}
use mathlib.Core.List.{append_assoc, append-nil}
use qiankun.Prelude.{
  ℕ, zero, suc, ◌<◌, ◌≡◌, refl, sym, ap, ◌∙◌, arith, Bool, true, false, ◌||◌, some, List, [], ◌∷◌,
  ◌++◌, map, ltb, Bool-cases, inl, inr, ==-refl, if◌then◌else◌,
}
use qiankun.Prelude.Lists.{All, keep_if, any_of, length}
use qiankun.Runtime.LogStream.{EventName, LogStreamEvent, ExecutionLogStream, terminal, pop}
use qiankun.Runtime.LogStream.Invariant.{IsIncreasing}
use qiankun.Application.Executions.Follow.{
  Chunk, Phase, Reader, Wake, is_new, is_final, is_failed, send, after_replay, take_frame,
  resume_at, resume, resumes, ping_at, wake, wake_all,
}

-- The frames up to the first that ends the stream.
abbrev pub until_final : List LogStreamEvent → List LogStreamEvent
until_final [] = []
until_final (e ∷ q) = let rest = until_final q in if is_final e.event then e ∷ [] else e ∷ rest

-- The generator is past its loops.
abbrev pub is_over : Phase → Bool
is_over Phase.closing = true
is_over Phase.ended = true
is_over _ = false

-- The client gets the frames of a queue, and the generator returns if one of them is final.
abbrev pub Drains : List LogStreamEvent → Reader → Reader → Type 0
Drains q r r' =
    let new = keep_if (is_new r.last_id) q in
    (r'.sent ≡ r.sent ++ map Chunk.frame (until_final new))
    × (is_over r'.phase ≡ any_of (λ e. is_final e.event) new)

over_step :
    (p : Phase) (r : Reader) (s : ExecutionLogStream)
    → is_over p ≡ true
    → is_over r.phase ≡ true
    → ((resume_at p r s).0.sent ≡ r.sent) × (is_over (resume_at p r s).0.phase ≡ true)
unfolding resume_at
over_step (Phase.replaying rest) r s h k = cc
over_step Phase.following r s h k = cc
over_step Phase.closing r s h k = (refl, refl)
over_step Phase.ended r s h k = (refl, k)

-- Past its loops, the generator sends nothing more.
resumes-over :
    (n : ℕ) (r : Reader) (s : ExecutionLogStream)
    → is_over r.phase ≡ true
    → ((resumes n r s).0.sent ≡ r.sent) × (is_over (resumes n r s).0.phase ≡ true)
unfolding resumes
resumes-over zero r s h = (refl, h)
resumes-over (suc n) r s h =
    let (same, over) = over_step r.phase r s h h in
    let (r', s') = resume r s in let ih = resumes-over n r' s' over in (ih.0 ∙ same, ih.1)

is_new_later :
    (n : EventName) (last id later : ℕ)
    → last < id
    → id < later
    → (ltb (max last id) later || is_failed n) ≡ (ltb last later || is_failed n)
is_new_later n last id later lt lt' = ground arith

-- In a queue in order, a frame that was sent hides none of the later ones.
keep_new :
    (last : ℕ) (e : LogStreamEvent) (q : List LogStreamEvent)
    → last < e.id
    → All (λ x. e.id < x.id) q
    → keep_if (is_new (max last e.id)) q ≡ keep_if (is_new last) q
keep_new last e [] lt h = refl
keep_new last e (x ∷ q) lt h =
    let ih = keep_new last e q lt h.1 in
    let same = is_new_later x.event last e.id x.id lt h.0 in
    elim (Bool-cases (is_new last x)) [
      | inl new ↦ rw (same, new) (ap (λ rest. x ∷ rest) ih)
      | inr old ↦ rw (same, old) ih
    ]

is_new-not_final :
    (n : EventName) (last id : ℕ)
    → (ltb last id || is_failed n) ≡ true
    → is_final n ≡ false
    → last < id
is_new-not_final EventName.log last id h e = ground arith
is_new-not_final EventName.completed last id h e = cc
is_new-not_final EventName.failed last id h e = cc

resumes-zero : (r : Reader) (s : ExecutionLogStream) → (resumes zero r s).0 ≡ r
unfolding resumes
resumes-zero r s = refl

resumes-suc :
    (n : ℕ) (r : Reader) (s : ExecutionLogStream) (x : Reader × ExecutionLogStream)
    → resume r s ≡ x
    → (resumes (suc n) r s).0 ≡ (resumes n x.0 x.1).0
unfolding resumes
resumes-suc n r s x h = ap (λ y. (resumes n y.0 y.1).0) h

resume-following :
    (r : Reader) (s : ExecutionLogStream) (q : List LogStreamEvent)
    → r.phase ≡ Phase.following
    → s.queues r.queue ≡ q
    → resume r s ≡ take_frame q r s
unfolding resume
resume-following r s q p h = ap (λ p. resume_at p r s) p ∙ ap (λ q. take_frame q r s) h

popped :
    (q : ℕ) (rest : List LogStreamEvent) (s : ExecutionLogStream) → (pop q rest s).queues q ≡ rest
popped q rest s = rw (==-refl q) refl

drains :
    (q : List LogStreamEvent) (r : Reader) (s : ExecutionLogStream)
    → r.phase ≡ Phase.following
    → s.queues r.queue ≡ q
    → IsIncreasing q
    → Drains q r (resumes (length q) r s).0
unfolding take_frame
drains [] r s p h o = (
  ap (λ x. x.sent) (resumes-zero r s) ∙ sym (append-nil r.sent),
  ap (λ x. is_over x.phase) (resumes-zero r s) ∙ ap is_over p,
)
drains (e ∷ q) r s p h o =
    let s' = pop r.queue q s in
    elim (Bool-cases (is_new r.last_id e)) [
      | inr old ↦
          let step =
            resumes-suc (length q) r s (r, s') (resume-following r s (e ∷ q) p h ∙ rw old refl) in
          let ih = drains q r s' p (popped r.queue q s) o.1 in rw (step, old) ih
      | inl new ↦ elim (Bool-cases (is_final e.event)) [
        | inl final ↦
            let r' = send e Phase.closing r in
            let step =
              resumes-suc (length q) r s (r', s')
                (resume-following r s (e ∷ q) p h ∙ rw (new, final) refl) in
            let done = resumes-over (length q) r' s' refl in rw (step, new, final) done
        | inr more ↦
            let r' = send e Phase.following r in
            let step =
              resumes-suc (length q) r s (r', s')
                (resume-following r s (e ∷ q) p h ∙ rw (new, more) refl) in
            let ih = drains q r' s' refl (popped r.queue q s) o.1 in
            let kept =
              keep_new r.last_id e q (is_new-not_final e.event r.last_id e.id new more) o.0 in
            let (frames, over) = rw kept at ih in
            rw (step, new, more) (frames ∙ append_assoc r.sent (Chunk.frame e ∷ []) _, over)
      ]
    ]

-- Following a queue whose frames are in order: as many steps as it has frames, with nothing in between,
-- send the client exactly those frames that are newer than the last one sent or are failures, up to
-- the first final one; and the generator returns exactly if a final one is among them.
pub resumes-Drains :
    (r : Reader) (s : ExecutionLogStream)
    → r.phase ≡ Phase.following
    → IsIncreasing (s.queues r.queue)
    → Drains (s.queues r.queue) r (resumes (length (s.queues r.queue)) r s).0
resumes-Drains r s p o = drains (s.queues r.queue) r s p refl o

wake-over :
    (w : Wake) (r : Reader)
    → is_over r.phase ≡ true
    → ((wake w r).sent ≡ r.sent) × (is_over (wake w r).phase ≡ true)
unfolding resume
wake-over (Wake.stepped s) r h = over_step r.phase r s h h
wake-over Wake.timed_out r h = no_ping r.phase r h h
  where
    no_ping :
        (p : Phase) (r : Reader)
        → is_over p ≡ true
        → is_over r.phase ≡ true
        → ((ping_at p r).sent ≡ r.sent) × (is_over (ping_at p r).phase ≡ true)
    no_ping (Phase.replaying rest) r h k = cc
    no_ping Phase.following r h k = cc
    no_ping Phase.closing r h k = (refl, k)
    no_ping Phase.ended r h k = (refl, k)

wake_all-over :
    (ws : List Wake) (r : Reader) → is_over r.phase ≡ true → (wake_all ws r).sent ≡ r.sent
unfolding wake_all
wake_all-over [] r h = refl
wake_all-over (w ∷ ws) r h =
    let step = wake-over w r h in wake_all-over ws (wake w r) step.1 ∙ step.0

-- A reader that has sent the whole of its snapshot when the execution has ended: the terminal frame is the
-- last that it ever sends, whatever lines were published since the snapshot and wait in its queue,
-- and whatever happens later.
pub wake_all_ignores_queue :
    (r : Reader) (s : ExecutionLogStream) (t : LogStreamEvent) (ws : List Wake)
    → r.phase ≡ Phase.replaying []
    → (terminal r.execution_id s).0 ≡ some t
    → (wake_all (Wake.stepped s ∷ ws) r).sent ≡ r.sent ++ Chunk.frame t ∷ []
unfolding wake_all resume resume_at
wake_all_ignores_queue r s t ws p h =
    let step : (resume r s).0 ≡ after_replay (some t) r =
      ap (λ p. (resume_at p r s).0) p ∙ ap (λ o. after_replay o r) h in
    ap (λ x. (wake_all ws x).sent) step ∙ wake_all-over ws (after_replay (some t) r) refl
