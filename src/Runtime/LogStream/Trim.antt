-- ===== src/Runtime/LogStream/Trim.antt =====
-- The eviction of `_trim` in runtime/execution/log_stream.py.
use qiankun.Prelude.{
  ℕ, ◌+◌, ◌-◌, ◌≤◌, ◌<◌, ◌≡◌, ◌⊎◌, inl, inr, false, none, some, List, [], ◌∷◌, ◌++◌, arith, leb,
  if◌then◌else◌, if-elim, leb→le, leb-false→lt,
}
use qiankun.Prelude.Lists.{length, All}
use qiankun.Runtime.LogStream.{ExecutionLogs, is_empty, lookup_logs, trim_from, trim}

abbrev pub Entry : Type 0
Entry = ℕ × ExecutionLogs

-- Every entry but the last has a subscriber.
abbrev pub AllButLastWatched : List Entry → Type 0
AllButLastWatched [] = Unit
AllButLastWatched (x ∷ []) = Unit
AllButLastWatched (x ∷ y ∷ d) = (is_empty (x.1).subscribers ≡ false) × AllButLastWatched (y ∷ d)

watched_cons :
    (x : Entry) (d : List Entry)
    → is_empty (x.1).subscribers ≡ false
    → AllButLastWatched d
    → AllButLastWatched (x ∷ d)
watched_cons x [] w h = tt
watched_cons x (y ∷ d) w h = (w, h)

lookup-snoc :
    (k : ℕ) (d : List Entry) (l : ExecutionLogs)
    → lookup_logs k d ≡ none
    → lookup_logs k (d ++ (k, l) ∷ []) ≡ some l
lookup-snoc k [] l h = ground arith
lookup-snoc k (x ∷ d) l h = ground (arith, lookup-snoc k d l)

-- What the loop leaves of `d`, with `size` entries in all when it starts.
abbrev Trimmed : ℕ → ℕ → List Entry → List Entry → Type 0
Trimmed max size d r = (size + length r ≤ max + length d) ⊎ AllButLastWatched r

Trimmed-evict :
    (max size : ℕ) (x : Entry) (d r : List Entry)
    → max < size
    → Trimmed max (size - 1) d r
    → Trimmed max size (x ∷ d) r
Trimmed-evict max size x d r over (inl fits) = inl (omega arith)
Trimmed-evict max size x d r over (inr watched) = inr watched

Trimmed-keep :
    (max size : ℕ) (x : Entry) (d r : List Entry)
    → is_empty (x.1).subscribers ≡ false
    → Trimmed max size d r
    → Trimmed max size (x ∷ d) (x ∷ r)
Trimmed-keep max size x d r w (inl fits) = inl (omega arith)
Trimmed-keep max size x d r w (inr watched) = inr (watched_cons x r w watched)

trim_from-Trimmed : (max size : ℕ) (d : List Entry) → Trimmed max size d (trim_from max size d)
unfolding trim_from
trim_from-Trimmed max size [] = inr tt
trim_from-Trimmed max size (x ∷ []) = inr tt
trim_from-Trimmed max size (x ∷ y ∷ d) =
    if-elim (Trimmed max size (x ∷ y ∷ d)) (leb size max)
      (λ fits. inl (omega (arith, leb→le size max fits)))
      λ over.
        if-elim (Trimmed max size (x ∷ y ∷ d)) (is_empty (x.1).subscribers)
          (λ idle. rw idle (
            Trimmed-evict max size x (y ∷ d) _ (leb-false→lt size max over)
              (trim_from-Trimmed max (size - 1) (y ∷ d))))
          (λ watched.
            rw watched
              (Trimmed-keep max size x (y ∷ d) _ watched (trim_from-Trimmed max size (y ∷ d))))

-- After `_trim` the stream holds at most `max_executions` executions, unless every one but the
-- last has a subscriber.
pub trim_caps :
    (max : ℕ) (d : List Entry) → (length (trim max d) ≤ max) ⊎ AllButLastWatched (trim max d)
unfolding trim
trim_caps max d = elim (trim_from-Trimmed max (length d) d) [
  | inl fits ↦ inl (omega arith)
  | inr watched ↦ inr watched
]

-- A key of a watched entry is found after the loop as before it.
trim_from-lookup :
    (max size k : ℕ) (d : List Entry) (l : ExecutionLogs)
    → is_empty l.subscribers ≡ false
    → lookup_logs k d ≡ some l
    → lookup_logs k (trim_from max size d) ≡ some l
unfolding trim_from
trim_from-lookup max size k [] l w h = cc
trim_from-lookup max size k (x ∷ []) l w h = h
trim_from-lookup max size k (x ∷ y ∷ d) l w h = ground (
  arith,
  trim_from-lookup max (if is_empty (x.1).subscribers then size - 1 else size) k (y ∷ d) l w,
)

-- `_trim` never evicts an execution that someone is subscribed to.
trim_keeps_watched :
    (max k : ℕ) (d : List Entry) (l : ExecutionLogs)
    → is_empty l.subscribers ≡ false
    → lookup_logs k d ≡ some l
    → lookup_logs k (trim max d) ≡ some l
unfolding trim
trim_keeps_watched max k d l w h = trim_from-lookup max (length d) k d l w h

-- The entry that stands last is never evicted.
trim_from-lookup_last :
    (max size k : ℕ) (d : List Entry) (l : ExecutionLogs)
    → lookup_logs k d ≡ none
    → lookup_logs k (trim_from max size (d ++ (k, l) ∷ [])) ≡ some l
unfolding trim_from
trim_from-lookup_last max size k [] l h = ground arith
trim_from-lookup_last max size k (x ∷ []) l h = ground arith
trim_from-lookup_last max size k (x ∷ y ∷ d) l h = ground (
  arith,
  trim_from-lookup_last max (if is_empty (x.1).subscribers then size - 1 else size) k (y ∷ d) l,
  lookup-snoc k (y ∷ d) l,
)

pub trim-lookup_last :
    (max k : ℕ) (d : List Entry) (l : ExecutionLogs)
    → lookup_logs k d ≡ none
    → lookup_logs k (trim max (d ++ (k, l) ∷ [])) ≡ some l
unfolding trim
trim-lookup_last max k d l h = trim_from-lookup_last max (length (d ++ (k, l) ∷ [])) k d l h

-- What holds of every entry holds of those that are left.
trim_from-All :
    (P : Entry → Type 0) (max size : ℕ) (d : List Entry) → All P d → All P (trim_from max size d)
unfolding trim_from
trim_from-All P max size [] h = tt
trim_from-All P max size (x ∷ []) h = h
trim_from-All P max size (x ∷ y ∷ d) h =
    let size' = if is_empty (x.1).subscribers then size - 1 else size in
    let ih = trim_from-All P max size' (y ∷ d) h.1 in
    if-elim (All P) (leb size max) (λ _. h)
      (λ _. if-elim (All P) (is_empty (x.1).subscribers) (λ _. ih) (λ _. (h.0, ih)))

pub trim-All : (P : Entry → Type 0) (max : ℕ) (d : List Entry) → All P d → All P (trim max d)
unfolding trim
trim-All P max d h = trim_from-All P max (length d) d h
