-- ===== src/Prelude/Lists.antt =====
-- Lists over the native numbers, and the Boolean filters that the queries of the program use.
use qiankun.Prelude.{
  ℕ, zero, suc, ◌+◌, ◌≤◌, ◌≡◌, Bool, true, false, ◌&&◌, ◌||◌, Option, none, some, List, [], ◌∷◌,
  ◌++◌, arith, if◌then◌else◌, ◌==◌, Bool-cases, inl, inr,
}

module _ {ℓ} {A : Type ℓ} where
  abbrev pub length : List A → ℕ
  length [] = 0
  length (_ ∷ xs) = suc (length xs)

  abbrev pub take : ℕ → List A → List A
  take zero _ = []
  take (suc n) [] = []
  take (suc n) (x ∷ xs) = x ∷ take n xs

  abbrev pub drop : ℕ → List A → List A
  drop zero xs = xs
  drop (suc n) [] = []
  drop (suc n) (x ∷ xs) = drop n xs

  -- `[x for x in xs if p(x)]`
  abbrev pub keep_if : (A → Bool) → List A → List A
  keep_if p [] = []
  keep_if p (x ∷ xs) = let rest = keep_if p xs in if p x then x ∷ rest else rest

  abbrev pub all_of : (A → Bool) → List A → Bool
  all_of p [] = true
  all_of p (x ∷ xs) = p x && all_of p xs

  abbrev pub any_of : (A → Bool) → List A → Bool
  any_of p [] = false
  any_of p (x ∷ xs) = p x || any_of p xs

  abbrev pub find_first : (A → Bool) → List A → Option A
  find_first p [] = none
  find_first p (x ∷ xs) = let rest = find_first p xs in if p x then some x else rest

  -- Every element has the property; computes to a tuple.
  abbrev pub All {κ} : (A → Type κ) → List A → Type κ
  All P [] = Unit
  All P (x ∷ xs) = P x × All P xs

  pub length-append : (xs ys : List A) → length (xs ++ ys) ≡ length xs + length ys
  length-append [] ys = omega arith
  length-append (x ∷ xs) ys = omega (arith, length-append xs ys)

  pub length-take_le : (n : ℕ) (xs : List A) → length (take n xs) ≤ n
  length-take_le zero xs = omega arith
  length-take_le (suc n) [] = omega arith
  length-take_le (suc n) (x ∷ xs) = omega (arith, length-take_le n xs)

  pub length-keep_if_le : (p : A → Bool) (xs : List A) → length (keep_if p xs) ≤ length xs
  length-keep_if_le p [] = omega arith
  length-keep_if_le p (x ∷ xs) = ground (arith, length-keep_if_le p xs)

module _ {ℓ κ} {A : Type ℓ} (P : A → Type κ) where
  pub All-append : (xs ys : List A) → All P xs → All P ys → All P (xs ++ ys)
  All-append [] ys hx hy = hy
  All-append (x ∷ xs) ys hx hy = (hx.0, All-append xs ys hx.1 hy)

  pub All-take : (n : ℕ) (xs : List A) → All P xs → All P (take n xs)
  All-take zero xs h = tt
  All-take (suc n) [] h = tt
  All-take (suc n) (x ∷ xs) h = (h.0, All-take n xs h.1)

  pub All-keep_if :
      (p : A → Bool) → ((x : A) → p x ≡ true → P x) → (xs : List A) → All P (keep_if p xs)
  All-keep_if p sound [] = tt
  All-keep_if p sound (x ∷ xs) =
      let ih = All-keep_if p sound xs in
      elim (Bool-cases (p x)) [ inl e ↦ rw e (sound x e, ih) | inr e ↦ rw e ih ]

  -- What a filter keeps still has what every element had.
  pub All-keep_if-All : (p : A → Bool) (xs : List A) → All P xs → All P (keep_if p xs)
  All-keep_if-All p [] h = tt
  All-keep_if-All p (x ∷ xs) h =
      let ih = All-keep_if-All p xs h.1 in
      elim (Bool-cases (p x)) [ inl e ↦ rw e (h.0, ih) | inr e ↦ rw e ih ]

  pub All-of_each : ((x : A) → P x) → (xs : List A) → All P xs
  All-of_each h [] = tt
  All-of_each h (x ∷ xs) = (h x, All-of_each h xs)

module _ {ℓ κ μ} {A : Type ℓ} (P : A → Type κ) (Q : A → Type μ) where
  pub All-mono : ((x : A) → P x → Q x) → (xs : List A) → All P xs → All Q xs
  All-mono f [] h = tt
  All-mono f (x ∷ xs) h = (f x h.0, All-mono f xs h.1)

-- `x in xs`, for identifiers
abbrev pub contains : ℕ → List ℕ → Bool
contains a = any_of (λ b. a == b)
