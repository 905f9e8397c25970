-- ===== src/Infrastructure/Database/Rows.antt =====
-- Reading and replacing rows of a table, for any row with a number for its key.
use qiankun.Prelude.{
  ℕ, ◌≡◌, refl, ◌≢◌, Option, none, some, List, [], ◌∷◌, arith, ◌==◌, if◌then◌else◌,
}

module _ {ℓ} {R : Type ℓ} (key : R → ℕ) where
  -- `select … where id = k`, `scalar_one_or_none`
  abbrev pub find_row : ℕ → List R → Option R
  find_row k [] = none
  find_row k (r ∷ rs) = let rest = find_row k rs in if key r == k then some r else rest

  -- `update … where id = k`
  abbrev pub change_row : ℕ → (R → R) → List R → List R
  change_row k f [] = []
  change_row k f (r ∷ rs) = (if key r == k then f r else r) ∷ change_row k f rs

  -- `delete … where id = k`
  abbrev pub delete_row : ℕ → List R → List R
  delete_row k [] = []
  delete_row k (r ∷ rs) = let rest = delete_row k rs in if key r == k then rest else r ∷ rest

  pub find_row-key : (k : ℕ) (r : R) (rs : List R) → find_row k rs ≡ some r → key r ≡ k
  find_row-key k r [] h = cc
  find_row-key k r (x ∷ rs) h = ground (arith, find_row-key k r rs)

  pub find_row-change_row_self :
      (k : ℕ) (f : R → R) (r : R) (rs : List R)
      → ((x : R) → key (f x) ≡ key x)
      → find_row k rs ≡ some r
      → find_row k (change_row k f rs) ≡ some (f r)
  find_row-change_row_self k f r [] same h = cc
  find_row-change_row_self k f r (x ∷ rs) same h =
      ground (arith, same x, find_row-change_row_self k f r rs same)

  pub find_row-change_row_ne :
      (j k : ℕ) (f : R → R) (rs : List R)
      → ((x : R) → key (f x) ≡ key x)
      → j ≢ k
      → find_row j (change_row k f rs) ≡ find_row j rs
  find_row-change_row_ne j k f [] same ne = refl
  find_row-change_row_ne j k f (x ∷ rs) same ne =
      ground (arith, same x, find_row-change_row_ne j k f rs same ne)

  pub find_row-change_row-none :
      (k : ℕ) (f : R → R) (rs : List R) → find_row k rs ≡ none → change_row k f rs ≡ rs
  find_row-change_row-none k f [] h = refl
  find_row-change_row-none k f (x ∷ rs) h = ground (arith, find_row-change_row-none k f rs)

  pub find_row-delete_row_self : (k : ℕ) (rs : List R) → find_row k (delete_row k rs) ≡ none
  find_row-delete_row_self k [] = refl
  find_row-delete_row_self k (x ∷ rs) = ground (arith, find_row-delete_row_self k rs)

  pub find_row-delete_row_ne :
      (j k : ℕ) (rs : List R) → j ≢ k → find_row j (delete_row k rs) ≡ find_row j rs
  find_row-delete_row_ne j k [] ne = refl
  find_row-delete_row_ne j k (x ∷ rs) ne = ground (arith, find_row-delete_row_ne j k rs ne)
