-- ===== src/Application/Executions/Pages.antt =====
-- The pages of `list` of app/application/services/execution.py, one after the other.
use mathlib.Core.List.{reverse, reverse_aux}
use native.Mathlib.Nat.{mod-add-div', mod-lt}
use qiankun.Prelude.{
  ℕ, zero, suc, ◌+◌, ◌-◌, ◌*◌, ◌/◌, ◌%◌, ◌≤◌, ◌<◌, ◌≡◌, refl, ap, sym, ◌∙◌, arith, Bool-cases, inl,
  inr, Option, List, [], ◌∷◌, ◌++◌, ◌==◌, ==→eq, ◌⊎◌, true, false,
}
use qiankun.Prelude.Lists.{take, drop, length, keep_if}
use qiankun.Prelude.Exec.{Result, ok, err}
use qiankun.Runtime.Enums.{ExecutionStatus}
use qiankun.Infrastructure.Database.{TaskExecution, Db}
use qiankun.Infrastructure.Repositories.{list_rows}
use qiankun.Application.Executions.{Page, total_pages, paginate, is_listed, list_executions}

module _ {ℓ} {A : Type ℓ} where
  take-nil : (n : ℕ) → take {A = A} n [] ≡ []
  take-nil zero = refl
  take-nil (suc n) = refl

  drop-nil : (n : ℕ) → drop {A = A} n [] ≡ []
  drop-nil zero = refl
  drop-nil (suc n) = refl

  take_all : (n : ℕ) (xs : List A) → length xs ≤ n → take n xs ≡ xs
  take_all zero [] h = refl
  take_all zero (x ∷ xs) h = ground (arith, h)
  take_all (suc n) [] h = refl
  take_all (suc n) (x ∷ xs) h = ap (λ ys. x ∷ ys) (take_all n xs (omega (arith, h)))

  drop-drop : (a b : ℕ) (xs : List A) → drop a (drop b xs) ≡ drop (b + a) xs
  drop-drop a zero xs = ap (λ n. drop n xs) (omega arith)
  drop-drop a (suc b) [] = drop-nil a ∙ sym (drop-nil (suc b + a))
  drop-drop a (suc b) (x ∷ xs) =
      drop-drop a b xs
      ∙ ap (λ n. drop n (x ∷ xs)) (let e : suc (b + a) ≡ suc b + a = omega arith in e)

  -- What two cuts give together.
  take-append : (a b : ℕ) (xs : List A) → take a xs ++ take b (drop a xs) ≡ take (a + b) xs
  take-append zero b xs = ap (λ n. take n xs) (omega arith)
  take-append (suc a) b [] = take-nil b ∙ sym (take-nil (suc a + b))
  take-append (suc a) b (x ∷ xs) =
      ap (λ ys. x ∷ ys) (take-append a b xs)
      ∙ ap (λ n. take n (x ∷ xs)) (let e : suc (a + b) ≡ suc a + b = omega arith in e)

  length-reverse_aux : (xs ys : List A) → length (reverse_aux xs ys) ≡ length xs + length ys
  length-reverse_aux [] ys = omega arith
  length-reverse_aux (x ∷ xs) ys = omega (arith, length-reverse_aux xs (x ∷ ys))

  length-reverse : (xs : List A) → length (reverse xs) ≡ length xs
  length-reverse xs = omega (arith, length-reverse_aux xs [])

-- Enough pages for all items.
total_pages_enough : (size total : ℕ) → 1 ≤ size → total ≤ (total + size - 1) / size * size
total_pages_enough size total h =
    let n = total + size - 1 in
    let small : n % size < size = mod-lt n (omega (arith, h)) in
    omega (arith, h, small, mod-add-div' n size)

module _ (size : ℕ) (task_id : Option ℕ) (status : Option ExecutionStatus) (trigger_type : Option ℕ)
    (db : Db) where
  -- All rows that meet the conditions, newest first
  abbrev pub listed : List TaskExecution
  unfolding is_listed
  listed = reverse (keep_if (is_listed task_id status trigger_type) db.executions)

  abbrev pub items_of : Result (Page TaskExecution) → List TaskExecution
  items_of (ok page) = page.items
  items_of (err e) = []

  -- The items of so many pages after some.
  abbrev pub read_pages : ℕ → ℕ → List TaskExecution
  read_pages done zero = []
  read_pages done (suc n) =
      items_of (list_executions (suc done) size task_id status trigger_type db).0
      ++ read_pages (suc done) n

  page-items :
      (done : ℕ)
      → items_of (list_executions (suc done) size task_id status trigger_type db).0
        ≡ take size (drop (done * size) listed)
  unfolding list_executions
  page-items done = ap (λ n. take size (drop (n * size) listed)) (omega arith)

  read_pages-eq : (n done : ℕ) → read_pages done n ≡ take (n * size) (drop (done * size) listed)
  read_pages-eq zero done =
      ap (λ k. take k (drop (done * size) listed)) (let e : 0 ≡ 0 * size = omega arith in e)
  read_pages-eq (suc n) done =
      let here = drop (done * size) listed in
      ap (λ x. x ++ read_pages (suc done) n) (page-items done)
      ∙ (ap (λ x. take size here ++ x) (read_pages-eq n (suc done))
          ∙ (ap (λ x. take size here ++ take (n * size) x)
                (ap (λ k. drop k listed)
                    (let e : suc done * size ≡ done * size + size = omega arith in e)
                  ∙ sym (drop-drop size (done * size) listed))
              ∙ (take-append size (n * size) here
                  ∙ ap (λ k. take k here)
                      (let e : size + n * size ≡ suc n * size = omega arith in e))))

  read_total_pages :
      (page : Page TaskExecution)
      → 1 ≤ size
      → page.total ≡ length listed
      → page.page_size ≡ size
      → read_pages 0 (total_pages page) ≡ listed
  read_total_pages page h total same =
      read_pages-eq (total_pages page) 0
      ∙ (ap (λ k. take (total_pages page * size) (drop k listed))
            (let e : 0 * size ≡ 0 = omega arith in e)
          ∙ take_all (total_pages page * size) listed (enough (Bool-cases (page.total == 0))))
    where
      enough :
          ((page.total == 0) ≡ true) ⊎ ((page.total == 0) ≡ false)
          → length listed ≤ total_pages page * size
      enough (inl e) =
          let none : page.total ≡ 0 = ==→eq page.total 0 e in omega (arith, none, total)
      enough (inr e) = rw (e, same) (omega (arith, total, total_pages_enough size page.total h))

-- For a page size of one or more, whatever the filters: the pages from the first one to the number of
-- pages that the first one names give, one after the other, exactly the rows that meet the filters,
-- the newest first.
pub read_pages-listed :
    (size : ℕ) (task_id : Option ℕ) (status : Option ExecutionStatus) (trigger_type : Option ℕ)
    (db : Db)
    → 1 ≤ size
    → (page : Page TaskExecution) × ((list_executions 1 size task_id status trigger_type db).0
        ≡ ok page)
      × (read_pages size task_id status trigger_type db 0 (total_pages page)
          ≡ listed size task_id status trigger_type db)
unfolding list_executions
read_pages-listed size task_id status trigger_type db h =
    let found =
      list_rows ((1 - 1) * size) size (is_listed task_id status trigger_type) db.executions in
    let page : Page TaskExecution = paginate found.0 found.1 1 size in
    (
      page,
      refl,
      read_total_pages size task_id status trigger_type db page h (sym (length-reverse _)) refl,
    )
