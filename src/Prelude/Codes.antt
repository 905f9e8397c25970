-- ===== src/Prelude/Codes.antt =====
-- Texts by their code points, for the parts of the program that look at single characters.
use Prim.Native.Char.{code}
use Prim.Native.String
use qiankun.Prelude.{
  ℕ, zero, suc, ◌-◌, ◌≡◌, refl, String, Bool, true, false, ◌&&◌, ◌||◌, List, [], ◌∷◌, leb, ◌==◌,
  ==-refl, arith, if◌then◌else◌,
}

-- The code points of a text.
abbrev pub codes : String → List ℕ
codes String.[] = []
codes (String.◌∷◌ c s) = code c ∷ codes s

abbrev pub same_codes : List ℕ → List ℕ → Bool
same_codes [] [] = true
same_codes [] (_ ∷ _) = false
same_codes (_ ∷ _) [] = false
same_codes (a ∷ s) (b ∷ t) = a == b && same_codes s t

pub same_codes_refl : (a : List ℕ) → same_codes a a ≡ true
same_codes_refl [] = refl
same_codes_refl (a ∷ s) = rw (==-refl a) (same_codes_refl s)

pub same_codes→eq : (a b : List ℕ) → same_codes a b ≡ true → a ≡ b
same_codes→eq [] [] e = refl
same_codes→eq [] (b ∷ t) e = cc
same_codes→eq (a ∷ s) [] e = cc
same_codes→eq (a ∷ s) (b ∷ t) e = ground (arith, same_codes→eq s t)

abbrev pub in_range : ℕ → ℕ → ℕ → Bool
in_range lo hi n = leb lo n && leb n hi

-- `str.isspace` of one character
abbrev pub is_space : ℕ → Bool
is_space n =
    in_range 9 13 n
    || in_range 28 32 n
    || n == 133
    || n == 160
    || n == 5760
    || in_range 8192 8202 n
    || in_range 8232 8233 n
    || n == 8239
    || n == 8287
    || n == 12288

abbrev pub is_blank : String → Bool
is_blank String.[] = true
is_blank (String.◌∷◌ _ _) = false

-- `str.lstrip`, `str.rstrip` and `str.strip`
abbrev pub strip_left : String → String
strip_left String.[] = String.[]
strip_left (String.◌∷◌ c s) =
    let rest = strip_left s in if is_space (code c) then rest else String.◌∷◌ c s

abbrev pub strip_right : String → String
strip_right String.[] = String.[]
strip_right (String.◌∷◌ c s) =
    let rest = strip_right s in
    if is_blank rest && is_space (code c) then String.[] else String.◌∷◌ c rest

abbrev pub strip : String → String
strip s = strip_left (strip_right s)

abbrev pub drop_chars : ℕ → String → String
drop_chars zero s = s
drop_chars (suc n) String.[] = String.[]
drop_chars (suc n) (String.◌∷◌ c s) = drop_chars n s

-- `s[-n:]`
abbrev pub last_chars : ℕ → String → String
last_chars n s = drop_chars (String.count s - n) s

-- The order of texts by their code points.
abbrev pub codes_le : List ℕ → List ℕ → Bool
codes_le [] _ = true
codes_le (_ ∷ _) [] = false
codes_le (a ∷ s) (b ∷ t) = let rest = codes_le s t in if a == b then rest else leb a b

-- `sorted`, by a test that says which of two comes first.
abbrev pub insert_by {ℓ} : {A : Type ℓ} → (A → A → Bool) → A → List A → List A
insert_by le a [] = a ∷ []
insert_by le a (b ∷ bs) = let rest = insert_by le a bs in if le a b then a ∷ b ∷ bs else b ∷ rest

abbrev pub sort_by {ℓ} : {A : Type ℓ} → (A → A → Bool) → List A → List A
sort_by le [] = []
sort_by le (a ∷ s) = insert_by le a (sort_by le s)
