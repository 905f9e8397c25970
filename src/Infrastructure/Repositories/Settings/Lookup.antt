-- ===== src/Infrastructure/Repositories/Settings/Lookup.antt =====
-- Reading a row of system_settings after a write, for repositories/system_setting.py.
use text.Mathlib.TextPositions.{eq_refl}
use qiankun.Prelude.{
  ◌≡◌, refl, subst, ap, String, true, false, none, some, List, [], ◌∷◌, ◌++◌, str_eq, eq_iff, arith,
  Bool-cases, inl, inr,
}
use qiankun.Infrastructure.Database.{SystemSetting}
use qiankun.Infrastructure.Repositories.Settings.{has_key, find_setting, change_setting}

pub has_key_self :
    (scope key : String) (r : SystemSetting)
    → r.scope ≡ scope
    → r.key ≡ key
    → has_key scope key r ≡ true
has_key_self scope key r s k = rw (s, k) (rw (eq_refl scope, eq_refl key) refl)

-- A row with one key does not have another.
pub has_key_ne :
    (scope key key' : String) (r : SystemSetting)
    → str_eq key key' ≡ false
    → has_key scope key r ≡ true
    → has_key scope key' r ≡ false
has_key_ne scope key key' r ne h =
    ground (arith, eq_iff r.key key, eq_iff r.key key', eq_iff key key')

find_setting-key :
    (scope key : String) (r : SystemSetting) (rs : List SystemSetting)
    → find_setting scope key rs ≡ some r
    → has_key scope key r ≡ true
find_setting-key scope key r [] h = cc
find_setting-key scope key r (x ∷ rs) h = elim (Bool-cases (has_key scope key x)) [
  | inl e ↦
      let same : x ≡ r = cc (let h' : some x ≡ some r = rw e at h in h') in
      subst (λ x. has_key scope key x ≡ true) same e
  | inr e ↦ find_setting-key scope key r rs (rw e at h)
]

-- `f` leaves the key of a row alone.
abbrev pub KeepsKey : (SystemSetting → SystemSetting) → Type 0
KeepsKey f = (r : SystemSetting) → ((f r).scope ≡ r.scope) × ((f r).key ≡ r.key)

has_key-f :
    (scope key : String) (f : SystemSetting → SystemSetting) (r : SystemSetting)
    → KeepsKey f
    → has_key scope key (f r) ≡ has_key scope key r
has_key-f scope key f r keeps = rw ((keeps r).0, (keeps r).1) refl

pub find_setting-change_setting_self :
    (scope key : String) (f : SystemSetting → SystemSetting) (r : SystemSetting)
    (rs : List SystemSetting)
    → KeepsKey f
    → find_setting scope key rs ≡ some r
    → find_setting scope key (change_setting scope key f rs) ≡ some (f r)
find_setting-change_setting_self scope key f r [] keeps h = cc
find_setting-change_setting_self scope key f r (x ∷ rs) keeps h =
    elim (Bool-cases (has_key scope key x)) [
      | inl e ↦
          let same : x ≡ r = cc (let h' : some x ≡ some r = rw e at h in h') in
          rw (e, has_key-f scope key f x keeps, e) (ap (λ x. some (f x)) same)
      | inr e ↦ rw (e, e) (find_setting-change_setting_self scope key f r rs keeps (rw e at h))
    ]

pub find_setting-change_setting_ne :
    (scope key key' : String) (f : SystemSetting → SystemSetting) (rs : List SystemSetting)
    → KeepsKey f
    → str_eq key key' ≡ false
    → find_setting scope key (change_setting scope key' f rs) ≡ find_setting scope key rs
find_setting-change_setting_ne scope key key' f [] keeps ne = refl
find_setting-change_setting_ne scope key key' f (x ∷ rs) keeps ne =
    let ih = find_setting-change_setting_ne scope key key' f rs keeps ne in
    elim (Bool-cases (has_key scope key x)) [
      | inl e ↦ rw (has_key_ne scope key key' x ne e) (rw e refl)
      | inr e ↦ elim (Bool-cases (has_key scope key' x)) [
        | inl e' ↦ rw (e', has_key-f scope key f x keeps, e) ih
        | inr e' ↦ rw (e', e) ih
      ]
    ]

pub find_setting-append_self :
    (scope key : String) (r : SystemSetting) (rs : List SystemSetting)
    → has_key scope key r ≡ true
    → find_setting scope key rs ≡ none
    → find_setting scope key (rs ++ r ∷ []) ≡ some r
find_setting-append_self scope key r [] e h = rw e refl
find_setting-append_self scope key r (x ∷ rs) e h = elim (Bool-cases (has_key scope key x)) [
  | inl hit ↦ cc (let h' : some x ≡ none = rw hit at h in h')
  | inr miss ↦ rw miss (find_setting-append_self scope key r rs e (rw miss at h))
]

pub find_setting-append_ne :
    (scope key : String) (r : SystemSetting) (rs : List SystemSetting)
    → has_key scope key r ≡ false
    → find_setting scope key (rs ++ r ∷ []) ≡ find_setting scope key rs
find_setting-append_ne scope key r [] e = rw e refl
find_setting-append_ne scope key r (x ∷ rs) e = elim (Bool-cases (has_key scope key x)) [
  | inl hit ↦ rw hit refl
  | inr miss ↦ rw miss (find_setting-append_ne scope key r rs e)
]
