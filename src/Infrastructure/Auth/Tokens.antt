-- ===== src/Infrastructure/Auth/Tokens.antt =====
-- Tokens of jwt.py from their making to their reading.
use qiankun.Prelude.{
  ℕ, ◌+◌, ◌*◌, ◌/◌, ◌≤◌, ◌≡◌, refl, arith, ltb, String, Bool, true, false, ◌&&◌, str_eq,
  if◌then◌else◌, Bool-cases, inl, inr, ltb→lt,
}
use qiankun.Prelude.Exec.{Error, ok, err}
use qiankun.Infrastructure.Auth.{
  JwtSettings, TokenLibrary, TokenLaws, second, lifetime, token_type, claims_of, create, decode,
  required_claims, check_claims,
}

-- The end of a token, in microseconds.
abbrev pub expiry : JwtSettings → Bool → ℕ → ℕ
expiry s refresh issued = (issued + lifetime s refresh) / second * second

floor_le : (n m : ℕ) → n ≤ m → n / second * second ≤ m
floor_le n m h = omega arith

ltb-false→le : (a b : ℕ) → ltb a b ≡ false → b ≤ a
ltb-false→le a b h = ground arith

check_claims-claims_of :
    (j : TokenLibrary) (s : JwtSettings) (refresh expected : Bool) (username : String) (issued : ℕ)
    → str_eq username "" ≡ false
    → check_claims expected (claims_of j s refresh username issued) ≡ (
        if str_eq (token_type refresh) (token_type expected)
        then ok (claims_of j s refresh username issued)
        else err Error.auth)
check_claims-claims_of j s true true username issued e = rw e refl
check_claims-claims_of j s true false username issued e = refl
check_claims-claims_of j s false true username issued e = refl
check_claims-claims_of j s false false username issued e = rw e refl

-- A token for a user with a name, read at a time that is not before it was made: before its end, and
-- where the type wanted is its own, it gives its claims; otherwise it is refused.
pub decode-create :
    (j : TokenLibrary) (s : JwtSettings) (refresh expected : Bool) (username : String)
    (issued now : ℕ)
    → TokenLaws j (claims_of j s refresh username issued) s.secret s.algorithm
    → str_eq username "" ≡ false
    → issued ≤ now
    → decode j s now (create j s refresh username issued) expected ≡ (
        if ltb now (expiry s refresh issued) && str_eq (token_type refresh) (token_type expected)
        then ok (claims_of j s refresh username issued)
        else err Error.auth)
unfolding decode create
decode-create j s refresh expected username issued now laws e late =
    let claims = claims_of j s refresh username issued in
    let exp = (issued + lifetime s refresh) / second in
    let started = floor_le issued now late in
    elim (Bool-cases (ltb now (expiry s refresh issued))) [
      | inl alive ↦
          rw
            (
              laws.decodes (j.principal_id username) required_claims now _ _ exp refl refl refl refl
                  (refl, (refl, (refl, (refl, (refl, tt))))) started started
                  (ltb→lt now (expiry s refresh issued) alive),
              alive,
            )
            (check_claims-claims_of j s refresh expected username issued e)
      | inr dead ↦
          rw
            (
              laws.expires required_claims now exp refl
                  (ltb-false→le now (expiry s refresh issued) dead),
              dead,
            )
            refl
    ]
