-- ===== src/Result.antt =====
-- A Go function's pair of a value and an error, of which one counts: the value where the error is
-- nil, else the error.
use thesis_dispute_engine.Prelude.{◌≡◌, refl}
use thesis_dispute_engine.Errs.{GoError}

pub data Result {ℓ} (A : Type ℓ) : Type ℓ where
  err : GoError → Result A
  ok : A → Result A

pub ok-injective {ℓ} : {A : Type ℓ} {a b : A} → ok a ≡ ok b → a ≡ b
ok-injective h = cc

-- `if err != nil { return err }` after a call, and the rest.
infixl 5 ◌>>=◌
abbrev pub ◌>>=◌ {ℓ κ} : {A : Type ℓ} {B : Type κ} → Result A → (A → Result B) → Result B
err failure >>= rest = err failure
ok value >>= rest = rest value

-- A function that returned a value got past each of its calls.
pub >>=-eq-ok {ℓ κ} :
    {A : Type ℓ} {B : Type κ} (call : Result A) (rest : A → Result B) {b : B}
    → (call >>= rest) ≡ ok b
    → (a : A) × (call ≡ ok a) × (rest a ≡ ok b)
>>=-eq-ok (err failure) rest returned = cc
>>=-eq-ok (ok value) rest returned = (value, refl, returned)

infixl 5 ◌>>◌
abbrev pub ◌>>◌ {ℓ κ} : {A : Type ℓ} {B : Type κ} → Result A → Result B → Result B
call >> rest = call >>= λ _. rest
