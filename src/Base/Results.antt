-- ===== src/Base/Results.antt =====
-- Go's `(A, error)` results; an error is known by its message.
use mathlib.Core.Path.{◌≡◌, refl}
use mathlib.Core.List.{◌++◌}
use path_external_auth_serve.Base.Text.{GoString}

pub data Result {ℓ} (A : Type ℓ) : Type ℓ where
  err : (message : GoString) → Result A
  ok : A → Result A

infixl 5 ◌>>=◌
abbrev pub ◌>>=◌ {κ ℓ} : {B : Type κ} {A : Type ℓ} → Result A → (A → Result B) → Result B
err message >>= next = err message
ok value >>= next = next value

-- `if err != nil { return fmt.Errorf("<before>%w", err) }`
abbrev pub wrap {ℓ} : {A : Type ℓ} → GoString → Result A → Result A
wrap before (ok a) = ok a
wrap before (err message) = err (before ++ message)

pub >>=-eq-ok {κ ℓ} :
    {B : Type κ} {A : Type ℓ} (first : Result A) (next : A → Result B) {answer : B}
    → (first >>= next) ≡ ok answer
    → (value : A) × (first ≡ ok value) × (next value ≡ ok answer)
>>=-eq-ok (err message) next h = cc
>>=-eq-ok (ok value) next h = (value, refl, h)

pub wrap-eq-ok {ℓ} :
    {A : Type ℓ} (before : GoString) (m : Result A) {a : A} → wrap before m ≡ ok a → m ≡ ok a
wrap-eq-ok before (ok b) h = h
wrap-eq-ok before (err message) h = cc
