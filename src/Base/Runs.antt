-- ===== src/Base/Runs.antt =====
-- A call that returns, or panics and ends the process.
use path_external_auth_serve.Base.Text.{GoString}

pub data Run {ℓ} (A : Type ℓ) : Type ℓ where
  returns : A → Run A
  panics : GoString → Run A

infixl 5 ◌>>=◌
abbrev pub ◌>>=◌ {ℓ κ} : {A : Type ℓ} {B : Type κ} → Run A → (A → Run B) → Run B
returns a >>= f = f a
panics message >>= f = panics message
