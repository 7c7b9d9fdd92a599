-- ===== src/Base/Results.antt =====
-- What a Rust call comes to: a value, an error, or a panic; and methods that change an object.

pub data Outcome {ℓ} (E A : Type ℓ) : Type ℓ where
  ok : A → Outcome E A
  err : E → Outcome E A
  panic : Outcome E A

-- A call that waits for a lock which its own thread holds for writing never comes back.
pub data Attempt {ℓ} (A : Type ℓ) : Type ℓ where
  done : A → Attempt A
  blocked : Attempt A

-- A method of an object `S`. What was written before an error or a panic stays written.
abbrev pub Exec {ℓ} : Type ℓ → Type ℓ → Type ℓ → Type ℓ
Exec E S A = S → Outcome E A × S

module _ {ℓ} {E S : Type ℓ} where
  abbrev pub pure : {A : Type ℓ} → A → Exec E S A
  pure a s = (ok a, s)

  abbrev pub fail : {A : Type ℓ} → E → Exec E S A
  fail e s = (err e, s)

  abbrev pub lift : {A : Type ℓ} → Outcome E A → Exec E S A
  lift r s = (r, s)

  abbrev pub continue : {A B : Type ℓ} → Outcome E A → (A → Exec E S B) → Exec E S B
  continue (ok a) f s = f a s
  continue (err e) f s = (err e, s)
  continue panic f s = (panic, s)

  infixl 5 ◌>>=◌ ◌>>◌
  abbrev pub ◌>>=◌ : {A B : Type ℓ} → Exec E S A → (A → Exec E S B) → Exec E S B
  ◌>>=◌ m f s = continue (m s).0 f (m s).1

  abbrev pub ◌>>◌ : {A B : Type ℓ} → Exec E S A → Exec E S B → Exec E S B
  m >> n = m >>= λ _. n
