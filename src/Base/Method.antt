-- ===== src/Base/Method.antt =====
-- Methods that may wait for a lock: a state gives an outcome and the next state,
-- or never an answer.
use zkmips_zkvm_impl_in_rust.Base.{Outcome, ok, err, panic, Exec, Attempt, done, blocked}

abbrev pub Method : Type 0 → Type 0 → Type 0 → Type 0
Method E M A = M → Attempt (Outcome E A × M)

module _ {E M : Type 0} where
  abbrev pub pure : {A : Type 0} → A → Method E M A
  pure a m = done (ok a, m)

  abbrev pub lift : {A : Type 0} → Outcome E A → Method E M A
  lift r m = done (r, m)

  -- A part that takes no lock.
  abbrev pub free : {A : Type 0} → Exec E M A → Method E M A
  free f m = done (f m)

  abbrev pub forever : {A : Type 0} → Method E M A
  forever m = blocked

  abbrev pub next :
      {A B : Type 0} → Attempt (Outcome E A × M) → (A → Method E M B) → Attempt (Outcome E B × M)
  next blocked f = blocked
  next (done (ok a, m)) f = f a m
  next (done (err e, m)) f = done (err e, m)
  next (done (panic, m)) f = done (panic, m)

  infixl 5 ◌>>=◌
  abbrev pub ◌>>=◌ : {A B : Type 0} → Method E M A → (A → Method E M B) → Method E M B
  ◌>>=◌ f g m = next (f m) g
