-- ===== src/State/Rules.antt =====
-- Rules for the methods of the state manager: that a predicate of the manager survives them, and what
-- a chain that answers went through.
use zkmips_zkvm_impl_in_rust.Base.{
  ◌≡◌, refl, subst, Outcome, ok, err, panic, Attempt, done, blocked,
}
use zkmips_zkvm_impl_in_rust.Base.Method.{Method, next, ◌>>=◌, lift}

module _ {E M : Type 0} (P : M → Type 0) where
  -- The state of an answer, if there is one, has the predicate.
  abbrev pub Safe : {A : Type 0} → Attempt (Outcome E A × M) → Type 0
  Safe blocked = Unit
  Safe (done (r, m)) = P m

  pub record Stays {A : Type 0} (f : Method E M A) : Type 0 where
    pub at : (m : M) → P m → Safe (f m)

  next-Safe :
      {A B : Type 0} (r : Attempt (Outcome E A × M)) (g : A → Method E M B)
      → Safe r
      → ((a : A) → Stays (g a))
      → Safe (next r g)
  next-Safe blocked g h k = tt
  next-Safe (done (ok a, m)) g h k = (k a).at m h
  next-Safe (done (err e, m)) g h k = h
  next-Safe (done (panic, m)) g h k = h

  pub Stays-bind :
      {A B : Type 0} {f : Method E M A} {g : A → Method E M B}
      → Stays f
      → ((a : A) → Stays (g a))
      → Stays (f >>= g)
  Stays-bind {f = f} {g = g} h k = record { at = λ m p. next-Safe (f m) g (h.at m p) k }

  pub Stays-lift : {A : Type 0} (r : Outcome E A) → Stays (lift r)
  Stays-lift r = record { at = λ m p. p }

  pub Safe-done :
      {A : Type 0} (x : Attempt (Outcome E A × M)) (r : Outcome E A) (m : M)
      → x ≡ done (r, m)
      → Safe x
      → P m
  Safe-done x r m e h = subst Safe e h

module _ {E M : Type 0} where
  next-ok :
      {A B : Type 0} (r : Attempt (Outcome E A × M)) (g : A → Method E M B) (b : B) (u : M)
      → next r g ≡ done (ok b, u)
      → (a : A) × (m : M) × (r ≡ done (ok a, m)) × (g a m ≡ done (ok b, u))
  next-ok blocked g b u h = absurd cc
  next-ok (done (ok a, m)) g b u h = (a, m, refl, h)
  next-ok (done (err e, m)) g b u h = absurd cc
  next-ok (done (panic, m)) g b u h = absurd cc

  pub method-ok :
      {A B : Type 0} (f : Method E M A) (g : A → Method E M B) (m : M) (b : B) (u : M)
      → (f >>= g) m ≡ done (ok b, u)
      → (a : A) × (n : M) × (f m ≡ done (ok a, n)) × (g a n ≡ done (ok b, u))
  method-ok f g m b u h = next-ok (f m) g b u h
