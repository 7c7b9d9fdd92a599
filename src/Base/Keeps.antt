-- ===== src/Base/Keeps.antt =====
-- Rules for what a method does to its object: `Keeps R` whatever it returns, `Gives T` when it
-- returns a value.
use mathlib.Core.Path.{◌≡◌, refl}
use zkmips_zkvm_impl_in_rust.Base.Results.{Outcome, ok, err, panic, Exec, lift, continue, ◌>>=◌}

pub record Keeps {ℓ} {E S A : Type ℓ} (R : S → S → Type ℓ) (m : Exec E S A) : Type ℓ where
  pub at : (s : S) → R s (m s).1

pub record Gives {ℓ} {E S A : Type ℓ} (T : S → S → Type ℓ) (m : Exec E S A) : Type ℓ where
  pub at : (s : S) (a : A) (t : S) → m s ≡ (ok a, t) → T s t

pub record IsPreorder {ℓ} {S : Type ℓ} (R : S → S → Type ℓ) : Type ℓ where
  pub refl : (s : S) → R s s
  pub trans : (s t u : S) → R s t → R t u → R s u

module _ {ℓ} {E S : Type ℓ} {R : S → S → Type ℓ} (o : IsPreorder R) where
  pub Keeps-lift : {A : Type ℓ} (r : Outcome E A) → Keeps R (lift r)
  Keeps-lift r = record { at = o.refl }

  Keeps-continue :
      {A B : Type ℓ} (r : Outcome E A) (f : A → Exec E S B) (s t : S)
      → R s t
      → ((a : A) → Keeps R (f a))
      → R s (continue r f t).1
  Keeps-continue (ok a) f s t h k = o.trans s t _ h ((k a).at t)
  Keeps-continue (err e) f s t h k = h
  Keeps-continue panic f s t h k = h

  pub Keeps-bind :
      {A B : Type ℓ} {m : Exec E S A} {f : A → Exec E S B}
      → Keeps R m
      → ((a : A) → Keeps R (f a))
      → Keeps R (m >>= f)
  Keeps-bind {m = m} {f = f} h k = record {
    at = λ s. Keeps-continue (m s).0 f s (m s).1 (h.at s) k;
  }

module _ {ℓ} {E S : Type ℓ} {R T : S → S → Type ℓ} where
  Gives-continue :
      {A B : Type ℓ} (comp : (s t u : S) → R s t → T t u → T s u) (r : Outcome E A)
      (f : A → Exec E S B) (s t : S) (b : B) (u : S)
      → R s t
      → ((a : A) → Gives T (f a))
      → continue r f t ≡ (ok b, u)
      → T s u
  Gives-continue comp (ok a) f s t b u h k e = comp s t u h ((k a).at t b u e)
  Gives-continue comp (err x) f s t b u h k e = cc
  Gives-continue comp panic f s t b u h k e = cc

  pub Gives-bind :
      {A B : Type ℓ} {m : Exec E S A} {f : A → Exec E S B}
      → ((s t u : S) → R s t → T t u → T s u)
      → Keeps R m
      → ((a : A) → Gives T (f a))
      → Gives T (m >>= f)
  Gives-bind {m = m} {f = f} comp h k = record {
    at = λ s b u e. Gives-continue comp (m s).0 f s (m s).1 b u (h.at s) k e;
  }

-- What a method returns when it returns a value.
pub record Returns {ℓ} {E S A : Type ℓ} (P : A → Type ℓ) (m : Exec E S A) : Type ℓ where
  pub at : (s : S) (a : A) (t : S) → m s ≡ (ok a, t) → P a

module _ {ℓ} {E S : Type ℓ} where
  continue-ok :
      {A B : Type ℓ} (r : Outcome E A) (f : A → Exec E S B) (s : S) (b : B) (u : S)
      → continue r f s ≡ (ok b, u)
      → (a : A) × (r ≡ ok a) × (f a s ≡ (ok b, u))
  continue-ok (ok a) f s b u h = (a, refl, h)
  continue-ok (err e) f s b u h = absurd cc
  continue-ok panic f s b u h = absurd cc

  -- A chain that returns a value went through a value of its first part.
  pub bind-ok :
      {A B : Type ℓ} (m : Exec E S A) (f : A → Exec E S B) (s : S) (b : B) (u : S)
      → (m >>= f) s ≡ (ok b, u)
      → (a : A) × (t : S) × (m s ≡ (ok a, t)) × (f a t ≡ (ok b, u))
  bind-ok m f s b u h = let (a, e, q) = continue-ok (m s).0 f (m s).1 b u h in (a, (m s).1, cc, q)

  pub Returns-bind :
      {A B : Type ℓ} {P : B → Type ℓ} (m : Exec E S A) {f : A → Exec E S B}
      → ((a : A) → Returns P (f a))
      → Returns P (m >>= f)
  Returns-bind m {f} k = record {
    at = λ s b u h. let (a, t, e, q) = bind-ok m f s b u h in (k a).at t b u q;
  }
