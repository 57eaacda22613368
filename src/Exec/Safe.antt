-- ===== src/Exec/Safe.antt =====
-- Actions before and after: what holds before, what holds of the value and the state if the action
-- returns, and what holds of the state if it throws.
use hotello_backend.Common.{◌≡◌, refl, Bool, true, false, Option, none, some, if◌then◌else◌}
use hotello_backend.Exec.{
  ErrorCode, Outcome, ok, err, pure, throw, from_option, gets, guard, when, modify, continue, ◌>>=◌,
  ◌>>◌,
}
use hotello_backend.Exec.Keeps.{Keeps, Holds}

abbrev pub Leaves : {S A : Type 0} → (S → Type 0) → (A → S → Type 0) → Outcome S A → Type 0
Leaves E Q (ok a w) = Q a w
Leaves E Q (err e w) = E w

pub record Safe {S A : Type 0} (P E : S → Type 0) (Q : A → S → Type 0) (m : S → Outcome S A)
    : Type 0 where
  pub at : (w : S) → P w → Leaves E Q (m w)

module _ {S A : Type 0} {P E : S → Type 0} {Q : A → S → Type 0} where
  pub Safe-pure : (a : A) → ((w : S) → P w → Q a w) → Safe P E Q (pure a)
  unfolding pure
  Safe-pure a q = record { at = q }

  pub Safe-throw : (e : ErrorCode) → ((w : S) → P w → E w) → Safe P E Q (throw e)
  unfolding throw
  Safe-throw e q = record { at = q }

  pub Safe-from_option :
      (e : ErrorCode) (o : Option A)
      → ((w : S) → P w → E w)
      → ((a : A) → o ≡ some a → (w : S) → P w → Q a w)
      → Safe P E Q (from_option e o)
  unfolding from_option
  Safe-from_option e none x q = record { at = x }
  Safe-from_option e (some a) x q = record { at = q a refl }

  pub Safe-gets : (f : S → A) → ((w : S) → P w → Q (f w) w) → Safe P E Q (gets f)
  unfolding gets
  Safe-gets f q = record { at = q }

  pub Safe-if :
      (b : Bool) (m n : S → Outcome S A)
      → (b ≡ true → Safe P E Q m)
      → (b ≡ false → Safe P E Q n)
      → Safe P E Q (if b then m else n)
  Safe-if true m n km kn = km refl
  Safe-if false m n km kn = kn refl

  pub Safe-pre :
      {P' : S → Type 0} (m : S → Outcome S A)
      → ((w : S) → P' w → P w)
      → Safe P E Q m
      → Safe P' E Q m
  Safe-pre m f k = record { at = λ w h. k.at w (f w h) }

  pub Safe-err :
      {E' : S → Type 0} (m : S → Outcome S A)
      → ((w : S) → E w → E' w)
      → Safe P E Q m
      → Safe P E' Q m
  Safe-err {E'} m f k = record { at = λ w h. go (m w) (k.at w h) }
    where
      go : (o : Outcome S A) → Leaves E Q o → Leaves E' Q o
      go (ok a w) h = h
      go (err e w) h = f w h

module _ {S : Type 0} {P E : S → Type 0} where
  pub Safe-guard :
      (b : Bool) (e : ErrorCode)
      → ((w : S) → P w → E w)
      → Safe P E (λ _ w. (b ≡ true) × P w) (guard b e)
  unfolding guard
  Safe-guard true e x = record { at = λ w h. (refl, h) }
  Safe-guard false e x = record { at = x }

  pub Safe-when :
      {Q : S → Type 0} (b : Bool) (m : S → Outcome S (Unit {0}))
      → Safe P E (λ _. Q) m
      → ((w : S) → P w → Q w)
      → Safe P E (λ _. Q) (when b m)
  unfolding when
  Safe-when true m k skip = record { at = k.at }
  Safe-when false m k skip = record { at = skip }

  pub Safe-modify :
      {Q : S → Type 0} (f : S → S) → ((w : S) → P w → Q (f w)) → Safe P E (λ _. Q) (modify f)
  unfolding modify
  Safe-modify f q = record { at = q }

module _ {S A B : Type 0} {P E : S → Type 0} {Q : A → S → Type 0} {R : B → S → Type 0} where
  pub Safe-bind :
      (m : S → Outcome S A) (f : A → S → Outcome S B)
      → Safe P E Q m
      → ((a : A) → Safe (Q a) E R (f a))
      → Safe P E R (m >>= f)
  unfolding ◌>>=◌
  Safe-bind m f km kf = record { at = λ w h. go (m w) (km.at w h) }
    where
      go : (o : Outcome S A) → Leaves E Q o → Leaves E R (continue o f)
      go (ok a w) q = (kf a).at w q
      go (err e w) h = h

module _ {S B : Type 0} {P E Q : S → Type 0} {R : B → S → Type 0} where
  pub Safe-then :
      (m : S → Outcome S (Unit {0})) (k : S → Outcome S B)
      → Safe P E (λ _. Q) m
      → Safe Q E R k
      → Safe P E R (m >> k)
  Safe-then m k km kk = Safe-bind m (λ _. k) km (λ _. kk)

module _ {S A B : Type 0} {I E : S → Type 0} {P : A → Type 0} {R : B → S → Type 0} where
  -- an action that keeps an invariant, before what needs the invariant
  pub Keeps-before :
      (m : S → Outcome S A) (f : A → S → Outcome S B)
      → ((w : S) → I w → E w)
      → Keeps I P m
      → ((a : A) → P a → Safe I E R (f a))
      → Safe I E R (m >>= f)
  unfolding ◌>>=◌
  Keeps-before m f x km kf = record { at = λ w h. go (m w) (km.at w h) }
    where
      go : (o : Outcome S A) → Holds I P o → Leaves E R (continue o f)
      go (ok a w) (h, p) = (kf a p).at w h
      go (err e w) h = x w h

module _ {S A : Type 0} {I : S → Type 0} where
  -- an invariant that is kept is a specification
  pub Keeps-Safe : (m : S → Outcome S A) → Keeps I (λ _. Unit {0}) m → Safe I I (λ _. I) m
  Keeps-Safe m k = record { at = λ w h. go (m w) (k.at w h) }
    where
      go : (o : Outcome S A) → Holds I (λ _. Unit) o → Leaves I (λ _. I) o
      go (ok a w) h = h.0
      go (err e w) h = h

  -- and a specification with one condition throughout is an invariant
  pub Safe-Holds :
      (m : S → Outcome S A) {P : S → Type 0}
      → Safe P I (λ _. I) m
      → (w : S) → P w
      → Holds I (λ _. Unit {0}) (m w)
  Safe-Holds m k w p = go (m w) (k.at w p)
    where
      go : (o : Outcome S A) → Leaves I (λ _. I) o → Holds I (λ _. Unit) o
      go (ok a w) h = (h, tt)
      go (err e w) h = h
