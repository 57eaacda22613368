-- ===== src/Exec/Total.antt =====
-- Actions that do not throw: what holds before, and what holds of the value and the state after.
use mathlib.Core.Path.{subst}
use hotello_backend.Common.{◌≡◌, refl, Bool, true, false, Option, none, some, if◌then◌else◌}
use hotello_backend.Exec.{
  ErrorCode, Outcome, ok, err, pure, from_option, gets, guard, when, modify, continue, final, ◌>>=◌,
  ◌>>◌,
}

-- The action returned, and `Q` holds of its value and of the state that it leaves.
abbrev pub Returns : {S A : Type 0} → (A → S → Type 0) → Outcome S A → Type 0
Returns Q (ok a w) = Q a w
Returns Q (err e w) = ⊥

-- From a state that satisfies `P`, `m` returns and establishes `Q`.
pub record Total {S A : Type 0} (P : S → Type 0) (Q : A → S → Type 0) (m : S → Outcome S A)
    : Type 0 where
  pub at : (w : S) → P w → Returns Q (m w)

module _ {S A : Type 0} {P : S → Type 0} {Q : A → S → Type 0} where
  pub Total-pure : (a : A) → ((w : S) → P w → Q a w) → Total P Q (pure a)
  unfolding pure
  Total-pure a q = record { at = q }

  pub Total-gets : (f : S → A) → ((w : S) → P w → Q (f w) w) → Total P Q (gets f)
  unfolding gets
  Total-gets f q = record { at = q }

  pub Total-from_option :
      (e : ErrorCode) (o : Option A)
      → ((w : S) → P w → (a : A) × (o ≡ some a) × Q a w)
      → Total P Q (from_option e o)
  unfolding from_option
  Total-from_option e none q = record { at = λ w h. let (a, p, _) = q w h in cc }
  Total-from_option e (some b) q = record {
    at = λ w h. let (a, p, r) = q w h in let same : a ≡ b = cc in subst (λ x. Q x w) same r;
  }

  pub Total-pre :
      {P' : S → Type 0} (m : S → Outcome S A) → ((w : S) → P' w → P w) → Total P Q m → Total P' Q m
  Total-pre m f k = record { at = λ w h. k.at w (f w h) }

  -- what does not depend on the state stays true
  pub Total-given :
      (R : Type 0) (m : S → Outcome S A) → Total P Q m → Total (λ w. R × P w) (λ a w. R × Q a w) m
  Total-given R m k = record { at = λ w h. go (m w) h.0 (k.at w h.1) }
    where
      go : (o : Outcome S A) → R → Returns Q o → Returns (λ a w. R × Q a w) o
      go (ok a w) r q = (r, q)
      go (err e w) r h = h

  pub Total-if :
      (b : Bool) (m n : S → Outcome S A)
      → (b ≡ true → Total P Q m)
      → (b ≡ false → Total P Q n)
      → Total P Q (if b then m else n)
  Total-if true m n km kn = km refl
  Total-if false m n km kn = kn refl

module _ {S : Type 0} {P Q : S → Type 0} where
  pub Total-modify : (f : S → S) → ((w : S) → P w → Q (f w)) → Total P (λ _. Q) (modify f)
  unfolding modify
  Total-modify f q = record { at = q }

  pub Total-guard :
      (b : Bool) (e : ErrorCode) → b ≡ true → ((w : S) → P w → Q w) → Total P (λ _. Q) (guard b e)
  unfolding guard
  Total-guard true e p q = record { at = q }
  Total-guard false e p q = cc

  pub Total-when :
      (b : Bool) (m : S → Outcome S (Unit {0}))
      → Total P (λ _. Q) m
      → ((w : S) → P w → Q w)
      → Total P (λ _. Q) (when b m)
  unfolding when
  Total-when true m k skip = record { at = k.at }
  Total-when false m k skip = record { at = skip }

module _ {S A B : Type 0} {P : S → Type 0} {Q : A → S → Type 0} {R : B → S → Type 0} where
  pub Total-bind :
      (m : S → Outcome S A) (f : A → S → Outcome S B)
      → Total P Q m
      → ((a : A) → Total (Q a) R (f a))
      → Total P R (m >>= f)
  unfolding ◌>>=◌
  Total-bind m f km kf = record { at = λ w h. go (m w) (km.at w h) }
    where
      go : (o : Outcome S A) → Returns Q o → Returns R (continue o f)
      go (ok a w) q = (kf a).at w q
      go (err e w) h = absurd h

module _ {S A B : Type 0} {P Q : S → Type 0} {R : B → S → Type 0} where
  -- an action whose value is known
  pub Total-bind_value :
      (a : A) (m : S → Outcome S A) (f : A → S → Outcome S B)
      → Total P (λ b w. (a ≡ b) × Q w) m
      → Total Q R (f a)
      → Total P R (m >>= f)
  Total-bind_value a m f km kf =
      Total-bind m f km λ b. record { at = λ w h. (subst (λ x. Total Q R (f x)) h.0 kf).at w h.1 }

module _ {S B : Type 0} {P Q : S → Type 0} {R : B → S → Type 0} where
  pub Total-then :
      (m : S → Outcome S (Unit {0})) (k : S → Outcome S B)
      → Total P (λ _. Q) m
      → Total Q R k
      → Total P R (m >> k)
  Total-then m k km kk = Total-bind m (λ _. k) km (λ _. kk)

-- an action that returns has a value and a state
pub Returns-ok :
    {S A : Type 0} (Q : A → S → Type 0) (o : Outcome S A)
    → Returns Q o
    → (a : A) × (w : S) × (o ≡ ok a w) × Q a w
Returns-ok Q (ok a w) q = (a, w, refl, q)
Returns-ok Q (err e w) q = absurd q

Returns-final : {S A : Type 0} (Q : S → Type 0) (o : Outcome S A) → Returns (λ _. Q) o → Q (final o)
Returns-final Q (ok a w) q = q
Returns-final Q (err e w) q = absurd q

pub Total-final :
    {S A : Type 0} {P Q : S → Type 0} {m : S → Outcome S A}
    → Total P (λ _. Q) m
    → (w : S) → P w
    → Q (final (m w))
Total-final {Q} {m} k w p = Returns-final Q (m w) (k.at w p)
