-- ===== src/Exec/Keeps.antt =====
-- Invariants of actions: one rule for each way to build an action.
use hotello_backend.Common.{◌≡◌, refl, Bool, true, false, Option, none, some, if◌then◌else◌}
use hotello_backend.Exec.{
  ErrorCode, Outcome, ok, err, pure, throw, from_option, gets, guard, when, modify, continue, final,
  ◌>>=◌, ◌>>◌,
}

-- The state satisfies `I`, and a returned value satisfies `Q`.
abbrev pub Holds : {S A : Type 0} → (S → Type 0) → (A → Type 0) → Outcome S A → Type 0
Holds I Q (ok a w) = I w × Q a
Holds I Q (err e w) = I w

-- `m` keeps `I`, whether it returns or throws, and returns only values that satisfy `Q`.
pub record Keeps {S A : Type 0} (I : S → Type 0) (Q : A → Type 0) (m : S → Outcome S A)
    : Type 0 where
  pub at : (w : S) → I w → Holds I Q (m w)

abbrev pub Any : {A : Type 0} → A → Type 0
Any _ = Unit

module _ {S A : Type 0} {I : S → Type 0} {Q : A → Type 0} where
  pub Keeps-pure : (a : A) → Q a → Keeps I Q (pure a)
  unfolding pure
  Keeps-pure a q = record { at = λ w h. (h, q) }

  pub Keeps-throw : (e : ErrorCode) → Keeps I Q (throw e)
  unfolding throw
  Keeps-throw e = record { at = λ w h. h }

  pub Keeps-from_option :
      (e : ErrorCode) (o : Option A) → ((a : A) → o ≡ some a → Q a) → Keeps I Q (from_option e o)
  unfolding from_option
  Keeps-from_option e none q = record { at = λ w h. h }
  Keeps-from_option e (some a) q = record { at = λ w h. (h, q a refl) }

  pub Keeps-gets : (f : S → A) → ((w : S) → I w → Q (f w)) → Keeps I Q (gets f)
  unfolding gets
  Keeps-gets f q = record { at = λ w h. (h, q w h) }

  pub Keeps-if :
      (b : Bool) (m n : S → Outcome S A)
      → (b ≡ true → Keeps I Q m)
      → (b ≡ false → Keeps I Q n)
      → Keeps I Q (if b then m else n)
  Keeps-if true m n km kn = km refl
  Keeps-if false m n km kn = kn refl

module _ {S A : Type 0} {I : S → Type 0} {P Q : A → Type 0} where
  pub Keeps-weaken : (m : S → Outcome S A) → Keeps I P m → ((a : A) → P a → Q a) → Keeps I Q m
  Keeps-weaken m k f = record { at = λ w h. go (m w) (k.at w h) }
    where
      go : (o : Outcome S A) → Holds I P o → Holds I Q o
      go (ok a w) (h, p) = (h, f a p)
      go (err e w) h = h

module _ {S : Type 0} {I : S → Type 0} where
  pub Keeps-modify : (f : S → S) → ((w : S) → I w → I (f w)) → Keeps I Any (modify f)
  unfolding modify
  Keeps-modify f k = record { at = λ w h. (k w h, tt) }

  pub Keeps-when :
      (b : Bool) (m : S → Outcome S (Unit {0})) → Keeps I Any m → Keeps I Any (when b m)
  unfolding when
  Keeps-when true m k = record { at = k.at }
  Keeps-when false m k = record { at = λ w h. (h, tt) }

  -- what a conditional action establishes where it runs
  pub when-given :
      {R : Type 0} (b : Bool) (m : S → Outcome S (Unit {0}))
      → Keeps I (λ _. R) m
      → Keeps I (λ _. b ≡ true → R) (when b m)
  unfolding when
  when-given {R} true m k = record {
    at = (Keeps-weaken {P = λ _. R} {Q = λ _. true ≡ true → R} m k (λ _ r _. r)).at;
  }
  when-given false m k = record { at = λ w h. (h, λ e. cc) }

  pub guard-Keeps : (b : Bool) (e : ErrorCode) → Keeps I Any (guard b e)
  unfolding guard
  guard-Keeps true e = record { at = λ w h. (h, tt) }
  guard-Keeps false e = record { at = λ w h. h }

  pub Keeps-guard : (b : Bool) (e : ErrorCode) → Keeps I (λ _. b ≡ true) (guard b e)
  unfolding guard
  Keeps-guard true e = record { at = λ w h. (h, refl) }
  Keeps-guard false e = record { at = λ w h. h }

module _ {S A B : Type 0} {I : S → Type 0} {P : A → Type 0} {Q : B → Type 0} where
  pub Keeps-bind :
      (m : S → Outcome S A) (f : A → S → Outcome S B)
      → Keeps I P m
      → ((a : A) → P a → Keeps I Q (f a))
      → Keeps I Q (m >>= f)
  unfolding ◌>>=◌
  Keeps-bind m f km kf = record { at = λ w h. go (m w) (km.at w h) }
    where
      go : (o : Outcome S A) → Holds I P o → Holds I Q (continue o f)
      go (ok a w) (h, p) = (kf a p).at w h
      go (err e w) h = h

module _ {S B : Type 0} {I : S → Type 0} {Q : B → Type 0} where
  -- an action whose value is not used
  pub Keeps-then :
      (m : S → Outcome S (Unit {0})) (k : S → Outcome S B)
      → Keeps I Any m
      → Keeps I Q k
      → Keeps I Q (m >> k)
  Keeps-then m k km kk = Keeps-bind m (λ _. k) km (λ _ _. kk)

pub Holds-final :
    {S A : Type 0} (I : S → Type 0) (Q : A → Type 0) (o : Outcome S A) → Holds I Q o → I (final o)
Holds-final I Q (ok a w) h = h.0
Holds-final I Q (err e w) h = h

-- What an action keeps is true of the state that it leaves.
pub Keeps-final :
    {S A : Type 0} {I : S → Type 0} {Q : A → Type 0} {m : S → Outcome S A}
    → Keeps I Q m
    → (w : S) → I w
    → I (final (m w))
Keeps-final {I} {Q} {m} k w h = Holds-final I Q (m w) (k.at w h)
