-- ===== src/Exec/Frame.antt =====
-- Actions seen through the tables that they change: `view` picks those tables, and what is proved of an
-- action is stated on its view.
use mathlib.Core.Path.{subst}
use hotello_backend.Common.{◌≡◌, refl, sym}
use hotello_backend.Exec.{Outcome, gets, modify, ◌>>=◌}
use hotello_backend.Exec.Keeps.{Keeps, Any, Keeps-gets, Keeps-modify}
use hotello_backend.Exec.Safe.{Safe, Safe-modify, Safe-Holds, Keeps-before}

abbrev pub On : {S T : Type 0} → (S → T) → (T → Type 0) → S → Type 0
On view J w = J (view w)

-- the view is `t`, and `t` satisfies `J`
abbrev pub Before : {T : Type 0} → (T → Type 0) → T → T → Type 0
Before J t x = (x ≡ t) × J t

-- what an action does from the view `t`: `J` holds before, and holds after, whether it returns or throws
abbrev pub Handles : {S T A : Type 0} → (S → T) → (T → Type 0) → (S → Outcome S A) → T → Type 0
Handles view J m t = Safe (On view (Before J t)) (On view J) (λ _. On view J) m

module _ {S T : Type 0} (view : S → T) (J : T → Type 0) where
  pub Before-holds : (t : T) (w : S) → On view (Before J t) w → On view J w
  Before-holds t w h = subst J (sym h.0) h.1

  -- the one write of an action
  pub Handles-modify :
      (f : S → S) (t u : T)
      → ((w : S) → view w ≡ t → view (f w) ≡ u)
      → (J t → J u)
      → Handles view J (modify f) t
  Handles-modify f t u to keep = Safe-modify _ (λ w h. subst J (sym (to w h.0)) (keep h.1))

  -- a write elsewhere
  pub Keeps-elsewhere :
      (f : S → S) → ((w : S) → view (f w) ≡ view w) → Keeps (On view J) Any (modify f)
  Keeps-elsewhere f same = Keeps-modify f (λ w h. subst J (sym (same w)) h)

  pub Keeps-read : {A : Type 0} (f : S → A) → Keeps (On view J) Any (gets f)
  Keeps-read f = Keeps-gets f (λ w h. tt)

module _ {S T A B : Type 0} (view : S → T) (J : T → Type 0) where
  -- a read of the view that the rest depends on
  pub Handles-read :
      (t : T) (P : A → Type 0) (m : S → Outcome S A) (f : A → S → Outcome S B)
      → Keeps (On view (Before J t)) P m
      → ((a : A) → P a → Handles view J (f a) t)
      → Handles view J (m >>= f) t
  Handles-read t P m f km kf = Keeps-before m f (Before-holds view J t) km kf

module _ {S T A : Type 0} (view : S → T) (J : T → Type 0) where
  pub Handles-Keeps :
      (m : S → Outcome S A) → ((t : T) → Handles view J m t) → Keeps (On view J) Any m
  Handles-Keeps m h = record { at = λ w j. Safe-Holds m (h (view w)) w (refl, j) }
