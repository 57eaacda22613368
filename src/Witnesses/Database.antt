-- ===== src/Witnesses/Database.antt =====
-- A table as the list of its saves, the latest first: it shows that the laws of `TypeOrm` can hold.
use mathlib.Core.List.{Memᴰ}
use mathlib.Core.Path.{subst}
use mathlib.Core.Bool.{◌&&◌}
use hotello_backend.Common.{
  ℕ, ◌+◌, ◌<◌, ◌≢◌, ◌≡◌, refl, inl, inr, arith, Bool, true, false, not, Option, none, some, List,
  [], ◌∷◌, All, ◌==◌, ==_refl, Bool-cases, if◌then◌else◌,
}
use hotello_backend.Store.{Distinct, TypeOrm}

module _ {A : Type 0} (key : A → ℕ) where
  abbrev pub stored_row : List A → ℕ → Option A
  stored_row [] k = none
  stored_row (r ∷ rows) k = if key r == k then some r else stored_row rows k

  -- the saves that no later save of the same key hides
  abbrev pub visible : (A → Bool) → List A → List A
  visible test [] = []
  visible test (r ∷ rows) =
      let rest = visible (λ x. test x && not (key x == key r)) rows in
      if test r then r ∷ rest else rest

  abbrev pub largest : List A → ℕ
  largest [] = 0
  largest (r ∷ rows) = key r + largest rows

  pub stored_row-key : (rows : List A) (k : ℕ) (r : A) → stored_row rows k ≡ some r → key r ≡ k
  stored_row-key [] k r e = cc
  stored_row-key (x ∷ rows) k r e = elim (Bool-cases (key x == k)) [
    | inl same ↦
        let q : some x ≡ some r = rw same at e in
        let p : x ≡ r = cc in subst (λ y. key y ≡ k) p (ground arith)
    | inr other ↦ stored_row-key rows k r (rw other at e)
  ]

  abbrev pub Fits : (A → Bool) → List A → A → Type 0
  Fits test rows r = (stored_row rows (key r) ≡ some r) × (test r ≡ true)

  All-map : (P Q : A → Type 0) (xs : List A) → ((x : A) → P x → Q x) → All P xs → All Q xs
  All-map P Q [] f h = tt
  All-map P Q (x ∷ xs) f (p, h) = (f x p, All-map P Q xs f h)

  latest : (r : A) (rows : List A) → stored_row (r ∷ rows) (key r) ≡ some r
  latest r rows = rw (==_refl (key r))

  Fits-later :
      (test : A → Bool) (r : A) (rows : List A) (x : A)
      → Fits (λ y. test y && not (key y == key r)) rows x
      → Fits test (r ∷ rows) x
  Fits-later test r rows x (stored, passed) = (ground arith, ground arith)

  pub visible_sound : (test : A → Bool) (rows : List A) → All (Fits test rows) (visible test rows)
  visible_sound test [] = tt
  visible_sound test (r ∷ rows) =
      let rest =
        All-map _ _ _ (Fits-later test r rows)
          (visible_sound (λ y. test y && not (key y == key r)) rows) in
      elim (Bool-cases (test r)) [
        | inl passed ↦ rw passed ((latest r rows, passed), rest)
        | inr failed ↦ rw failed rest
      ]

  pub visible-complete :
      (test : A → Bool) (rows : List A) (k : ℕ) (r : A)
      → stored_row rows k ≡ some r
      → test r ≡ true
      → Memᴰ r (visible test rows)
  visible-complete test [] k r e p = cc
  visible-complete test (x ∷ rows) k r e p = elim (Bool-cases (key x == k)) [
    | inl same ↦
        let q : some x ≡ some r = rw same at e in
        let hit : x ≡ r = cc in rw (hit, p) (Memᴰ.head refl)
    | inr other ↦
        let stored : stored_row rows k ≡ some r = rw other at e in
        let rest =
          visible-complete (λ y. test y && not (key y == key x)) rows k r stored
            (ground (arith, stored_row-key rows k r stored)) in
        elim (Bool-cases (test x)) [
          | inl passed ↦ rw passed (Memᴰ.tail rest)
          | inr failed ↦ rw failed rest
        ]
  ]

  differs :
      (test : A → Bool) (r : A) (rows : List A) (x : A)
      → Fits (λ y. test y && not (key y == key r)) rows x
      → key x ≢ key r
  differs test r rows x (stored, passed) = ground arith

  pub visible-Distinct : (test : A → Bool) (rows : List A) → Distinct key (visible test rows)
  visible-Distinct test [] = tt
  visible-Distinct test (r ∷ rows) =
      let rest = visible-Distinct (λ y. test y && not (key y == key r)) rows in
      elim (Bool-cases (test r)) [
        | inl passed ↦ rw passed (All-map _ _ _ (differs test r rows) (visible_sound _ rows), rest)
        | inr failed ↦ rw failed rest
      ]

  abbrev pub first : List A → Option A
  first [] = none
  first (r ∷ _) = some r

  pub first-All : (P : A → Type 0) (xs : List A) (r : A) → All P xs → first xs ≡ some r → P r
  first-All P [] r h e = cc
  first-All P (x ∷ xs) r (p, h) e = let q : x ≡ r = cc in subst P q p

  first-none : (xs : List A) (r : A) → Memᴰ r xs → first xs ≢ none
  first-none [] r m = elim m [ ]
  first-none (x ∷ xs) r m = λ e. cc

  pub missed :
      (test : A → Bool) (rows : List A) (k : ℕ) (r : A)
      → first (visible test rows) ≡ none
      → stored_row rows k ≡ some r
      → test r ≡ false
  missed test rows k r e stored = elim (Bool-cases (test r)) [
    | inl passed ↦ absurd (first-none _ r (visible-complete test rows k r stored passed) e)
    | inr failed ↦ failed
  ]

  pub no_row : (rows : List A) (n : ℕ) → largest rows < n → stored_row rows n ≡ none
  no_row [] n h = refl
  no_row (r ∷ rows) n h = ground (arith, no_row rows n (omega arith))

abbrev pub database : TypeOrm
database = record {
  Table = λ A key. List A;
  get = λ {A} {key} t k. stored_row key t k;
  find_one = λ {A} {key} test t. first key (visible key test t);
  find = λ {A} {key} test t. visible key test t;
  save = λ r t. r ∷ t;
  generate_id = λ {A} {key} t. largest key t + 1;
  get-save = λ {A} {key} r t k. refl;
  get-key = λ {A} {key} t k r e. stored_row-key key t k r e;
  find_one-some = λ {A} {key} test t r e.
      first-All key (Fits key test t) (visible key test t) r (visible_sound key test t) e;
  find_one-none = λ {A} {key} test t k r e s. missed key test t k r e s;
  find-sound = λ {A} {key} test t. visible_sound key test t;
  find-complete = λ {A} {key} test t k r e p. visible-complete key test t k r e p;
  find-distinct = λ {A} {key} test t. visible-Distinct key test t;
  get-generate_id = λ {A} {key} t. no_row key t (largest key t + 1) (omega arith);
}
