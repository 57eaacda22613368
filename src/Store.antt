-- ===== src/Store.antt =====
-- What the program relies on of TypeORM and PostgreSQL: a table of rows under a primary key. The
-- packages are not part of the repository, so they are a parameter, with the documented behaviour
-- of `findOne`, `find`, `save` and of a generated primary key as its laws.
pub mod Sums
pub mod Listed
use mathlib.Core.List.{Memᴰ}
use mathlib.Core.List.Memᴰ
use mathlib.Core.Path.{subst}
use hotello_backend.Common.{
  ℕ, ◌+◌, ◌≡◌, ◌≢◌, refl, sym, ap, ◌∙◌, inl, inr, arith, Bool, true, false, Option, none, some,
  List, [], ◌∷◌, All, ◌==◌, ==_refl, Bool-cases, Option-cases, if◌then◌else◌,
}

-- no two elements have the same key
abbrev pub Distinct : {A : Type 0} → (A → ℕ) → List A → Type 0
Distinct key [] = Unit
Distinct key (x ∷ xs) = All (λ y. key y ≢ key x) xs × Distinct key xs

-- `SUM` of a column over rows
abbrev pub total : {A : Type 0} → (A → ℕ) → List A → ℕ
total f [] = 0
total f (x ∷ xs) = f x + total f xs

pub record TypeOrm : Type 1 where
  pub Table : (A : Type 0) → (A → ℕ) → Type 0
  -- the row with a primary key
  pub get : {A : Type 0} {key : A → ℕ} → Table A key → ℕ → Option A
  pub find_one : {A : Type 0} {key : A → ℕ} → (A → Bool) → Table A key → Option A
  pub find : {A : Type 0} {key : A → ℕ} → (A → Bool) → Table A key → List A
  -- an update of the row with the same primary key, or an insert
  pub save : {A : Type 0} {key : A → ℕ} → A → Table A key → Table A key
  -- the primary key that the database generates for the next insert
  pub generate_id : {A : Type 0} {key : A → ℕ} → Table A key → ℕ
  pub get-save :
      {A : Type 0} {key : A → ℕ} (r : A) (t : Table A key) (k : ℕ)
      → get (save r t) k ≡ (if key r == k then some r else get t k)
  pub get-key :
      {A : Type 0} {key : A → ℕ} (t : Table A key) (k : ℕ) (r : A) → get t k ≡ some r → key r ≡ k
  pub find_one-some :
      {A : Type 0} {key : A → ℕ} (test : A → Bool) (t : Table A key) (r : A)
      → find_one test t ≡ some r
      → (get t (key r) ≡ some r) × (test r ≡ true)
  pub find_one-none :
      {A : Type 0} {key : A → ℕ} (test : A → Bool) (t : Table A key) (k : ℕ) (r : A)
      → find_one test t ≡ none
      → get t k ≡ some r
      → test r ≡ false
  pub find-sound :
      {A : Type 0} {key : A → ℕ} (test : A → Bool) (t : Table A key)
      → All (λ r. (get t (key r) ≡ some r) × (test r ≡ true)) (find test t)
  pub find-complete :
      {A : Type 0} {key : A → ℕ} (test : A → Bool) (t : Table A key) (k : ℕ) (r : A)
      → get t k ≡ some r
      → test r ≡ true
      → Memᴰ r (find test t)
  pub find-distinct :
      {A : Type 0} {key : A → ℕ} (test : A → Bool) (t : Table A key) → Distinct key (find test t)
  pub get-generate_id : {A : Type 0} {key : A → ℕ} (t : Table A key) → get t (generate_id t) ≡ none

module _ (orm : TypeOrm) {A : Type 0} {key : A → ℕ} where
  -- what holds of every row holds of every row that a query returns
  pub find-All :
      (P : A → Type 0) (test : A → Bool) (t : orm.Table A key)
      → ((k : ℕ) (r : A) → orm.get t k ≡ some r → test r ≡ true → P r)
      → All P (orm.find test t)
  find-All P test t h = go (orm.find test t) (orm.find-sound test t)
    where
      go :
          (rows : List A)
          → All (λ r. (orm.get t (key r) ≡ some r) × (test r ≡ true)) rows
          → All P rows
      go [] _ = tt
      go (r ∷ rows) ((stored, passed), rest) = (h (key r) r stored passed, go rows rest)

  -- a query by primary key finds the row that is stored under it, if it passes
  pub find_one-get :
      (test : A → Bool) (t : orm.Table A key) (id : ℕ) (r : A)
      → ((x : A) → test x ≡ true → key x ≡ id)
      → orm.get t id ≡ some r
      → test r ≡ true
      → orm.find_one test t ≡ some r
  find_one-get test t id r by_id stored passed = elim (Option-cases (orm.find_one test t)) [
    | inl missed ↦ let f = orm.find_one-none test t id r missed stored in cc
    | inr (x, hit) ↦
        let (row, ok) = orm.find_one-some test t x hit in
        hit ∙ sym row ∙ ap (orm.get t) (by_id x ok) ∙ stored
  ]

  pub get-save_self : (r : A) (t : orm.Table A key) → orm.get (orm.save r t) (key r) ≡ some r
  get-save_self r t = rw (orm.get-save r t (key r), ==_refl (key r))

  pub get-save_ne :
      (r : A) (t : orm.Table A key) (k : ℕ) → key r ≢ k → orm.get (orm.save r t) k ≡ orm.get t k
  get-save_ne r t k ne = ground (arith, orm.get-save r t k)

  -- every stored row satisfies `P`
  abbrev pub AllRows : (A → Type 0) → orm.Table A key → Type 0
  AllRows P t = (k : ℕ) (r : A) → orm.get t k ≡ some r → P r

  pub AllRows-save :
      (P : A → Type 0) (r : A) (t : orm.Table A key) → P r → AllRows P t → AllRows P (orm.save r t)
  AllRows-save P r t p h k r' e = elim (Bool-cases (key r == k)) [
    | inl same ↦
        let stored : some r ≡ some r' = rw (orm.get-save r t k, same) at e in
        let q : r ≡ r' = cc in subst P q p
    | inr other ↦ h k r' (rw (orm.get-save r t k, other) at e)
  ]

  -- every stored row that passes is in the list
  abbrev pub Covered : (A → Bool) → orm.Table A key → List A → Type 0
  Covered test t rows = (k : ℕ) (r : A) → orm.get t k ≡ some r → test r ≡ true → Memᴰ r rows

  -- saving a row that no longer passes takes it off the list
  pub Covered-save :
      (test : A → Bool) (t : orm.Table A key) (old next : A) (rows : List A)
      → key next ≡ key old
      → test next ≡ false
      → Covered test t (old ∷ rows)
      → Covered test (orm.save next t) rows
  Covered-save test t old next rows same failed covered k r stored passed =
      elim (Bool-cases (key next == k)) [
        | inl hit ↦
            let row : some next ≡ some r = rw (orm.get-save next t k, hit) at stored in
            let q : next ≡ r = cc in
            let p : test r ≡ false = subst (λ x. test x ≡ false) q failed in cc
        | inr other ↦
            let before : orm.get t k ≡ some r = rw (orm.get-save next t k, other) at stored in
            elim (Memᴰ.cases_cons (covered k r before passed)) [
              | inl e ↦ let own = orm.get-key t k r before in absurd (ground (arith, ap key e))
              | inr m ↦ m
            ]
      ]

  -- a row that does not pass need not be on the list
  pub Covered-skip :
      (test : A → Bool) (t : orm.Table A key) (old : A) (rows : List A)
      → test old ≡ false
      → Covered test t (old ∷ rows)
      → Covered test t rows
  Covered-skip test t old rows failed covered k r stored passed =
      elim (Memᴰ.cases_cons (covered k r stored passed)) [
        | inl e ↦ let p : test r ≡ false = ap test e ∙ failed in cc
        | inr m ↦ m
      ]

  -- saving a row that does not pass needs no list
  pub Covered-keep :
      (test : A → Bool) (t : orm.Table A key) (next : A) (rows : List A)
      → test next ≡ false
      → Covered test t rows
      → Covered test (orm.save next t) rows
  Covered-keep test t next rows failed covered =
      Covered-save test t next next rows refl failed
        (λ k r stored passed. Memᴰ.tail (covered k r stored passed))

  -- a query that only covered rows could pass is empty when the list is
  pub find-nil : (test : A → Bool) (t : orm.Table A key) → Covered test t [] → orm.find test t ≡ []
  find-nil test t covered =
      empty (orm.find test t)
        (find-All (λ r. ⊥) test t (λ k r stored passed. elim (covered k r stored passed) [ ]))
    where
      empty : (xs : List A) → All (λ r. ⊥) xs → xs ≡ []
      empty [] h = refl
      empty (x ∷ xs) (p, h) = absurd p
