-- ===== src/Store/Sums.antt =====
-- Sums over the rows of a query, before and after a save.
use mathlib.Core.List.{Memᴰ}
use mathlib.Core.List.Memᴰ
use mathlib.Core.Path.{subst}
use hotello_backend.Common.{
  ℕ, ◌+◌, ◌≤◌, ◌≡◌, ◌≢◌, ◌⊎◌, refl, sym, ap, ◌∙◌, inl, inr, arith, Bool, true, none, some, List, [],
  ◌∷◌, All, ◌==◌, Bool-cases,
}
use hotello_backend.Store.{TypeOrm, Distinct, total, get-save_self, get-save_ne}

pub All-Memᴰ : {A : Type 0} (P : A → Type 0) (xs : List A) (x : A) → All P xs → Memᴰ x xs → P x
All-Memᴰ P [] x h m = elim m [ ]
All-Memᴰ P (y ∷ ys) x (p, h) m = elim (Memᴰ.cases_cons m) [
  | inl e ↦ subst P (sym e) p
  | inr t ↦ All-Memᴰ P ys x h t
]

-- one element taken out of a list
take_out :
    {A : Type 0} (f : A → ℕ) (ys : List A) (y : A)
    → Memᴰ y ys
    → (zs : List A) × (total f ys ≡ f y + total f zs) × ((z : A) → Memᴰ z ys → z ≢ y → Memᴰ z zs)
take_out f [] y m = elim m [ ]
take_out f (x ∷ xs) y m = elim (Memᴰ.cases_cons m) [
  | inl e ↦ (
    xs,
    let same : f y ≡ f x = ap f e in omega arith,
    λ z n ne. elim (Memᴰ.cases_cons n) [ inl p ↦ absurd (ne (p ∙ sym e)) | inr t ↦ t ],
  )
  | inr t ↦
      let (zs, sum, rest) = take_out f xs y t in
      (
        x ∷ zs,
        omega arith,
        λ z n ne. elim (Memᴰ.cases_cons n) [
          | inl p ↦ Memᴰ.head p
          | inr u ↦ Memᴰ.tail (rest z u ne)
        ],
      )
]

-- Rows with distinct keys sum to no more than rows that match each of them by its key.
pub total-le :
    {A : Type 0} (key f : A → ℕ) (xs ys : List A)
    → Distinct key xs
    → ((x : A) → Memᴰ x xs → (y : A) × Memᴰ y ys × (key y ≡ key x) × (f x ≤ f y))
    → total f xs ≤ total f ys
total-le key f [] ys d h = omega arith
total-le key f (x ∷ xs) ys (apart, d) h =
    let (y, m, same, le) = h x (Memᴰ.head refl) in
    let (zs, sum, rest) = take_out f ys y m in
    let tail = total-le key f xs zs d (λ x' m'.
      let (y', n, same', le') = h x' (Memᴰ.tail m') in
      let ne = All-Memᴰ _ xs x' apart m' in
      (y', rest y' n (λ e. ne (sym same' ∙ ap key e ∙ same)), same', le')) in
    omega arith

module _ (orm : TypeOrm) {A : Type 0} {key : A → ℕ} (f : A → ℕ) (test : A → Bool) where
  -- a row of the query after a save is the saved row, or a row of the query before
  found-save :
      (t : orm.Table A key) (r x : A)
      → Memᴰ x (orm.find test (orm.save r t))
      → ((x ≡ r) × (test r ≡ true)) ⊎ Memᴰ x (orm.find test t)
  found-save t r x m =
      let (stored, passed) = All-Memᴰ _ _ x (orm.find-sound test (orm.save r t)) m in
      elim (Bool-cases (key r == key x)) [
        | inl hit ↦
            let row : some r ≡ some x = rw (orm.get-save r t (key x), hit) at stored in
            let e : x ≡ r = cc in inl (e, subst (λ y. test y ≡ true) e passed)
        | inr other ↦
            let row : orm.get t (key x) ≡ some x = rw (orm.get-save r t (key x), other) at stored in
            inr (orm.find-complete test t (key x) x row passed)
      ]

  -- a save adds at most the saved row to the sum
  pub total-save :
      (t : orm.Table A key) (r : A)
      → total f (orm.find test (orm.save r t)) ≤ f r + total f (orm.find test t)
  total-save t r =
      total-le key f (orm.find test (orm.save r t)) (r ∷ orm.find test t)
        (orm.find-distinct test (orm.save r t))
        λ x m. elim (found-save t r x m) [
          | inl (e, _) ↦ (r, Memᴰ.head refl, ap key (sym e), let q = ap f e in omega arith)
          | inr n ↦ (x, Memᴰ.tail n, refl, omega arith)
        ]

  -- a save in place of a row with at least its amount, or of a row that is not counted, adds nothing
  pub total-save_le :
      (t : orm.Table A key) (r : A)
      → (test r ≡ true
          → (old : A) × (orm.get t (key r) ≡ some old) × (test old ≡ true) × (f r ≤ f old))
      → total f (orm.find test (orm.save r t)) ≤ total f (orm.find test t)
  total-save_le t r before =
      total-le key f (orm.find test (orm.save r t)) (orm.find test t)
        (orm.find-distinct test (orm.save r t))
        λ x m. elim (found-save t r x m) [
          | inl (e, passed) ↦
              let (old, stored, counted, le) = before passed in
              let q = ap f e in
              (
                old,
                orm.find-complete test t (key r) old stored counted,
                orm.get-key t (key r) old stored ∙ ap key (sym e),
                omega arith,
              )
          | inr n ↦ (x, n, refl, omega arith)
        ]

  -- a new row that is counted adds its amount
  pub total-save_new :
      (t : orm.Table A key) (r : A)
      → orm.get t (key r) ≡ none
      → test r ≡ true
      → total f (orm.find test (orm.save r t)) ≡ f r + total f (orm.find test t)
  total-save_new t r fresh passed =
      let up = total-save t r in
      let down =
        total-le key f (r ∷ orm.find test t) (orm.find test (orm.save r t))
          (All-of (orm.find test t) (orm.find-sound test t), orm.find-distinct test t)
          λ x m. elim (Memᴰ.cases_cons m) [
            | inl e ↦ (
              r,
              orm.find-complete test (orm.save r t) (key r) r (get-save_self orm r t) passed,
              ap key (sym e),
              let q = ap f e in omega arith,
            )
            | inr n ↦
                let (stored, counted) = All-Memᴰ _ _ x (orm.find-sound test t) n in
                (
                  x,
                  orm.find-complete test (orm.save r t) (key x) x
                      (get-save_ne orm r t (key x) (λ e. let hit = ap (orm.get t) e in cc) ∙ stored)
                      counted,
                  refl,
                  omega arith,
                )
          ] in
      omega arith
    where
      All-of :
          (xs : List A)
          → All (λ x. (orm.get t (key x) ≡ some x) × (test x ≡ true)) xs
          → All (λ x. key x ≢ key r) xs
      All-of [] h = tt
      All-of (x ∷ xs) ((stored, _), h) = (λ e. let hit = ap (orm.get t) e in cc, All-of xs h)
