-- ===== src/Store/Listed.antt =====
-- The rows of a list while a loop saves them one after the other.

use hotello_backend.Common.{ℕ, ◌≡◌, ◌≢◌, sym, ◌∙◌, Bool, true, some, List, [], ◌∷◌, All}
use hotello_backend.Store.{TypeOrm, get-save_ne}

module _ (orm : TypeOrm) {A : Type 0} {key : A → ℕ} where
  -- the rows are stored and pass
  abbrev pub Listed : (A → Bool) → List A → orm.Table A key → Type 0
  Listed test rows t = All (λ r. (orm.get t (key r) ≡ some r) × (test r ≡ true)) rows

  pub Listed-save :
      (test : A → Bool) (t : orm.Table A key) (next : A) (rows : List A)
      → All (λ r. key r ≢ key next) rows
      → Listed test rows t
      → Listed test rows (orm.save next t)
  Listed-save test t next [] apart h = tt
  Listed-save test t next (r ∷ rows) (ne, apart) ((stored, passed), rest) = (
    (get-save_ne orm next t (key r) (λ q. ne (sym q)) ∙ stored, passed),
    Listed-save test t next rows apart rest,
  )
