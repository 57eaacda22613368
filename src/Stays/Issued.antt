-- ===== src/Stays/Issued.antt =====
-- The code that a check-in draws: src/modules/tenant-stays/stay-code.service.ts returns one that is not in use.
use mathlib.Core.Path.{subst}
use hotello_backend.Common.{
  ℕ, zero, suc, ◌+◌, ◌%◌, ◌<◌, ◌≡◌, refl, sym, Option, some, none, Text, arith,
}
use hotello_backend.Store.{TypeOrm}
use hotello_backend.Model.Stays.{Stay}
use hotello_backend.Exec.{World, pure, gets, modify, ◌>>=◌}
use hotello_backend.Exec.Total.{Total, Total-pure, Total-gets, Total-bind, Total-bind_value}
use hotello_backend.Stays.Changes.{StayTable}
use hotello_backend.Stays.Codes.{IssuedCode, has_code, six_digits, generate, issue}

module _ (orm : TypeOrm) (hash : Text → ℕ) where
  -- the code that the draw after `i` others gives
  abbrev pub drawn_code : ℕ → World orm → Text
  drawn_code i w = six_digits (w.draw (w.drawn + i) % 1_000_000)

  -- no active stay of the hotel has that code
  abbrev pub IsUnclaimed : ℕ → ℕ → World orm → Type 0
  IsUnclaimed hotel_id i w =
      orm.find_one (has_code orm hash hotel_id (hash (drawn_code i w))) w.stays ≡ none

  abbrev pub Issued : StayTable orm → IssuedCode → World orm → Type 0
  Issued t c w = (w.stays ≡ t) × (c.code_hash ≡ hash c.code)

  -- what a code that was drawn leaves to the later attempts
  pub generate_first :
      (t : StayTable orm) (hotel_id : ℕ)
      → Total
          (λ w. (w.stays ≡ t) × IsUnclaimed hotel_id zero w)
          (λ code w.
            (w.stays ≡ t) × (orm.find_one (has_code orm hash hotel_id (hash code)) w.stays ≡ none))
          (generate orm hash)
  unfolding generate gets modify pure ◌>>=◌
  generate_first t hotel_id = record {
    at = λ w h. (
      h.0,
      subst
          (λ n.
            orm.find_one (has_code orm hash hotel_id (hash (six_digits (w.draw n % 1_000_000))))
              w.stays
            ≡ none)
          (omega arith) h.1,
    );
  }

  pub generate_next :
      (t : StayTable orm) (hotel_id i : ℕ)
      → Total
          (λ w. (w.stays ≡ t) × IsUnclaimed hotel_id (suc i) w)
          (λ code w. (w.stays ≡ t) × IsUnclaimed hotel_id i w)
          (generate orm hash)
  unfolding generate gets modify pure ◌>>=◌
  generate_next t hotel_id i = record {
    at = λ w h. (
      h.0,
      subst
          (λ n.
            orm.find_one (has_code orm hash hotel_id (hash (six_digits (w.draw n % 1_000_000))))
              w.stays
            ≡ none)
          (omega arith) h.1,
    );
  }

  -- the branch on the clash, with the attempts that are left
  pub branch :
      (t : StayTable orm) (hotel_id n i : ℕ)
      → Total (λ w. (w.stays ≡ t) × IsUnclaimed hotel_id i w) (Issued t) (issue orm hash hotel_id n)
      → (code : Text) (clash : Option Stay)
      → Total {A = IssuedCode}
          (λ w. (w.stays ≡ t) × IsUnclaimed hotel_id i w)
          (Issued t)
          (elim clash [
            | none ↦ pure (record { code = code; code_hash = hash code })
            | some _ ↦ issue orm hash hotel_id n
          ])
  branch t hotel_id n i later code none = Total-pure _ (λ w p. (p.0, refl))
  branch t hotel_id n i later code (some _) = later

  -- one of the attempts meets an unused code
  pub issue-Total :
      (t : StayTable orm) (hotel_id attempts i : ℕ)
      → i < attempts
      → Total
          (λ w. (w.stays ≡ t) × IsUnclaimed hotel_id i w)
          (Issued t)
          (issue orm hash hotel_id attempts)
  unfolding issue
  issue-Total t hotel_id zero i h = absurd (omega arith)
  issue-Total t hotel_id (suc n) zero h = Total-bind _ _ (generate_first t hotel_id) λ code.
      Total-bind_value {Q = λ w. w.stays ≡ t} none _ _ (Total-gets _ (λ w p. (sym p.1, p.0)))
        (Total-pure _ (λ w p. (p, refl)))
  issue-Total t hotel_id (suc n) (suc i) h = Total-bind _ _ (generate_next t hotel_id i) λ code.
      Total-bind {Q = λ _ w. (w.stays ≡ t) × IsUnclaimed hotel_id i w} _ _ (Total-gets _ (λ w p. p))
        λ clash. branch t hotel_id n i (issue-Total t hotel_id n i (omega arith)) code clash
