-- ===== src/Stays/Codes.antt =====
-- src/modules/tenant-stays/stay-code.service.ts: stay codes. `createHmac` is a parameter; `randomInt`
-- draws from the generator of the world.
use hotello_backend.Common.{
  ℕ, Bool, zero, suc, ◌+◌, ◌/◌, ◌%◌, ◌&&◌, [], ◌∷◌, Text, none, some, ◌==◌,
}
use hotello_backend.Store.{TypeOrm}
use hotello_backend.Calendar.{digit}
use hotello_backend.Model.Stays.{Stay}
use hotello_backend.Exec.{internal_error, Exec, pure, throw, gets, modify, ◌>>=◌, ◌>>◌}
use hotello_backend.Shared.{is_active_stay}

pub record IssuedCode : Type 0 where
  pub code : Text
  pub code_hash : ℕ

-- `n.toString().padStart(6, '0')` for a number below a million
unfoldable pub six_digits : ℕ → Text
six_digits n =
    digit (n / 100_000)
    ∷ digit (n / 10_000)
    ∷ digit (n / 1000)
    ∷ digit (n / 100)
    ∷ digit (n / 10)
    ∷ digit n
    ∷ []

module _ (orm : TypeOrm) (hash : Text → ℕ) where
  -- an active stay of the hotel that has the code
  abbrev pub has_code : ℕ → ℕ → Stay → Bool
  has_code hotel_id code_hash s =
      s.hotel_id == hotel_id && s.code_hash == code_hash && is_active_stay s

  -- `randomInt(0, 10 ** 6)`, written out with six digits
  unfoldable pub generate : Exec orm Text
  unfolding six_digits
  generate = do
    n ← gets (λ w. w.draw w.drawn % 1_000_000)
    modify (λ w. record w { drawn = w.drawn + 1 })
    pure (six_digits n)

  -- the loop with the attempts that are left
  unfoldable pub issue : ℕ → ℕ → Exec orm IssuedCode
  issue hotel_id zero = throw internal_error
  issue hotel_id (suc attempts) = do
    code ← generate
    clash ← gets (λ w. orm.find_one (has_code hotel_id (hash code)) w.stays)
    elim clash [
      | none ↦ pure (record { code = code; code_hash = hash code })
      | some _ ↦ issue hotel_id attempts
    ]

  -- `MAX_GENERATION_ATTEMPTS` is 20
  unfoldable pub issue_unique_code : ℕ → Exec orm IssuedCode
  issue_unique_code hotel_id = issue hotel_id 20
