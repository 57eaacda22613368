-- ===== src/Settlement/Service.antt =====
-- src/modules/stay-settlement/stay-settlement.service.ts: one unsettled total and one settle action over
-- all sources.
use hotello_backend.Common.{ℕ, ◌+◌, ◌*◌, ◌/◌, String, List, [], ◌∷◌, length, ltb}
use hotello_backend.Store.{TypeOrm}
use hotello_backend.Model.People.{TenantUser}
use hotello_backend.Model.Effects.{Detail}
use hotello_backend.Exec.{Exec, pure, when, ◌>>=◌, ◌>>◌}
use hotello_backend.Stays.Shared.{find_stay_in_hotel, audit}
use hotello_backend.Settlement.Lines.{UnsettledLine}
use hotello_backend.Settlement.Sources.{SettlementSource, fnb_source, event_source}

-- `Math.round(n * 100) / 100` on hundredths of a cent
abbrev pub round2 : ℕ → ℕ
round2 n = (n + 50) / 100 * 100

unfoldable pub sum : List UnsettledLine → ℕ
sum [] = 0
sum (l ∷ ls) = l.total_amount + sum ls

abbrev pub sum_lines : List UnsettledLine → ℕ
unfolding sum
sum_lines lines = round2 (sum lines)

pub record StayUnsettledView : Type 0 where
  pub total : ℕ
  pub by_key : List (String × ℕ)

pub record Settled : Type 0 where
  pub settled : ℕ
  pub unsettled_total : ℕ

module _ (orm : TypeOrm) where
  -- SETTLEMENT_SOURCES
  abbrev pub sources : List (SettlementSource orm)
  sources = fnb_source orm ∷ event_source orm ∷ []

  -- the lines of every source, by its key
  unfoldable pub find_all :
      List (SettlementSource orm) → ℕ → ℕ → Exec orm (List (String × List UnsettledLine))
  find_all [] hotel_id stay_id = pure []
  find_all (s ∷ ss) hotel_id stay_id = do
    lines ← s.find_unsettled hotel_id stay_id
    rest ← find_all ss hotel_id stay_id
    pure ((s.key, lines) ∷ rest)

  unfoldable pub mark_all :
      List (SettlementSource orm) → ℕ → ℕ → ℕ → Exec orm (List (String × List UnsettledLine))
  mark_all [] hotel_id stay_id user_id = pure []
  mark_all (s ∷ ss) hotel_id stay_id user_id = do
    lines ← s.mark_settled hotel_id stay_id user_id
    rest ← mark_all ss hotel_id stay_id user_id
    pure ((s.key, lines) ∷ rest)

  unfoldable pub subtotals : List (String × List UnsettledLine) → List (String × ℕ)
  subtotals [] = []
  subtotals ((key, lines) ∷ rest) = (key, sum_lines lines) ∷ subtotals rest

  unfoldable pub total_of : List (String × List UnsettledLine) → ℕ
  total_of [] = 0
  total_of ((key, lines) ∷ rest) = sum_lines lines + total_of rest

  unfoldable pub count_of : List (String × List UnsettledLine) → ℕ
  count_of [] = 0
  count_of ((key, lines) ∷ rest) = length lines + count_of rest

  breakdown : List (String × List UnsettledLine) → List (String × ℕ × ℕ)
  breakdown [] = []
  breakdown ((key, lines) ∷ rest) = (key, length lines, sum_lines lines) ∷ breakdown rest

  unfoldable pub unsettled_total : TenantUser → ℕ → Exec orm StayUnsettledView
  unfolding subtotals total_of
  unsettled_total user stay_id = do
    _ ← find_stay_in_hotel orm user.hotel_id stay_id
    per_source ← find_all sources user.hotel_id stay_id
    pure (record { total = round2 (total_of per_source); by_key = subtotals per_source })

  unfoldable pub settle : TenantUser → ℕ → Exec orm Settled
  unfolding total_of count_of breakdown
  settle user stay_id = do
    _ ← find_stay_in_hotel orm user.hotel_id stay_id
    per_source ← mark_all sources user.hotel_id stay_id user.id
    let settled = count_of per_source
    when (ltb 0 settled) (
        audit orm "stay_settlement.settled" stay_id user
          (("breakdown", Detail.totals (breakdown per_source)) ∷ []))
    remaining ← find_all sources user.hotel_id stay_id
    pure (record { settled = settled; unsettled_total = round2 (total_of remaining) })
