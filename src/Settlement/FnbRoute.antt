-- ===== src/Settlement/FnbRoute.antt =====
-- src/modules/fnb/tenant-fnb-orders.service.ts: `settleStayOrders`, which settles a stay's orders or a
-- selection of them.
use hotello_backend.Common.{ℕ, List, [], ◌∷◌, map, length, ltb}
use hotello_backend.Store.{TypeOrm}
use hotello_backend.Model.People.{TenantUser}
use hotello_backend.Model.Effects.{number, numbers}
use hotello_backend.Exec.{Exec, pure, when, ◌>>=◌, ◌>>◌}
use hotello_backend.Stays.Shared.{find_stay_in_hotel, audit}
use hotello_backend.Settlement.Orders
use hotello_backend.Settlement.Service.{Settled, sum, sum_lines}

module _ (orm : TypeOrm) where
  unfoldable pub settle_stay_orders : TenantUser → ℕ → List ℕ → Exec orm Settled
  settle_stay_orders user stay_id order_ids = do
    _ ← find_stay_in_hotel orm user.hotel_id stay_id
    lines ← Orders.mark_settled orm order_ids user.hotel_id stay_id user.id
    when (ltb 0 (length lines)) (
        audit orm "fnb_orders.settled" stay_id user
          (("orderIds", numbers (map (λ l. l.id) lines)) ∷ ("total", number (sum lines)) ∷ []))
    remaining ← Orders.find_unsettled orm user.hotel_id stay_id
    pure (record { settled = length lines; unsettled_total = sum_lines remaining })
