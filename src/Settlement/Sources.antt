-- ===== src/Settlement/Sources.antt =====
-- src/modules/stay-settlement/settlement-source.interface.ts: the interface and its two
-- implementations. An amount is exact, in hundredths of a cent.
use hotello_backend.Common.{ℕ, String, List, []}
use hotello_backend.Store.{TypeOrm}
use hotello_backend.Exec.{Exec}
use hotello_backend.Settlement.Lines.{UnsettledLine}
use hotello_backend.Settlement.Orders
use hotello_backend.Settlement.Bookings

pub record SettlementSource (orm : TypeOrm) : Type 0 where
  pub key : String
  pub find_unsettled : ℕ → ℕ → Exec orm (List UnsettledLine)
  pub mark_settled : ℕ → ℕ → ℕ → Exec orm (List UnsettledLine)

module _ (orm : TypeOrm) where
  abbrev pub fnb_source : SettlementSource orm
  fnb_source = record {
    key = "fnb";
    find_unsettled = Orders.find_unsettled orm;
    mark_settled = Orders.mark_settled orm [];
  }

  abbrev pub event_source : SettlementSource orm
  event_source = record {
    key = "events";
    find_unsettled = Bookings.find_unsettled orm;
    mark_settled = Bookings.mark_settled orm;
  }
