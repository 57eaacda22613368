-- ===== src/Settlement/Lines.antt =====
-- src/modules/stay-settlement/settlement-source.interface.ts: an unsettled line.
use hotello_backend.Common.{ℕ, Bool, true, false, Option, some}
use hotello_backend.Model.Charges.{FnbPaymentMethod, room_charge}

pub record UnsettledLine : Type 0 where
  pub id : ℕ
  pub total_amount : ℕ

abbrev pub is_room_charge : Option FnbPaymentMethod → Bool
is_room_charge (some room_charge) = true
is_room_charge _ = false
