-- ===== src/Settlement/Bookings.antt =====
-- src/modules/events/event-settlement-source.ts: room-charge bookings.
use hotello_backend.Common.{
  ℕ, Bool, true, false, ◌&&◌, some, List, [], ◌∷◌, map, filter, length, ◌==◌, if◌then◌else◌,
}
use hotello_backend.Store.{TypeOrm}
use hotello_backend.Model.Charges.{EventBooking, EventBookingStatus, booked}
use hotello_backend.Exec.{Exec, pure, gets, modify, ◌>>=◌, ◌>>◌}
use hotello_backend.Shared.{is_null}
use hotello_backend.Settlement.Lines.{UnsettledLine, is_room_charge}

abbrev pub is_booked : EventBookingStatus → Bool
is_booked booked = true
is_booked _ = false

abbrev pub is_eligible : EventBooking → Bool
is_eligible b = is_booked b.status && is_room_charge b.payment_method && is_null b.settled_at

abbrev pub to_line : EventBooking → UnsettledLine
to_line b = record { id = b.id; total_amount = b.total_amount }

abbrev pub is_due : ℕ → ℕ → EventBooking → Bool
is_due hotel_id stay_id b = b.hotel_id == hotel_id && b.stay_id == stay_id && is_eligible b

abbrev pub settled_booking : ℕ → ℕ → EventBooking → EventBooking
settled_booking now user_id b = record b { settled_at = some now; settled_by_id = some user_id }

module _ (orm : TypeOrm) where
  unfoldable pub find_unsettled : ℕ → ℕ → Exec orm (List UnsettledLine)
  unfolding filter
  find_unsettled hotel_id stay_id = gets (λ w. map to_line (
      filter is_eligible
        (orm.find (λ b. b.hotel_id == hotel_id && b.stay_id == stay_id) w.bookings)))

  unfoldable pub save_settled : ℕ → ℕ → List EventBooking → Exec orm (Unit {0})
  save_settled now user_id [] = pure tt
  save_settled now user_id (b ∷ bs) = do
    modify (λ w. record w { bookings = orm.save (settled_booking now user_id b) w.bookings })
    save_settled now user_id bs

  unfoldable pub mark_settled : ℕ → ℕ → ℕ → Exec orm (List UnsettledLine)
  mark_settled hotel_id stay_id user_id = do
    to_settle ← gets (λ w. orm.find (is_due hotel_id stay_id) w.bookings)
    if length to_settle == 0 then pure [] else do
      now ← gets (λ w. w.now)
      save_settled now user_id to_settle
      pure (map to_line to_settle)
