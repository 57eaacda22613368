-- ===== src/Events/Rows.antt =====
-- The rows of src/modules/events and the tests on them: the constants, the seats that the bookings of an
-- event take, and what `book`, the cancellations and the completion write.
use text.Mathlib.Text.{◌==◌ as str_eq}
use hotello_backend.Common.{
  ℕ, Bool, true, false, not, ◌&&◌, ◌||◌, Option, none, some, any, Text, ◌==◌,
}
use hotello_backend.Store.{TypeOrm, total}
use hotello_backend.Model.People.{Hotel}
use hotello_backend.Model.Stays.{Stay}
use hotello_backend.Model.Charges.{
  FnbPaymentMethod, EventBooking, EventBookingStatus, booked, EventBookingCancelledBy,
}
use hotello_backend.Model.Events.{Event, EventStatus, published, draft, completed}
use hotello_backend.Exec.{Exec, hotel_unavailable, module_not_enabled, gets, guard, ◌>>=◌, ◌>>◌}
use hotello_backend.Fnb.Pricing.{EventPrice}
use hotello_backend.Housekeeping.Hooks.{is_suspended}
use hotello_backend.Settlement.Bookings.{is_booked}

-- EVENT_BOOKING_MAX_PARTY_SIZE
abbrev pub max_party_size : ℕ
max_party_size = 6

abbrev pub is_published : EventStatus → Bool
is_published status = elim status [ published ↦ true | _ ↦ false ]

abbrev pub is_draft : EventStatus → Bool
is_draft status = elim status [ draft ↦ true | _ ↦ false ]

-- the bookings that hold seats of an event
abbrev pub holds_seats : ℕ → EventBooking → Bool
holds_seats event_id b = b.event_id == event_id && is_booked b.status

-- `COALESCE(SUM(b.partySize), 0)` over the booked bookings of an event
abbrev pub seats_taken : (orm : TypeOrm) → ℕ → orm.Table EventBooking (λ b. b.id) → ℕ
seats_taken orm event_id t =
    total (λ (b : EventBooking). b.party_size) (orm.find (holds_seats event_id) t)

-- the row that `book` inserts
abbrev pub new_booking :
    ℕ → ℕ → ℕ → Stay → Hotel → Event → EventPrice → Option FnbPaymentMethod → EventBooking
new_booking id now party_size stay hotel event price method = record {
  id = id;
  hotel_id = stay.hotel_id;
  event_id = event.id;
  stay_id = stay.id;
  party_size = party_size;
  snapshot = record {
    titles = event.titles;
    start_at_local = event.start_at_local;
    end_at_local = event.end_at_local;
    location_text = event.location_text;
  };
  unit_price = price.unit_price;
  included = price.included;
  total_amount = price.total;
  currency = hotel.currency;
  payment_method = method;
  status = booked;
  cancelled_by = none;
  cancelled_at = none;
  cancelled_reason = none;
  settled_at = none;
  settled_by_id = none;
  created_at = now;
}

-- a booking that the guest or the staff cancels
abbrev pub cancelled_booking :
    EventBookingCancelledBy → ℕ → Option Text → EventBooking → EventBooking
cancelled_booking by now reason b = record b {
  status = EventBookingStatus.cancelled;
  cancelled_by = some by;
  cancelled_at = some now;
  cancelled_reason = reason;
}

abbrev pub published_event : ℕ → Event → Event
published_event now e = record e { status = published; published_at = some now }

abbrev pub cancelled_event : ℕ → ℕ → Text → Event → Event
cancelled_event now user_id reason e = record e {
  status = EventStatus.cancelled;
  cancel_reason = some reason;
  cancelled_at = some now;
  cancelled_by_id = some user_id;
}

abbrev pub completed_event : ℕ → Event → Event
completed_event now e = record e { status = completed; completed_at = some now }

module _ (orm : TypeOrm) where
  -- `assertEventsAvailable`
  unfoldable pub assert_available : ℕ → Exec orm (Unit {0})
  unfolding any
  assert_available hotel_id = do
    state ← gets (λ w. w.access hotel_id)
    guard (not (is_suspended state.hotel_status || state.read_only)) hotel_unavailable
    guard (any (λ m. str_eq m "events") state.enabled_modules) module_not_enabled
