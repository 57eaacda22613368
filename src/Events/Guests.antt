-- ===== src/Events/Guests.antt =====
-- src/modules/events/guest-events.service.ts: `book` and `cancelOwn`. The stay is the session's, with its
-- `hotel` relation. An action returns the saved booking, of which the source's view is a projection.
use hotello_backend.Common.{
  ℕ, Bool, true, false, not, ◌&&◌, ◌-◌, Option, none, some, [], ◌∷◌, text_lt, leb, ◌==◌,
  if◌then◌else◌,
}
use hotello_backend.Store.{TypeOrm}
use hotello_backend.Clock.{Intl}
use hotello_backend.Model.People.{Hotel}
use hotello_backend.Model.Stays.{Stay}
use hotello_backend.Model.Charges.{FnbPaymentMethod, cash, room_charge, EventBooking, guest}
use hotello_backend.Model.Effects.{AuditEntry, word, number}
use hotello_backend.Exec.{
  Exec, pure, gets, guard, from_option, modify, ◌>>=◌, ◌>>◌, event_not_found, event_not_bookable,
  event_party_size_invalid, event_sold_out, event_payment_method_unavailable,
  event_booking_not_found, event_booking_invalid_status, event_booking_past_start,
}
use hotello_backend.Shared.{log}
use hotello_backend.Fnb.Rows.{payment_word}
use hotello_backend.Fnb.Pricing.{EventPrice, resolve_event_price}
use hotello_backend.Settlement.Bookings.{is_booked}
use hotello_backend.Events.Time.{hotel_local_stamp}
use hotello_backend.Events.Rows.{
  max_party_size, is_published, seats_taken, new_booking, cancelled_booking, assert_available,
}

-- what `POST /guest/events/:id/book` sends
pub record BookEventDto : Type 0 where
  pub party_size : ℕ
  pub payment_method : Option FnbPaymentMethod

-- `dto.partySize > capacity - used` is false; no capacity is no bound
abbrev pub has_room : Option ℕ → ℕ → ℕ → Bool
has_room none used party_size = true
has_room (some capacity) used party_size = leb party_size (capacity - used)

-- a room charge at a hotel that does not take it
abbrev pub is_refused : Hotel → Option FnbPaymentMethod → Bool
is_refused hotel none = false
is_refused hotel (some cash) = false
is_refused hotel (some room_charge) = not hotel.room_charge_enabled

-- `dto.paymentMethod ?? 'cash'`, and nothing to pay for an included event
abbrev pub paid_by : EventPrice → Option FnbPaymentMethod → Option FnbPaymentMethod
paid_by price method =
    if price.included then none else elim method [ none ↦ some cash | some m ↦ some m ]

-- the audit entry of `book`
abbrev pub created_entry : Stay → EventBooking → AuditEntry
created_entry stay booking = record {
  action = "event_booking.created";
  entity_type = "event_booking";
  entity_id = booking.id;
  actor_id = none;
  metadata =
      ("actorType", word "guest")
      ∷ ("hotelId", number stay.hotel_id)
      ∷ ("stayId", number stay.id)
      ∷ ("eventId", number booking.event_id)
      ∷ ("partySize", number booking.party_size)
      ∷ ("totalAmount", number booking.total_amount)
      ∷ ("paymentMethod", payment_word booking.payment_method)
      ∷ [];
}

module _ (orm : TypeOrm) (intl : Intl) where
  -- the transaction of `book`, with the row of the event locked
  unfoldable pub insert_booking : Stay → Hotel → ℕ → BookEventDto → ℕ → Exec orm EventBooking
  insert_booking stay hotel event_id dto now = do
    event ← gets (λ w. orm.find_one (λ e. e.id == event_id && e.hotel_id == stay.hotel_id) w.events)
    event ← from_option event_not_found event
    guard (is_published event.status) event_not_bookable
    guard (text_lt (hotel_local_stamp intl hotel.timezone now) event.start_at_local)
        event_not_bookable
    guard (leb 1 dto.party_size && leb dto.party_size max_party_size) event_party_size_invalid
    used ← gets (λ w. seats_taken orm event.id w.bookings)
    guard (has_room event.capacity used dto.party_size) event_sold_out
    let price = resolve_event_price event.price event.included_for stay.stay_type dto.party_size
    guard (not (not price.included && is_refused hotel dto.payment_method))
        event_payment_method_unavailable
    id ← gets (λ w. orm.generate_id w.bookings)
    at ← gets (λ w. w.now)
    let booking =
        new_booking id at dto.party_size stay hotel event price (paid_by price dto.payment_method)
    modify (λ w. record w { bookings = orm.save booking w.bookings })
    pure booking

  unfoldable pub book : Stay → Hotel → ℕ → BookEventDto → ℕ → Exec orm EventBooking
  book stay hotel event_id dto now = do
    assert_available orm stay.hotel_id
    booking ← insert_booking stay hotel event_id dto now
    log orm (created_entry stay booking)
    pure booking

  unfoldable pub cancel_own : Stay → Hotel → ℕ → Exec orm EventBooking
  cancel_own stay hotel id = do
    booking ← gets (λ w. orm.find_one (λ b. b.id == id && b.stay_id == stay.id) w.bookings)
    booking ← from_option event_booking_not_found booking
    guard (is_booked booking.status) event_booking_invalid_status
    now ← gets (λ w. w.now)
    guard (text_lt (hotel_local_stamp intl hotel.timezone now) booking.snapshot.start_at_local)
        event_booking_past_start
    let saved = cancelled_booking guest now none booking
    modify (λ w. record w { bookings = orm.save saved w.bookings })
    log orm (record {
      action = "event_booking.cancelled";
      entity_type = "event_booking";
      entity_id = saved.id;
      actor_id = none;
      metadata =
          ("actorType", word "guest")
          ∷ ("hotelId", number stay.hotel_id)
          ∷ ("stayId", number stay.id)
          ∷ ("eventId", number saved.event_id)
          ∷ ("reason", word "guest")
          ∷ [];
    })
    pure saved
