-- ===== src/Events/Booking.antt =====
-- What `book` of src/modules/events/guest-events.service.ts answers to a guest.
use text.Mathlib.Text.{◌==◌ as str_eq}
use hotello_backend.Common.{
  ℕ, ◌+◌, ◌-◌, ◌*◌, ◌≤◌, ◌<◌, ◌≡◌, refl, inl, inr, arith, Bool-cases, true, false, not, ◌&&◌, ◌||◌,
  Option, none, some, List, [], ◌∷◌, ◌++◌, any, text_lt, ◌==◌, leb, if◌then◌else◌,
}
use hotello_backend.Store.{TypeOrm, find_one-get, get-save_self}
use hotello_backend.Store.Sums.{total-save_new}
use hotello_backend.Clock.{Intl}
use hotello_backend.Model.People.{Hotel, StayType}
use hotello_backend.Model.Stays.{Stay}
use hotello_backend.Model.Charges.{EventBooking}
use hotello_backend.Model.Events.{Event, published}
use hotello_backend.Exec.{World, ok, err, event_sold_out, ◌>>=◌}
use hotello_backend.Shared.{log}
use hotello_backend.Housekeeping.Hooks.{is_suspended}
use hotello_backend.Fnb.Pricing.{includes_type, resolve_event_price}
use hotello_backend.Events.Time.{hotel_local_stamp}
use hotello_backend.Events.Rows.{
  max_party_size, holds_seats, seats_taken, new_booking, assert_available,
}
use hotello_backend.Events.Seats.{Within}
use hotello_backend.Events.Guests.{
  BookEventDto, created_entry, has_room, is_refused, paid_by, insert_booking, book,
}

total_owed :
    (price : ℕ) (types : List StayType) (t : StayType) (size : ℕ)
    → (resolve_event_price price types t size).total
      ≡ (if includes_type types t then 0 else price * size)
unfolding resolve_event_price
total_owed price types t size = elim (Bool-cases (includes_type types t)) [
  | inl yes_in ↦ rw yes_in (omega arith)
  | inr no_in ↦ rw no_in refl
]

module _ (orm : TypeOrm) (intl : Intl) where
  -- all that `book` asks for but the room
  pub record MayBook (w : World orm) (stay : Stay) (hotel : Hotel) (event : Event)
      (dto : BookEventDto) (now : ℕ) : Type 0 where
    pub running :
        (is_suspended (w.access stay.hotel_id).hotel_status || (w.access stay.hotel_id).read_only)
        ≡ false
    pub enabled : any (λ m. str_eq m "events") (w.access stay.hotel_id).enabled_modules ≡ true
    pub stored : orm.get w.events event.id ≡ some event
    pub own : event.hotel_id ≡ stay.hotel_id
    pub live : event.status ≡ published
    pub upcoming : text_lt (hotel_local_stamp intl hotel.timezone now) event.start_at_local ≡ true
    pub some_one : 1 ≤ dto.party_size
    pub small : dto.party_size ≤ max_party_size
    pub payable : is_refused hotel dto.payment_method ≡ false

  module _ (w : World orm) (stay : Stay) (hotel : Hotel) (event : Event) (dto : BookEventDto)
      (now : ℕ) (may : MayBook w stay hotel event dto now) where
    found :
        orm.find_one (λ e. e.id == event.id && e.hotel_id == stay.hotel_id) w.events ≡ some event
    found =
        find_one-get orm _ w.events event.id event (λ x h. ground arith) may.stored
          (let o = may.own in ground arith)

    sized : (leb 1 dto.party_size && leb dto.party_size max_party_size) ≡ true
    sized = ground arith

    -- A guest who meets every other condition and whose party does not fit into the free seats of an event is
    -- refused as event_sold_out, and nothing is written.
    pub book_full :
        (c : ℕ)
        → event.capacity ≡ some c
        → c < dto.party_size + seats_taken orm event.id w.bookings
        → book orm intl stay hotel event.id dto now w ≡ err event_sold_out w
    unfolding book insert_booking assert_available ◌>>=◌
    book_full c bound full =
        rw (may.running, may.enabled, found, may.live, may.upcoming, sized, bound, too_many) refl
      where
        too_many : leb dto.party_size (c - seats_taken orm event.id w.bookings) ≡ false
        too_many = ground arith

    -- A guest who meets every other condition and whose party fits into the free seats of an event gets them: the call returns the stored
    -- booking of the event, the seats that are taken grow by exactly the party, and what is owed is
    -- the party times the price, nothing for a stay type that the event includes.
    pub book_takes :
        Within event.capacity (dto.party_size + seats_taken orm event.id w.bookings)
        → (b : EventBooking) × (v : World orm) × (book orm intl stay hotel event.id dto now w
            ≡ ok b v)
          × (orm.get v.bookings b.id ≡ some b)
          × (b.event_id ≡ event.id)
          × (seats_taken orm event.id v.bookings
              ≡ dto.party_size + seats_taken orm event.id w.bookings)
          × (b.total_amount ≡ (
              if includes_type event.included_for stay.stay_type
              then 0
              else event.price * dto.party_size))
    unfolding book insert_booking assert_available log ◌>>=◌
    book_takes fits = (
      row,
      record w {
        bookings = orm.save row w.bookings;
        audit_logs = w.audit_logs ++ created_entry stay row ∷ [];
      },
      rw (may.running, may.enabled, found, may.live, may.upcoming, sized, room, paid) refl,
      get-save_self orm row w.bookings,
      refl,
      total-save_new orm (λ (x : EventBooking). x.party_size) (holds_seats event.id) w.bookings row
          (orm.get-generate_id w.bookings) (ground arith),
      owed,
    )
      where
        row : EventBooking
        row =
            let price =
              resolve_event_price event.price event.included_for stay.stay_type dto.party_size in
            new_booking (orm.generate_id w.bookings) w.now dto.party_size stay hotel event price
              (paid_by price dto.payment_method)

        room : has_room event.capacity (seats_taken orm event.id w.bookings) dto.party_size ≡ true
        room = go event.capacity fits
          where
            go :
                (c : Option ℕ)
                → Within c (dto.party_size + seats_taken orm event.id w.bookings)
                → has_room c (seats_taken orm event.id w.bookings) dto.party_size ≡ true
            go none h = refl
            go (some c) h = ground arith

        owed : row.total_amount ≡ (
            if includes_type event.included_for stay.stay_type
            then 0
            else event.price * dto.party_size)
        owed = total_owed event.price event.included_for stay.stay_type dto.party_size

        paid :
            not (
              not
                (resolve_event_price event.price event.included_for stay.stay_type
                  dto.party_size).included
              && is_refused hotel dto.payment_method)
            ≡ true
        paid = ground (arith, may.payable)
