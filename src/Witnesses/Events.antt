-- ===== src/Witnesses/Events.antt =====
-- The theorems on events, applied to a concert of the hotel with ten seats.
use mathlib.Core.List.{◌++◌}
use hotello_backend.Common.{
  ◌+◌, ◌*◌, ◌≡◌, refl, arith, false, none, some, [], ◌∷◌, if◌then◌else◌, any, text_lt,
}
use hotello_backend.Model.People.{HotelStatus}
use hotello_backend.Model.Charges.{EventBooking, cash}
use hotello_backend.Model.Events.{Event, published}
use hotello_backend.Exec.{World, ok, err, event_sold_out}
use hotello_backend.Events.Time.{hotel_local_stamp, add_minutes_local}
use hotello_backend.Events.Rows.{seats_taken, new_booking}
use hotello_backend.Events.Guests.{BookEventDto, book}
use hotello_backend.Events.Changes.{view}
use hotello_backend.Events.Seats.{SeatsFit, Within-zero, limit}
use hotello_backend.Events.Life.{IsLater, IsMarked}
use hotello_backend.Events.Booking.{MayBook, book_full, book_takes}
use hotello_backend.Events.Reach.{
  here, after, book_call, cancel_call, perform, Reach-SeatsFit, Reach-IsLater,
}
use hotello_backend.Fnb.Pricing.{includes_type}
use hotello_backend.Witnesses.Database.{database}
use hotello_backend.Witnesses.Samples.{frozen, the_hotel, the_stay, the_user, the_world, today}

abbrev concert : Event
concert = record {
  id = 3;
  hotel_id = 1;
  titles = [];
  descriptions = [];
  start_at_local = today ++ (32 ∷ b'2' ∷ b'0' ∷ b':' ∷ b'0' ∷ b'0' ∷ []);
  end_at_local = none;
  location_text = [];
  info_entry_id = none;
  capacity = some 5;
  price = 2000;
  included_for = [];
  status = published;
  cancel_reason = none;
  created_by_id = 5;
  published_at = some 1;
  cancelled_at = none;
  completed_at = none;
  cancelled_by_id = none;
}

abbrev party_of_four : BookEventDto
party_of_four = record { party_size = 4; payment_method = none }

abbrev evening : World database
evening = record the_world {
  events = concert ∷ [];
  access = λ hotel_id. record {
    hotel_status = HotelStatus.active;
    read_only = false;
    subscription_status = none;
    trial_ends_at = none;
    enabled_modules = "events" ∷ [];
    plan_name_en = none;
    plan_name_ar = none;
    trial_days_remaining = none;
  };
}

-- four of the five seats are booked
abbrev four_seats : EventBooking
four_seats =
    new_booking 1 50 4 the_stay the_hotel concert
      (record { included = false; unit_price = 2000; total = 8000 }) (some cash)

abbrev booked_up : World database
booked_up = record evening { bookings = four_seats ∷ [] }

evening-SeatsFit : SeatsFit database (view database evening)
evening-SeatsFit k = Within-zero (limit (database.get {key = λ (e : Event). e.id} evening.events k))

booked_up-MayBook : MayBook database frozen booked_up the_stay the_hotel concert party_of_four 100
unfolding hotel_local_stamp any text_lt
booked_up-MayBook = record {
  running = refl;
  enabled = refl;
  stored = refl;
  own = refl;
  live = refl;
  upcoming = refl;
  some_one = omega arith;
  small = omega arith;
  payable = refl;
}

evening-MayBook : MayBook database frozen evening the_stay the_hotel concert party_of_four 100
unfolding hotel_local_stamp any text_lt
evening-MayBook = record {
  running = refl;
  enabled = refl;
  stored = refl;
  own = refl;
  live = refl;
  upcoming = refl;
  some_one = omega arith;
  small = omega arith;
  payable = refl;
}

Reach-SeatsFit_example : SeatsFit database (
    view database
      (perform database frozen (book_call the_stay the_hotel 3 party_of_four 100) evening))
Reach-SeatsFit_example =
    Reach-SeatsFit database frozen evening
      (perform database frozen (book_call the_stay the_hotel 3 party_of_four 100) evening)
      (after (book_call the_stay the_hotel 3 party_of_four 100) here) evening-SeatsFit

Reach-IsLater_example :
    (r : Event) × (database.get {key = λ (e : Event). e.id}
        (perform database frozen (cancel_call the_user 3 []) evening).events
        3
      ≡ some r)
    × IsLater concert r
    × IsMarked r
Reach-IsLater_example =
    Reach-IsLater database frozen evening
      (perform database frozen (cancel_call the_user 3 []) evening) 3 concert
      (after (cancel_call the_user 3 []) here) refl refl

book_full_example :
    book database frozen the_stay the_hotel 3 party_of_four 100 booked_up
    ≡ err event_sold_out booked_up
book_full_example =
    book_full database frozen booked_up the_stay the_hotel concert party_of_four 100
      booked_up-MayBook 5 refl (omega arith)

book_takes_example :
    (b : EventBooking) × (v : World database) × (book database frozen the_stay the_hotel 3
        party_of_four 100 evening
      ≡ ok b v)
    × (database.get {key = λ (x : EventBooking). x.id} v.bookings b.id ≡ some b)
    × (b.event_id ≡ 3)
    × (seats_taken database 3 v.bookings ≡ 4 + seats_taken database 3 evening.bookings)
    × (b.total_amount ≡ (if includes_type [] the_stay.stay_type then 0 else 2000 * 4))
book_takes_example =
    book_takes database frozen evening the_stay the_hotel concert party_of_four 100 evening-MayBook
      (omega arith)

-- 22:30 on 28 February of a leap year, three hours later
late_show :
    add_minutes_local
      (b'2' ∷ b'0' ∷ b'2' ∷ b'4' ∷ b'-' ∷ b'0' ∷ b'2' ∷ b'-' ∷ b'2' ∷ b'8' ∷ 32 ∷ b'2' ∷ b'2' ∷ b':'
        ∷ b'3' ∷ b'0' ∷ [])
      180
    ≡ some (
        b'2' ∷ b'0' ∷ b'2' ∷ b'4' ∷ b'-' ∷ b'0' ∷ b'2' ∷ b'-' ∷ b'2' ∷ b'9' ∷ 32 ∷ b'0' ∷ b'1'
        ∷ b':' ∷ b'3' ∷ b'0' ∷ [])
unfolding add_minutes_local
late_show = refl
