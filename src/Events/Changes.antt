-- ===== src/Events/Changes.antt =====
-- The changes that src/modules/events and src/modules/stay-settlement make to the events and their
-- bookings, each as the two tables before and after.
use hotello_backend.Common.{ℕ, Bool, ◌≤◌, ◌≡◌, true, false, Option, none, some, List, [], ◌∷◌, Text}
use hotello_backend.Store.{TypeOrm}
use hotello_backend.Model.People.{Hotel}
use hotello_backend.Model.Stays.{Stay}
use hotello_backend.Model.Charges.{EventBooking, booked, FnbPaymentMethod, guest, staff}
use hotello_backend.Model.Events.{Event, EventStatus, published, draft, completed}
use hotello_backend.Exec.{World}
use hotello_backend.Fnb.Pricing.{EventPrice}
use hotello_backend.Settlement.Bookings.{settled_booking}
use hotello_backend.Events.Rows.{
  max_party_size, holds_seats, seats_taken, new_booking, cancelled_booking, published_event,
  cancelled_event, completed_event,
}
use hotello_backend.Events.Guests.{has_room}

-- the capacity rises, or becomes unlimited
abbrev pub Raised : Option ℕ → Option ℕ → Type 0
Raised old none = Unit
Raised none (some c) = ⊥
Raised (some c) (some d) = c ≤ d

abbrev pub is_over : EventStatus → Bool
is_over draft = false
is_over published = false
is_over completed = true
is_over EventStatus.cancelled = true

-- What an edit may do: it leaves the status alone, on a published event it touches only the texts and
-- raises the capacity, and it does nothing to an event that is over.
pub record IsEdit (old next : Event) : Type 0 where
  pub same_id : next.id ≡ old.id
  pub same_hotel : next.hotel_id ≡ old.hotel_id
  pub same_status : next.status ≡ old.status
  pub same_stamp : next.published_at ≡ old.published_at
  pub promised :
      old.status ≡ published
      → record next {
        titles = old.titles;
        descriptions = old.descriptions;
        capacity = old.capacity;
      }
        ≡ old
  pub raised : old.status ≡ published → Raised old.capacity next.capacity
  pub over : is_over old.status ≡ true → next ≡ old

module _ (orm : TypeOrm) where
  abbrev pub EventTable : Type 0
  EventTable = orm.Table Event (λ e. e.id)

  abbrev pub BookingTable : Type 0
  BookingTable = orm.Table EventBooking (λ b. b.id)

  abbrev pub Tables : Type 0
  Tables = EventTable × BookingTable

  abbrev pub view : World orm → Tables
  view w = (w.events, w.bookings)

  -- the bookings after the loop of `cancel`
  abbrev pub with_cancelled : ℕ → Text → List EventBooking → BookingTable → BookingTable
  with_cancelled now reason [] t = t
  with_cancelled now reason (b ∷ bs) t =
      with_cancelled now reason bs (orm.save (cancelled_booking staff now (some reason) b) t)

  pub data Change : Tables → Tables → Type 0 where
    created :
        (e : EventTable) (b : BookingTable) (event : Event)
        → orm.get e event.id ≡ none
        → event.status ≡ draft
        → Change (e, b) (orm.save event e, b)
    edited :
        (e : EventTable) (b : BookingTable) (old next : Event)
        → orm.get e old.id ≡ some old
        → IsEdit old next
        → Change (e, b) (orm.save next e, b)
    opened :
        (e : EventTable) (b : BookingTable) (old : Event) (now : ℕ)
        → orm.get e old.id ≡ some old
        → old.status ≡ draft
        → Change (e, b) (orm.save (published_event now old) e, b)
    ended :
        (e : EventTable) (b : BookingTable) (old : Event) (now : ℕ)
        → orm.get e old.id ≡ some old
        → old.status ≡ published
        → Change (e, b) (orm.save (completed_event now old) e, b)
    called_off :
        (e : EventTable) (b : BookingTable) (old : Event) (now user_id : ℕ) (reason : Text)
        → orm.get e old.id ≡ some old
        → old.status ≡ published
        → Change
            (e, b)
            (
              orm.save (cancelled_event now user_id reason old) e,
              with_cancelled now reason (orm.find (holds_seats old.id) b) b,
            )
    reserved :
        (e : EventTable) (b : BookingTable) (event : Event) (id now party_size : ℕ) (stay : Stay)
        (hotel : Hotel) (price : EventPrice) (method : Option FnbPaymentMethod)
        → orm.get e event.id ≡ some event
        → event.status ≡ published
        → orm.get b id ≡ none
        → party_size ≤ max_party_size
        → has_room event.capacity (seats_taken orm event.id b) party_size ≡ true
        → Change
            (e, b)
            (e, orm.save (new_booking id now party_size stay hotel event price method) b)
    released :
        (e : EventTable) (b : BookingTable) (old : EventBooking) (now : ℕ)
        → orm.get b old.id ≡ some old
        → old.status ≡ booked
        → Change (e, b) (e, orm.save (cancelled_booking guest now none old) b)
    settled :
        (e : EventTable) (b : BookingTable) (old : EventBooking) (now user_id : ℕ)
        → orm.get b old.id ≡ some old
        → old.status ≡ booked
        → Change (e, b) (e, orm.save (settled_booking now user_id old) b)

  -- `J` survives every change
  abbrev pub IsKept : (Tables → Type 0) → Type 0
  IsKept J = (t u : Tables) → Change t u → J t → J u
