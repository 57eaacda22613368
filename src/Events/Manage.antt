-- ===== src/Events/Manage.antt =====
-- src/modules/events/tenant-events.service.ts: the staff actions on events. An action returns the saved
-- event, of which the source's view is a projection.
pub mod Texts
pub mod Lookup
pub mod Edit
use text.Mathlib.Text.{◌==◌ as str_eq}
use hotello_backend.Common.{
  ℕ, String, Bool, true, false, not, ◌&&◌, Option, none, some, List, [], ◌∷◌, map, any, length,
  Text, text_lt, ltb, ◌==◌, if◌then◌else◌,
}
use hotello_backend.Store.{TypeOrm}
use hotello_backend.Clock.{Intl}
use hotello_backend.Model.People.{Hotel, TenantUser, StayType}
use hotello_backend.Model.Charges.{EventBooking, staff, TranslationMap}
use hotello_backend.Model.Events.{Event, EventStatus}
use hotello_backend.Model.Effects.{Detail, Metadata, word, number, change, null}
use hotello_backend.Exec.{
  Exec, pure, gets, guard, from_option, when, modify, ◌>>=◌, ◌>>◌, event_not_found,
  event_not_publishable, event_start_in_past, event_not_cancellable, event_info_entry_not_found,
  event_window_invalid, event_titles_required, event_descriptions_required,
}
use hotello_backend.Shared.{is_active_stay, log}
use hotello_backend.Events.Time.{hotel_local_stamp}
use hotello_backend.Events.Rows.{
  is_published, is_draft, holds_seats, published_event, cancelled_event, cancelled_booking,
}
use hotello_backend.Events.Manage.Lookup.{
  is_window_valid, audit, find_event, save_event, resolve_info_entry,
}
use hotello_backend.Events.Manage.Texts.{Fields, get_text, merge_translations}

pub record CreateEventDto : Type 0 where
  pub titles : Fields
  pub descriptions : Fields
  pub start_at_local : Text
  pub end_at_local : Option Text
  pub location_text : Text
  pub info_entry_id : Option ℕ
  pub capacity : Option ℕ
  pub price : Option ℕ
  pub included_for : Option (List StayType)

abbrev pub or_else {ℓ} : {A : Type ℓ} → Option A → A → A
or_else none a = a
or_else (some b) a = b

-- the row that `create` inserts
abbrev pub new_event :
    ℕ → TenantUser → CreateEventDto → TranslationMap → TranslationMap → Option ℕ → Event
new_event id user dto titles descriptions info_entry_id = record {
  id = id;
  hotel_id = user.hotel_id;
  titles = titles;
  descriptions = descriptions;
  start_at_local = dto.start_at_local;
  end_at_local = dto.end_at_local;
  location_text = dto.location_text;
  info_entry_id = info_entry_id;
  capacity = dto.capacity;
  price = or_else dto.price 0;
  included_for = or_else dto.included_for [];
  status = EventStatus.draft;
  cancel_reason = none;
  created_by_id = user.id;
  published_at = none;
  cancelled_at = none;
  completed_at = none;
  cancelled_by_id = none;
}

-- `[...new Set(ids)]`
unfoldable pub unique : List ℕ → List ℕ
unfolding any
unique [] = []
unique (id ∷ ids) = let rest = unique ids in if any (λ i. i == id) ids then rest else id ∷ rest

abbrev pub utc : Text
utc = b'U' ∷ b'T' ∷ b'C' ∷ []

-- `hotel?.timezone ?? 'UTC'`
abbrev pub timezone_of : Option Hotel → Text
timezone_of none = utc
timezone_of (some hotel) = hotel.timezone

module _ (orm : TypeOrm) where
  -- the call of the announcements, where the hotel's plan has them; it is in a `try`
  unfoldable pub announce : TenantUser → Event → String → List ℕ → Bool → Exec orm (Unit {0})
  unfolding any
  announce user event source stay_ids priority = do
    state ← gets (λ w. w.access user.hotel_id)
    when (any (λ m. str_eq m "announcements") state.enabled_modules) (
        modify (λ w. record w {
          event_notices =
              record {
                hotel_id = user.hotel_id;
                author_id = user.id;
                event_id = event.id;
                source = source;
                stay_ids = stay_ids;
                priority = priority;
              }
              ∷ w.event_notices;
        }))

  unfoldable pub create : TenantUser → CreateEventDto → Exec orm Event
  create user dto = do
    titles ← merge_translations orm dto.titles [] event_titles_required
    descriptions ← merge_translations orm dto.descriptions [] event_descriptions_required
    info_entry_id ← resolve_info_entry orm user.hotel_id dto.info_entry_id
    guard (is_window_valid dto.start_at_local dto.end_at_local) event_window_invalid
    id ← gets (λ w. orm.generate_id w.events)
    let event = new_event id user dto titles descriptions info_entry_id
    save_event orm event
    audit orm user "event.created" id (
        (
          "created",
          change null (
              Detail.names
                (("titleEn", get_text "en" titles) ∷ ("startAtLocal", event.start_at_local) ∷ [])),
        )
        ∷ [])
    pure event

  -- the loop of `cancel` over the bookings, and their save
  unfoldable pub cancel_bookings : ℕ → Text → List EventBooking → Exec orm (Unit {0})
  cancel_bookings now reason [] = pure tt
  cancel_bookings now reason (b ∷ bs) = do
    modify (λ w. record w {
      bookings = orm.save (cancelled_booking staff now (some reason) b) w.bookings;
    })
    cancel_bookings now reason bs

  -- the stays that are told, and the call
  unfoldable pub tell_booked : TenantUser → Event → List ℕ → Exec orm (Unit {0})
  unfolding any
  tell_booked user event stay_ids = do
    resident ← gets (λ w.
        orm.find
          (λ s. any (λ i. i == s.id) stay_ids && s.hotel_id == user.hotel_id && is_active_stay s)
          w.stays)
    when (ltb 0 (length resident))
        (announce user event "event_cancel" (map (λ s. s.id) resident) true)

  unfoldable pub cancel : TenantUser → ℕ → Text → Exec orm Event
  unfolding unique
  cancel user id reason = do
    event ← find_event orm user.hotel_id id
    guard (is_published event.status) event_not_cancellable
    now ← gets (λ w. w.now)
    let saved = cancelled_event now user.id reason event
    save_event orm saved
    bookings ← gets (λ w. orm.find (holds_seats saved.id) w.bookings)
    cancel_bookings now reason bookings
    audit orm user "event.cancelled" saved.id (("bookingsCancelled", number (length bookings)) ∷ [])
    when (ltb 0 (length bookings)) (tell_booked user saved (unique (map (λ b. b.stay_id) bookings)))
    pure saved

module _ (orm : TypeOrm) (intl : Intl) where
  -- the answer `announce` of the DTO: on, unless it is false
  unfoldable pub publish : TenantUser → ℕ → Option Bool → Exec orm Event
  publish user id wanted = do
    event ← find_event orm user.hotel_id id
    guard (is_draft event.status) event_not_publishable
    hotel ← gets (λ w. orm.find_one (λ h. h.id == user.hotel_id) w.hotels)
    now ← gets (λ w. w.now)
    guard (text_lt (hotel_local_stamp intl (timezone_of hotel) now) event.start_at_local)
        event_start_in_past
    let saved = published_event now event
    save_event orm saved
    audit orm user "event.published" saved.id
        (("status", change (word "draft") (word "published")) ∷ [])
    when (or_else wanted true) (announce orm user saved "event_publish" [] false)
    pure saved
