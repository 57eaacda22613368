-- ===== src/Stays/AutoCheckout.antt =====
-- src/modules/tenant-stays/auto-checkout.service.ts: `closeOverdueStays`.
use hotello_backend.Common.{
  ℕ, ◌+◌, Bool, not, ◌&&◌, Option, none, some, List, [], ◌∷◌, Text, ◌==◌, if◌then◌else◌, text_lt,
}
use hotello_backend.Store.{TypeOrm}
use hotello_backend.Clock.{Intl, is_stay_overdue}
use hotello_backend.Calendar.{iso_date}
use hotello_backend.Model.People.{Hotel}
use hotello_backend.Model.Rooms.{Room}
use hotello_backend.Model.Stays.{Stay, StayStatus, automatic}
use hotello_backend.Model.Effects.{Detail, word, number}
use hotello_backend.Exec.{internal_error, Exec, pure, gets, from_option, ◌>>=◌, ◌>>◌}
use hotello_backend.Shared.{is_active_stay, log}
use hotello_backend.Housekeeping.Hooks.{on_room_vacated}
use hotello_backend.Stays.Shared.{save_stay}
use hotello_backend.Stays.Moves.{number_of}

abbrev pub closed_stay : ℕ → Stay → Stay
closed_stay now stay = record stay {
  status = StayStatus.checked_out;
  checkout_type = some automatic;
  checked_out_at = some now;
  checked_out_by_id = none;
}

module _ (orm : TypeOrm) (intl : Intl) where
  abbrev pub candidate : Text → Stay → Bool
  candidate horizon s = is_active_stay s && not (text_lt horizon s.check_out_date)

  -- the body of the loop for a stay that is due
  unfoldable pub close : Stay → Option Room → ℕ → Exec orm (Unit {0})
  close stay room now = do
    let closed = closed_stay now stay
    save_stay orm closed
    on_room_vacated orm closed.room_id closed.hotel_id none
    log orm (record {
      action = "stay.checked_out";
      entity_type = "stay";
      entity_id = closed.id;
      actor_id = none;
      metadata =
          ("hotelId", number closed.hotel_id)
          ∷ ("checkoutType", word "automatic")
          ∷ ("roomNumber", number_of room)
          ∷ ("checkOutDate", Detail.text closed.check_out_date)
          ∷ [];
    })

  unfoldable pub close_all :
      ℕ → (Stay → Option Hotel) → (Stay → Option Room) → List Stay → ℕ → Exec orm ℕ
  unfolding is_stay_overdue
  close_all now hotel_of room_of [] closed = pure closed
  close_all now hotel_of room_of (stay ∷ stays) closed = do
    hotel ← from_option internal_error (hotel_of stay)
    let due = is_stay_overdue intl stay.check_out_date hotel.checkout_time hotel.timezone now
    if due
        then (do close stay (room_of stay) now; close_all now hotel_of room_of stays (closed + 1))
        else close_all now hotel_of room_of stays closed

  unfoldable pub close_overdue_stays : Exec orm ℕ
  unfolding iso_date
  close_overdue_stays = do
    now ← gets (λ w. w.now)
    let horizon = iso_date (now + 86_400_000)
    candidates ← gets (λ w. orm.find (candidate horizon) w.stays)
    -- the two relations are loaded with the candidates
    hotel_of ← gets (λ w (s : Stay). orm.find_one (λ h. h.id == s.hotel_id) w.hotels)
    room_of ← gets (λ w (s : Stay). orm.find_one (λ r. r.id == s.room_id) w.rooms)
    close_all now hotel_of room_of candidates 0
