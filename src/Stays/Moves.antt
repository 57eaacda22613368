-- ===== src/Stays/Moves.antt =====
-- src/modules/tenant-stays/tenant-stays.service.ts: `changeRoom`, `regenerateCode`, `checkout`.
use hotello_backend.Common.{ℕ, not, Option, none, some, [], ◌∷◌, Text, ◌==◌, if◌then◌else◌}
use hotello_backend.Store.{TypeOrm}
use hotello_backend.Clock.{Intl}
use hotello_backend.Model.People.{TenantUser}
use hotello_backend.Model.Rooms.{Room}
use hotello_backend.Model.Stays.{Stay, StayStatus, manual}
use hotello_backend.Model.Effects.{Detail, word}
use hotello_backend.Exec.{internal_error, Exec, pure, gets, from_option, when, ◌>>=◌, ◌>>◌}
use hotello_backend.Shared.{is_id}
use hotello_backend.Housekeeping.Hooks.{on_room_vacated}
use hotello_backend.Stays.Codes.{issue_unique_code}
use hotello_backend.Stays.CheckIn.{WithCode}
use hotello_backend.Stays.Shared.{
  StayView, to_view, load_hotel, find_stay, find_room, find_stay_in_hotel, assert_active,
  lock_available_room, save_stay, audit, loaded_room, record_room_change,
}

pub record Moved : Type 0 where
  pub stay : Stay
  pub from : Option Room
  pub to : Room

abbrev pub room_id_of : Option Room → Option ℕ
room_id_of none = none
room_id_of (some r) = some r.id

abbrev pub number_of : Option Room → Detail
number_of none = Detail.null
number_of (some r) = Detail.text r.room_number

module _ (orm : TypeOrm) (intl : Intl) where
  -- the branch of the transaction that moves the stay
  unfoldable pub move_stay : ℕ → Stay → Option Room → ℕ → Exec orm Moved
  move_stay hotel_id stay from room_id = do
    to ← lock_available_room orm hotel_id room_id
    let saved = record stay { room_id = to.id }
    save_stay orm saved
    pure (record { stay = saved; from = from; to = to })

  -- a move to the room that the stay is in changes nothing
  unfoldable pub stay_put : Stay → Option Room → Exec orm Moved
  stay_put stay from = do
    to ← from_option internal_error from
    pure (record { stay = stay; from = from; to = to })

  -- the hook on the room that is left, if it was found
  unfoldable pub vacate_from : TenantUser → Option Room → Exec orm (Unit {0})
  vacate_from actor from = elim from [
    | none ↦ pure tt
    | some room ↦ on_room_vacated orm room.id actor.hotel_id (some actor.id)
  ]

  unfoldable pub change_room : TenantUser → ℕ → ℕ → Exec orm StayView
  change_room actor id room_id = do
    _ ← load_hotel orm actor.hotel_id
    stay ← find_stay orm actor.hotel_id id
    assert_active orm stay
    from ← find_room orm stay.room_id
    moved ←
        (if stay.room_id == room_id
          then stay_put stay from
          else move_stay actor.hotel_id stay from room_id)
    when (not (is_id (room_id_of moved.from) moved.to.id)) (do
      vacate_from actor moved.from
      audit orm "stay.room_changed" moved.stay.id actor
          (("from", number_of moved.from) ∷ ("to", Detail.text moved.to.room_number) ∷ [])
      record_room_change orm actor.hotel_id moved.stay.id (room_id_of moved.from) moved.to.id)
    hotel ← load_hotel orm actor.hotel_id
    gets (to_view orm intl moved.stay moved.to (some hotel))

  unfoldable pub regenerate_code : (Text → ℕ) → TenantUser → ℕ → Exec orm WithCode
  regenerate_code hash actor id = do
    loaded ← find_stay_in_hotel orm actor.hotel_id id
    assert_active orm loaded.stay
    issued ← issue_unique_code orm hash actor.hotel_id
    let stay = record loaded.stay { code_hash = issued.code_hash }
    save_stay orm stay
    audit orm "stay.code_regenerated" stay.id actor []
    hotel ← load_hotel orm actor.hotel_id
    room ← loaded_room orm loaded.room
    view ← gets (to_view orm intl stay room (some hotel))
    pure (record { stay = view; code = issued.code })

  abbrev pub checked_out_stay : ℕ → ℕ → Stay → Stay
  checked_out_stay now user_id stay = record stay {
    status = StayStatus.checked_out;
    checkout_type = some manual;
    checked_out_at = some now;
    checked_out_by_id = some user_id;
  }

  unfoldable pub checkout : TenantUser → ℕ → Exec orm StayView
  checkout actor id = do
    loaded ← find_stay_in_hotel orm actor.hotel_id id
    assert_active orm loaded.stay
    now ← gets (λ w. w.now)
    let stay = checked_out_stay now actor.id loaded.stay
    save_stay orm stay
    on_room_vacated orm stay.room_id actor.hotel_id (some actor.id)
    room ← loaded_room orm loaded.room
    audit orm "stay.checked_out" stay.id actor
        (("checkoutType", word "manual") ∷ ("roomNumber", Detail.text room.room_number) ∷ [])
    gets (to_view orm intl stay room none)
