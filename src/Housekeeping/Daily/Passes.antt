-- ===== src/Housekeeping/Daily/Passes.antt =====
-- What each pass of the daily job leaves to do: src/modules/housekeeping/housekeeping-scheduler.service.ts.

use hotello_backend.Common.{
  ℕ, ◌+◌, ◌≡◌, refl, Bool, true, false, not, ◌&&◌, some, List, [], ◌∷◌, Text, text_eq, ◌==◌,
  if◌then◌else◌, arith,
}
use hotello_backend.Store.{TypeOrm, Covered, Covered-save, Covered-skip, Covered-keep}
use hotello_backend.Model.People.{Hotel}
use hotello_backend.Model.Rooms.{Room, daily}
use hotello_backend.Model.Stays.{Stay}
use hotello_backend.Exec.{World, pure, ◌>>◌}
use hotello_backend.Exec.Total.{
  Total, Total-pure, Total-if, Total-modify, Total-when, Total-bind, Total-then,
}
use hotello_backend.Shared.{log}
use hotello_backend.Housekeeping.Transitions
use hotello_backend.Housekeeping.Transitions.{
  HkState, HkTransitionResult, moved, refused, transition, dnd_off,
}
use hotello_backend.Housekeeping.Rooms.{is_dnd, is_clean, state_of, save_room, record_event}
use hotello_backend.Housekeeping.Daily.{
  DailyCounts, is_stamped, is_occupied, released_room, flagged_room, log_release, log_flag, release,
  flag_daily, release_all, flag_all,
}

text_eq_refl : (s : Text) → text_eq s s ≡ true
unfolding text_eq
text_eq_refl [] = refl
text_eq_refl (c ∷ s) = ground (arith, text_eq_refl s)

is_stamped_refl : (date : Text) → is_stamped date (some date) ≡ true
unfolding is_stamped
is_stamped_refl date = text_eq_refl date

module _ (orm : TypeOrm) (hotel : Hotel) (date : Text) where
  -- a room under Do-Not-Disturb that the job of the day has not seen
  abbrev pub asks : Room → Bool
  asks r =
      (r.hotel_id == hotel.id && is_dnd r.housekeeping_status)
      && not (is_stamped date r.last_daily_flagged_on)

  -- a clean occupied room that the job of the day has not seen
  abbrev pub waits : List ℕ → Room → Bool
  waits occupied r =
      (is_occupied occupied r.id && r.hotel_id == hotel.id && is_clean r.housekeeping_status)
      && not (is_stamped date r.last_daily_flagged_on)

  module _ (stays : orm.Table Stay (λ s. s.id)) where
    abbrev pub Left : List Room → World orm → Type 0
    Left rooms w = (w.stays ≡ stays) × Covered orm {key = λ r. r.id} asks w.rooms rooms

    -- in the second pass both kinds of rooms are followed
    abbrev pub Both : List ℕ → List Room → World orm → Type 0
    Both occupied rooms w =
        (w.stays ≡ stays)
        × (Covered orm {key = λ r. r.id} asks w.rooms []
            × Covered orm {key = λ r. r.id} (waits occupied) w.rooms rooms)

    -- logging leaves the two tables alone
    log_release-Total :
        (K : orm.Table Room (λ r. r.id) → Type 0) (again : Bool) (r : Room)
        → Total
            (λ w. (w.stays ≡ stays) × K w.rooms)
            (λ _ w. (w.stays ≡ stays) × K w.rooms)
            (log_release orm hotel date again r)
    unfolding log_release log record_event
    log_release-Total K again r =
        Total-then {Q = λ (w : World orm). (w.stays ≡ stays) × K w.rooms} _ _
          (Total-modify _ (λ w h. h))
          (Total-then {Q = λ (w : World orm). (w.stays ≡ stays) × K w.rooms} _ _
            (Total-modify _ (λ w h. h)) (Total-when _ _ (Total-modify _ (λ w h. h)) (λ w h. h)))

    log_flag-Total :
        (K : orm.Table Room (λ r. r.id) → Type 0) (r : Room)
        → Total
            (λ w. (w.stays ≡ stays) × K w.rooms)
            (λ _ w. (w.stays ≡ stays) × K w.rooms)
            (log_flag orm hotel date r)
    unfolding log_flag log record_event
    log_flag-Total K r =
        Total-then {Q = λ (w : World orm). (w.stays ≡ stays) × K w.rooms} _ _
          (Total-modify _ (λ w h. h)) (Total-modify _ (λ w h. h))

    always :
        (room : Room) (code : Transitions.HkErrorCode)
        → transition (state_of room) dnd_off ≡ refused code
        → ⊥
    unfolding transition
    always room code e = ground arith

    not_clean :
        (occupied : List ℕ) (room : Room) (code : Transitions.HkErrorCode)
        → transition (state_of room) (Transitions.flag daily) ≡ refused code
        → waits occupied room ≡ false
    unfolding transition
    not_clean occupied room code e = ground arith

    released_stamped :
        (again : Bool) (s : HkState) (room : Room)
        → is_stamped date (released_room date again s room).last_daily_flagged_on ≡ true
    unfolding released_room
    released_stamped again s room = is_stamped_refl date

    released_same :
        (again : Bool) (s : HkState) (room : Room) → (released_room date again s room).id ≡ room.id
    unfolding released_room
    released_same again s room = refl

    saves_stamped :
        (room : Room) (rooms : List Room) (next : Room)
        → next.id ≡ room.id
        → is_stamped date next.last_daily_flagged_on ≡ true
        → Total (Left (room ∷ rooms)) (λ _. Left rooms) (save_room orm next)
    unfolding save_room
    saves_stamped room rooms next same stamped =
        Total-modify _
          (λ w h. (h.0, Covered-save orm asks w.rooms room next rooms same (ground arith) h.1))

    saves_flagged :
        (occupied : List ℕ) (room : Room) (rooms : List Room) (s : HkState)
        → Total
            (Both occupied (room ∷ rooms))
            (λ _. Both occupied rooms)
            (save_room orm (flagged_room date s room))
    unfolding save_room flagged_room
    saves_flagged occupied room rooms s = Total-modify _ (λ w h. (
      h.0,
      (
        Covered-keep orm asks w.rooms _ [] (ground (arith, is_stamped_refl date)) h.1.0,
        Covered-save orm (waits occupied) w.rooms room _ rooms refl
            (ground (arith, is_stamped_refl date)) h.1.1,
      ),
    ))

    release-Total :
        (occupied : List ℕ) (room : Room) (rooms : List Room) (counts : DailyCounts)
        → Total
            (Left (room ∷ rooms))
            (λ _. Left rooms)
            (release orm hotel date occupied room counts)
    unfolding release
    release-Total occupied room rooms counts =
        Total-if (is_stamped date room.last_daily_flagged_on) _ _
          (λ stamped.
            Total-pure counts
              (λ w h. (h.0, Covered-skip orm asks w.rooms room rooms (ground arith) h.1)))
          λ _. go (transition (state_of room) dnd_off) refl
      where
        go :
            (t : HkTransitionResult)
            → transition (state_of room) dnd_off ≡ t
            → Total {A = DailyCounts}
                (Left (room ∷ rooms))
                (λ _. Left rooms)
                (elim t [
                  | refused _ ↦ pure counts
                  | moved state ↦ do
                    let re_flagged = is_clean state.status && is_occupied occupied room.id
                    let saved = released_room date re_flagged state room
                    save_room orm saved
                    log_release orm hotel date re_flagged saved
                    pure (record {
                      flagged = if re_flagged then counts.flagged + 1 else counts.flagged;
                      released = counts.released + 1;
                    })
                ])
        go (refused _) e = absurd (always room _ e)
        go (moved s) e =
            Total-then {Q = Left rooms} _ _
              (saves_stamped room rooms (released_room date _ s room) (released_same _ s room)
                (released_stamped _ s room))
              (Total-then {Q = Left rooms} _ _
                (log_release-Total (λ t. Covered orm asks t rooms) _ _) (Total-pure _ (λ w h. h)))

    pub release_all-Total :
        (occupied : List ℕ) (rooms : List Room) (counts : DailyCounts)
        → Total (Left rooms) (λ _. Left []) (release_all orm hotel date occupied rooms counts)
    unfolding release_all
    release_all-Total occupied [] counts = Total-pure counts (λ w h. h)
    release_all-Total occupied (room ∷ rooms) counts =
        Total-bind _ _ (release-Total occupied room rooms counts)
          λ counts'. release_all-Total occupied rooms counts'

    flag-Total :
        (occupied : List ℕ) (room : Room) (rooms : List Room) (counts : DailyCounts)
        → Total
            (Both occupied (room ∷ rooms))
            (λ _. Both occupied rooms)
            (flag_daily orm hotel date room counts)
    unfolding flag_daily
    flag-Total occupied room rooms counts =
        Total-if (is_stamped date room.last_daily_flagged_on) _ _
          (λ stamped. Total-pure counts (λ w h. (
            h.0,
            (h.1.0, Covered-skip orm (waits occupied) w.rooms room rooms (ground arith) h.1.1),
          )))
          λ _. go (transition (state_of room) (Transitions.flag daily)) refl
      where
        go :
            (t : HkTransitionResult)
            → transition (state_of room) (Transitions.flag daily) ≡ t
            → Total {A = DailyCounts}
                (Both occupied (room ∷ rooms))
                (λ _. Both occupied rooms)
                (elim t [
                  | refused _ ↦ pure counts
                  | moved state ↦ do
                    let saved = flagged_room date state room
                    save_room orm saved
                    log_flag orm hotel date saved
                    pure (record counts { flagged = counts.flagged + 1 })
                ])
        go (refused _) e = Total-pure counts (λ w h. (
          h.0,
          (
            h.1.0,
            Covered-skip orm (waits occupied) w.rooms room rooms (not_clean occupied room _ e)
                h.1.1,
          ),
        ))
        go (moved s) e =
            Total-then {Q = Both occupied rooms} _ _ (saves_flagged occupied room rooms s) (
              Total-then {Q = Both occupied rooms} _ _
                (log_flag-Total (λ t. Covered orm asks t [] × Covered orm (waits occupied) t rooms)
                  _)
                (Total-pure _ (λ w h. h)))

    pub flag_all-Total :
        (occupied : List ℕ) (rooms : List Room) (counts : DailyCounts)
        → Total (Both occupied rooms) (λ _. Both occupied []) (flag_all orm hotel date rooms counts)
    unfolding flag_all
    flag_all-Total occupied [] counts = Total-pure counts (λ w h. h)
    flag_all-Total occupied (room ∷ rooms) counts =
        Total-bind _ _ (flag-Total occupied room rooms counts)
          λ counts'. flag_all-Total occupied rooms counts'
