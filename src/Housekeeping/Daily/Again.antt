-- ===== src/Housekeeping/Daily/Again.antt =====
-- A second tick of the daily job: src/modules/housekeeping/housekeeping-scheduler.service.ts.
use mathlib.Core.Path.{subst}
use hotello_backend.Common.{
  ℕ, ◌≡◌, refl, sym, inl, inr, Bool, true, false, Bool-cases, List, [], ◌∷◌, All, length, Text,
  ◌==◌, ◌&&◌, arith,
}
use hotello_backend.Store.{TypeOrm, Covered, find-All}
use hotello_backend.Model.People.{Hotel}
use hotello_backend.Model.Rooms.{Room}
use hotello_backend.Exec.{World, ok, final, pure, gets, ◌>>=◌}
use hotello_backend.Exec.Total.{Total-final}
use hotello_backend.Housekeeping.Rooms.{is_dnd, is_clean}
use hotello_backend.Housekeeping.Daily.{
  DailyCounts, is_stamped, is_occupied, release, flag_daily, release_all, flag_all, process_hotel,
}
use hotello_backend.Housekeeping.Daily.Passes.{asks, waits, Both}
use hotello_backend.Housekeeping.Daily.Served.{rooms_in, process_hotel-Total}

-- the counts of a tick that found nothing to do
abbrev pub nothing : DailyCounts
nothing = record { flagged = 0; released = 0 }

module _ (orm : TypeOrm) (hotel : Hotel) (date : Text) where
  abbrev AllStamped : List Room → Type 0
  AllStamped rooms = All (λ r. is_stamped date r.last_daily_flagged_on ≡ true) rooms

  release_all_idle :
      (occupied : List ℕ) (rooms : List Room) (counts : DailyCounts) (w : World orm)
      → AllStamped rooms
      → release_all orm hotel date occupied rooms counts w ≡ ok counts w
  unfolding release_all release pure ◌>>=◌
  release_all_idle occupied [] counts w _ = refl
  release_all_idle occupied (r ∷ rooms) counts w (h, hs) =
      rw (h, release_all_idle occupied rooms counts w hs)

  flag_all_idle :
      (rooms : List Room) (counts : DailyCounts) (w : World orm)
      → AllStamped rooms
      → flag_all orm hotel date rooms counts w ≡ ok counts w
  unfolding flag_all flag_daily pure ◌>>=◌
  flag_all_idle [] counts w _ = refl
  flag_all_idle (r ∷ rooms) counts w (h, hs) = rw (h, flag_all_idle rooms counts w hs)

  -- a covered test that fails only on stamped rooms
  found-AllStamped :
      (test due : Room → Bool) (w : World orm)
      → ((r : Room)
          → test r ≡ true
          → is_stamped date r.last_daily_flagged_on ≡ false
          → due r ≡ true)
      → Covered orm {key = λ r. r.id} due w.rooms []
      → AllStamped (orm.find test w.rooms)
  found-AllStamped test due w fits covered =
      find-All orm (λ r. is_stamped date r.last_daily_flagged_on ≡ true) test w.rooms
        λ k r stored passed. elim (Bool-cases (is_stamped date r.last_daily_flagged_on)) [
          | inl marked ↦ marked
          | inr unmarked ↦ elim (covered k r stored (fits r passed unmarked)) [ ]
        ]

  process_hotel_idle :
      (w : World orm)
      → Both orm hotel date w.stays (rooms_in orm hotel date w.stays) [] w
      → process_hotel orm hotel date w ≡ ok nothing w
  unfolding process_hotel gets pure ◌>>=◌
  process_hotel_idle w (_, (asked, waited)) =
      let occupied = rooms_in orm hotel date w.stays in
      let first =
        release_all_idle occupied
          (orm.find (λ r. r.hotel_id == hotel.id && is_dnd r.housekeeping_status) w.rooms) nothing w
          (found-AllStamped _ (asks orm hotel date) w (λ r p q. ground arith) asked) in
      let second =
        flag_all_idle
          (orm.find
            (λ r.
              is_occupied occupied r.id && r.hotel_id == hotel.id && is_clean r.housekeeping_status)
            w.rooms)
          nothing w
          (found-AllStamped _ (waits orm hotel date occupied) w (λ r p q. ground arith) waited) in
      elim (Bool-cases (length occupied == 0)) [
        | inl e ↦ rw (first, e)
        | inr e ↦ rw (first, e, second)
      ]

  -- A second run of the daily job of a hotel under the same date, whatever the first one did, finds
  -- nothing to do: it returns the counts zero and zero and leaves every table as it was.
  pub process_hotel_twice :
      (w : World orm)
      → process_hotel orm hotel date (final (process_hotel orm hotel date w))
        ≡ ok nothing (final (process_hotel orm hotel date w))
  process_hotel_twice w =
      let after = final (process_hotel orm hotel date w) in
      let done = Total-final (process_hotel-Total orm hotel date w.stays) w refl in
      process_hotel_idle after
        (subst (λ t. Both orm hotel date t (rooms_in orm hotel date t) [] after) (sym done.0) done)
