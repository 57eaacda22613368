-- ===== src/Housekeeping/Daily/Served.antt =====
-- The daily job serves every room, once: src/modules/housekeeping/housekeeping-scheduler.service.ts.
use mathlib.Core.List.{Memᴰ}
use mathlib.Core.List.Memᴰ
use mathlib.Core.Path.{subst}
use hotello_backend.Common.{
  ℕ, ◌≡◌, refl, sym, ap, inl, inr, true, false, ◌&&◌, Bool-cases, some, List, [], ◌∷◌, map, any,
  length, Text, ◌==◌, arith,
}
use hotello_backend.Store.{TypeOrm}
use hotello_backend.Model.People.{Hotel}
use hotello_backend.Model.Rooms.{Room}
use hotello_backend.Model.Stays.{Stay}
use hotello_backend.Exec.{World, ok, final}
use hotello_backend.Exec.Total.{
  Total, Returns-ok, Total-pure, Total-gets, Total-if, Total-bind, Total-bind_value, Total-final,
}
use hotello_backend.Shared.{is_active_stay}
use hotello_backend.Housekeeping.Rooms.{is_dnd, is_clean}
use hotello_backend.Housekeeping.Daily.Passes.{waits, Left, Both, release_all-Total, flag_all-Total}
use hotello_backend.Common.{◌⊎◌}
use hotello_backend.Housekeeping.Daily.{DailyCounts, is_stamped, is_occupied, process_hotel}

is_occupied-map :
    (rooms : List Stay) (stay : Stay)
    → Memᴰ stay rooms
    → is_occupied (map (λ (s : Stay). s.room_id) rooms) stay.room_id ≡ true
unfolding is_occupied any
is_occupied-map [] stay m = elim m [ ]
is_occupied-map (s ∷ rooms) stay m = elim (Memᴰ.cases_cons m) [
  | inl e ↦
      let same : s.room_id ≡ stay.room_id = ap (λ (x : Stay). x.room_id) (sym e) in ground arith
  | inr t ↦ let r = is_occupied-map rooms stay t in ground arith
]

module _ (orm : TypeOrm) (hotel : Hotel) (date : Text) where
  -- a room that the daily job is for
  abbrev pub Due : orm.Table Stay (λ s. s.id) → Room → Type 0
  Due stays room =
      (is_dnd room.housekeeping_status ≡ true)
      ⊎ ((is_clean room.housekeeping_status ≡ true)
          × ((id : ℕ) × (stay : Stay) × (orm.get stays id ≡ some stay)
              × (stay.hotel_id ≡ hotel.id)
              × (is_active_stay stay ≡ true)
              × (stay.room_id ≡ room.id)))

  module _ (stays : orm.Table Stay (λ s. s.id)) where
    -- the rooms with a stay in the house
    abbrev pub stays_in : List Stay
    stays_in = orm.find (λ s. s.hotel_id == hotel.id && is_active_stay s) stays

    abbrev pub rooms_in : List ℕ
    rooms_in = map (λ (s : Stay). s.room_id) stays_in

    none_in :
        (occupied : List ℕ) (r : Room)
        → length occupied == 0 ≡ true
        → waits orm hotel date occupied r ≡ false
    unfolding is_occupied any
    none_in [] r e = refl
    none_in (i ∷ occupied) r e = ground arith

    pub process_hotel-Total :
        Total
          (λ w. w.stays ≡ stays)
          (λ _. Both orm hotel date stays rooms_in [])
          (process_hotel orm hotel date)
    unfolding process_hotel
    process_hotel-Total =
        Total-bind_value {Q = λ (w : World orm). w.stays ≡ stays} stays_in _ _
          (Total-gets _ (λ w h. (ap (orm.find _) (sym h), h)))
          (Total-bind {Q = Left orm hotel date stays} _ _
            (Total-gets _ (λ w h.
              (h, λ k r stored passed. orm.find-complete _ w.rooms k r stored (ground arith))))
            λ rooms.
              Total-bind {Q = λ _. Left orm hotel date stays []} _ _
                (release_all-Total orm hotel date stays rooms_in rooms _)
                λ counts.
                  Total-if (length rooms_in == 0) _ _
                    (λ e. Total-pure counts (λ w h. (
                      h.0,
                      (h.1, λ k r stored passed. absurd (let empty = none_in rooms_in r e in cc)),
                    )))
                    λ e.
                      Total-bind {Q = Both orm hotel date stays rooms_in} _ _
                        (Total-gets _ (λ w h. (
                          h.0,
                          (
                            h.1,
                            λ k r stored passed.
                                orm.find-complete _ w.rooms k r stored (ground arith),
                          ),
                        )))
                        λ candidates.
                          flag_all-Total orm hotel date stays rooms_in candidates counts)

    -- what is left to do after the two passes
    settled :
        (w : World orm) (k : ℕ) (room : Room)
        → Both orm hotel date stays rooms_in [] w
        → orm.get w.rooms k ≡ some room
        → room.hotel_id ≡ hotel.id
        → Due stays room
        → is_stamped date room.last_daily_flagged_on ≡ true
    settled w k room (_, (asked, waited)) stored own due =
        elim (Bool-cases (is_stamped date room.last_daily_flagged_on)) [
          | inl marked ↦ marked
          | inr unmarked ↦ elim due [
            | inl under_dnd ↦ elim (asked k room stored (ground arith)) [ ]
            | inr (is_cleaned, (id, stay, there, same, current, in_room)) ↦
                let found =
                  orm.find-complete (λ s. s.hotel_id == hotel.id && is_active_stay s) stays id stay
                    there (ground arith) in
                let occupied = is_occupied-map stays_in stay found in
                let occupied' : is_occupied rooms_in room.id ≡ true =
                  subst (λ i. is_occupied rooms_in i ≡ true) in_room occupied in
                elim (waited k room stored (ground arith)) [ ]
          ]
        ]

  -- The daily job of a hotel returns and leaves no work behind: every stored room of the hotel that is
  -- afterwards under Do-Not-Disturb, or clean while an active stay of the hotel is in it, carries the
  -- stamp of the day, so it is a room that had its turn.
  pub process_hotel_serves :
      (w : World orm) (k : ℕ) (room : Room)
      → orm.get (final (process_hotel orm hotel date w)).rooms k ≡ some room
      → room.hotel_id ≡ hotel.id
      → Due w.stays room
      → ((n : DailyCounts) × (v : World orm) × (process_hotel orm hotel date w ≡ ok n v))
        × (is_stamped date room.last_daily_flagged_on ≡ true)
  process_hotel_serves w k room stored own due =
      let done = process_hotel-Total w.stays in
      let (n, v, e, _) =
        Returns-ok (λ _. Both orm hotel date w.stays (rooms_in w.stays) [])
          (process_hotel orm hotel date w) (done.at w refl) in
      (
        (n, v, e),
        settled w.stays (final (process_hotel orm hotel date w)) k room (Total-final done w refl)
            stored own due,
      )
