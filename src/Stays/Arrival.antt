-- ===== src/Stays/Arrival.antt =====
-- A check-in from end to end: `checkIn` of src/modules/tenant-stays/tenant-stays.service.ts with the codes
-- of src/modules/tenant-stays/stay-code.service.ts.
use mathlib.Core.Path.{subst}
use hotello_backend.Common.{
  ℕ, ◌<◌, ◌≡◌, refl, sym, ap, inl, inr, true, Option, Option-cases, some, none, Text, ◌&&◌, ◌==◌,
  text_lt, arith,
}
use hotello_backend.Store.{TypeOrm, get-save_self, find_one-get}
use hotello_backend.Clock.{Intl}
use hotello_backend.Model.People.{Hotel, TenantUser}
use hotello_backend.Model.Rooms.{Room, RoomStatus}
use hotello_backend.Model.Stays.{Stay, active}
use hotello_backend.Exec.{World, ok}
use hotello_backend.Exec.Total.{
  Total, Returns-ok, Total-pure, Total-gets, Total-guard, Total-modify, Total-bind,
  Total-bind_value, Total-pre, Total-then, Total-from_option,
}
use hotello_backend.Shared.{log}
use hotello_backend.Stays.Changes.{StayTable, IsFree}
use hotello_backend.Stays.Codes.{IssuedCode, issue_unique_code}
use hotello_backend.Stays.Shared.{
  occupies, is_available, load_hotel, assert_dates_valid, lock_available_room, save_stay, audit,
}
use hotello_backend.Stays.CheckIn.{CreateStayDto, WithCode, new_stay, emit_code, check_in}
use hotello_backend.Stays.Issued.{IsUnclaimed, Issued, issue-Total}

module _ (orm : TypeOrm) where
  -- a free room has no active stay to find
  IsFree-none :
      (t : StayTable orm) (room_id : ℕ)
      → IsFree orm t room_id
      → orm.find_one (occupies orm room_id) t ≡ none
  IsFree-none t room_id free = elim (Option-cases (orm.find_one (occupies orm room_id) t)) [
    | inl missed ↦ missed
    | inr (s, hit) ↦
        let (stored, passed) = orm.find_one-some (occupies orm room_id) t s hit in
        absurd (free s.id s stored (ground arith) (ground arith))
  ]

module _ (orm : TypeOrm) (intl : Intl) (hash : Text → ℕ) (actor : TenantUser) (hotel : Hotel)
    (room : Room) (dto : CreateStayDto) where
  -- what a check-in needs: the hotel, a room of it that is free, and an unused code in reach
  pub record IsReady (w : World orm) : Type 0 where
    pub dated : text_lt dto.check_in_date dto.check_out_date ≡ true
    pub hotel_stored : orm.get w.hotels actor.hotel_id ≡ some hotel
    pub hotel_id : hotel.id ≡ actor.hotel_id
    pub room_stored : orm.get w.rooms dto.room_id ≡ some room
    pub room_id : room.id ≡ dto.room_id
    pub room_own : room.hotel_id ≡ actor.hotel_id
    pub room_active : room.status ≡ RoomStatus.active
    pub room_free : IsFree orm w.stays room.id
    pub attempt : ℕ
    pub in_reach : attempt < 20
    pub unclaimed : IsUnclaimed orm hash actor.hotel_id attempt w

  -- the row that the guest gets
  abbrev pub Entered : World orm → Text → World orm → Type 0
  Entered w code v =
      (s : Stay) × (orm.get v.stays s.id ≡ some s)
      × (orm.get w.stays s.id ≡ none)
      × (s.status ≡ active)
      × (s.room_id ≡ dto.room_id)
      × (s.hotel_id ≡ actor.hotel_id)
      × (s.code_hash ≡ hash code)

  hotel_found :
      (w : World orm)
      → IsReady w
      → Total (λ v. v ≡ w) (λ x v. (hotel ≡ x) × (v ≡ w)) (load_hotel orm actor.hotel_id)
  unfolding load_hotel
  hotel_found w h =
      Total-bind_value {Q = λ v. v ≡ w} (some hotel) _ _
        (Total-gets _ (λ v e. (
          subst
              (λ (u : World orm). some hotel ≡ orm.find_one (λ x. x.id == actor.hotel_id) u.hotels)
              (sym e)
              (sym (
                find_one-get orm _ w.hotels actor.hotel_id hotel (λ x p. ground arith)
                  h.hotel_stored (ground (arith, h.hotel_id)))),
          e,
        )))
        (Total-from_option _ (some hotel) (λ v e. (hotel, refl, (refl, e))))

  room_found :
      (w : World orm)
      → IsReady w
      → Total
          (λ v. v ≡ w)
          (λ x v. (room ≡ x) × (v ≡ w))
          (lock_available_room orm actor.hotel_id dto.room_id)
  unfolding lock_available_room
  room_found w h =
      Total-bind_value {Q = λ v. v ≡ w} (some room) _ _
        (Total-gets _ (λ v e. (
          subst
              (λ (u : World orm).
                some room
                ≡ orm.find_one (λ x. x.id == dto.room_id && x.hotel_id == actor.hotel_id) u.rooms)
              (sym e)
              (sym (
                find_one-get orm _ w.rooms dto.room_id room (λ x p. ground arith) h.room_stored
                  (ground (arith, h.room_id, h.room_own)))),
          e,
        )))
        (Total-bind_value {Q = λ v. v ≡ w} room _ _
          (Total-from_option _ (some room) (λ v e. (room, refl, (refl, e))))
          (Total-then {Q = λ v. v ≡ w} _ _
            (Total-guard (is_available room.status) _ (ground (arith, h.room_active)) (λ v e. e))
            (Total-bind_value {Q = λ v. v ≡ w} none _ _
              (Total-gets _ (λ v e. (
                subst (λ (u : World orm). none ≡ orm.find_one (occupies orm room.id) u.stays)
                    (sym e) (sym (IsFree-none orm w.stays room.id h.room_free)),
                e,
              )))
              (Total-then {Q = λ v. v ≡ w} _ _ (Total-guard true _ refl (λ v e. e))
                (Total-pure room (λ v e. (refl, e)))))))

  code-Issued :
      (w : World orm)
      → IsReady w
      → Total (λ v. v ≡ w) (Issued orm hash w.stays) (issue_unique_code orm hash actor.hotel_id)
  unfolding issue_unique_code
  code-Issued w h =
      Total-pre _
        (λ v e.
          subst
            (λ (u : World orm).
              (u.stays ≡ w.stays) × IsUnclaimed orm hash actor.hotel_id h.attempt u)
            (sym e) (refl, h.unclaimed))
        (issue-Total orm hash w.stays actor.hotel_id 20 h.attempt h.in_reach)

  emitted :
      (w : World orm) (code : Text) (email : Option Text) (s : Stay)
      → Total (Entered w code) (λ _. Entered w code) (emit_code orm email s room code)
  unfolding emit_code
  emitted w code none s = Total-pure tt (λ v e. e)
  emitted w code (some email) s = Total-modify _ (λ v e. e)

  saved :
      (w : World orm) (c : IssuedCode)
      → IsReady w
      → Total
          (Issued orm hash w.stays c)
          (λ _. Entered w c.code)
          (save_stay orm
            (new_stay (orm.generate_id w.stays) actor.hotel_id hotel room c.code_hash dto))
  unfolding save_stay new_stay
  saved w c h = Total-modify _ (λ v e. (
    new_stay (orm.generate_id w.stays) actor.hotel_id hotel room c.code_hash dto,
    get-save_self orm (new_stay (orm.generate_id w.stays) actor.hotel_id hotel room c.code_hash dto)
        v.stays,
    orm.get-generate_id w.stays,
    refl,
    h.room_id,
    refl,
    e.1,
  ))

  check_in-Total :
      (w : World orm)
      → IsReady w
      → Total (λ v. v ≡ w) (λ r. Entered w r.code) (check_in orm intl hash actor dto)
  unfolding check_in assert_dates_valid audit log
  check_in-Total w h = Total-then {Q = λ v. v ≡ w} _ _ (Total-guard _ _ h.dated (λ v e. e)) (
      Total-bind_value {Q = λ v. v ≡ w} hotel _ _ (hotel_found w h) (
        Total-bind_value {Q = λ v. v ≡ w} room _ _ (room_found w h) (
          Total-bind _ _ (code-Issued w h) λ c.
            Total-bind_value {Q = Issued orm hash w.stays c} (orm.generate_id w.stays) _ _
              (Total-gets _ (λ v e. (ap orm.generate_id (sym e.0), e)))
              (Total-then {Q = Entered w c.code} _ _ (saved w c h) (
                Total-then {Q = Entered w c.code} _ _ (Total-modify _ (λ v e. e)) (
                  Total-then {Q = Entered w c.code} _ _ (emitted w c.code _ _) (
                    Total-bind {Q = λ _. Entered w c.code} _ _ (Total-gets _ (λ v e. e))
                      λ view. Total-pure _ (λ v e. e))))))))

-- A check-in into a free, active room of the user's hotel, with the dates in order and an unused code among
-- the next 20 draws, always succeeds: it stores a new active stay in that room and hotel, under the
-- hash of the code that it returns.
pub check_in_enters :
    (orm : TypeOrm) (intl : Intl) (hash : Text → ℕ) (actor : TenantUser) (hotel : Hotel)
    (room : Room) (dto : CreateStayDto) (w : World orm)
    → IsReady orm intl hash actor hotel room dto w
    → (r : WithCode) × (v : World orm) × (check_in orm intl hash actor dto w ≡ ok r v)
      × Entered orm intl hash actor hotel room dto w r.code v
check_in_enters orm intl hash actor hotel room dto w h =
    Returns-ok (λ r. Entered orm intl hash actor hotel room dto w r.code)
      (check_in orm intl hash actor dto w)
      ((check_in-Total orm intl hash actor hotel room dto w h).at w refl)
