-- ===== src/Witnesses/Stays.antt =====
-- The theorems on stays, applied.
use hotello_backend.Common.{ℕ, ◌≡◌, refl, some, none, Text, text_lt, [], ◌∷◌, length, arith}
use hotello_backend.Exec.{World, ok}
use hotello_backend.Model.People.{TenantUser}
use hotello_backend.Model.Stays.{Stay, en}
use hotello_backend.Stays.AutoCheckout.{closed_stay}
use hotello_backend.Stays.Unique.{IsUnique}
use hotello_backend.Stays.Reach.{
  checkout_call, perform, Reach, here, next, call, Reach-IsUnique, Reach_final, perform_isolated,
}
use hotello_backend.Model.Rooms.{Room}
use hotello_backend.Housekeeping.Vacated.{vacated_room}
use hotello_backend.Stays.Shared.{StayView}
use hotello_backend.Stays.CheckIn.{CreateStayDto, WithCode, check_in}
use hotello_backend.Stays.Moves.{checked_out_stay, checkout}
use hotello_backend.Stays.Arrival.{IsReady, Entered, check_in_enters}
use hotello_backend.Stays.Departure.{checkout_leaves}
use hotello_backend.Witnesses.Database.{database}
use hotello_backend.Witnesses.Samples.{
  frozen, the_user, the_world, the_stay, the_room, the_hotel, today,
}

abbrev code_length : Text → ℕ
code_length code = length code

the_world-IsUnique : IsUnique database the_world.stays
the_world-IsUnique j k a b ja kb la lb o = ground arith

-- the stay is checked out and the call is repeated
abbrev once : World database
once = perform database frozen code_length the_user (checkout_call 9) the_world

abbrev after_checkout : Reach database frozen code_length the_world once
after_checkout = next here (call the_user (checkout_call 9) the_world)

Reach-IsUnique_example : IsUnique database once.stays
Reach-IsUnique_example =
    Reach-IsUnique database frozen code_length the_world once after_checkout the_world-IsUnique

abbrev closed_world : World database
closed_world = record the_world { stays = closed_stay 50 the_stay ∷ [] }

Reach_final_example :
    database.get {key = λ (s : Stay). s.id}
      (perform database frozen code_length the_user (checkout_call 9) closed_world).stays
      9
    ≡ some (closed_stay 50 the_stay)
Reach_final_example =
    Reach_final database frozen code_length closed_world
      (perform database frozen code_length the_user (checkout_call 9) closed_world) 9
      (closed_stay 50 the_stay) (next here (call the_user (checkout_call 9) closed_world)) refl refl

abbrev other_user : TenantUser
other_user = record the_user { hotel_id = 2 }

perform_isolated_example :
    database.get {key = λ (s : Stay). s.id}
      (perform database frozen code_length other_user (checkout_call 9) the_world).stays
      9
    ≡ some the_stay
perform_isolated_example =
    perform_isolated database frozen code_length other_user (checkout_call 9) the_world 9 the_stay
      refl (λ e. omega arith)

-- an empty hotel, and a guest for the room
abbrev empty_world : World database
empty_world = record the_world { stays = [] }

abbrev the_dto : CreateStayDto
the_dto = record {
  room_id = 7;
  guest_name = b'A' ∷ [];
  email = none;
  phone = none;
  language = en;
  guests_count = none;
  note = none;
  stay_type = none;
  check_in_date = today;
  check_out_date = b'3' ∷ [];
}

ready : IsReady database frozen code_length the_user the_hotel the_room the_dto empty_world
unfolding text_lt
ready = record {
  dated = refl;
  hotel_stored = refl;
  hotel_id = refl;
  room_stored = refl;
  room_id = refl;
  room_own = refl;
  room_active = refl;
  room_free = λ k s e. cc;
  attempt = 0;
  in_reach = omega arith;
  unclaimed = refl;
}

check_in_enters_example :
    (r : WithCode) × (v : World database) × (check_in database frozen code_length the_user the_dto
        empty_world
      ≡ ok r v)
    × Entered database frozen code_length the_user the_hotel the_room the_dto empty_world r.code v
check_in_enters_example =
    check_in_enters database frozen code_length the_user the_hotel the_room the_dto empty_world
      ready

checkout_leaves_example :
    (view : StayView) × (v : World database) × (checkout database frozen the_user 9 the_world
      ≡ ok view v)
    × ((database.get {key = λ (s : Stay). s.id} v.stays 9
          ≡ some (checked_out_stay database frozen 100 5 the_stay))
        × (database.get {key = λ (r : Room). r.id} v.rooms 7 ≡ some (vacated_room the_room)))
checkout_leaves_example =
    checkout_leaves database frozen the_user the_room the_stay the_world refl refl refl refl refl
      refl
