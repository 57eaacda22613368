-- ===== src/Witnesses/Guests.antt =====
-- The theorems on requests and on the quiet hours, applied.
use hotello_backend.Common.{
  ℕ, ◌+◌, ◌*◌, ◌%◌, ◌<◌, ◌≤◌, ◌≡◌, ◌⊎◌, refl, Bool, inl, inr, none, some, Text, [], ◌∷◌, arith, ltb,
  if◌then◌else◌,
}
use hotello_backend.Store.{AllRows, AllRows-save}
use hotello_backend.Clock.{Intl, minutes_of, hotel_local_parts}
use hotello_backend.Exec.{World}
use hotello_backend.Model.Requests.{GuestRequest, in_progress, done}
use hotello_backend.Push.{quiet_hold, quiet_hold_ends}
use hotello_backend.Requests.Reach.{
  complete_call, perform, here, after, IsStamped, Reach-IsStamped, Reach-Stores,
}
use hotello_backend.Witnesses.Database.{database}
use hotello_backend.Witnesses.Samples.{frozen, the_user, the_world, AllRows-nil}

abbrev the_request : GuestRequest
the_request = record {
  id = 21;
  hotel_id = 1;
  stay_id = 9;
  room_id = 7;
  room_number = b'7' ∷ [];
  item_id = 3;
  category_id = 2;
  item_names = [];
  option_type = none;
  option_value = none;
  note = none;
  note_language = none;
  status = in_progress;
  sla_target_minutes = 30;
  due_at = 0;
  assigned_to_id = some 5;
  started_at = some 10;
  started_by_id = some 5;
  completed_at = none;
  completed_by_id = none;
  cancelled_at = none;
  cancelled_by_id = none;
  cancelled_reason = none;
  cancel_note = none;
  created_at = 0;
}

abbrev the_done_request : GuestRequest
the_done_request = record the_request {
  status = done;
  completed_at = some 40;
  completed_by_id = some 5;
}

abbrev asked_world : World database
asked_world = record the_world { requests = the_request ∷ [] }

abbrev done_world : World database
done_world = record the_world { requests = the_done_request ∷ [] }

the_request-IsStamped : IsStamped the_request
the_request-IsStamped = ground arith

Reach-IsStamped_example :
    AllRows database {key = λ (r : GuestRequest). r.id} IsStamped
      (perform database (complete_call the_user 21) asked_world).requests
Reach-IsStamped_example =
    Reach-IsStamped database asked_world (perform database (complete_call the_user 21) asked_world)
      (after (complete_call the_user 21) here)
      (AllRows-save database {key = λ (r : GuestRequest). r.id} IsStamped the_request []
        the_request-IsStamped (AllRows-nil (λ (r : GuestRequest). r.id) IsStamped))

Reach-Stores_example :
    database.get {key = λ (r : GuestRequest). r.id}
      (perform database (complete_call the_user 21) done_world).requests
      21
    ≡ some the_done_request
Reach-Stores_example =
    Reach-Stores database done_world (perform database (complete_call the_user 21) done_world) 21
      the_done_request (after (complete_call the_user 21) here) refl (inl refl)

-- a clock that shows 12:58 in the first minute, 12:59 in the second and 13:00 after that
abbrev shown_hour : Bool → Text
shown_hour early = if early then b'1' ∷ b'2' ∷ [] else b'1' ∷ b'3' ∷ []

abbrev shown_minute : Bool → Bool → Text
shown_minute first early =
    if first then b'5' ∷ b'8' ∷ [] else if early then b'5' ∷ b'9' ∷ [] else b'0' ∷ b'0' ∷ []

abbrev ticking : Intl
ticking = record frozen {
  format_to_parts = λ timezone now. record (frozen.format_to_parts timezone now) {
    hour = shown_hour (ltb now 120_000);
    minute = shown_minute (ltb now 60_000) (ltb now 120_000);
  };
}

-- quiet from eleven to one
abbrev eleven : Text
eleven = b'1' ∷ b'1' ∷ b':' ∷ b'0' ∷ b'0' ∷ []

abbrev one : Text
one = b'1' ∷ b'3' ∷ b':' ∷ b'0' ∷ b'0' ∷ []

eleven_daily : minutes_of eleven < 1440
unfolding minutes_of
eleven_daily = omega arith

one_daily : minutes_of one < 1440
unfolding minutes_of
one_daily = omega arith

late_daily : (hotel_local_parts ticking [] 100).minutes < 1440
unfolding hotel_local_parts
late_daily = omega arith

held_late : quiet_hold ticking [] 100 eleven one ≡ some 120_100
unfolding quiet_hold
held_late = refl

ticks :
    (k : ℕ)
    → 100 + k * 60_000 ≤ 120_100
    → (hotel_local_parts ticking [] (100 + k * 60_000)).minutes
      ≡ ((hotel_local_parts ticking [] 100).minutes + k) % 1440
unfolding hotel_local_parts
ticks k within = elim (cases k within) [
  | inl e ↦ rw e refl
  | inr (inl e) ↦ rw e refl
  | inr (inr e) ↦ rw e refl
]
  where
    cases : (k : ℕ) → 100 + k * 60_000 ≤ 120_100 → (k ≡ 0) ⊎ (k ≡ 1) ⊎ (k ≡ 2)
    cases k within = ground arith

quiet_hold_ends_example :
    (d : ℕ) × (120_100 ≡ 100 + d * 60_000)
    × (quiet_hold ticking [] 120_100 eleven one ≡ none)
    × ((k : ℕ) → k < d → quiet_hold ticking [] (100 + k * 60_000) eleven one ≡ some 120_100)
quiet_hold_ends_example =
    quiet_hold_ends ticking [] 100 eleven one 120_100 eleven_daily one_daily late_daily held_late
      ticks
