-- ===== src/Witnesses/News.antt =====
-- The theorems on announcements, applied to a live one for a type of stay on a floor.
use hotello_backend.Common.{◌≡◌, ◌↔◌, true, none, some, [], ◌∷◌, Text}
use hotello_backend.Model.Rooms.{Room}
use hotello_backend.Announcements.{AudienceFilter, Announcement, live, is_visible_to_stay}
use hotello_backend.Announcements.Visible.{IsBefore, Reaches, is_visible_to_stay_iff}
use hotello_backend.Witnesses.Samples.{the_room, the_stay}

abbrev second_floor : Room
second_floor = record the_room { floor = some 2 }

abbrev audience : AudienceFilter
audience = record {
  stay_types = some (the_stay.stay_type ∷ []);
  floors = some (1 ∷ 2 ∷ []);
  room_ids = none;
  stay_id = none;
  stay_ids = some [];
}

abbrev pool_party : Announcement
pool_party = record {
  status = live;
  audience = some audience;
  active_until_local = some (b'5' ∷ []);
}

abbrev at_three : Text
at_three = b'3' ∷ []

is_visible_to_stay_iff_example :
    (is_visible_to_stay pool_party the_stay (some second_floor) at_three ≡ true) ↔ (
      (pool_party.status ≡ live)
      × IsBefore at_three pool_party.active_until_local
      × Reaches pool_party.audience the_stay (some second_floor))
is_visible_to_stay_iff_example =
    is_visible_to_stay_iff pool_party the_stay (some second_floor) at_three
