-- ===== src/Announcements.antt =====
-- src/modules/announcements: who sees an announcement. The audience is a filter that is stored with the
-- announcement and read against a stay and its room.
pub mod Audience
pub mod Visible
use hotello_backend.Common.{
  ℕ, Bool, true, false, not, ◌&&◌, Option, none, some, List, [], ◌∷◌, any, Text, text_lt, ◌==◌,
  if◌then◌else◌,
}
use hotello_backend.Model.People.{StayType}
use hotello_backend.Model.Rooms.{Room}
use hotello_backend.Model.Stays.{Stay}
use hotello_backend.Fnb.Pricing.{includes_type}

pub data AnnouncementStatus : Type 0 where
  draft scheduled live retracted expired : AnnouncementStatus

pub record AudienceFilter : Type 0 where
  pub stay_types : Option (List StayType)
  pub floors : Option (List ℕ)
  pub room_ids : Option (List ℕ)
  pub stay_id : Option ℕ
  pub stay_ids : Option (List ℕ)

-- the columns that visibility reads
pub record Announcement : Type 0 where
  pub status : AnnouncementStatus
  pub audience : Option AudienceFilter
  pub active_until_local : Option Text

-- `xs?.length && !test(xs)` read the other way: a dimension that is missing or empty lets all pass
unfoldable pub lets_pass : {A : Type 0} → Option (List A) → (List A → Bool) → Bool
lets_pass none test = true
lets_pass (some []) test = true
lets_pass (some (x ∷ xs)) test = test (x ∷ xs)

-- `xs.includes(id)`
unfoldable pub includes_id : List ℕ → ℕ → Bool
unfolding any
includes_id ids id = any (λ i. i == id) ids

-- the floor of the loaded room; a room without a floor is on none
unfoldable pub on_floor : Option Room → List ℕ → Bool
on_floor none floors = false
on_floor (some room) floors = elim room.floor [
  | none ↦ false
  | some floor ↦ includes_id floors floor
]

-- the dimensions that apply when no stay is named
unfoldable pub matches_dimensions : AudienceFilter → Stay → Option Room → Bool
matches_dimensions filter stay room =
    if not (lets_pass filter.stay_types (λ types. includes_type types stay.stay_type))
    then false
    else if not (lets_pass filter.floors (on_floor room))
    then false
    else if not (lets_pass filter.room_ids (λ ids. includes_id ids stay.room_id))
    then false
    else true

unfoldable pub matches_stays : Option (List ℕ) → AudienceFilter → Stay → Option Room → Bool
matches_stays none filter stay room = matches_dimensions filter stay room
matches_stays (some []) filter stay room = matches_dimensions filter stay room
matches_stays (some (i ∷ ids)) filter stay room = includes_id (i ∷ ids) stay.id

unfoldable pub matches_audience : Option AudienceFilter → Stay → Option Room → Bool
unfolding matches_stays
matches_audience none stay room = true
matches_audience (some filter) stay room = elim filter.stay_id [
  | some id ↦ stay.id == id
  | none ↦ matches_stays filter.stay_ids filter stay room
]

-- `!activeUntilLocal || activeUntilLocal > nowLocal`; an empty string is falsy
unfoldable pub is_in_window : Option Text → Text → Bool
is_in_window none now_local = true
is_in_window (some []) now_local = true
is_in_window (some (c ∷ s)) now_local = text_lt now_local (c ∷ s)

abbrev pub is_live : AnnouncementStatus → Bool
is_live status = elim status [ live ↦ true | _ ↦ false ]

unfoldable pub is_visible_to_stay : Announcement → Stay → Option Room → Text → Bool
unfolding is_in_window matches_audience
is_visible_to_stay a stay room now_local =
    is_live a.status
    && is_in_window a.active_until_local now_local
    && matches_audience a.audience stay room
