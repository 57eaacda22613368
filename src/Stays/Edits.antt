-- ===== src/Stays/Edits.antt =====
-- src/modules/tenant-stays/tenant-stays.service.ts: `update`, `getSettings`, `updateSettings`.
use package.text.Mathlib.Text.{◌==◌ as str_eq}
use hotello_backend.Common.{
  ℕ, String, Bool, true, false, not, ◌&&◌, Option, none, some, [], ◌∷◌, ◌++◌, Text, ◌==◌, text_eq,
  text_lt, if◌then◌else◌, trim, trim_or_null,
}
use hotello_backend.Store.{TypeOrm}
use hotello_backend.Clock.{Intl, hotel_local_parts}
use hotello_backend.Model.People.{
  Hotel, StayType, all_inclusive, half_board, bed_breakfast, room_only, TenantUser,
}
use hotello_backend.Model.Stays.{Stay, GuestLanguage}
use hotello_backend.Model.Effects.{
  Detail, word, number, change, number_or_null, text_or_null, Metadata,
}
use hotello_backend.Exec.{invalid_stay_dates, Exec, pure, gets, guard, when, modify, ◌>>=◌, ◌>>◌}
use hotello_backend.Shared.{log, is_null}
use hotello_backend.Stays.Shared.{
  StayView, to_view, load_hotel, find_stay_in_hotel, assert_active, assert_dates_valid, save_stay,
  audit, loaded_room,
}

-- a field that is absent is `undefined`; inside, `none` is `null`
pub record UpdateStayDto : Type 0 where
  pub check_out_date : Option Text
  pub guest_name : Option Text
  pub email : Option (Option Text)
  pub phone : Option (Option Text)
  pub language : Option GuestLanguage
  pub guests_count : Option (Option ℕ)
  pub note : Option (Option Text)
  pub stay_type : Option StayType

abbrev pub language_key : GuestLanguage → String
language_key GuestLanguage.ar = "ar"
language_key GuestLanguage.en = "en"
language_key GuestLanguage.ru = "ru"
language_key GuestLanguage.fr = "fr"
language_key GuestLanguage.it = "it"
language_key GuestLanguage.es = "es"
language_key GuestLanguage.de = "de"

abbrev pub stay_type_key : StayType → String
stay_type_key all_inclusive = "all_inclusive"
stay_type_key half_board = "half_board"
stay_type_key bed_breakfast = "bed_breakfast"
stay_type_key room_only = "room_only"

abbrev pub option_eq : {A : Type 0} → (A → A → Bool) → Option A → Option A → Bool
option_eq eq none none = true
option_eq eq (some a) (some b) = eq a b
option_eq eq _ _ = false

-- the stay with the changes that were noted
pub record Edit : Type 0 where
  pub stay : Stay
  pub diff : Metadata

-- `applyField`, with `===` and the metadata value of the field
unfoldable pub apply_field :
    {A : Type 0}
    → (A → A → Bool)
    → (A → Detail)
    → String
    → (Stay → A)
    → (Stay → A → Stay)
    → Option A
    → Edit
    → Edit
apply_field eq detail name field set none edit = edit
apply_field eq detail name field set (some next) edit =
    if eq next (field edit.stay) then edit else record {
      stay = set edit.stay next;
      diff = edit.diff ++ (name, change (detail (field edit.stay)) (detail next)) ∷ [];
    }

-- `value === undefined ? undefined : f(value)`
abbrev pub given : {A B : Type 0} → (A → B) → Option A → Option B
given f none = none
given f (some a) = some (f a)

-- the seven calls of `applyField` in their order
unfoldable pub apply_fields : UpdateStayDto → Stay → Edit
unfolding text_eq trim trim_or_null
apply_fields dto stay =
    let texts : Option Text → Option Text → Bool = option_eq text_eq in
    let e0 : Edit = record { stay = stay; diff = [] } in
    let e1 =
      apply_field text_eq Detail.text "guestName" (λ s. s.guest_name)
        (λ s v. record s { guest_name = v }) (given trim dto.guest_name) e0 in
    let e2 =
      apply_field (λ a b. str_eq (language_key a) (language_key b)) (λ l. word (language_key l))
        "language" (λ s. s.language) (λ s v. record s { language = v }) dto.language e1 in
    let e3 =
      apply_field (λ a b. str_eq (stay_type_key a) (stay_type_key b)) (λ t. word (stay_type_key t))
        "stayType" (λ s. s.stay_type) (λ s v. record s { stay_type = v }) dto.stay_type e2 in
    let e4 =
      apply_field texts text_or_null "email" (λ s. s.email) (λ s v. record s { email = v })
        (given trim_or_null dto.email) e3 in
    let e5 =
      apply_field texts text_or_null "phone" (λ s. s.phone) (λ s v. record s { phone = v })
        (given trim_or_null dto.phone) e4 in
    let e6 =
      apply_field (option_eq (λ a b. a == b)) number_or_null "guestsCount" (λ s. s.guests_count)
        (λ s v. record s { guests_count = v }) dto.guests_count e5 in
    apply_field texts text_or_null "note" (λ s. s.note) (λ s v. record s { note = v })
      (given trim_or_null dto.note) e6

abbrev pub is_empty : Metadata → Bool
is_empty [] = true
is_empty (_ ∷ _) = false

-- the new check-out date, if one is given and differs
unfoldable pub new_date : UpdateStayDto → Stay → Option Text
unfolding text_eq
new_date dto stay = elim dto.check_out_date [
  | none ↦ none
  | some date ↦ if text_eq date stay.check_out_date then none else some date
]

abbrev pub with_date : Option Text → Stay → Stay
with_date none stay = stay
with_date (some date) stay = record stay { check_out_date = date }

module _ (orm : TypeOrm) (intl : Intl) where
  -- the checks of a changed date
  unfoldable pub assert_date : Hotel → Stay → Option Text → Exec orm (Unit {0})
  unfolding hotel_local_parts text_lt
  assert_date hotel stay none = pure tt
  assert_date hotel stay (some date) = do
    assert_dates_valid orm stay.check_in_date date
    today ← gets (λ w. (hotel_local_parts intl hotel.timezone w.now).date)
    guard (not (text_lt date today)) invalid_stay_dates

  abbrev pub date_change : Stay → Option Text → Metadata
  date_change stay none = []
  date_change stay (some date) =
      ("checkOutDate", change (Detail.text stay.check_out_date) (Detail.text date)) ∷ []

  -- the save and the two audit entries, if anything changed
  unfoldable pub save_edit : TenantUser → Stay → Option Text → Edit → Exec orm (Unit {0})
  save_edit actor stay date edit = when (not (is_null date && is_empty edit.diff)) (do
    save_stay orm edit.stay
    when (not (is_null date))
        (audit orm "stay.dates_changed" edit.stay.id actor (date_change stay date))
    when (not (is_empty edit.diff)) (audit orm "stay.updated" edit.stay.id actor edit.diff))

  unfoldable pub update : TenantUser → ℕ → UpdateStayDto → Exec orm StayView
  update actor id dto = do
    loaded ← find_stay_in_hotel orm actor.hotel_id id
    assert_active orm loaded.stay
    hotel ← load_hotel orm actor.hotel_id
    let date = new_date dto loaded.stay
    assert_date hotel loaded.stay date
    let edit = apply_fields dto (with_date date loaded.stay)
    save_edit actor loaded.stay date edit
    room ← loaded_room orm loaded.room
    gets (to_view orm intl edit.stay room (some hotel))

pub record StaySettings : Type 0 where
  pub checkout_time : Text
  pub default_stay_type : StayType

pub record UpdateStaySettingsDto : Type 0 where
  pub checkout_time : Text
  pub default_stay_type : Option StayType

abbrev pub same_type : StayType → StayType → Bool
same_type a b = str_eq (stay_type_key a) (stay_type_key b)

abbrev settings_of : Hotel → StaySettings
settings_of hotel = record {
  checkout_time = hotel.checkout_time;
  default_stay_type = hotel.default_stay_type;
}

-- the hotel after the two assignments
unfoldable pub with_settings : UpdateStaySettingsDto → Hotel → Hotel
with_settings dto hotel = record hotel {
  checkout_time = dto.checkout_time;
  default_stay_type = elim dto.default_stay_type [ none ↦ hotel.default_stay_type | some t ↦ t ];
}

unfoldable pub settings_diff : UpdateStaySettingsDto → Hotel → Metadata
unfolding text_eq
settings_diff dto hotel =
    (if text_eq hotel.checkout_time dto.checkout_time
      then []
      else (
        "checkoutTime",
        change (Detail.text hotel.checkout_time) (Detail.text dto.checkout_time),
      )
        ∷ [])
    ++ elim dto.default_stay_type [
      | none ↦ []
      | some t ↦
          if same_type hotel.default_stay_type t
          then []
          else (
            "defaultStayType",
            change (word (stay_type_key hotel.default_stay_type)) (word (stay_type_key t)),
          )
            ∷ []
    ]

module _ (orm : TypeOrm) where
  unfoldable pub get_settings : ℕ → Exec orm StaySettings
  get_settings hotel_id = do hotel ← load_hotel orm hotel_id; pure (settings_of hotel)

  unfoldable pub update_settings : TenantUser → UpdateStaySettingsDto → Exec orm StaySettings
  update_settings actor dto = do
    hotel ← load_hotel orm actor.hotel_id
    let diff = settings_diff dto hotel
    let saved = with_settings dto hotel
    when (not (is_empty diff)) (do
      modify (λ w. record w { hotels = orm.save saved w.hotels })
      log orm (record {
        action = "hotel.updated";
        entity_type = "hotel";
        entity_id = hotel.id;
        actor_id = some actor.id;
        metadata = ("actorType", word "tenant_user") ∷ ("hotelId", number hotel.id) ∷ diff;
      }))
    pure (settings_of saved)
