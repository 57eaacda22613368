-- ===== src/Events/Manage/Edit.antt =====
-- `update` of src/modules/events/tenant-events.service.ts with its safe-edit matrix.
use text.Mathlib.Text.{◌==◌ as str_eq}
use hotello_backend.Common.{
  ℕ, String, Bool, true, false, not, ◌&&◌, ◌||◌, Option, none, some, List, [], ◌∷◌, ◌++◌, map, any,
  length, Text, text_eq, leb, ltb, ◌==◌, if◌then◌else◌,
}
use hotello_backend.Store.{TypeOrm}
use hotello_backend.Model.People.{TenantUser, StayType}
use hotello_backend.Model.Events.{Event}
use hotello_backend.Model.Effects.{
  Detail, Metadata, number, words, names, change, number_or_null, text_or_null,
}
use hotello_backend.Exec.{
  Exec, pure, guard, when, ◌>>=◌, ◌>>◌, event_not_safe_edit, event_window_invalid,
  event_titles_required, event_descriptions_required,
}
use hotello_backend.Stays.Edits.{option_eq, stay_type_key, same_type}
use hotello_backend.Events.Rows.{is_published, is_draft}
use hotello_backend.Events.Manage.Texts.{Fields, touches, merge_translations}
use hotello_backend.Events.Manage.Lookup.{
  is_window_valid, find_event, save_event, audit, resolve_info_entry,
}

-- an outer `none` is a field that was not sent
pub record UpdateEventDto : Type 0 where
  pub titles : Fields
  pub descriptions : Fields
  pub start_at_local : Option Text
  pub end_at_local : Option (Option Text)
  pub location_text : Option Text
  pub info_entry_id : Option (Option ℕ)
  pub capacity : Option (Option ℕ)
  pub price : Option ℕ
  pub included_for : Option (List StayType)

abbrev pub is_sent {ℓ} : {A : Type ℓ} → Option A → Bool
is_sent none = false
is_sent (some _) = true

-- on a published event the capacity may only rise, or become unlimited
abbrev pub is_capacity_safe : Option ℕ → Option (Option ℕ) → Bool
is_capacity_safe capacity none = true
is_capacity_safe capacity (some none) = true
is_capacity_safe none (some (some c)) = false
is_capacity_safe (some old) (some (some c)) = leb old c

abbrev pub touches_restricted : Event → UpdateEventDto → Bool
touches_restricted event dto =
    is_sent dto.start_at_local
    || is_sent dto.end_at_local
    || is_sent dto.price
    || is_sent dto.included_for
    || is_sent dto.location_text
    || is_sent dto.info_entry_id
    || not (is_capacity_safe event.capacity dto.capacity)

abbrev pub has_any_field : UpdateEventDto → Bool
has_any_field dto =
    touches dto.titles
    || touches dto.descriptions
    || is_sent dto.start_at_local
    || is_sent dto.end_at_local
    || is_sent dto.location_text
    || is_sent dto.info_entry_id
    || is_sent dto.capacity
    || is_sent dto.price
    || is_sent dto.included_for

-- `assertEditable` returns
unfoldable pub is_editable : Event → UpdateEventDto → Bool
is_editable event dto =
    if is_draft event.status
    then true
    else if is_published event.status
    then not (touches_restricted event dto)
    else not (has_any_field dto)

-- the event under edit, with the entries of `diff` so far
pub record Edit : Type 0 where
  pub event : Event
  pub diff : Metadata

-- `if (dto.x !== undefined && dto.x !== event.x) { diff.x = …; event.x = dto.x; }`
unfoldable pub set_field :
    {A : Type 0}
    → (A → A → Bool)
    → (A → Detail)
    → String
    → (Event → A)
    → (A → Event → Event)
    → Option A
    → Edit
    → Edit
set_field same word key get set none e = e
set_field same word key get set (some a) e = if same a (get e.event) then e else record {
  event = set a e.event;
  diff = e.diff ++ (key, change (word (get e.event)) (word a)) ∷ [];
}

abbrev types_eq : List StayType → List StayType → Bool
types_eq [] [] = true
types_eq (s ∷ ss) (t ∷ ts) = same_type s t && types_eq ss ts
types_eq _ _ = false

abbrev types_word : List StayType → Detail
types_word types = words (map stay_type_key types)

abbrev pub nat_eq : ℕ → ℕ → Bool
nat_eq a b = a == b

unfoldable pub set_window : UpdateEventDto → Edit → Edit
set_window dto e =
    set_field text_eq Detail.text "locationText" (λ x. x.location_text)
      (λ a x. record x { location_text = a }) dto.location_text
      (set_field (option_eq text_eq) text_or_null "endAtLocal" (λ x. x.end_at_local)
        (λ a x. record x { end_at_local = a }) dto.end_at_local
        (set_field text_eq Detail.text "startAtLocal" (λ x. x.start_at_local)
          (λ a x. record x { start_at_local = a }) dto.start_at_local e))

unfoldable pub set_terms : UpdateEventDto → Edit → Edit
set_terms dto e =
    set_field types_eq types_word "includedFor" (λ x. x.included_for)
      (λ a x. record x { included_for = a }) dto.included_for
      (set_field nat_eq number "price" (λ x. x.price) (λ a x. record x { price = a }) dto.price
        (set_field (option_eq nat_eq) number_or_null "capacity" (λ x. x.capacity)
          (λ a x. record x { capacity = a }) dto.capacity e))

-- `diff.startAtLocal || diff.endAtLocal`
unfoldable pub is_rescheduled : Metadata → Bool
unfolding any
is_rescheduled diff =
    any (λ (d : String × Detail). str_eq d.0 "startAtLocal" || str_eq d.0 "endAtLocal") diff

module _ (orm : TypeOrm) where
  unfoldable pub edit_titles : UpdateEventDto → Edit → Exec orm Edit
  edit_titles dto e = if not (touches dto.titles) then pure e else do
    next ← merge_translations orm dto.titles e.event.titles event_titles_required
    pure (record {
      event = record e.event { titles = next };
      diff = e.diff ++ ("titles", change (names e.event.titles) (names next)) ∷ [];
    })

  unfoldable pub edit_descriptions : UpdateEventDto → Edit → Exec orm Edit
  edit_descriptions dto e = if not (touches dto.descriptions) then pure e else do
    next ← merge_translations orm dto.descriptions e.event.descriptions event_descriptions_required
    pure (record {
      event = record e.event { descriptions = next };
      diff = e.diff ++ ("descriptions", change (names e.event.descriptions) (names next)) ∷ [];
    })

  unfoldable pub edit_info_entry : ℕ → UpdateEventDto → Edit → Exec orm Edit
  edit_info_entry hotel_id dto e = elim dto.info_entry_id [
    | none ↦ pure e
    | some id ↦ do
      next ← resolve_info_entry orm hotel_id id
      pure (
          set_field (option_eq nat_eq) number_or_null "infoEntryId" (λ x. x.info_entry_id)
            (λ a x. record x { info_entry_id = a }) (some next) e)
  ]

  -- the event with all fields of the DTO
  unfoldable pub edit : TenantUser → UpdateEventDto → Event → Exec orm Edit
  edit user dto event = do
    let start : Edit = record { event = event; diff = [] }
    titled ← edit_titles dto start
    described ← edit_descriptions dto titled
    linked ← edit_info_entry user.hotel_id dto (set_window dto described)
    pure (set_terms dto linked)

  unfoldable pub update : TenantUser → ℕ → UpdateEventDto → Exec orm Event
  unfolding is_editable is_rescheduled
  update user id dto = do
    event ← find_event orm user.hotel_id id
    guard (is_editable event dto) event_not_safe_edit
    e ← edit user dto event
    when (is_rescheduled e.diff)
        (guard (is_window_valid e.event.start_at_local e.event.end_at_local) event_window_invalid)
    when (ltb 0 (length e.diff))
        (do save_event orm e.event; audit orm user "event.updated" e.event.id e.diff)
    pure e.event
