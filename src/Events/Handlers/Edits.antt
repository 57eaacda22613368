-- ===== src/Events/Handlers/Edits.antt =====
-- An edit that passes the safe-edit matrix of src/modules/events/tenant-events.service.ts is one that
-- `IsEdit` allows.
use hotello_backend.Common.{ℕ, ◌≡◌, refl, true, false, not, Option, none, some, arith}
use hotello_backend.Store.{TypeOrm}
use hotello_backend.Model.People.{TenantUser}
use hotello_backend.Model.Events.{Event, published, draft}
use hotello_backend.Model.Effects.{number_or_null}
use hotello_backend.Model.Charges.{TranslationMap}
use hotello_backend.Stays.Edits.{option_eq}
use hotello_backend.Exec.{pure, ◌>>=◌}
use hotello_backend.Exec.Keeps.{
  Keeps, Any, Keeps-pure, Keeps-bind, Keeps-when, Keeps-if, guard-Keeps, Keeps-guard,
}
use hotello_backend.Exec.Safe.{Safe-then, Safe-when, Safe-pure}
use hotello_backend.Exec.Frame.{On, Before, Handles, Before-holds, Handles-read, Handles-Keeps}
use hotello_backend.Events.Manage.Lookup.{resolve_info_entry}
use hotello_backend.Events.Manage.Texts.{touches}
use hotello_backend.Events.Manage.Edit.{
  UpdateEventDto, Edit, nat_eq, is_sent, is_capacity_safe, is_editable, set_field, set_window,
  set_terms, edit_titles, edit_descriptions, edit_info_entry, edit, update,
}
use hotello_backend.Events.Changes.{Tables, view, IsKept, edited, IsEdit, Raised, is_over}
use hotello_backend.Events.Handlers.Shared.{
  audit-Keeps, merge_translations-Keeps, resolve_info_entry-Keeps, find_event-Keeps, saves,
}
use hotello_backend.Events.Handlers.Setters.{setter, set_field-IsEdit, set_capacity-IsEdit}

Raised-refl : (c : Option ℕ) → Raised c c
Raised-refl none = tt
Raised-refl (some c) = omega arith

IsEdit-refl : (old : Event) → IsEdit old old
IsEdit-refl old = record {
  same_id = refl;
  same_hotel = refl;
  same_status = refl;
  same_stamp = refl;
  promised = λ _. refl;
  raised = λ _. Raised-refl old.capacity;
  over = λ _. refl;
}

-- what a DTO that passes may send
module _ (event : Event) (dto : UpdateEventDto) (passed : is_editable event dto ≡ true) where
  sent_capacity : is_sent dto.capacity ≡ true → is_over event.status ≡ false
  unfolding is_editable
  sent_capacity h = ground arith

  safe_capacity : event.status ≡ published → is_capacity_safe event.capacity dto.capacity ≡ true
  unfolding is_editable
  safe_capacity h = ground arith

  sent_texts : (touches dto.titles ≡ true) → is_over event.status ≡ false
  unfolding is_editable
  sent_texts h = ground arith

  sent_start : is_sent dto.start_at_local ≡ true → event.status ≡ draft
  unfolding is_editable
  sent_start h = ground arith

  sent_end : is_sent dto.end_at_local ≡ true → event.status ≡ draft
  unfolding is_editable
  sent_end h = ground arith

  sent_location : is_sent dto.location_text ≡ true → event.status ≡ draft
  unfolding is_editable
  sent_location h = ground arith

  sent_info : is_sent dto.info_entry_id ≡ true → event.status ≡ draft
  unfolding is_editable
  sent_info h = ground arith

  sent_price : is_sent dto.price ≡ true → event.status ≡ draft
  unfolding is_editable
  sent_price h = ground arith

  sent_included : is_sent dto.included_for ≡ true → event.status ≡ draft
  unfolding is_editable
  sent_included h = ground arith

  sent_descriptions : touches dto.descriptions ≡ true → is_over event.status ≡ false
  unfolding is_editable
  sent_descriptions h = ground arith

  abbrev Fits : Edit → Type 0
  Fits e = IsEdit event e.event

  set_window-Fits : (e : Edit) → Fits e → Fits (set_window dto e)
  unfolding set_window
  set_window-Fits e h =
      set_field-IsEdit _ _ _ _ (λ a x. record x { location_text = a }) event dto.location_text _
        (setter (λ a x. refl) (λ a x. refl) (λ a x. refl) (λ a x. refl)) sent_location
        (set_field-IsEdit _ _ _ _ (λ a x. record x { end_at_local = a }) event dto.end_at_local _
          (setter (λ a x. refl) (λ a x. refl) (λ a x. refl) (λ a x. refl)) sent_end
          (set_field-IsEdit _ _ _ _ (λ a x. record x { start_at_local = a }) event
            dto.start_at_local _ (setter (λ a x. refl) (λ a x. refl) (λ a x. refl) (λ a x. refl))
            sent_start h))

  set_terms-Fits : (e : Edit) → Fits e → Fits (set_terms dto e)
  unfolding set_terms
  set_terms-Fits e h =
      set_field-IsEdit _ _ _ _ (λ a x. record x { included_for = a }) event dto.included_for _
        (setter (λ a x. refl) (λ a x. refl) (λ a x. refl) (λ a x. refl)) sent_included
        (set_field-IsEdit _ _ _ _ (λ a x. record x { price = a }) event dto.price _
          (setter (λ a x. refl) (λ a x. refl) (λ a x. refl) (λ a x. refl)) sent_price
          (set_capacity-IsEdit _ _ _ event dto.capacity e sent_capacity safe_capacity h))

  titled :
      (x : Event) (next : TranslationMap)
      → is_over event.status ≡ false
      → IsEdit event x
      → IsEdit event (record x { titles = next })
  titled x next live h = record {
    same_id = h.same_id;
    same_hotel = h.same_hotel;
    same_status = h.same_status;
    same_stamp = h.same_stamp;
    promised = h.promised;
    raised = h.raised;
    over = λ o. cc;
  }

  described :
      (x : Event) (next : TranslationMap)
      → is_over event.status ≡ false
      → IsEdit event x
      → IsEdit event (record x { descriptions = next })
  described x next live h = record {
    same_id = h.same_id;
    same_hotel = h.same_hotel;
    same_status = h.same_status;
    same_stamp = h.same_stamp;
    promised = h.promised;
    raised = h.raised;
    over = λ o. cc;
  }

  module _ (orm : TypeOrm) (J : Tables orm → Type 0) where
    edit_titles-Keeps : (e : Edit) → Fits e → Keeps (On (view orm) J) Fits (edit_titles orm dto e)
    unfolding edit_titles
    edit_titles-Keeps e h =
        Keeps-if (not (touches dto.titles)) _ _ (λ _. Keeps-pure e h)
          λ sent.
            Keeps-bind {P = Any} _ _ (merge_translations-Keeps orm J _ _ _)
              λ next _. Keeps-pure _ (titled e.event next (sent_texts (ground arith)) h)

    edit_descriptions-Keeps :
        (e : Edit) → Fits e → Keeps (On (view orm) J) Fits (edit_descriptions orm dto e)
    unfolding edit_descriptions
    edit_descriptions-Keeps e h =
        Keeps-if (not (touches dto.descriptions)) _ _ (λ _. Keeps-pure e h)
          λ sent.
            Keeps-bind {P = Any} _ _ (merge_translations-Keeps orm J _ _ _)
              λ next _. Keeps-pure _ (described e.event next (sent_descriptions (ground arith)) h)

    edit_info_entry-Keeps :
        (hotel_id : ℕ) (e : Edit)
        → Fits e
        → Keeps (On (view orm) J) Fits (edit_info_entry orm hotel_id dto e)
    unfolding edit_info_entry
    edit_info_entry-Keeps hotel_id e h = go dto.info_entry_id sent_info
      where
        go :
            (field : Option (Option ℕ))
            → (is_sent field ≡ true → event.status ≡ draft)
            → Keeps (On (view orm) J) Fits (elim field [
              | none ↦ pure e
              | some id ↦ do
                next ← resolve_info_entry orm hotel_id id
                pure (
                    set_field
                      (option_eq nat_eq)
                      number_or_null
                      "infoEntryId"
                      (λ x. x.info_entry_id)
                      (λ a x. record x { info_entry_id = a })
                      (some next)
                      e)
            ])
        go none d = Keeps-pure e h
        go (some id) d = Keeps-bind {P = Any} _ _ (resolve_info_entry-Keeps orm J _ _) λ next _.
            Keeps-pure _ (
              set_field-IsEdit _ _ _ _ (λ a x. record x { info_entry_id = a }) event (some next) e
                (setter (λ a x. refl) (λ a x. refl) (λ a x. refl) (λ a x. refl)) (λ _. d refl) h)

    edit-Keeps : (user : TenantUser) → Keeps (On (view orm) J) Fits (edit orm user dto event)
    unfolding edit
    edit-Keeps user = Keeps-bind {P = Fits} _ _ (edit_titles-Keeps _ (IsEdit-refl event)) λ e h.
        Keeps-bind {P = Fits} _ _ (edit_descriptions-Keeps e h) λ e' h'.
          Keeps-bind {P = Fits} _ _ (edit_info_entry-Keeps _ _ (set_window-Fits e' h'))
            λ e'' h''. Keeps-pure _ (set_terms-Fits e'' h'')

module _ (orm : TypeOrm) (J : Tables orm → Type 0) (kept : IsKept orm J) where
  update-Handles :
      (t : Tables orm) (user : TenantUser) (id : ℕ) (dto : UpdateEventDto)
      → Handles (view orm) J (update orm user id dto) t
  unfolding update
  update-Handles t user id dto =
      Handles-read (view orm) J t (λ e. (orm.get t.0 e.id ≡ some e) × (e.hotel_id ≡ user.hotel_id))
        _ _ (find_event-Keeps orm J t _ _)
        λ event p.
          Handles-read (view orm) J t (λ _. is_editable event dto ≡ true) _ _ (Keeps-guard _ _)
            λ _ passed.
              Handles-read (view orm) J t (λ e. IsEdit event e.event) _ _
                (edit-Keeps event dto passed orm (Before J t) user)
                λ e fits.
                  Handles-read (view orm) J t Any _ _ (Keeps-when _ _ (guard-Keeps _ _)) λ _ _.
                    Safe-then {Q = On (view orm) J} _ _
                      (Safe-when _ _
                        (saves orm J kept t e.event _ (edited t.0 t.1 event e.event p.0 fits)
                          (audit-Keeps orm J _ _ _ _))
                        (Before-holds (view orm) J t))
                      (Safe-pure _ (λ w h. h))

  pub update-Keeps :
      (user : TenantUser) (id : ℕ) (dto : UpdateEventDto)
      → Keeps (On (view orm) J) Any (update orm user id dto)
  update-Keeps user id dto = Handles-Keeps (view orm) J _ λ t. update-Handles t user id dto
