-- ===== src/Stays/Handlers/Update.antt =====
-- `update` and `updateSettings` of src/modules/tenant-stays/tenant-stays.service.ts: one change at most,
-- an edit that keeps the room, the code and the status.
use hotello_backend.Common.{ℕ, ◌≡◌, refl, ◌∙◌, ap, Bool, String, Option, none, some, Text, if-holds}
use hotello_backend.Store.{TypeOrm}
use hotello_backend.Clock.{Intl}
use hotello_backend.Model.People.{Hotel, TenantUser}
use hotello_backend.Model.Effects.{Detail}
use hotello_backend.Model.Stays.{Stay, StayStatus, active}
use hotello_backend.Exec.Keeps.{
  Keeps, Any, Keeps-pure, Keeps-gets, Keeps-bind, Keeps-then, Keeps-when, Keeps-modify, guard-Keeps,
}
use hotello_backend.Exec.Safe.{Safe, Safe-then, Safe-when, Keeps-before, Keeps-Safe}
use hotello_backend.Stays.Shared.{assert_dates_valid}
use hotello_backend.Stays.Edits.{
  UpdateStayDto, Edit, apply_field, apply_fields, with_date, assert_date, save_edit, update,
  UpdateStaySettingsDto, update_settings,
}
use hotello_backend.Stays.Changes.{StayTable, IsKept, Replaces, edited}
use hotello_backend.Stays.Frame.{OnStays, log-Keeps, audit-Keeps}
use hotello_backend.Stays.Handlers.Base.{
  Before, Before-holds, IsStored, load_hotel-Keeps, find_stay_in_hotel-Keeps, assert_active-Keeps,
  save_stay-Safe, load_hotel_after-Keeps, loaded_room-Keeps, from_each,
}

-- what no edit changes
record Core : Type 0 where
  id : ℕ
  hotel_id : ℕ
  room_id : ℕ
  code_hash : ℕ
  status : StayStatus

abbrev core : Stay → Core
core s = record {
  id = s.id;
  hotel_id = s.hotel_id;
  room_id = s.room_id;
  code_hash = s.code_hash;
  status = s.status;
}

record IsEditOf (s : Stay) (e : Edit) : Type 0 where
  same : core e.stay ≡ core s

apply_field-IsEditOf :
    {A : Type 0} (eq : A → A → Bool) (detail : A → Detail) (name : String) (field : Stay → A)
    (set : Stay → A → Stay) (next : Option A) (e : Edit) (s : Stay)
    → ((x : Stay) (v : A) → core (set x v) ≡ core x)
    → IsEditOf s e
    → IsEditOf s (apply_field eq detail name field set next e)
unfolding apply_field
apply_field-IsEditOf eq detail name field set none e s same h = h
apply_field-IsEditOf eq detail name field set (some v) e s same h =
    if-holds (IsEditOf s) (eq v (field e.stay)) e _ h (record { same = same e.stay v ∙ h.same })

apply_fields-IsEditOf : (dto : UpdateStayDto) (s : Stay) → IsEditOf s (apply_fields dto s)
unfolding apply_fields
apply_fields-IsEditOf dto s =
    apply_field-IsEditOf _ _ _ _ _ _ _ s (λ x v. refl)
      (apply_field-IsEditOf _ _ _ _ _ _ _ s (λ x v. refl)
        (apply_field-IsEditOf _ _ _ _ _ _ _ s (λ x v. refl)
          (apply_field-IsEditOf _ _ _ _ _ _ _ s (λ x v. refl)
            (apply_field-IsEditOf _ _ _ _ _ _ _ s (λ x v. refl)
              (apply_field-IsEditOf _ _ _ _ _ _ _ s (λ x v. refl)
                (apply_field-IsEditOf _ _ _ _ _ _ _ s (λ x v. refl) (record { same = refl })))))))

with_date-core : (date : Option Text) (s : Stay) → core (with_date date s) ≡ core s
with_date-core none s = refl
with_date-core (some d) s = refl

module _ (orm : TypeOrm) (intl : Intl) (J : StayTable orm → Type 0) where
  assert_date-Keeps :
      (hotel : Hotel) (s : Stay) (date : Option Text)
      → Keeps (OnStays orm J) Any (assert_date orm intl hotel s date)
  unfolding assert_date assert_dates_valid
  assert_date-Keeps hotel s none = Keeps-pure tt tt
  assert_date-Keeps hotel s (some d) =
      Keeps-then _ _ (guard-Keeps _ _)
        (Keeps-bind {P = Any} _ _ (Keeps-gets _ (λ w h. tt)) λ today _. guard-Keeps _ _)

  save_edit-Safe :
      (t : StayTable orm) (actor : TenantUser) (old : Stay) (date : Option Text) (edit : Edit)
      → IsKept orm actor.hotel_id J
      → IsStored orm t actor.hotel_id old
      → old.status ≡ active
      → core edit.stay ≡ core old
      → Safe
          (OnStays orm (Before orm J t))
          (OnStays orm J)
          (λ _. OnStays orm J)
          (save_edit orm intl actor old date edit)
  unfolding save_edit
  save_edit-Safe t actor old date edit kept (stored, own) live same =
      let replaces : Replaces orm t actor.hotel_id old edit.stay = record {
        stored = stored;
        active = live;
        own = own;
        same_id = ap (λ c. c.id) same;
        same_hotel = ap (λ c. c.hotel_id) same;
      } in
      Safe-when _ _
        (Safe-then _ _
          (save_stay-Safe orm J t actor.hotel_id edit.stay kept (
            edited old edit.stay replaces (ap (λ c. c.room_id) same) (ap (λ c. c.code_hash) same)
              (ap (λ c. c.status) same)))
          (Keeps-Safe _ (
            Keeps-then _ _ (Keeps-when _ _ (audit-Keeps orm J _ _ _ _))
              (Keeps-when _ _ (audit-Keeps orm J _ _ _ _)))))
        (Before-holds orm J t)

module _ (orm : TypeOrm) (intl : Intl) (J : StayTable orm → Type 0) where
  update-Safe :
      (actor : TenantUser) (id : ℕ) (dto : UpdateStayDto)
      → IsKept orm actor.hotel_id J
      → (t : StayTable orm)
      → Safe
          (OnStays orm (Before orm J t))
          (OnStays orm J)
          (λ _. OnStays orm J)
          (update orm intl actor id dto)
  unfolding update
  update-Safe actor id dto kept t =
      Keeps-before _ _ (Before-holds orm J t) (find_stay_in_hotel-Keeps orm J t _ _)
        λ loaded stored.
          Keeps-before _ _ (Before-holds orm J t) (assert_active-Keeps orm J t _) λ _ live.
            Keeps-before _ _ (Before-holds orm J t) (load_hotel-Keeps orm J t _) λ hotel _.
              Keeps-before _ _ (Before-holds orm J t)
                (assert_date-Keeps orm intl (Before orm J t) hotel _ _)
                λ _ _.
                  Safe-then _ _
                    (save_edit-Safe orm intl J t actor loaded.stay _ _ kept stored live
                      ((apply_fields-IsEditOf dto _).same ∙ with_date-core _ loaded.stay))
                    (Keeps-Safe _ (
                      Keeps-bind {P = Any} _ _ (loaded_room-Keeps orm J _)
                        λ room _. Keeps-gets _ (λ w h. tt)))

  pub update-Keeps :
      (actor : TenantUser) (id : ℕ) (dto : UpdateStayDto)
      → IsKept orm actor.hotel_id J
      → Keeps (OnStays orm J) Any (update orm intl actor id dto)
  update-Keeps actor id dto kept = from_each orm J _ (update-Safe actor id dto kept)

  pub update_settings-Keeps :
      (actor : TenantUser) (dto : UpdateStaySettingsDto)
      → Keeps (OnStays orm J) Any (update_settings orm actor dto)
  unfolding update_settings
  update_settings-Keeps actor dto =
      Keeps-bind {P = Any} _ _ (load_hotel_after-Keeps orm J _) λ hotel _.
        Keeps-then _ _
          (Keeps-when _ _ (Keeps-then _ _ (Keeps-modify _ (λ w h. h)) (log-Keeps orm J _)))
          (Keeps-pure _ tt)
