-- ===== src/Events/Handlers/Shared.antt =====
-- What the actions of src/modules/events share: their reads, and their one write.
use hotello_backend.Common.{ℕ, String, ◌≡◌, refl, ap, Bool, Option, none, some, List, arith}
use hotello_backend.Store.{TypeOrm}
use hotello_backend.Model.People.{TenantUser}
use hotello_backend.Model.Charges.{EventBooking, TranslationMap}
use hotello_backend.Model.Events.{Event}
use hotello_backend.Model.Effects.{AuditEntry, Metadata}
use hotello_backend.Exec.{World, ErrorCode, Outcome, modify, ◌>>◌}
use hotello_backend.Exec.Keeps.{
  Keeps, Any, Keeps-pure, Keeps-gets, Keeps-bind, Keeps-then, Keeps-when, Keeps-from_option,
  guard-Keeps,
}
use hotello_backend.Exec.Safe.{Safe-then, Keeps-Safe}
use hotello_backend.Exec.Frame.{On, Before, Handles, Handles-modify, Keeps-elsewhere, Keeps-read}
use hotello_backend.Shared.{log}
use hotello_backend.Events.Manage.{announce}
use hotello_backend.Events.Manage.Lookup.{find_event, save_event, audit, resolve_info_entry}
use hotello_backend.Events.Manage.Texts.{Fields, merge_translations}
use hotello_backend.Events.Changes.{Tables, view, IsKept, Change}

module _ (orm : TypeOrm) (J : Tables orm → Type 0) where
  pub log-Keeps : (e : AuditEntry) → Keeps (On (view orm) J) Any (log orm e)
  unfolding log
  log-Keeps e = Keeps-elsewhere (view orm) J _ (λ w. refl)

  pub audit-Keeps :
      (user : TenantUser) (action : String) (id : ℕ) (diff : Metadata)
      → Keeps (On (view orm) J) Any (audit orm user action id diff)
  unfolding audit
  audit-Keeps user action id diff = log-Keeps _

  pub announce-Keeps :
      (user : TenantUser) (event : Event) (source : String) (ids : List ℕ) (priority : Bool)
      → Keeps (On (view orm) J) Any (announce orm user event source ids priority)
  unfolding announce
  announce-Keeps user event source ids priority =
      Keeps-bind {P = Any} _ _ (Keeps-read (view orm) J _)
        λ state _. Keeps-when _ _ (Keeps-elsewhere (view orm) J _ (λ w. refl))

  pub merge_translations-Keeps :
      (fields : Fields) (existing : TranslationMap) (code : ErrorCode)
      → Keeps (On (view orm) J) Any (merge_translations orm fields existing code)
  unfolding merge_translations
  merge_translations-Keeps fields existing code = Keeps-then _ _ (guard-Keeps _ _) (Keeps-pure _ tt)

  pub resolve_info_entry-Keeps :
      (hotel_id : ℕ) (id : Option ℕ)
      → Keeps (On (view orm) J) Any (resolve_info_entry orm hotel_id id)
  unfolding resolve_info_entry
  resolve_info_entry-Keeps hotel_id none = Keeps-pure none tt
  resolve_info_entry-Keeps hotel_id (some id) =
      Keeps-bind {P = Any} _ _ (Keeps-read (view orm) J _)
        λ o _. Keeps-bind {P = Any} _ _ (Keeps-from_option _ o (λ a e. tt)) λ u _. Keeps-pure _ tt

module _ (orm : TypeOrm) (J : Tables orm → Type 0) where
  pub find_event-Keeps :
      (t : Tables orm) (hotel_id id : ℕ)
      → Keeps
          (On (view orm) (Before J t))
          (λ e. (orm.get t.0 e.id ≡ some e) × (e.hotel_id ≡ hotel_id))
          (find_event orm hotel_id id)
  unfolding find_event
  find_event-Keeps t hotel_id id =
      Keeps-bind
        {P = λ o. (e : Event) → o ≡ some e → (orm.get t.0 e.id ≡ some e) × (e.hotel_id ≡ hotel_id)}
        _ _
        (Keeps-gets _ (λ w h e p.
          let (stored, passed) =
            orm.find_one-some _ t.0 e (rw (ap (λ (x : Tables orm). x.0) h.0) at p) in
          (stored, ground arith)))
        λ o p. Keeps-from_option _ o p

module _ (orm : TypeOrm) (J : Tables orm → Type 0) (kept : IsKept orm J) where
  -- the save of an event, and what follows it
  pub saves :
      {A : Type 0} (t : Tables orm) (next : Event) (rest : World orm → Outcome (World orm) A)
      → Change orm t (orm.save next t.0, t.1)
      → Keeps (On (view orm) J) Any rest
      → Handles (view orm) J (save_event orm next >> rest) t
  unfolding save_event
  saves t next rest c k =
      Safe-then _ _
        (Handles-modify (view orm) J _ t (orm.save next t.0, t.1)
          (λ w e. ap (λ (x : Tables orm). (orm.save next x.0, x.1)) e) (kept t _ c))
        (Keeps-Safe _ k)

  pub saves_booking :
      {A : Type 0} (t : Tables orm) (next : EventBooking) (rest : World orm → Outcome (World orm) A)
      → Change orm t (t.0, orm.save next t.1)
      → Keeps (On (view orm) J) Any rest
      → Handles
          (view orm)
          J
          (modify (λ w. record w { bookings = orm.save next w.bookings }) >> rest)
          t
  saves_booking t next rest c k =
      Safe-then _ _
        (Handles-modify (view orm) J _ t (t.0, orm.save next t.1)
          (λ w e. ap (λ (x : Tables orm). (x.0, orm.save next x.1)) e) (kept t _ c))
        (Keeps-Safe _ k)
