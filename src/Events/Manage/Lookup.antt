-- ===== src/Events/Manage/Lookup.antt =====
-- What the staff actions on events share: src/modules/events/tenant-events.service.ts.
use hotello_backend.Common.{
  ℕ, String, Bool, true, ◌&&◌, Option, none, some, [], ◌∷◌, Text, text_lt, ◌==◌,
}
use hotello_backend.Store.{TypeOrm}
use hotello_backend.Model.People.{TenantUser}
use hotello_backend.Model.Events.{Event}
use hotello_backend.Model.Effects.{Metadata, word, number}
use hotello_backend.Exec.{
  Exec, pure, gets, from_option, modify, ◌>>=◌, event_not_found, event_info_entry_not_found,
}
use hotello_backend.Shared.{log}

-- `assertValidWindow`; an empty end is falsy
abbrev pub is_window_valid : Text → Option Text → Bool
is_window_valid start none = true
is_window_valid start (some []) = true
is_window_valid start (some (c ∷ s)) = text_lt start (c ∷ s)

module _ (orm : TypeOrm) where
  -- the entries of `diff` follow the two of the metadata
  unfoldable pub audit : TenantUser → String → ℕ → Metadata → Exec orm (Unit {0})
  audit user action entity_id diff = log orm (record {
    action = action;
    entity_type = "event";
    entity_id = entity_id;
    actor_id = some user.id;
    metadata = ("actorType", word "tenant_user") ∷ ("hotelId", number user.hotel_id) ∷ diff;
  })

  unfoldable pub find_event : ℕ → ℕ → Exec orm Event
  find_event hotel_id id = do
    event ← gets (λ w. orm.find_one (λ e. e.id == id && e.hotel_id == hotel_id) w.events)
    from_option event_not_found event

  unfoldable pub save_event : Event → Exec orm (Unit {0})
  save_event event = modify (λ w. record w { events = orm.save event w.events })

  unfoldable pub resolve_info_entry : ℕ → Option ℕ → Exec orm (Option ℕ)
  resolve_info_entry hotel_id none = pure none
  resolve_info_entry hotel_id (some id) = do
    entry ← gets (λ w. orm.find_one (λ e. e.id == id && e.hotel_id == hotel_id) w.info_entries)
    entry ← from_option event_info_entry_not_found entry
    pure (some id)
