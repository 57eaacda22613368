-- ===== src/Events/Handlers.antt =====
-- Every action of src/modules/events makes changes of `Events.Changes` only.
pub mod Shared
pub mod Setters
pub mod Edits
pub mod Runs
pub mod Settled
use mathlib.Core.Path.{subst}
use hotello_backend.Settlement.Bookings.{is_booked}
use hotello_backend.Common.{
  ℕ, String, ◌≡◌, refl, sym, ap, ◌∙◌, Bool, true, false, not, ◌&&◌, Option, none, some, List, [],
  ◌∷◌, Text, length, ◌==◌, arith, leb,
}
use hotello_backend.Store.{TypeOrm}
use hotello_backend.Clock.{Intl}
use hotello_backend.Model.People.{Hotel, TenantUser}
use hotello_backend.Model.Stays.{Stay}
use hotello_backend.Model.Charges.{EventBooking, booked, guest, TranslationMap}
use hotello_backend.Model.Events.{Event, published, draft}
use hotello_backend.Model.Effects.{AuditEntry, Metadata}
use hotello_backend.Exec.{World, ErrorCode, Outcome, ok, pure, gets, modify, ◌>>=◌, ◌>>◌}
use hotello_backend.Exec.Keeps.{
  Keeps, Any, Keeps-pure, Keeps-gets, Keeps-bind, Keeps-then, Keeps-when, Keeps-if,
  Keeps-from_option, Keeps-modify, Keeps-guard, guard-Keeps,
}
use hotello_backend.Exec.Safe.{
  Safe, Safe-then, Safe-bind, Safe-gets, Safe-pure, Keeps-before, Keeps-Safe,
}
use hotello_backend.Exec.Frame.{
  On, Before, Handles, Before-holds, Handles-modify, Handles-read, Handles-Keeps, Keeps-elsewhere,
  Keeps-read,
}
use hotello_backend.Shared.{log}
use hotello_backend.Fnb.Pricing.{resolve_event_price}
use hotello_backend.Events.Rows.{
  assert_available, is_published, is_draft, new_booking, cancelled_booking, published_event,
  max_party_size, seats_taken,
}
use hotello_backend.Events.Guests.{
  paid_by, has_room, BookEventDto, insert_booking, book, cancel_own,
}
use hotello_backend.Events.Manage.{CreateEventDto, new_event, create, publish, announce}
use hotello_backend.Events.Manage.Lookup.{find_event, save_event, audit, resolve_info_entry}
use hotello_backend.Events.Manage.Texts.{Fields, merge_translations}
use hotello_backend.Events.Changes.{
  Tables, EventTable, BookingTable, view, IsKept, Change, created, opened, reserved, released,
}
use hotello_backend.Events.Handlers.Shared.{
  log-Keeps, audit-Keeps, announce-Keeps, merge_translations-Keeps, resolve_info_entry-Keeps,
  find_event-Keeps, saves, saves_booking,
}

module _ (orm : TypeOrm) (J : Tables orm → Type 0) (kept : IsKept orm J) where
  create-Handles :
      (t : Tables orm) (user : TenantUser) (dto : CreateEventDto)
      → Handles (view orm) J (create orm user dto) t
  unfolding create
  create-Handles t user dto =
      Handles-read (view orm) J t Any _ _ (merge_translations-Keeps orm (Before J t) _ _ _)
        λ titles _.
          Handles-read (view orm) J t Any _ _ (merge_translations-Keeps orm (Before J t) _ _ _)
            λ descriptions _.
              Handles-read (view orm) J t Any _ _ (resolve_info_entry-Keeps orm (Before J t) _ _)
                λ info _. Handles-read (view orm) J t Any _ _ (guard-Keeps _ _) λ _ _.
                  Handles-read (view orm) J t (λ n. orm.get t.0 n ≡ none) _ _
                    (Keeps-gets _ (λ w h.
                      subst (λ (x : EventTable orm). orm.get x (orm.generate_id w.events) ≡ none)
                        (ap (λ (x : Tables orm). x.0) h.0) (orm.get-generate_id w.events)))
                    λ n fresh.
                      saves orm J kept t (new_event n user dto titles descriptions info) _
                        (created t.0 t.1 (new_event n user dto titles descriptions info) fresh refl)
                        (Keeps-then _ _ (audit-Keeps orm J _ _ _ _) (Keeps-pure _ tt))

  pub create-Keeps :
      (user : TenantUser) (dto : CreateEventDto) → Keeps (On (view orm) J) Any (create orm user dto)
  create-Keeps user dto = Handles-Keeps (view orm) J _ λ t. create-Handles t user dto

module _ (orm : TypeOrm) (J : Tables orm → Type 0) (kept : IsKept orm J) (intl : Intl) where
  insert_booking-Handles :
      (t : Tables orm) (stay : Stay) (hotel : Hotel) (id : ℕ) (dto : BookEventDto) (now : ℕ)
      → Handles (view orm) J (insert_booking orm intl stay hotel id dto now) t
  unfolding insert_booking
  insert_booking-Handles t stay hotel id dto now =
      Handles-read (view orm) J t (λ o. (e : Event) → o ≡ some e → orm.get t.0 e.id ≡ some e) _ _
        (Keeps-gets _
          (λ w h e p. (orm.find_one-some _ t.0 e (rw (ap (λ (x : Tables orm). x.0) h.0) at p)).0))
        λ o found.
          Handles-read (view orm) J t (λ e. orm.get t.0 e.id ≡ some e) _ _
            (Keeps-from_option _ o found)
            λ event stored.
              Handles-read (view orm) J t (λ _. is_published event.status ≡ true) _ _
                (Keeps-guard _ _)
                λ _ open_now. Handles-read (view orm) J t Any _ _ (guard-Keeps _ _) λ _ _.
                  Handles-read (view orm) J t
                    (λ _. leb 1 dto.party_size && leb dto.party_size max_party_size ≡ true) _ _
                    (Keeps-guard _ _)
                    λ _ size.
                      Handles-read (view orm) J t (λ used. used ≡ seats_taken orm event.id t.1) _ _
                        (Keeps-gets _
                          (λ w h. ap (λ (x : Tables orm). seats_taken orm event.id x.1) h.0))
                        λ used count.
                          Handles-read (view orm) J t
                            (λ _. has_room event.capacity used dto.party_size ≡ true) _ _
                            (Keeps-guard _ _)
                            λ _ room. Handles-read (view orm) J t Any _ _ (guard-Keeps _ _) λ _ _.
                              Handles-read (view orm) J t (λ n. orm.get t.1 n ≡ none) _ _
                                (Keeps-gets _ (λ w h.
                                  subst
                                    (λ (x : BookingTable orm).
                                      orm.get x (orm.generate_id w.bookings) ≡ none)
                                    (ap (λ (x : Tables orm). x.1) h.0)
                                    (orm.get-generate_id w.bookings)))
                                λ n fresh.
                                  Handles-read (view orm) J t Any _ _ (Keeps-gets _ (λ w h. tt))
                                    λ at _.
                                      let price =
                                        resolve_event_price event.price event.included_for
                                          stay.stay_type dto.party_size in
                                      let method = paid_by price dto.payment_method in
                                      saves_booking orm J kept t
                                        (new_booking n at dto.party_size stay hotel event price
                                          method)
                                        _
                                        (reserved t.0 t.1 event n at dto.party_size stay hotel price
                                          method stored (ground arith) fresh (ground arith)
                                          (subst
                                            (λ u. has_room event.capacity u dto.party_size ≡ true)
                                            count room))
                                        (Keeps-pure _ tt)

  pub book-Keeps :
      (stay : Stay) (hotel : Hotel) (id : ℕ) (dto : BookEventDto) (now : ℕ)
      → Keeps (On (view orm) J) Any (book orm intl stay hotel id dto now)
  unfolding book assert_available
  book-Keeps stay hotel id dto now =
      Keeps-then _ _
        (Keeps-bind {P = Any} _ _ (Keeps-read (view orm) J _)
          λ state _. Keeps-then _ _ (guard-Keeps _ _) (guard-Keeps _ _))
        (Keeps-bind {P = Any} _ _
          (Handles-Keeps (view orm) J _ λ t. insert_booking-Handles t stay hotel id dto now)
          λ booking _. Keeps-then _ _ (log-Keeps orm J _) (Keeps-pure _ tt))

  cancel_own-Handles :
      (t : Tables orm) (stay : Stay) (hotel : Hotel) (id : ℕ)
      → Handles (view orm) J (cancel_own orm intl stay hotel id) t
  unfolding cancel_own
  cancel_own-Handles t stay hotel id =
      Handles-read (view orm) J t (λ o. (b : EventBooking) → o ≡ some b → orm.get t.1 b.id ≡ some b)
        _ _
        (Keeps-gets _
          (λ w h b p. (orm.find_one-some _ t.1 b (rw (ap (λ (x : Tables orm). x.1) h.0) at p)).0))
        λ o found.
          Handles-read (view orm) J t (λ b. orm.get t.1 b.id ≡ some b) _ _
            (Keeps-from_option _ o found)
            λ b stored.
              Handles-read (view orm) J t (λ _. is_booked b.status ≡ true) _ _ (Keeps-guard _ _)
                λ _ held. Handles-read (view orm) J t Any _ _ (Keeps-gets _ (λ w h. tt)) λ now _.
                  Handles-read (view orm) J t Any _ _ (guard-Keeps _ _) λ _ _.
                    saves_booking orm J kept t (cancelled_booking guest now none b) _
                      (released t.0 t.1 b now stored (ground arith))
                      (Keeps-then _ _ (log-Keeps orm J _) (Keeps-pure _ tt))

  pub cancel_own-Keeps :
      (stay : Stay) (hotel : Hotel) (id : ℕ)
      → Keeps (On (view orm) J) Any (cancel_own orm intl stay hotel id)
  cancel_own-Keeps stay hotel id =
      Handles-Keeps (view orm) J _ λ t. cancel_own-Handles t stay hotel id

  publish-Handles :
      (t : Tables orm) (user : TenantUser) (id : ℕ) (wanted : Option Bool)
      → Handles (view orm) J (publish orm intl user id wanted) t
  unfolding publish
  publish-Handles t user id wanted =
      Handles-read (view orm) J t (λ e. (orm.get t.0 e.id ≡ some e) × (e.hotel_id ≡ user.hotel_id))
        _ _ (find_event-Keeps orm J t _ _)
        λ event p.
          Handles-read (view orm) J t (λ _. is_draft event.status ≡ true) _ _ (Keeps-guard _ _)
            λ _ drafted. Handles-read (view orm) J t Any _ _ (Keeps-gets _ (λ w h. tt)) λ hotel _.
              Handles-read (view orm) J t Any _ _ (Keeps-gets _ (λ w h. tt)) λ now _.
                Handles-read (view orm) J t Any _ _ (guard-Keeps _ _) λ _ _.
                  saves orm J kept t (published_event now event) _
                    (opened t.0 t.1 event now p.0 (ground arith))
                    (Keeps-then _ _ (audit-Keeps orm J _ _ _ _) (
                      Keeps-then _ _ (Keeps-when _ _ (announce-Keeps orm J _ _ _ _ _))
                        (Keeps-pure _ tt)))

  pub publish-Keeps :
      (user : TenantUser) (id : ℕ) (wanted : Option Bool)
      → Keeps (On (view orm) J) Any (publish orm intl user id wanted)
  publish-Keeps user id wanted = Handles-Keeps (view orm) J _ λ t. publish-Handles t user id wanted
