-- ===== src/Events/Handlers/Runs.antt =====
-- The actions of src/modules/events that write more than one row: the cancellation of an event with its
-- bookings, and the completion tick.
use mathlib.Core.Path.{subst}
use hotello_backend.Common.{
  ℕ, ◌≡◌, ◌≢◌, refl, sym, ap, ◌∙◌, true, not, some, List, [], ◌∷◌, All, Text, text_lt, arith,
}
use hotello_backend.Store.{TypeOrm, Distinct, find-All, get-save_ne}
use hotello_backend.Clock.{Intl}
use hotello_backend.Model.People.{TenantUser}
use hotello_backend.Model.Charges.{EventBooking}
use hotello_backend.Model.Events.{Event, published}
use hotello_backend.Exec.{World, ok, pure, modify, ◌>>=◌}
use hotello_backend.Exec.Keeps.{
  Keeps, Any, Keeps-pure, Keeps-gets, Keeps-bind, Keeps-then, Keeps-when, Keeps-guard,
}
use hotello_backend.Exec.Safe.{
  Safe, Leaves, Safe-pure, Safe-gets, Safe-modify, Safe-bind, Safe-then, Safe-if, Safe-from_option,
  Safe-Holds, Keeps-Safe,
}
use hotello_backend.Exec.Frame.{On, Handles, Handles-read, Handles-Keeps, Keeps-read}
use hotello_backend.Shared.{log}
use hotello_backend.Events.Time.{hotel_local_stamp}
use hotello_backend.Events.Rows.{is_published, holds_seats, cancelled_event, completed_event}
use hotello_backend.Events.Manage.{cancel_bookings, tell_booked, cancel}
use hotello_backend.Events.Manage.Lookup.{save_event}
use hotello_backend.Events.Scheduler.{complete_event, complete_all, transition}
use hotello_backend.Events.Changes.{
  Tables, EventTable, view, IsKept, called_off, ended, with_cancelled,
}
use hotello_backend.Events.Handlers.Shared.{audit-Keeps, announce-Keeps, find_event-Keeps}

module _ (orm : TypeOrm) where
  -- the loop of `cancel` saves the bookings one after the other
  cancel_bookings_lem :
      (now : ℕ) (reason : Text) (bs : List EventBooking) (w : World orm)
      → cancel_bookings orm now reason bs w
        ≡ ok tt (record w { bookings = with_cancelled orm now reason bs w.bookings })
  unfolding cancel_bookings pure modify ◌>>=◌
  cancel_bookings_lem now reason [] w = refl
  cancel_bookings_lem now reason (b ∷ bs) w = cancel_bookings_lem now reason bs _

module _ (orm : TypeOrm) (J : Tables orm → Type 0) where
  tell_booked-Keeps :
      (user : TenantUser) (event : Event) (ids : List ℕ)
      → Keeps (On (view orm) J) Any (tell_booked orm user event ids)
  unfolding tell_booked
  tell_booked-Keeps user event ids =
      Keeps-bind {P = Any} _ _ (Keeps-read (view orm) J _)
        λ resident _. Keeps-when _ _ (announce-Keeps orm J _ _ _ _ _)

module _ (orm : TypeOrm) (J : Tables orm → Type 0) (kept : IsKept orm J) where
  cancel-Handles :
      (t : Tables orm) (user : TenantUser) (id : ℕ) (reason : Text)
      → Handles (view orm) J (cancel orm user id reason) t
  unfolding cancel save_event
  cancel-Handles t user id reason =
      Handles-read (view orm) J t (λ e. (orm.get t.0 e.id ≡ some e) × (e.hotel_id ≡ user.hotel_id))
        _ _ (find_event-Keeps orm J t _ _)
        λ event p.
          Handles-read (view orm) J t (λ _. is_published event.status ≡ true) _ _ (Keeps-guard _ _)
            λ _ live. Handles-read (view orm) J t Any _ _ (Keeps-gets _ (λ w h. tt)) λ now _.
              let next = cancelled_event now user.id reason event in
              Safe-then {Q = λ (w : World orm). (view orm w ≡ (orm.save next t.0, t.1)) × J t} _ _
                (Safe-modify _
                  (λ w h. (ap (λ (x : Tables orm). (orm.save next x.0, x.1)) h.0, h.1)))
                (Safe-bind
                  {Q = λ bs (w : World orm).
                    (bs ≡ orm.find (holds_seats event.id) t.1)
                    × (view orm w ≡ (orm.save next t.0, t.1))
                    × J t}
                  _ _
                  (Safe-gets _ (λ w h.
                    (ap (λ (x : Tables orm). orm.find (holds_seats event.id) x.1) h.0, h.0, h.1)))
                  λ bs.
                    Safe-then {Q = On (view orm) J} _ _
                      (record {
                        at = λ w (found, now_is, j).
                            let after =
                              kept t _
                                (called_off t.0 t.1 event now user.id reason p.0 (ground arith))
                                j in
                            subst (Leaves (On (view orm) J) (λ _. On (view orm) J))
                              (sym (cancel_bookings_lem orm now reason bs w))
                              (subst J
                                (sym (
                                  ap
                                    (λ (x : Tables orm).
                                      (x.0, with_cancelled orm now reason bs x.1))
                                    now_is
                                  ∙ ap
                                      (λ (l : List EventBooking).
                                        (orm.save next t.0, with_cancelled orm now reason l t.1))
                                      found))
                                after);
                      })
                      (Keeps-Safe _ (
                        Keeps-then _ _ (audit-Keeps orm J _ _ _ _) (
                          Keeps-then _ _ (Keeps-when _ _ (tell_booked-Keeps orm J _ _ _))
                            (Keeps-pure _ tt)))))

  pub cancel-Keeps :
      (user : TenantUser) (id : ℕ) (reason : Text)
      → Keeps (On (view orm) J) Any (cancel orm user id reason)
  cancel-Keeps user id reason = Handles-Keeps (view orm) J _ λ t. cancel-Handles t user id reason

  -- the events that the tick has still to visit are stored and published
  abbrev Live : List Event → EventTable orm → Type 0
  Live rows t = All (λ e. (orm.get t e.id ≡ some e) × (e.status ≡ published)) rows

  Live-save :
      (t : EventTable orm) (e : Event) (rows : List Event)
      → All (λ r. r.id ≢ e.id) rows
      → Live rows t
      → Live rows (orm.save e t)
  Live-save t e [] apart h = tt
  Live-save t e (r ∷ rows) (ne, apart) ((stored, live), rest) =
      ((get-save_ne orm e t r.id (λ q. ne (sym q)) ∙ stored, live), Live-save t e rows apart rest)

  abbrev Tick : List Event → World orm → Type 0
  Tick rows w = J (view orm w) × Live rows w.events

  log-Tick :
      (rows : List Event)
      → (e : _) → Safe (Tick rows) (On (view orm) J) (λ _. Tick rows) (log orm e)
  unfolding log
  log-Tick rows e = Safe-modify _ (λ w h. h)

  complete_event-Safe :
      (intl : Intl) (now : ℕ) (event : Event) (rows : List Event) (completed : ℕ)
      → All (λ r. r.id ≢ event.id) rows
      → Safe
          (Tick (event ∷ rows))
          (On (view orm) J)
          (λ _. Tick rows)
          (complete_event orm intl now event completed)
  unfolding complete_event save_event
  complete_event-Safe intl now event rows completed apart =
      Safe-bind {Q = λ _. Tick (event ∷ rows)} _ _ (Safe-gets _ (λ w h. h)) λ o.
        Safe-bind {Q = λ _. Tick (event ∷ rows)} _ _
          (Safe-from_option _ o (λ w h. h.0) (λ a e w h. h))
          λ hotel.
            Safe-bind {Q = λ _. Tick (event ∷ rows)} _ _
              (Safe-from_option _ _ (λ w h. h.0) (λ a e w h. h))
              λ end.
                Safe-if (not (text_lt end (hotel_local_stamp intl hotel.timezone now))) _ _
                  (λ _. Safe-pure _ (λ w h. (h.0, h.1.1)))
                  λ _.
                    Safe-then {Q = Tick rows} _ _
                      (Safe-modify _ (λ w h. (
                        kept (view orm w) _ (ended w.events w.bookings event now h.1.0.0 h.1.0.1)
                            h.0,
                        Live-save w.events (completed_event now event) rows apart h.1.1,
                      )))
                      (Safe-then {Q = Tick rows} _ _ (log-Tick rows _) (Safe-pure _ (λ w h. h)))

  complete_all-Safe :
      (intl : Intl) (now : ℕ) (rows : List Event) (completed : ℕ)
      → Distinct (λ (e : Event). e.id) rows
      → Safe
          (Tick rows)
          (On (view orm) J)
          (λ _. On (view orm) J)
          (complete_all orm intl now rows completed)
  unfolding complete_all
  complete_all-Safe intl now [] completed d = Safe-pure _ (λ w h. h.0)
  complete_all-Safe intl now (e ∷ rows) completed (apart, d) =
      Safe-bind _ _ (complete_event-Safe intl now e rows completed apart)
        λ completed'. complete_all-Safe intl now rows completed' d

  pub transition-Keeps :
      (intl : Intl) (now : ℕ) → Keeps (On (view orm) J) Any (transition orm intl now)
  unfolding transition
  transition-Keeps intl now = record { at = λ w h. Safe-Holds _ run w h }
    where
      run :
          Safe (On (view orm) J) (On (view orm) J) (λ _. On (view orm) J) (transition orm intl now)
      run =
          Safe-bind {Q = λ rows (w : World orm). Tick rows w × Distinct (λ (e : Event). e.id) rows}
            _ _
            (Safe-gets _ (λ w h. (
              (
                h,
                find-All orm _ _ w.events (λ k r e passed.
                    (ap (orm.get w.events) (orm.get-key w.events k r e) ∙ e, ground arith)),
              ),
              orm.find-distinct _ w.events,
            )))
            λ rows. record { at = λ w (o, d). (complete_all-Safe intl now rows 0 d).at w o }
