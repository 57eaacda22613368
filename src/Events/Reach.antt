-- ===== src/Events/Reach.antt =====
-- The events and their bookings as a transition system: every call of src/modules/events and of
-- src/modules/stay-settlement on them, in any order.
use mathlib.Core.Path.{subst}
use hotello_backend.Common.{ℕ, ◌≡◌, sym, Bool, Option, some, Text}
use hotello_backend.Store.{TypeOrm}
use hotello_backend.Clock.{Intl}
use hotello_backend.Model.People.{Hotel, TenantUser}
use hotello_backend.Model.Stays.{Stay}
use hotello_backend.Model.Events.{Event}
use hotello_backend.Exec.{World, final}
use hotello_backend.Exec.Keeps.{Keeps-final}
use hotello_backend.Events.Guests.{BookEventDto, book, cancel_own}
use hotello_backend.Events.Manage.{CreateEventDto, create, publish, cancel}
use hotello_backend.Events.Manage.Edit.{UpdateEventDto, update}
use hotello_backend.Events.Scheduler.{transition}
use hotello_backend.Settlement.Service.{settle}
use hotello_backend.Events.Changes.{Tables, view, IsKept}
use hotello_backend.Events.Handlers.{book-Keeps, cancel_own-Keeps, create-Keeps, publish-Keeps}
use hotello_backend.Events.Handlers.Edits.{update-Keeps}
use hotello_backend.Events.Handlers.Runs.{cancel-Keeps, transition-Keeps}
use hotello_backend.Events.Handlers.Settled.{settle-Keeps}
use hotello_backend.Events.Seats.{SeatsFit, SeatsFit-IsKept}
use hotello_backend.Events.Life.{IsLater, IsMarked, IsLater-refl, StoresLater, StoresLater-IsKept}

-- a call on the events, with its body
pub data EventCall : Type 0 where
  book_call : Stay → Hotel → ℕ → BookEventDto → ℕ → EventCall
  own_cancel_call : Stay → Hotel → ℕ → EventCall
  create_call : TenantUser → CreateEventDto → EventCall
  update_call : TenantUser → ℕ → UpdateEventDto → EventCall
  publish_call : TenantUser → ℕ → Option Bool → EventCall
  cancel_call : TenantUser → ℕ → Text → EventCall
  tick_call : ℕ → EventCall
  settle_call : TenantUser → ℕ → EventCall

module _ (orm : TypeOrm) (intl : Intl) where
  -- the state that a call leaves
  unfoldable pub perform : EventCall → World orm → World orm
  perform (book_call stay hotel id dto now) w = final (book orm intl stay hotel id dto now w)
  perform (own_cancel_call stay hotel id) w = final (cancel_own orm intl stay hotel id w)
  perform (create_call user dto) w = final (create orm user dto w)
  perform (update_call user id dto) w = final (update orm user id dto w)
  perform (publish_call user id wanted) w = final (publish orm intl user id wanted w)
  perform (cancel_call user id reason) w = final (cancel orm user id reason w)
  perform (tick_call now) w = final (transition orm intl now w)
  perform (settle_call user stay_id) w = final (settle orm user stay_id w)

  perform_keeps :
      (J : Tables orm → Type 0) (c : EventCall) (w : World orm)
      → IsKept orm J
      → J (view orm w)
      → J (view orm (perform c w))
  unfolding perform
  perform_keeps J (book_call stay hotel id dto now) w kept h =
      Keeps-final (book-Keeps orm J kept intl stay hotel id dto now) w h
  perform_keeps J (own_cancel_call stay hotel id) w kept h =
      Keeps-final (cancel_own-Keeps orm J kept intl stay hotel id) w h
  perform_keeps J (create_call user dto) w kept h =
      Keeps-final (create-Keeps orm J kept user dto) w h
  perform_keeps J (update_call user id dto) w kept h =
      Keeps-final (update-Keeps orm J kept user id dto) w h
  perform_keeps J (publish_call user id wanted) w kept h =
      Keeps-final (publish-Keeps orm J kept intl user id wanted) w h
  perform_keeps J (cancel_call user id reason) w kept h =
      Keeps-final (cancel-Keeps orm J kept user id reason) w h
  perform_keeps J (tick_call now) w kept h = Keeps-final (transition-Keeps orm J kept intl now) w h
  perform_keeps J (settle_call user stay_id) w kept h =
      Keeps-final (settle-Keeps orm J user stay_id kept) w h

  -- the states after some calls, with changes to the other tables in between
  pub data Reach : World orm → World orm → Type 0 where
    here : {w : World orm} → Reach w w
    after : {w v : World orm} (c : EventCall) → Reach w v → Reach w (perform c v)
    elsewhere : {w v u : World orm} → Reach w v → view orm u ≡ view orm v → Reach w u

  reach_keeps :
      (J : Tables orm → Type 0)
      → IsKept orm J
      → {w v : World orm} → Reach w v
      → J (view orm w)
      → J (view orm v)
  reach_keeps J kept here h = h
  reach_keeps J kept (after {v} c r) h = perform_keeps J c v kept (reach_keeps J kept r h)
  reach_keeps J kept (elsewhere r e) h = subst J (sym e) (reach_keeps J kept r h)

  -- From tables in which every event holds its limit, no order of calls, refused or not, overbooks an
  -- event: the party sizes of its booked bookings never sum to more than the capacity of a published
  -- or completed event that has one, and a draft, a cancelled event and an id with no event have no
  -- booked seat at all.
  pub Reach-SeatsFit :
      (w v : World orm) → Reach w v → SeatsFit orm (view orm w) → SeatsFit orm (view orm v)
  Reach-SeatsFit w v r h = reach_keeps (SeatsFit orm) (SeatsFit-IsKept orm) r h

  -- Whatever is called, a stored event whose publication stamp is missing exactly while it is a draft
  -- stays stored, and its row is a later one, which has that stamp exactly when it is no draft, so that
  -- none is completed or cancelled without having been published. A published event is never a draft
  -- again; once it is published its date, place, price, included stay types and publication stamp stay
  -- what they were and its capacity is never lowered; once it is completed or cancelled the row does
  -- not change at all.
  pub Reach-IsLater :
      (w v : World orm) (k : ℕ) (s : Event)
      → Reach w v
      → orm.get w.events k ≡ some s
      → IsMarked s
      → (r : Event) × (orm.get v.events k ≡ some r) × IsLater s r × IsMarked r
  Reach-IsLater w v k s r stored marked =
      reach_keeps (StoresLater orm k s) (StoresLater-IsKept orm k s) r
        (s, stored, IsLater-refl s, marked)
