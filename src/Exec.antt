-- ===== src/Exec.antt =====
-- Handlers as actions on the stored state: an action returns a value or throws an HTTP exception,
-- and the state that it leaves is kept in both cases.
pub mod Keeps
pub mod Safe
pub mod Total
pub mod Frame
use hotello_backend.Common.{ℕ, Bool, true, false, Option, none, some, List}
use hotello_backend.Store.{TypeOrm}
use hotello_backend.Model.People.{Hotel, TenantUser, AccessState}
use hotello_backend.Model.Rooms.{Room, HousekeepingEvent}
use hotello_backend.Model.Stays.{Stay, StayRoomChange, StayCodeIssuedEvent}
use hotello_backend.Model.Charges.{FnbOrder, FnbOrderLine, EventBooking}
use hotello_backend.Model.Events.{Event, HotelInfoEntry}
use hotello_backend.Model.Requests.{GuestRequest}
use hotello_backend.Model.Subscriptions.{Plan, Subscription, TrialNotice}
use hotello_backend.Model.Effects.{AuditEntry, PushCall, EventNotice}

-- The tables that the modelled services read and write, the clock that `new Date()` reads, and the
-- generator that `randomInt` draws from.
pub record World (orm : TypeOrm) : Type 0 where
  pub now : ℕ
  pub draw : ℕ → ℕ
  pub drawn : ℕ
  pub hotels : orm.Table Hotel (λ h. h.id)
  pub users : orm.Table TenantUser (λ u. u.id)
  pub rooms : orm.Table Room (λ r. r.id)
  pub stays : orm.Table Stay (λ s. s.id)
  pub orders : orm.Table FnbOrder (λ o. o.id)
  pub order_lines : orm.Table FnbOrderLine (λ l. l.id)
  pub bookings : orm.Table EventBooking (λ b. b.id)
  pub events : orm.Table Event (λ e. e.id)
  pub info_entries : orm.Table HotelInfoEntry (λ e. e.id)
  pub requests : orm.Table GuestRequest (λ r. r.id)
  pub access : ℕ → AccessState
  pub audit_logs : List AuditEntry
  pub housekeeping_events : List HousekeepingEvent
  pub room_changes : List StayRoomChange
  pub stay_code_events : List StayCodeIssuedEvent
  pub pushes : List PushCall
  pub event_notices : List EventNotice
  pub plans : orm.Table Plan (λ p. p.id)
  pub subscriptions : orm.Table Subscription (λ s. s.id)
  pub trial_notices : List TrialNotice

-- The `code` of each exception that the modelled services throw.
pub data ErrorCode : Type 0 where
  room_not_found room_not_available room_occupied : ErrorCode
  hotel_not_found hotel_unavailable module_not_enabled : ErrorCode
  housekeeping_invalid_status housekeeping_room_dnd housekeeping_assignee_invalid : ErrorCode
  stay_not_found stay_not_active invalid_stay_dates internal_error : ErrorCode
  fnb_order_not_found fnb_order_invalid_status fnb_assignee_invalid fnb_variant_invalid : ErrorCode
  request_not_found request_invalid_status request_assignee_invalid request_option_invalid :
      ErrorCode
  event_not_found event_not_bookable event_party_size_invalid event_sold_out : ErrorCode
  event_payment_method_unavailable event_booking_not_found event_booking_invalid_status : ErrorCode
  event_booking_past_start event_titles_required event_descriptions_required : ErrorCode
  event_not_publishable event_start_in_past event_not_cancellable : ErrorCode
  event_info_entry_not_found event_window_invalid event_not_safe_edit : ErrorCode
  plan_not_found archived_plan_selected yearly_unavailable billing_cycle_required : ErrorCode
  force_limit_forbidden plan_limit_violation trial_already_used : ErrorCode
  super_admin_only_trial no_running_trial : ErrorCode

pub data Outcome {ℓ} (S : Type 0) (A : Type ℓ) : Type ℓ where
  ok : A → S → Outcome S A
  err : ErrorCode → S → Outcome S A

abbrev pub Exec : TypeOrm → Type 0 → Type 0
Exec orm A = World orm → Outcome (World orm) A

module _ {S A : Type 0} where
  unfoldable pub pure : A → S → Outcome S A
  pure a w = ok a w

  unfoldable pub throw : ErrorCode → S → Outcome S A
  throw e w = err e w

  unfoldable pub from_option : ErrorCode → Option A → S → Outcome S A
  from_option e none w = err e w
  from_option e (some a) w = ok a w

  unfoldable pub gets : (S → A) → S → Outcome S A
  gets f w = ok (f w) w

module _ {S : Type 0} where
  unfoldable pub guard : Bool → ErrorCode → S → Outcome S (Unit {0})
  guard true e w = ok tt w
  guard false e w = err e w

  -- `if (test) { … }`
  unfoldable pub when : Bool → (S → Outcome S (Unit {0})) → S → Outcome S (Unit {0})
  when true m w = m w
  when false m w = ok tt w

  unfoldable pub modify : (S → S) → S → Outcome S (Unit {0})
  modify f w = ok tt (f w)

module _ {S A : Type 0} where
  abbrev caught : A → Outcome S A → Outcome S A
  caught a (ok b w) = ok b w
  caught a (err e w) = ok a w

  -- `try { … } catch { … }` with a value for the failure
  unfoldable pub attempt : A → (S → Outcome S A) → S → Outcome S A
  attempt a m w = caught a (m w)

module _ {S A B : Type 0} where
  abbrev continue : Outcome S A → (A → S → Outcome S B) → Outcome S B
  continue (ok a w) f = f a w
  continue (err e w) f = err e w

  infixl 5 ◌>>=◌ ◌>>◌
  -- opening this opens the actions above too
  unfoldable pub ◌>>=◌ : (S → Outcome S A) → (A → S → Outcome S B) → S → Outcome S B
  unfolding pure throw from_option gets guard when modify
  ◌>>=◌ m f w = continue (m w) f

  abbrev pub ◌>>◌ : (S → Outcome S A) → (S → Outcome S B) → S → Outcome S B
  m >> k = m >>= λ _. k

module _ {S A : Type 0} where
  -- the state that an action leaves
  abbrev pub final : Outcome S A → S
  final (ok a w) = w
  final (err e w) = w
