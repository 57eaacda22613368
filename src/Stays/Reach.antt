-- ===== src/Stays/Reach.antt =====
-- Stays as a transition system: every call of src/modules/tenant-stays in any order, with whatever the
-- rest of the program does to the other tables and to the clock in between. A call is one
-- step: the hotel's row lock serializes check-ins and room changes; for the other calls it is an
-- assumption.
use mathlib.Core.Path.{subst}
use hotello_backend.Common.{ℕ, ◌≡◌, ◌≢◌, sym, some, Text, arith}
use hotello_backend.Store.{TypeOrm}
use hotello_backend.Clock.{Intl}
use hotello_backend.Model.People.{TenantUser}
use hotello_backend.Model.Stays.{Stay, checked_out}
use hotello_backend.Exec.{World, final}
use hotello_backend.Exec.Keeps.{Keeps-final}
use hotello_backend.Stays.CheckIn.{CreateStayDto, check_in}
use hotello_backend.Stays.Edits.{UpdateStayDto, UpdateStaySettingsDto, update, update_settings}
use hotello_backend.Stays.Moves.{change_room, regenerate_code, checkout}
use hotello_backend.Stays.AutoCheckout.{close_overdue_stays}
use hotello_backend.Stays.Changes.{StayTable, IsKept}
use hotello_backend.Stays.Handlers.CheckIn.{check_in-Keeps}
use hotello_backend.Stays.Handlers.Update.{update-Keeps, update_settings-Keeps}
use hotello_backend.Stays.Handlers.Move.{change_room-Keeps, regenerate_code-Keeps}
use hotello_backend.Stays.Handlers.Close.{checkout-Keeps, close_overdue_stays-Keeps}
use hotello_backend.Stays.Unique.{IsUnique, IsUnique-IsKept}
use hotello_backend.Stays.Final.{Stores, Stores-IsKept}

-- a call of a user, with its body
pub data StayCall : Type 0 where
  check_in_call : CreateStayDto → StayCall
  update_call : ℕ → UpdateStayDto → StayCall
  change_room_call : ℕ → ℕ → StayCall
  regenerate_call checkout_call : ℕ → StayCall
  settings_call : UpdateStaySettingsDto → StayCall

module _ (orm : TypeOrm) (intl : Intl) (hash : Text → ℕ) where
  -- the state that a call leaves
  unfoldable pub perform : TenantUser → StayCall → World orm → World orm
  perform actor (check_in_call dto) w = final (check_in orm intl hash actor dto w)
  perform actor (update_call id dto) w = final (update orm intl actor id dto w)
  perform actor (change_room_call id room_id) w = final (change_room orm intl actor id room_id w)
  perform actor (regenerate_call id) w = final (regenerate_code orm intl hash actor id w)
  perform actor (checkout_call id) w = final (checkout orm intl actor id w)
  perform actor (settings_call dto) w = final (update_settings orm actor dto w)

  perform_keeps :
      (J : StayTable orm → Type 0) (actor : TenantUser) (call : StayCall) (w : World orm)
      → IsKept orm actor.hotel_id J
      → J w.stays
      → J (perform actor call w).stays
  unfolding perform
  perform_keeps J actor (check_in_call dto) w kept h =
      Keeps-final (check_in-Keeps orm intl hash J actor dto kept) w h
  perform_keeps J actor (update_call id dto) w kept h =
      Keeps-final (update-Keeps orm intl J actor id dto kept) w h
  perform_keeps J actor (change_room_call id room_id) w kept h =
      Keeps-final (change_room-Keeps orm intl J actor id room_id kept) w h
  perform_keeps J actor (regenerate_call id) w kept h =
      Keeps-final (regenerate_code-Keeps orm intl J hash actor id kept) w h
  perform_keeps J actor (checkout_call id) w kept h =
      Keeps-final (checkout-Keeps orm intl J actor id kept) w h
  perform_keeps J actor (settings_call dto) w kept h =
      Keeps-final (update_settings-Keeps orm intl J actor dto) w h

  pub data Step : World orm → World orm → Type 0 where
    call : (actor : TenantUser) (c : StayCall) (w : World orm) → Step w (perform actor c w)
    auto_checkout : (w : World orm) → Step w (final (close_overdue_stays orm intl w))
    elsewhere : {w v : World orm} → v.stays ≡ w.stays → Step w v

  pub data Reach : World orm → World orm → Type 0 where
    here : {w : World orm} → Reach w w
    next : {w v u : World orm} → Reach w v → Step v u → Reach w u

  Step-keeps :
      (J : StayTable orm → Type 0)
      → ((hotel_id : ℕ) → IsKept orm hotel_id J)
      → {w v : World orm} → Step w v
      → J w.stays
      → J v.stays
  Step-keeps J kept (call actor c w) h = perform_keeps J actor c w (kept actor.hotel_id) h
  Step-keeps J kept (auto_checkout w) h =
      Keeps-final (close_overdue_stays-Keeps orm intl J kept) w h
  Step-keeps J kept (elsewhere e) h = subst J (sym e) h

  reach_keeps :
      (J : StayTable orm → Type 0)
      → ((hotel_id : ℕ) → IsKept orm hotel_id J)
      → {w v : World orm} → Reach w v
      → J w.stays
      → J v.stays
  reach_keeps J kept here h = h
  reach_keeps J kept (next r s) h = Step-keeps J kept s (reach_keeps J kept r h)

  -- From stays of which no two active ones share a room, and no two active ones of one hotel share a
  -- code, no order of check-ins, updates, room changes, new codes, check-outs and automatic
  -- check-outs, refused or not, reaches two active stays that do.
  pub Reach-IsUnique : (w v : World orm) → Reach w v → IsUnique orm w.stays → IsUnique orm v.stays
  Reach-IsUnique w v r h = reach_keeps (IsUnique orm) (IsUnique-IsKept orm) r h

  -- A stay that is checked out is never written again: whatever is called afterwards, its row is
  -- exactly what it was.
  pub Reach_final :
      (w v : World orm) (k : ℕ) (s : Stay)
      → Reach w v
      → orm.get w.stays k ≡ some s
      → s.status ≡ checked_out
      → orm.get v.stays k ≡ some s
  Reach_final w v k s r stored out =
      reach_keeps (Stores orm k s) (λ h. Stores-IsKept orm h k s (λ live. absurd (ground arith))) r
        stored

  -- A call of a user, refused or not, leaves the row of every stay of another hotel exactly as it was.
  pub perform_isolated :
      (actor : TenantUser) (c : StayCall) (w : World orm) (k : ℕ) (s : Stay)
      → orm.get w.stays k ≡ some s
      → s.hotel_id ≢ actor.hotel_id
      → orm.get (perform actor c w).stays k ≡ some s
  perform_isolated actor c w k s stored foreign =
      perform_keeps (Stores orm k s) actor c w (Stores-IsKept orm actor.hotel_id k s (λ _. foreign))
        stored
