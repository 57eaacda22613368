-- ===== src/Subscriptions/Standing.antt =====
-- The plan of each hotel as the queries of src/modules/subscriptions see it, and how the calls move it: the
-- steps of `Machine`, made by the changes of `Subscriptions.Changes`.
pub mod Machine
use hotello_backend.Common.{ℕ, ◌+◌, ◌*◌, ◌<◌, Bool, not, ◌&&◌, ◌==◌}
use hotello_backend.Store.{TypeOrm}
use hotello_backend.Model.Subscriptions.{Subscription, SubscriptionStatus}
use hotello_backend.Subscriptions.Rows.{is_open, is_trial_status, has_trial, ends_before}
use hotello_backend.Subscriptions.Changes.{
  Intent, to_assign, to_extend, to_expire, StartsAs, SubTable,
}
use hotello_backend.Subscriptions.Single.{OneOpen}
use hotello_backend.Subscriptions.History.{Later}
use hotello_backend.Shared.{is_null}
use hotello_backend.Subscriptions.Standing.Machine.{Standing, Standings, Steps, standing_of}

module _ (orm : TypeOrm) where
  abbrev current_test : ℕ → Subscription → Bool
  current_test x s = s.hotel_id == x && is_open s

  abbrev pub tried_test : ℕ → Subscription → Bool
  tried_test x s = s.hotel_id == x && has_trial s

  -- what the table says of every hotel
  abbrev pub standings : SubTable orm → Standings
  standings t = record {
    standing = λ x. standing_of (orm.find_one (current_test x) t);
    had_trial = λ x. not (is_null (orm.find_one (tried_test x) t));
  }

  abbrev Refines : Intent → SubTable orm → SubTable orm → Type 0
  Refines intent t u = OneOpen orm u × Steps intent (standings t) (standings u)
