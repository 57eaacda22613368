-- ===== src/Stays/Final.antt =====
-- What no operation of src/modules/tenant-stays touches: a stay that is checked out, and the stays of
-- another hotel.
use mathlib.Core.Path.{subst}
use hotello_backend.Common.{ℕ, ◌≡◌, ◌≢◌, sym, ◌∙◌, ap, some, none}
use hotello_backend.Store.{TypeOrm, get-save_ne}
use hotello_backend.Model.Stays.{Stay, active}
use hotello_backend.Stays.Changes.{
  StayTable, Replaces, Change, arrived, edited, moved, recoded, closed, IsKept,
}

module _ (orm : TypeOrm) where
  abbrev pub Stores : ℕ → Stay → StayTable orm → Type 0
  Stores k s t = orm.get t k ≡ some s

  replaced :
      (t : StayTable orm) (hotel_id k : ℕ) (s old new : Stay)
      → Replaces orm t hotel_id old new
      → Stores k s t
      → (s.status ≡ active → s.hotel_id ≢ hotel_id)
      → new.id ≢ k
  replaced t hotel_id k s old new rep stored foreign e =
      let q : some old ≡ some s = sym rep.stored ∙ ap (orm.get t) (sym rep.same_id ∙ e) ∙ stored in
      let p : old ≡ s = cc in
      foreign (subst (λ x. x.status ≡ active) p rep.active)
        (subst (λ x. x.hotel_id ≡ hotel_id) p rep.own)

  -- a change is to a new row or to an active row of the hotel
  changed_elsewhere :
      (t : StayTable orm) (hotel_id k : ℕ) (s new : Stay)
      → Change orm t hotel_id new
      → Stores k s t
      → (s.status ≡ active → s.hotel_id ≢ hotel_id)
      → new.id ≢ k
  changed_elsewhere t h k s _ (arrived new fresh own free unused) stored foreign =
      λ e. let q : none ≡ some s = sym fresh ∙ ap (orm.get t) e ∙ stored in cc
  changed_elsewhere t h k s _ (edited old new rep room code status) stored foreign =
      replaced t h k s old new rep stored foreign
  changed_elsewhere t h k s _ (moved old new rep free code status) stored foreign =
      replaced t h k s old new rep stored foreign
  changed_elsewhere t h k s _ (recoded old new rep room unused status) stored foreign =
      replaced t h k s old new rep stored foreign
  changed_elsewhere t h k s _ (closed old new rep room code status) stored foreign =
      replaced t h k s old new rep stored foreign

  pub Stores-IsKept :
      (hotel_id k : ℕ) (s : Stay)
      → (s.status ≡ active → s.hotel_id ≢ hotel_id)
      → IsKept orm hotel_id (Stores k s)
  Stores-IsKept hotel_id k s foreign t new change stored =
      get-save_ne orm new t k (changed_elsewhere t hotel_id k s new change stored foreign) ∙ stored
