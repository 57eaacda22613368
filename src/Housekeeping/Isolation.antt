-- ===== src/Housekeeping/Isolation.antt =====
-- A staff route reaches one room of the user's own hotel and no other row.
use native.Mathlib.Decide.{ℕ_discrete}
use hotello_backend.Common.{
  ℕ, true, ◌≡◌, refl, sym, ◌∙◌, ◌≢◌, ◌⊎◌, inl, inr, some, arith, ◌==◌, ◌&&◌,
}
use hotello_backend.Store.{TypeOrm}
use hotello_backend.Model.People.{TenantUser}
use hotello_backend.Model.Rooms.{Room}
use hotello_backend.Exec.{World, final}
use hotello_backend.Exec.Keeps.{Keeps-final}
use hotello_backend.Housekeeping.Controller.{RoomRoute, handle}
use hotello_backend.Housekeeping.Staff.{RoomTable, StaffRules}
use hotello_backend.Housekeeping.Sound.{handle-Keeps}

module _ (orm : TypeOrm) (before : RoomTable orm) (hotel_id id : ℕ) where
  -- a row that the route may not touch: another id, or a room of another hotel
  abbrev pub IsForeign : ℕ → Type 0
  IsForeign k = (k ≢ id) ⊎ ((r : Room) × (orm.get before k ≡ some r) × (r.hotel_id ≢ hotel_id))

  abbrev pub Untouched : RoomTable orm → Type 0
  Untouched t = (k : ℕ) → IsForeign k → orm.get t k ≡ orm.get before k

  -- the addressed row, with the user's hotel as long as it was there before
  abbrev IsOwn : Room → Type 0
  IsOwn r = (r.id ≡ id) × ((old : Room) → orm.get before id ≡ some old → old.hotel_id ≡ hotel_id)

  found-IsOwn :
      (t : RoomTable orm) (r : Room)
      → Untouched t
      → orm.get t r.id ≡ some r
      → (r.id == id && r.hotel_id == hotel_id) ≡ true
      → IsOwn r
  found-IsOwn t r h stored passed =
      let same : r.id ≡ id = ground arith in
      (
        same,
        λ old was. elim (ℕ_discrete old.hotel_id hotel_id) [
          | yes own ↦ own
          | no foreign ↦
              let kept = h id (inr (old, was, foreign)) in
              let row : some r ≡ some old = sym (simp same at stored) ∙ kept ∙ was in ground arith
        ],
      )

  saves-Untouched :
      (r : Room) (t : RoomTable orm) → IsOwn r → Untouched t → Untouched (orm.save r t)
  saves-Untouched r t (same, own) h k foreign = elim foreign [
    | inl ne ↦ ground (arith, orm.get-save r t k, h k (inl ne))
    | inr (old, was, ne) ↦ elim (ℕ_discrete k id) [
      | yes e ↦ absurd (ne (own old (rw e at was)))
      | no ne' ↦ ground (arith, orm.get-save r t k, h k (inl ne'))
    ]
  ]

  IsOwn-rules : StaffRules orm hotel_id id Untouched IsOwn
  IsOwn-rules = record {
    found = found-IsOwn;
    moves = λ r a s _ _ p. p;
    assigns = λ r o p. p;
    cleans = λ r at by p. p;
    saves = saves-Untouched;
  }

-- A staff route changes no room but the one it addresses, and not even that one if it belongs to
-- another hotel: the row of every other id, and every row of another hotel, stays as it was.
pub handle_isolated :
    (orm : TypeOrm) (user : TenantUser) (id : ℕ) (route : RoomRoute) (w : World orm) (k : ℕ)
    → IsForeign orm w.rooms user.hotel_id id k
    → orm.get (final (handle orm user id route w)).rooms k ≡ orm.get w.rooms k
handle_isolated orm user id route w k foreign =
    Keeps-final
      (handle-Keeps orm (Untouched orm w.rooms user.hotel_id id) user id
        (IsOwn-rules orm w.rooms user.hotel_id id) route)
      w (λ _ _. refl) k foreign
