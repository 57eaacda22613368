-- ===== src/Stays/Changes.antt =====
-- The changes that the operations of src/modules/tenant-stays make to the stored stays. Every operation
-- keeps what these changes keep, so an invariant is proved once per change and not per operation.
use hotello_backend.Common.{ℕ, ◌≡◌, ◌≢◌, none, some}
use hotello_backend.Store.{TypeOrm}
use hotello_backend.Model.Stays.{Stay, StayStatus}

module _ (orm : TypeOrm) where
  abbrev pub StayTable : Type 0
  StayTable = orm.Table Stay (λ s. s.id)

  -- no active stay is in the room
  abbrev pub IsFree : StayTable → ℕ → Type 0
  IsFree t room_id =
      (k : ℕ) (s : Stay) → orm.get t k ≡ some s → s.status ≡ StayStatus.active → s.room_id ≢ room_id

  -- no active stay of the hotel has the code
  abbrev pub IsUnused : StayTable → ℕ → ℕ → Type 0
  IsUnused t hotel_id code_hash =
      (k : ℕ) (s : Stay)
      → orm.get t k ≡ some s
      → s.status ≡ StayStatus.active
      → s.hotel_id ≡ hotel_id
      → s.code_hash ≢ code_hash

  -- the row that replaces an active stay of a hotel, and what of it is kept
  pub record Replaces (t : StayTable) (hotel_id : ℕ) (old new : Stay) : Type 0 where
    pub stored : orm.get t old.id ≡ some old
    pub active : old.status ≡ StayStatus.active
    pub own : old.hotel_id ≡ hotel_id
    pub same_id : new.id ≡ old.id
    pub same_hotel : new.hotel_id ≡ old.hotel_id

  -- the row that an operation of a hotel saves
  pub data Change (t : StayTable) (hotel_id : ℕ) : Stay → Type 0 where
    arrived :
        (s : Stay)
        → orm.get t s.id ≡ none
        → s.hotel_id ≡ hotel_id
        → IsFree t s.room_id
        → IsUnused t hotel_id s.code_hash
        → Change t hotel_id s
    edited :
        (old s : Stay)
        → Replaces t hotel_id old s
        → s.room_id ≡ old.room_id
        → s.code_hash ≡ old.code_hash
        → s.status ≡ old.status
        → Change t hotel_id s
    moved :
        (old s : Stay)
        → Replaces t hotel_id old s
        → IsFree t s.room_id
        → s.code_hash ≡ old.code_hash
        → s.status ≡ old.status
        → Change t hotel_id s
    recoded :
        (old s : Stay)
        → Replaces t hotel_id old s
        → s.room_id ≡ old.room_id
        → IsUnused t hotel_id s.code_hash
        → s.status ≡ old.status
        → Change t hotel_id s
    closed :
        (old s : Stay)
        → Replaces t hotel_id old s
        → s.room_id ≡ old.room_id
        → s.code_hash ≡ old.code_hash
        → s.status ≡ StayStatus.checked_out
        → Change t hotel_id s

  -- `J` survives every change of the hotel's stays
  abbrev pub IsKept : ℕ → (StayTable → Type 0) → Type 0
  IsKept hotel_id J = (t : StayTable) (s : Stay) → Change t hotel_id s → J t → J (orm.save s t)
