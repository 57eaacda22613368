-- ===== src/Lanes.antt =====
-- src/common/lanes.ts: the two lanes of a staff list. In delta mode a changed row that has left the
-- caller's lanes comes back as a tombstone.
use hotello_backend.Common.{
  ℕ, ◌≡◌, ◌⊎◌, refl, sym, ◌∙◌, inl, inr, Bool-cases, Bool, true, false, Option, none, some, List,
  [], ◌∷◌, ◌++◌, if◌then◌else◌,
}

pub data AssigneeFilter : Type 0 where
  me unassigned me_unassigned : AssigneeFilter

pub data Lane : Type 0 where
  mine available : Lane

pub data LaneTombstoneReason : Type 0 where
  taken closed cancelled removed : LaneTombstoneReason

pub data ListMode : Type 0 where
  full delta : ListMode

-- `requestedLanes`, the set as its membership test
unfoldable pub requested_lanes : AssigneeFilter → Lane → Bool
requested_lanes me mine = true
requested_lanes me available = false
requested_lanes unassigned mine = false
requested_lanes unassigned available = true
requested_lanes me_unassigned _ = true

pub data LaneRow (T : Type 0) : Type 0 where
  laned : T → Lane → LaneRow T
  tombstone : ℕ → LaneTombstoneReason → LaneRow T

module _ {T : Type 0} (id : T → ℕ) (lanes : Lane → Bool) (lane_of : T → Option Lane)
    (reason_of : T → LaneTombstoneReason) where
  -- what one round of the loop pushes for a row outside the lanes
  unfoldable pub outside : ListMode → T → List (LaneRow T)
  outside full row = []
  outside delta row = tombstone (id row) (reason_of row) ∷ []

  unfoldable pub entry : ListMode → T → List (LaneRow T)
  unfolding outside
  entry mode row = elim (lane_of row) [
    | none ↦ outside mode row
    | some lane ↦ if lanes lane then laned row lane ∷ [] else outside mode row
  ]

  unfoldable pub apply_lane_filter : ListMode → List T → List (LaneRow T)
  unfolding entry
  apply_lane_filter mode [] = []
  apply_lane_filter mode (row ∷ rows) = entry mode row ++ apply_lane_filter mode rows

  -- a row is in one of the requested lanes
  abbrev pub IsIn : T → Lane → Type 0
  IsIn row lane = (lane_of row ≡ some lane) × (lanes lane ≡ true)

  -- what the caller is to get for a row in delta mode: the row with its lane if that is requested, and
  -- otherwise the tombstone of its id with its reason
  abbrev pub Answers : T → LaneRow T → Type 0
  Answers row (laned r lane) = (r ≡ row) × IsIn row lane
  Answers row (tombstone i reason) =
      (i ≡ id row) × (reason ≡ reason_of row) × ((lane : Lane) → ¬ (IsIn row lane))

  -- one answer for each row, in order
  abbrev pub AllAnswer : List T → List (LaneRow T) → Type 0
  AllAnswer [] [] = Unit
  AllAnswer [] (e ∷ es) = ⊥
  AllAnswer (row ∷ rows) [] = ⊥
  AllAnswer (row ∷ rows) (e ∷ es) = Answers row e × AllAnswer rows es

  -- the answers in full mode: the rows in order, without those that are in no requested lane
  pub data Lists : List T → List (LaneRow T) → Type 0 where
    empty : Lists [] []
    takes :
        {row : T} {lane : Lane} {rows : List T} {out : List (LaneRow T)}
        → IsIn row lane
        → Lists rows out
        → Lists (row ∷ rows) (laned row lane ∷ out)
    skips :
        {row : T} {rows : List T} {out : List (LaneRow T)}
        → ((lane : Lane) → ¬ (IsIn row lane))
        → Lists rows out
        → Lists (row ∷ rows) out

  -- what `entry` gives for the lane of a row
  abbrev for_lane : ListMode → T → Option Lane → List (LaneRow T)
  for_lane mode row none = outside mode row
  for_lane mode row (some lane) = if lanes lane then laned row lane ∷ [] else outside mode row

  abbrev Split : ListMode → T → List (LaneRow T) → Type 0
  Split mode row out =
      ((lane : Lane) × IsIn row lane × (out ≡ laned row lane ∷ []))
      ⊎ (((lane : Lane) → ¬ (IsIn row lane)) × (out ≡ outside mode row))

  entry_of : (mode : ListMode) (row : T) → Split mode row (entry mode row)
  unfolding entry
  entry_of mode row = go (lane_of row) refl
    where
      go : (o : Option Lane) → lane_of row ≡ o → Split mode row (for_lane mode row o)
      go none nowhere = inr (λ lane (at, _). cc, refl)
      go (some lane) at = elim (Bool-cases (lanes lane)) [
        | inl asked ↦ inl (lane, (at, asked), rw asked refl)
        | inr other ↦ inr (
          λ l (at', asked).
              let both : some lane ≡ some l = sym at ∙ at' in let same : lane ≡ l = cc in cc,
          rw other refl,
        )
      ]

  -- In delta mode the caller gets one answer for every changed row, in order: the row itself with its lane
  -- where that lane is requested, and a tombstone with the row's id and reason where it is in no
  -- requested lane.
  pub apply_lane_filter-delta : (rows : List T) → AllAnswer rows (apply_lane_filter delta rows)
  unfolding apply_lane_filter outside
  apply_lane_filter-delta [] = tt
  apply_lane_filter-delta (row ∷ rows) =
      let rest = apply_lane_filter-delta rows in
      elim (entry_of delta row) [
        | inl (lane, at, e) ↦ rw e ((refl, at), rest)
        | inr (nowhere, e) ↦ rw e ((refl, refl, nowhere), rest)
      ]

  -- In full mode the caller gets exactly the rows that are in a requested lane, each with that lane, in
  -- order, and no tombstone.
  pub apply_lane_filter-full : (rows : List T) → Lists rows (apply_lane_filter full rows)
  unfolding apply_lane_filter outside
  apply_lane_filter-full [] = empty
  apply_lane_filter-full (row ∷ rows) =
      let rest = apply_lane_filter-full rows in
      elim (entry_of full row) [
        | inl (lane, at, e) ↦ rw e (takes at rest)
        | inr (nowhere, e) ↦ rw e (skips nowhere rest)
      ]
