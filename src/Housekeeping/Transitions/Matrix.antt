-- ===== src/Housekeeping/Transitions/Matrix.antt =====
-- What the transition matrix guarantees.
use hotello_backend.Common.{◌≡◌, ◌≢◌, ◌⊎◌, ◌↔◌, none, arith}
use hotello_backend.Model.Rooms.{clean, needs_cleaning, in_progress}
use hotello_backend.Housekeeping.Transitions.{HkState, HkAction, start, moved, transition}

-- A room that is to be cleaned says how, and a clean room says nothing.
pub record IsCoherent (s : HkState) : Type 0 where
  pub typed : (s.status ≡ needs_cleaning) ⊎ (s.status ≡ in_progress) → s.cleaning_type ≢ none
  pub untyped : s.status ≡ clean → s.cleaning_type ≡ none

-- An accepted action keeps the status and the cleaning type coherent: a room that needs cleaning
-- or is being cleaned has a cleaning type, and a clean room has none.
pub transition-IsCoherent :
    (s t : HkState) (a : HkAction) → IsCoherent s → transition s a ≡ moved t → IsCoherent t
unfolding transition
transition-IsCoherent s t a h e = ground arith

-- Cleaning starts exactly on a room that needs cleaning, with its cleaning type kept.
pub start_iff :
    (s t : HkState)
    → (transition s start ≡ moved t) ↔ (
        (s.status ≡ needs_cleaning)
        × (t.status ≡ in_progress)
        × (t.cleaning_type ≡ s.cleaning_type))
unfolding transition
start_iff s t = ground arith
