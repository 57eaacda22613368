-- ===== src/Announcements/Audience.antt =====
-- Whom an audience filter reaches: `matchesAudience` of src/modules/announcements/announcement-visibility.ts.
use mathlib.Core.List.{Memᴰ}
use mathlib.Core.List.Memᴰ
use mathlib.Core.Path.{subst}
use hotello_backend.Common.{
  ℕ, ◌≡◌, refl, sym, ap, ◌∙◌, ◌⊎◌, ◌↔◌, inl, inr, arith, Bool, true, false, Bool-cases, ==_iff,
  Option, none, some, List, [], ◌∷◌, any, ◌==◌,
}
use hotello_backend.Model.People.{StayType, all_inclusive, half_board, bed_breakfast, room_only}
use hotello_backend.Model.Rooms.{Room}
use hotello_backend.Model.Stays.{Stay}
use hotello_backend.Stays.Edits.{same_type}
use hotello_backend.Fnb.Pricing.{includes_type}
use hotello_backend.Announcements.{
  AudienceFilter, lets_pass, includes_id, on_floor, matches_dimensions, matches_stays,
}

abbrev pub listed : {A : Type 0} → Option (List A) → List A
listed none = []
listed (some xs) = xs

-- a dimension that lists nothing admits all; otherwise one of its elements has to fit
abbrev pub Admits : {A : Type 0} → Option (List A) → (A → Type 0) → Type 0
Admits {A} dimension Fits = (listed dimension ≡ []) ⊎ ((x : A) × Memᴰ x (listed dimension) × Fits x)

-- the floor of the room that was loaded with the stay
abbrev pub floor_of : Option Room → Option ℕ
floor_of none = none
floor_of (some room) = room.floor

same_type_iff : (a b : StayType) → (same_type a b ≡ true) ↔ (a ≡ b)
same_type_iff a b = (to a b, λ e. subst (λ t. same_type a t ≡ true) e (self a))
  where
    to : (a b : StayType) → same_type a b ≡ true → a ≡ b
    to all_inclusive all_inclusive h = refl
    to half_board half_board h = refl
    to bed_breakfast bed_breakfast h = refl
    to room_only room_only h = refl
    to _ _ h = cc

    self : (a : StayType) → same_type a a ≡ true
    self all_inclusive = refl
    self half_board = refl
    self bed_breakfast = refl
    self room_only = refl

module _ {A : Type 0} (Fits : A → Type 0) (test : A → Bool)
    (agree : (x : A) → (test x ≡ true) ↔ Fits x) where
  pub any_iff : (xs : List A) → (any test xs ≡ true) ↔ ((x : A) × Memᴰ x xs × Fits x)
  unfolding any
  any_iff xs = (to xs, λ (x, m, f). from xs x m f)
    where
      to : (xs : List A) → any test xs ≡ true → (x : A) × Memᴰ x xs × Fits x
      to [] h = cc
      to (x ∷ xs) h = elim (Bool-cases (test x)) [
        | inl hit ↦ (x, Memᴰ.head refl, (agree x).0 hit)
        | inr miss ↦ let (y, m, f) = to xs (ground arith) in (y, Memᴰ.tail m, f)
      ]

      from : (xs : List A) (x : A) → Memᴰ x xs → Fits x → any test xs ≡ true
      from [] x m f = elim m [ ]
      from (y ∷ xs) x m f = elim (Memᴰ.cases_cons m) [
        | inl e ↦ let hit = (agree x).1 f in let same : test x ≡ test y = ap test e in ground arith
        | inr t ↦ let rest = from xs x t f in ground arith
      ]

  lets_pass_iff :
      (dimension : Option (List A)) (check : List A → Bool)
      → ((xs : List A) → check xs ≡ any test xs)
      → (lets_pass dimension check ≡ true) ↔ Admits dimension Fits
  unfolding lets_pass
  lets_pass_iff none check e = (λ h. inl refl, λ h. refl)
  lets_pass_iff (some []) check e = (λ h. inl refl, λ h. refl)
  lets_pass_iff (some (x ∷ xs)) check e = (
    λ h. inr ((any_iff (x ∷ xs)).0 (sym (e (x ∷ xs)) ∙ h)),
    λ h. elim h [ inl p ↦ cc | inr m ↦ e (x ∷ xs) ∙ (any_iff (x ∷ xs)).1 m ],
  )

abbrev is_floor : Option ℕ → ℕ → Bool
is_floor none n = false
is_floor (some floor) n = n == floor

is_floor_iff : (floor : Option ℕ) (n : ℕ) → (is_floor floor n ≡ true) ↔ (floor ≡ some n)
is_floor_iff none n = (λ h. cc, λ e. cc)
is_floor_iff (some floor) n =
    (λ h. ap some (ground arith), λ e. let same : floor ≡ n = cc in ground arith)

any_none : (floors : List ℕ) → any (λ n. false) floors ≡ false
unfolding any
any_none [] = refl
any_none (n ∷ floors) = any_none floors

on_floor-any :
    (room : Option Room) (floors : List ℕ)
    → on_floor room floors ≡ any (is_floor (floor_of room)) floors
unfolding on_floor includes_id
on_floor-any none floors = sym (any_none floors)
on_floor-any (some room) floors = go room.floor
  where
    go :
        (floor : Option ℕ)
        → (elim floor as (λ _. Bool) [ none ↦ false | some f ↦ any (λ i. i == f) floors ])
          ≡ any (is_floor floor) floors
    go none = sym (any_none floors)
    go (some f) = refl

-- a list of stays that is missing or empty is passed over
pub matches_stays-listed :
    (stay_ids : Option (List ℕ)) (filter : AudienceFilter) (stay : Stay) (room : Option Room)
    → listed stay_ids ≡ []
    → matches_stays stay_ids filter stay room ≡ matches_dimensions filter stay room
unfolding matches_stays
matches_stays-listed none filter stay room e = refl
matches_stays-listed (some []) filter stay room e = refl
matches_stays-listed (some (i ∷ ids)) filter stay room e = cc

pub matches_dimensions_iff :
    (filter : AudienceFilter) (stay : Stay) (room : Option Room)
    → (matches_dimensions filter stay room ≡ true) ↔ (
        Admits filter.stay_types (λ t. t ≡ stay.stay_type)
        × Admits filter.floors (λ n. floor_of room ≡ some n)
        × Admits filter.room_ids (λ i. i ≡ stay.room_id))
unfolding matches_dimensions includes_type includes_id
matches_dimensions_iff filter stay room = (
  λ h. (types.0 (ground arith), floors.0 (ground arith), rooms.0 (ground arith)),
  λ (t, f, r). let t' = types.1 t in let f' = floors.1 f in let r' = rooms.1 r in ground arith,
)
  where
    types :
        (lets_pass filter.stay_types (λ types. includes_type types stay.stay_type) ≡ true)
        ↔ Admits filter.stay_types (λ t. t ≡ stay.stay_type)
    types =
        lets_pass_iff _ (λ t. same_type t stay.stay_type) (λ t. same_type_iff t stay.stay_type)
          filter.stay_types _ (λ xs. refl)

    floors :
        (lets_pass filter.floors (on_floor room) ≡ true)
        ↔ Admits filter.floors (λ n. floor_of room ≡ some n)
    floors =
        lets_pass_iff _ (is_floor (floor_of room)) (is_floor_iff (floor_of room)) filter.floors
          (on_floor room) (on_floor-any room)

    rooms :
        (lets_pass filter.room_ids (λ ids. includes_id ids stay.room_id) ≡ true)
        ↔ Admits filter.room_ids (λ i. i ≡ stay.room_id)
    rooms =
        lets_pass_iff _ (λ i. i == stay.room_id) (λ i. ==_iff i stay.room_id) filter.room_ids _
          (λ xs. refl)
