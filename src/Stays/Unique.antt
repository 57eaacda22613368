-- ===== src/Stays/Unique.antt =====
-- No two active stays share a room, and no two of one hotel share a code: what
-- src/modules/tenant-stays keeps, with the database's two partial unique indexes as a second line.
use mathlib.Core.Path.{subst}
use native.Mathlib.Decide.{ℕ_discrete}
use hotello_backend.Common.{ℕ, ◌≡◌, sym, ◌∙◌, ap, ◌⊎◌, inl, inr, some, arith}
use hotello_backend.Store.{TypeOrm, get-save_self, get-save_ne}
use hotello_backend.Model.Stays.{Stay, active}
use hotello_backend.Stays.Changes.{
  StayTable, Replaces, Change, arrived, edited, moved, recoded, closed, IsKept,
}

-- two stays that must not be active together
abbrev pub Overlap : Stay → Stay → Type 0
Overlap a b = (a.room_id ≡ b.room_id) ⊎ ((a.hotel_id ≡ b.hotel_id) × (a.code_hash ≡ b.code_hash))

module _ (orm : TypeOrm) where
  abbrev pub IsUnique : StayTable orm → Type 0
  IsUnique t =
      (j k : ℕ) (a b : Stay)
      → orm.get t j ≡ some a
      → orm.get t k ≡ some b
      → a.status ≡ active
      → b.status ≡ active
      → Overlap a b
      → j ≡ k

  -- the saved row overlaps with no other active row
  Fits : StayTable orm → Stay → Type 0
  Fits t s =
      (k : ℕ) (r : Stay)
      → orm.get t k ≡ some r
      → s.status ≡ active
      → r.status ≡ active
      → Overlap s r
      → k ≡ s.id

  flip : (a b : Stay) → Overlap a b → Overlap b a
  flip a b (inl e) = inl (sym e)
  flip a b (inr (e, f)) = inr (sym e, sym f)

  saved_row :
      (t : StayTable orm) (s a : Stay) (j : ℕ)
      → s.id ≡ j
      → orm.get (orm.save s t) j ≡ some a
      → a ≡ s
  saved_row t s a j same stored =
      let hit : some s ≡ some a =
        sym (get-save_self orm s t) ∙ ap (orm.get (orm.save s t)) same ∙ stored in
      cc

  save-IsUnique : (t : StayTable orm) (s : Stay) → Fits t s → IsUnique t → IsUnique (orm.save s t)
  unfolding Fits
  save-IsUnique t s fits unique j k a b ja kb la lb o = elim (ℕ_discrete s.id j) [
    | yes ej ↦ elim (ℕ_discrete s.id k) [
      | yes ek ↦ omega arith
      | no nk ↦
          let p = saved_row t s a j ej ja in
          let kb' = sym (get-save_ne orm s t k nk) ∙ kb in
          let same =
            fits k b kb' (subst (λ x. x.status ≡ active) p la) lb (subst (λ x. Overlap x b) p o) in
          sym ej ∙ sym same
    ]
    | no nj ↦ elim (ℕ_discrete s.id k) [
      | yes ek ↦
          let p = saved_row t s b k ek kb in
          let ja' = sym (get-save_ne orm s t j nj) ∙ ja in
          let same =
            fits j a ja' (subst (λ x. x.status ≡ active) p lb) la
              (subst (λ x. Overlap x a) p (flip a b o)) in
          same ∙ ek
      | no nk ↦
          unique j k a b (sym (get-save_ne orm s t j nj) ∙ ja) (sym (get-save_ne orm s t k nk) ∙ kb)
            la lb o
    ]
  ]

  -- an active row that overlaps with the replaced one is that one
  twin :
      (t : StayTable orm) (hotel_id : ℕ) (old s : Stay)
      → Replaces orm t hotel_id old s
      → IsUnique t
      → (k : ℕ) (r : Stay) → orm.get t k ≡ some r
      → r.status ≡ active
      → Overlap r old
      → k ≡ s.id
  twin t hotel_id old s rep unique k r stored live o =
      unique k old.id r old stored rep.stored live rep.active o ∙ sym rep.same_id

  Change-Fits :
      (t : StayTable orm) (hotel_id : ℕ) (s : Stay)
      → Change orm t hotel_id s
      → IsUnique t
      → Fits t s
  unfolding Fits
  Change-Fits t hotel_id _ (arrived s new own free unused) unique k r stored la lb o = elim o [
    | inl e ↦ absurd (free k r stored lb (sym e))
    | inr (e, f) ↦ absurd (unused k r stored lb (sym e ∙ own) (sym f))
  ]
  Change-Fits t hotel_id _ (edited old s rep room code status) unique k r stored la lb o = elim o [
    | inl e ↦ twin t hotel_id old s rep unique k r stored lb (inl (sym e ∙ room))
    | inr (e, f) ↦
        twin t hotel_id old s rep unique k r stored lb (inr (sym e ∙ rep.same_hotel, sym f ∙ code))
  ]
  Change-Fits t hotel_id _ (moved old s rep free code status) unique k r stored la lb o = elim o [
    | inl e ↦ absurd (free k r stored lb (sym e))
    | inr (e, f) ↦
        twin t hotel_id old s rep unique k r stored lb (inr (sym e ∙ rep.same_hotel, sym f ∙ code))
  ]
  Change-Fits t hotel_id _ (recoded old s rep room unused status) unique k r stored la lb o =
      elim o [
        | inl e ↦ twin t hotel_id old s rep unique k r stored lb (inl (sym e ∙ room))
        | inr (e, f) ↦ absurd (unused k r stored lb (sym e ∙ rep.same_hotel ∙ rep.own) (sym f))
      ]
  Change-Fits t hotel_id _ (closed old s rep room code status) unique k r stored la lb o =
      absurd (ground arith)

  pub IsUnique-IsKept : (hotel_id : ℕ) → IsKept orm hotel_id IsUnique
  IsUnique-IsKept hotel_id t s change unique =
      save-IsUnique t s (Change-Fits t hotel_id s change unique) unique
