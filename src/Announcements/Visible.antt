-- ===== src/Announcements/Visible.antt =====
-- Who sees an announcement, and for how long: src/modules/announcements/announcement-visibility.ts.
use mathlib.Core.List.{Memᴰ}
use mathlib.Core.Path.{subst}
use hotello_backend.Common.{
  ℕ, ◌<◌, ◌≡◌, ◌⊎◌, ◌↔◌, refl, sym, ap, ◌∙◌, inl, inr, arith, Bool, Bool-cases, true, Option, none,
  some, List, [], ◌∷◌, ◌++◌, any, ◌&&◌, ◌==◌, ==_iff, Text, text_lt,
}
use hotello_backend.Model.Rooms.{Room}
use hotello_backend.Model.Stays.{Stay}
use hotello_backend.Announcements.{
  AudienceFilter, Announcement, AnnouncementStatus, live, is_live, is_in_window, includes_id,
  matches_stays, matches_audience, is_visible_to_stay,
}
use hotello_backend.Announcements.Audience.{
  Admits, listed, floor_of, any_iff, matches_dimensions_iff,
}

-- `a` is the smaller string: it is a proper prefix of `b`, or smaller at the first place where they differ
abbrev pub Precedes : Text → Text → Type 0
Precedes a b =
    (shared : Text) × (((d : ℕ) × (t : Text) × (a ≡ shared) × (b ≡ shared ++ d ∷ t))
      ⊎ ((c : ℕ) × (d : ℕ) × (s : Text) × (t : Text) × (a ≡ shared ++ c ∷ s)
          × (b ≡ shared ++ d ∷ t)
          × (c < d)))

text_lt-Precedes : (a b : Text) → text_lt a b ≡ true → Precedes a b
unfolding text_lt
text_lt-Precedes a [] h = cc
text_lt-Precedes [] (d ∷ t) h = ([], inl (d, t, refl, refl))
text_lt-Precedes (c ∷ s) (d ∷ t) h = elim (Bool-cases (text_lt s t)) [
  | inr not_less ↦ ([], inr (c, d, s, t, refl, refl, ground arith))
  | inl less ↦ elim (Bool-cases (c == d)) [
    | inr differs ↦ ([], inr (c, d, s, t, refl, refl, ground arith))
    | inl e ↦
        let same : c ≡ d = (==_iff c d).0 e in
        let (shared, parted) = text_lt-Precedes s t less in
        elim parted [
          | inl (x, u, p, q) ↦ (c ∷ shared, inl (x, u, ap (λ l. c ∷ l) p, cc))
          | inr (x, y, u, v, p, q, smaller) ↦
              (c ∷ shared, inr (x, y, u, v, ap (λ l. c ∷ l) p, cc, smaller))
        ]
  ]
]

longer : (shared : Text) (d : ℕ) (t : Text) → text_lt shared (shared ++ d ∷ t) ≡ true
unfolding text_lt
longer [] d t = refl
longer (c ∷ s) d t = let rest = longer s d t in ground arith

differs_later :
    (shared : Text) (c d : ℕ) (s t : Text)
    → c < d
    → text_lt (shared ++ c ∷ s) (shared ++ d ∷ t) ≡ true
unfolding text_lt
differs_later [] c d s t less = ground arith
differs_later (x ∷ shared) c d s t less =
    let rest = differs_later shared c d s t less in ground arith

Precedes-text_lt : (a b : Text) → Precedes a b → text_lt a b ≡ true
Precedes-text_lt a b (shared, inl (d, t, p, q)) = rw (p, q) (longer shared d t)
Precedes-text_lt a b (shared, inr (c, d, s, t, p, q, less)) =
    rw (p, q) (differs_later shared c d s t less)

-- no end, which an empty string stands for as well, or one that is still to come
abbrev pub IsBefore : Text → Option Text → Type 0
IsBefore now_local until = (listed until ≡ []) ⊎ Precedes now_local (listed until)

is_in_window_iff :
    (until : Option Text) (now_local : Text)
    → (is_in_window until now_local ≡ true) ↔ IsBefore now_local until
unfolding is_in_window
is_in_window_iff none now_local = (λ h. inl refl, λ h. refl)
is_in_window_iff (some []) now_local = (λ h. inl refl, λ h. refl)
is_in_window_iff (some (c ∷ s)) now_local = (
  λ h. inr (text_lt-Precedes now_local (c ∷ s) h),
  λ h. elim h [ inl e ↦ cc | inr before ↦ Precedes-text_lt now_local (c ∷ s) before ],
)

-- whom a filter is for: one stay, or the stays of a list, or else those that every dimension admits
abbrev pub IsFor : AudienceFilter → Stay → Option Room → Type 0
IsFor filter stay room =
    (filter.stay_id ≡ some stay.id)
    ⊎ ((filter.stay_id ≡ none) × Memᴰ stay.id (listed filter.stay_ids))
    ⊎ ((filter.stay_id ≡ none)
        × (listed filter.stay_ids ≡ [])
        × Admits filter.stay_types (λ t. t ≡ stay.stay_type)
        × Admits filter.floors (λ n. floor_of room ≡ some n)
        × Admits filter.room_ids (λ i. i ≡ stay.room_id))

includes_id_iff : (ids : List ℕ) (id : ℕ) → (includes_id ids id ≡ true) ↔ Memᴰ id ids
unfolding includes_id
includes_id_iff ids id = (
  λ h. let (x, m, same) = found.0 h in subst (λ y. Memᴰ y ids) same m,
  λ m. found.1 (id, m, refl),
)
  where
    found : (any (λ i. i == id) ids ≡ true) ↔ ((x : ℕ) × Memᴰ x ids × (x ≡ id))
    found = any_iff _ (λ i. i == id) (λ i. ==_iff i id) ids

Named : Option (List ℕ) → AudienceFilter → Stay → Option Room → Type 0
Named stay_ids filter stay room =
    Memᴰ stay.id (listed stay_ids)
    ⊎ ((listed stay_ids ≡ [])
        × Admits filter.stay_types (λ t. t ≡ stay.stay_type)
        × Admits filter.floors (λ n. floor_of room ≡ some n)
        × Admits filter.room_ids (λ i. i ≡ stay.room_id))

matches_stays_iff :
    (stay_ids : Option (List ℕ)) (filter : AudienceFilter) (stay : Stay) (room : Option Room)
    → (matches_stays stay_ids filter stay room ≡ true) ↔ Named stay_ids filter stay room
unfolding matches_stays Named
matches_stays_iff none filter stay room =
    let d = matches_dimensions_iff filter stay room in
    (
      λ h. let (t, f, r) = d.0 h in inr (refl, t, f, r),
      λ n. elim n [ inl m ↦ elim m [ ] | inr (e, t, f, r) ↦ d.1 (t, f, r) ],
    )
matches_stays_iff (some []) filter stay room =
    let d = matches_dimensions_iff filter stay room in
    (
      λ h. let (t, f, r) = d.0 h in inr (refl, t, f, r),
      λ n. elim n [ inl m ↦ elim m [ ] | inr (e, t, f, r) ↦ d.1 (t, f, r) ],
    )
matches_stays_iff (some (i ∷ ids)) filter stay room =
    let found = includes_id_iff (i ∷ ids) stay.id in
    (λ h. inl (found.0 h), λ n. elim n [ inl m ↦ found.1 m | inr (e, t, f, r) ↦ cc ])

matches_audience_iff :
    (filter : AudienceFilter) (stay : Stay) (room : Option Room)
    → (matches_audience (some filter) stay room ≡ true) ↔ IsFor filter stay room
unfolding matches_audience Named
matches_audience_iff filter stay room = go filter.stay_id refl
  where
    go :
        (o : Option ℕ)
        → filter.stay_id ≡ o
        → ((elim o as (λ _. Bool) [
          | some id ↦ stay.id == id
          | none ↦ matches_stays filter.stay_ids filter stay room
        ])
            ≡ true)
          ↔ IsFor filter stay room
    go (some id) e = (
      λ h. let same : stay.id ≡ id = (==_iff stay.id id).0 h in inl (e ∙ ap some (sym same)),
      λ f. elim f [
        | inl own ↦ let both : some id ≡ some stay.id = sym e ∙ own in (==_iff stay.id id).1 cc
        | inr (inl (n, m)) ↦ let q : some id ≡ none = sym e ∙ n in cc
        | inr (inr (n, x, t, f, r)) ↦ let q : some id ≡ none = sym e ∙ n in cc
      ],
    )
    go none e =
        let found = matches_stays_iff filter.stay_ids filter stay room in
        (
          λ h. elim (found.0 h) [
            | inl m ↦ inr (inl (e, m))
            | inr (x, t, f, r) ↦ inr (inr (e, x, t, f, r))
          ],
          λ f. elim f [
            | inl own ↦ let q : none ≡ some stay.id = sym e ∙ own in cc
            | inr (inl (n, m)) ↦ found.1 (inl m)
            | inr (inr (n, x, t, f, r)) ↦ found.1 (inr (x, t, f, r))
          ],
        )

-- an announcement without a filter is for everyone
abbrev pub Reaches : Option AudienceFilter → Stay → Option Room → Type 0
Reaches none stay room = Unit
Reaches (some filter) stay room = IsFor filter stay room

matches_audience-Reaches :
    (audience : Option AudienceFilter) (stay : Stay) (room : Option Room)
    → (matches_audience audience stay room ≡ true) ↔ Reaches audience stay room
unfolding matches_audience
matches_audience-Reaches none stay room = (λ h. tt, λ r. refl)
matches_audience-Reaches (some filter) stay room = matches_audience_iff filter stay room

is_live_iff : (status : AnnouncementStatus) → (is_live status ≡ true) ↔ (status ≡ live)
is_live_iff live = (λ h. refl, λ e. refl)
is_live_iff _ = (λ h. cc, λ e. cc)

both_iff :
    (a b c : Bool) {P Q R : Type 0}
    → (a ≡ true) ↔ P
    → (b ≡ true) ↔ Q
    → (c ≡ true) ↔ R
    → ((a && b && c) ≡ true) ↔ (P × Q × R)
both_iff a b c f g h = (
  λ e. (f.0 (ground arith), g.0 (ground arith), h.0 (ground arith)),
  λ (p, q, r). let x = f.1 p in let y = g.1 q in let z = h.1 r in ground arith,
)

-- A stay sees an announcement exactly while it is live, the hotel-local stamp is before its end (an absent
-- or empty end never comes, and at the end itself it is gone), and it is for the stay: it has no
-- filter, or its filter names that stay, or names none and lists it, or names and lists none and every
-- dimension admits the stay.
pub is_visible_to_stay_iff :
    (a : Announcement) (stay : Stay) (room : Option Room) (now_local : Text)
    → (is_visible_to_stay a stay room now_local ≡ true)
      ↔ ((a.status ≡ live) × IsBefore now_local a.active_until_local × Reaches a.audience stay room)
unfolding is_visible_to_stay
is_visible_to_stay_iff a stay room now_local =
    both_iff (is_live a.status) (is_in_window a.active_until_local now_local)
      (matches_audience a.audience stay room) (is_live_iff a.status)
      (is_in_window_iff a.active_until_local now_local)
      (matches_audience-Reaches a.audience stay room)
