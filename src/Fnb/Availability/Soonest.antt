-- ===== src/Fnb/Availability/Soonest.antt =====
-- The next opening that a closed menu announces is the soonest: src/modules/fnb/fnb-availability.ts.
use mathlib.Core.List.{Memᴰ}
use mathlib.Core.Path.{subst}
use hotello_backend.Common.{
  ℕ, ◌+◌, ◌%◌, ◌≤◌, ◌<◌, ◌≡◌, refl, sym, ◌∙◌, ap, Bool, true, false, none, some, List, [], ◌∷◌, map,
  any, All, Text, arith, leb, Bool-cases, inl, inr,
}
use hotello_backend.Clock.{minutes_of}
use hotello_backend.Fnb.Availability.{
  FnbWindow, is_between, is_within_window, Opening, forward, opening, insert, sort, first_start,
  menu_availability,
}

-- a closed window stays closed until its start comes around
between-closed :
    (s e m k : ℕ)
    → s < 1440
    → e < 1440
    → m < 1440
    → is_between s e m ≡ false
    → k < forward s m
    → is_between s e ((m + k) % 1440) ≡ false
unfolding is_between
between-closed s e m k hs he hm closed before = ground arith

between-opens :
    (s e m : ℕ)
    → s < 1440
    → e < 1440
    → m < 1440
    → is_between s e m ≡ false
    → is_between s e ((m + forward s m) % 1440) ≡ true
unfolding is_between
between-opens s e m hs he hm closed = ground arith

arrives : (s m : ℕ) → s < 1440 → m < 1440 → s ≡ (m + forward s m) % 1440
arrives s m hs hm = ground arith

-- the ends of a window are minutes of the day
pub record IsDaily (w : FnbWindow) : Type 0 where
  pub start : minutes_of w.start < 1440
  pub end : minutes_of w.end < 1440

any-false :
    {A : Type 0} (test : A → Bool) (xs : List A)
    → any test xs ≡ false
    → All (λ x. test x ≡ false) xs
unfolding any
any-false test [] e = tt
any-false test (x ∷ xs) e = (ground arith, any-false test xs (ground arith))

any_none :
    {A : Type 0} (test : A → Bool) (xs : List A)
    → All (λ x. test x ≡ false) xs
    → any test xs ≡ false
unfolding any
any_none test [] h = refl
any_none test (x ∷ xs) (p, h) = ground (arith, any_none test xs h)

any_some :
    {A : Type 0} (test : A → Bool) (x : A) (xs : List A)
    → Memᴰ x xs
    → test x ≡ true
    → any test xs ≡ true
unfolding any
any_some test x [] m h = elim m [ ]
any_some test x (y ∷ ys) (Memᴰ.head e) h = rw (sym (ap test e) ∙ h)
any_some test x (y ∷ ys) (Memᴰ.tail m) h = rw (any_some test x ys m h) (ground arith)

IsSoonest : ℕ → FnbWindow → List FnbWindow → Type 0
IsSoonest minutes w ws =
    Memᴰ w ws × All (λ u. (opening minutes w).delta ≤ (opening minutes u).delta) ws

below-All :
    (minutes : ℕ) (v w : FnbWindow) (ws : List FnbWindow)
    → (opening minutes v).delta ≤ (opening minutes w).delta
    → All (λ u. (opening minutes w).delta ≤ (opening minutes u).delta) ws
    → All (λ u. (opening minutes v).delta ≤ (opening minutes u).delta) ws
below-All minutes v w [] le h = tt
below-All minutes v w (u ∷ ws) le (p, h) = (omega arith, below-All minutes v w ws le h)

-- sorting brings the nearest start to the front
sort-first :
    (minutes : ℕ) (v : FnbWindow) (vs : List FnbWindow)
    → (w : FnbWindow) × (rest : List Opening) × (sort (map (opening minutes) (v ∷ vs))
        ≡ opening minutes w ∷ rest)
      × IsSoonest minutes w (v ∷ vs)
unfolding sort insert IsSoonest
sort-first minutes v [] = (v, [], refl, (Memᴰ.head refl, (omega arith, tt)))
sort-first minutes v (u ∷ vs) =
    let (w, rest, front, (m, least)) = sort-first minutes u vs in
    elim (Bool-cases (leb (opening minutes v).delta (opening minutes w).delta)) [
      | inl below ↦ (
        v,
        opening minutes w ∷ rest,
        ap (insert (opening minutes v)) front ∙ rw below,
        (Memᴰ.head refl, (omega arith, below-All minutes v w (u ∷ vs) (ground arith) least)),
      )
      | inr above ↦ (
        w,
        insert (opening minutes v) rest,
        ap (insert (opening minutes v)) front ∙ rw above,
        (Memᴰ.tail m, (ground arith, least)),
      )
    ]

All-closed :
    (minutes k d : ℕ) (ws : List FnbWindow)
    → minutes < 1440
    → k < d
    → All IsDaily ws
    → All (λ w. is_within_window w minutes ≡ false) ws
    → All (λ u. d ≤ (opening minutes u).delta) ws
    → All (λ w. is_within_window w ((minutes + k) % 1440) ≡ false) ws
unfolding is_within_window opening
All-closed minutes k d [] hm hk daily closed least = tt
All-closed minutes k d (w ∷ ws) hm hk (p, daily) (c, closed) (l, least) = (
  between-closed (minutes_of w.start) (minutes_of w.end) minutes k p.start p.end hm c (omega arith),
  All-closed minutes k d ws hm hk daily closed least,
)

All-Mem : {A : Type 0} (P : A → Type 0) (x : A) (xs : List A) → Memᴰ x xs → All P xs → P x
All-Mem P x [] m h = elim m [ ]
All-Mem P x (y ∷ ys) (Memᴰ.head e) (p, h) = subst P (sym e) p
All-Mem P x (y ∷ ys) (Memᴰ.tail m) (p, h) = All-Mem P x ys m h

available_iff :
    (v : FnbWindow) (vs : List FnbWindow) (minutes : ℕ)
    → (menu_availability (v ∷ vs) minutes).available
      ≡ any (λ w. is_within_window w minutes) (v ∷ vs)
unfolding menu_availability
available_iff v vs minutes = ground arith

always_open : (minutes : ℕ) → (menu_availability [] minutes).opens_at ≡ none
unfolding menu_availability
always_open minutes = refl

-- a menu that names an opening is closed, and names the front of the sorted openings
announced :
    (v : FnbWindow) (vs : List FnbWindow) (minutes : ℕ) (o : Text)
    → (menu_availability (v ∷ vs) minutes).opens_at ≡ some o
    → (any (λ w. is_within_window w minutes) (v ∷ vs) ≡ false)
      × (first_start (sort (map (opening minutes) (v ∷ vs))) ≡ some o)
unfolding menu_availability
announced v vs minutes o e = elim (Bool-cases (any (λ w. is_within_window w minutes) (v ∷ vs))) [
  | inl opened ↦ let q : none ≡ some o = rw opened at e in cc
  | inr shut ↦ (shut, rw shut at e)
]

-- For windows within a day and a minute of the day: the opening that a menu announces is reached after
-- some number of minutes, the menu takes orders then, and at no minute before it.
pub menu_availability_soonest :
    (ws : List FnbWindow) (minutes : ℕ) (o : Text)
    → All IsDaily ws
    → minutes < 1440
    → (menu_availability ws minutes).opens_at ≡ some o
    → (d : ℕ) × (minutes_of o ≡ (minutes + d) % 1440)
      × ((menu_availability ws ((minutes + d) % 1440)).available ≡ true)
      × ((k : ℕ) → k < d → (menu_availability ws ((minutes + k) % 1440)).available ≡ false)
unfolding is_within_window opening IsSoonest
menu_availability_soonest [] minutes o daily hm e =
    let q : none ≡ some o = sym (always_open minutes) ∙ e in cc
menu_availability_soonest (v ∷ vs) minutes o daily hm e =
    let (closed, front) = announced v vs minutes o e in
    let (w, rest, sorted, (m, least)) = sort-first minutes v vs in
    let named : some w.start ≡ some o = ap first_start (sym sorted) ∙ front in
    let shut = any-false (λ u. is_within_window u minutes) (v ∷ vs) closed in
    let p : IsDaily w = All-Mem IsDaily w (v ∷ vs) m daily in
    let q = All-Mem (λ u. is_within_window u minutes ≡ false) w (v ∷ vs) m shut in
    let d = forward (minutes_of w.start) minutes in
    let same : w.start ≡ o = cc in
    (
      d,
      ap minutes_of (sym same) ∙ arrives (minutes_of w.start) minutes p.start hm,
      available_iff v vs _
          ∙ any_some _ w (v ∷ vs) m
              (between-opens (minutes_of w.start) (minutes_of w.end) minutes p.start p.end hm q),
      λ k before.
          available_iff v vs _
          ∙ any_none _ (v ∷ vs) (All-closed minutes k d (v ∷ vs) hm before daily shut least),
    )
