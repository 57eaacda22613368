-- ===== src/Events/Life.antt =====
-- The life of an event: src/modules/events/events.constants.ts. A draft is published, and a published
-- event is completed or cancelled.
use mathlib.Core.Path.{subst}
use native.Mathlib.Decide.{ℕ_discrete}
use hotello_backend.Common.{
  ℕ, ◌≡◌, ◌⊎◌, inl, inr, refl, sym, ap, ◌∙◌, arith, Bool, true, false, Option, none, some,
}
use hotello_backend.Store.{TypeOrm, get-save_self, get-save_ne}
use hotello_backend.Model.Events.{Event, EventStatus, draft, published, completed}
use hotello_backend.Shared.{is_null}
use hotello_backend.Events.Rows.{is_draft, published_event, cancelled_event, completed_event}
use hotello_backend.Events.Changes.{
  EventTable, BookingTable, Tables, IsKept, IsEdit, Raised, is_over, created, edited, opened, ended,
  called_off, reserved, released, settled,
}

abbrev pub may_follow : EventStatus → EventStatus → Bool
may_follow draft _ = true
may_follow published draft = false
may_follow published _ = true
may_follow completed completed = true
may_follow completed _ = false
may_follow EventStatus.cancelled EventStatus.cancelled = true
may_follow EventStatus.cancelled _ = false

-- the event with the texts, the capacity and the columns of its end of another
abbrev pub with_end : Event → Event → Event
with_end s r = record r {
  titles = s.titles;
  descriptions = s.descriptions;
  capacity = s.capacity;
  status = s.status;
  cancel_reason = s.cancel_reason;
  cancelled_at = s.cancelled_at;
  cancelled_by_id = s.cancelled_by_id;
  completed_at = s.completed_at;
}

-- What the row `r` has in common with an earlier row `s` of the same event: the status follows; once the
-- event is published its date, place, price and every other term stay, the texts apart, and its
-- capacity only rises; once it is over nothing changes.
pub record IsLater (s r : Event) : Type 0 where
  pub same_id : r.id ≡ s.id
  pub same_hotel : r.hotel_id ≡ s.hotel_id
  pub follows : may_follow s.status r.status ≡ true
  pub promised : is_draft s.status ≡ false → with_end s r ≡ s
  pub raised : is_draft s.status ≡ false → Raised s.capacity r.capacity
  pub over : is_over s.status ≡ true → r ≡ s

-- the stamp of the publication is missing exactly on a draft
abbrev pub IsMarked : Event → Type 0
IsMarked e = is_null e.published_at ≡ is_draft e.status

Raised-refl : (c : Option ℕ) → Raised c c
Raised-refl none = tt
Raised-refl (some c) = omega arith

Raised-trans : (a b c : Option ℕ) → Raised a b → Raised b c → Raised a c
Raised-trans a b none h k = tt
Raised-trans a none (some z) h k = absurd k
Raised-trans none (some y) (some z) h k = absurd h
Raised-trans (some x) (some y) (some z) h k = omega arith

follow_refl : (s : EventStatus) → may_follow s s ≡ true
follow_refl draft = refl
follow_refl published = refl
follow_refl completed = refl
follow_refl EventStatus.cancelled = refl

pub IsLater-refl : (s : Event) → IsLater s s
IsLater-refl s = record {
  same_id = refl;
  same_hotel = refl;
  follows = follow_refl s.status;
  promised = λ _. refl;
  raised = λ _. Raised-refl s.capacity;
  over = λ _. refl;
}

IsLater-trans : (s r q : Event) → IsLater s r → IsLater r q → IsLater s q
IsLater-trans s r q a b = record {
  same_id = b.same_id ∙ a.same_id;
  same_hotel = b.same_hotel ∙ a.same_hotel;
  follows = ground arith;
  promised = λ d. ap (with_end s) (b.promised (still d)) ∙ a.promised d;
  raised = λ d. Raised-trans s.capacity r.capacity q.capacity (a.raised d) (b.raised (still d));
  over = λ o. b.over (subst (λ x. is_over x.status ≡ true) (sym (a.over o)) o) ∙ a.over o;
}
  where
    still : is_draft s.status ≡ false → is_draft r.status ≡ false
    still d = ground (arith, a.follows)

edit-IsMarked : (old next : Event) → IsEdit old next → IsMarked old → IsMarked next
edit-IsMarked old next e marked = ap is_null e.same_stamp ∙ marked ∙ sym (ap is_draft e.same_status)

edit-IsLater : (old next : Event) → IsEdit old next → IsLater old next
edit-IsLater old next e = record {
  same_id = e.same_id;
  same_hotel = e.same_hotel;
  follows =
      subst (λ s. may_follow old.status s ≡ true) (sym e.same_status) (follow_refl old.status);
  promised = λ d. elim (live_or_over old.status d) [
    | inl p ↦ ap (with_end old) (e.promised p)
    | inr o ↦ ap (with_end old) (e.over o)
  ];
  raised = λ d. elim (live_or_over old.status d) [
    | inl p ↦ e.raised p
    | inr o ↦
        subst (λ x. Raised old.capacity x.capacity) (sym (e.over o)) (Raised-refl old.capacity)
  ];
  over = e.over;
}
  where
    live_or_over : (s : EventStatus) → is_draft s ≡ false → (s ≡ published) ⊎ (is_over s ≡ true)
    live_or_over draft d = cc
    live_or_over published d = inl refl
    live_or_over completed d = inr refl
    live_or_over EventStatus.cancelled d = inr refl

-- a published event that ends
ended-IsLater :
    (old next : Event)
    → old.status ≡ published
    → next.id ≡ old.id
    → next.hotel_id ≡ old.hotel_id
    → is_draft next.status ≡ false
    → with_end old next ≡ old
    → next.capacity ≡ old.capacity
    → IsLater old next
ended-IsLater old next live i h d same cap = record {
  same_id = i;
  same_hotel = h;
  follows = ground arith;
  promised = λ _. same;
  raised = λ _. subst (λ c. Raised old.capacity c) (sym cap) (Raised-refl old.capacity);
  over = λ o. absurd (ground arith);
}

opened-IsLater :
    (old : Event) (now : ℕ) → old.status ≡ draft → IsLater old (published_event now old)
opened-IsLater old now drafted = record {
  same_id = refl;
  same_hotel = refl;
  follows = ground arith;
  promised = λ d. absurd (ground arith);
  raised = λ d. absurd (ground arith);
  over = λ o. absurd (ground arith);
}

module _ (orm : TypeOrm) (k : ℕ) (s : Event) where
  abbrev pub StoresLater : Tables orm → Type 0
  StoresLater t = (r : Event) × (orm.get t.0 k ≡ some r) × IsLater s r × IsMarked r

  -- the row of an event is replaced by a later one
  replaced :
      (e : EventTable orm) (b : BookingTable orm) (old next : Event)
      → orm.get e old.id ≡ some old
      → (IsMarked old → IsMarked next)
      → IsLater old next
      → StoresLater (e, b)
      → StoresLater (orm.save next e, b)
  replaced e b old next stored keep later (r, row, h, marked) = elim (ℕ_discrete old.id k) [
    | no other ↦ (r, get-save_ne orm next e k (λ q. other (sym later.same_id ∙ q)) ∙ row, h, marked)
    | yes hit ↦
        let both : some old ≡ some r = sym stored ∙ ap (orm.get e) hit ∙ row in
        let p : old ≡ r = cc in
        (
          next,
          ap (orm.get (orm.save next e)) (sym hit ∙ sym later.same_id) ∙ get-save_self orm next e,
          IsLater-trans s r next h (subst (λ x. IsLater x next) p later),
          keep (subst IsMarked (sym p) marked),
        )
  ]

  pub StoresLater-IsKept : IsKept orm StoresLater
  StoresLater-IsKept t u (created e b event fresh drafted) (r, row, h, marked) =
      (r, get-save_ne orm event e k (λ q. let hit = ap (orm.get e) q in cc) ∙ row, h, marked)
  StoresLater-IsKept t u (edited e b old next stored edit) h =
      replaced e b old next stored (edit-IsMarked old next edit) (edit-IsLater old next edit) h
  StoresLater-IsKept t u (opened e b old now stored drafted) h =
      replaced e b old (published_event now old) stored (λ m. refl) (opened-IsLater old now drafted)
        h
  StoresLater-IsKept t u (ended e b old now stored live) h =
      replaced e b old (completed_event now old) stored
        (λ m. let still : is_draft old.status ≡ false = ap is_draft live in m ∙ still)
        (ended-IsLater old _ live refl refl refl refl refl) h
  StoresLater-IsKept t u (called_off e b old now user_id reason stored live) h =
      replaced e b old (cancelled_event now user_id reason old) stored
        (λ m. let still : is_draft old.status ≡ false = ap is_draft live in m ∙ still)
        (ended-IsLater old _ live refl refl refl refl refl) h
  StoresLater-IsKept t u
        (reserved e b event id now size stay hotel price method stored live fresh small room) h =
      h
  StoresLater-IsKept t u (released e b old now stored held) h = h
  StoresLater-IsKept t u (settled e b old now user_id stored held) h = h
