-- ===== src/Events/Handlers/Setters.antt =====
-- One field of `update` of src/modules/events/tenant-events.service.ts: what a write leaves of the event.
use hotello_backend.Common.{
  ℕ, String, ◌≡◌, refl, ◌∙◌, inl, inr, Bool, true, false, Bool-cases, Option, none, some, arith,
}
use hotello_backend.Model.Events.{Event, published, draft}
use hotello_backend.Model.Effects.{Detail}
use hotello_backend.Events.Manage.Edit.{Edit, is_sent, is_capacity_safe, set_field}
use hotello_backend.Events.Changes.{IsEdit, Raised, is_over}

-- everything else of a draft may change
pub draft-IsEdit :
    (old next : Event)
    → old.status ≡ draft
    → next.id ≡ old.id
    → next.hotel_id ≡ old.hotel_id
    → next.status ≡ old.status
    → next.published_at ≡ old.published_at
    → IsEdit old next
draft-IsEdit old next drafted i h s p = record {
  same_id = i;
  same_hotel = h;
  same_status = s;
  same_stamp = p;
  promised = λ q. cc;
  raised = λ q. absurd (cc);
  over = λ o. absurd (ground arith);
}

-- a setter that leaves the columns alone that an edit may not touch
pub record IsSetter {A : Type 0} (set : A → Event → Event) : Type 0 where
  pub id : (a : A) (x : Event) → (set a x).id ≡ x.id
  pub hotel : (a : A) (x : Event) → (set a x).hotel_id ≡ x.hotel_id
  pub status : (a : A) (x : Event) → (set a x).status ≡ x.status
  pub stamp : (a : A) (x : Event) → (set a x).published_at ≡ x.published_at

pub setter :
    {A : Type 0} {set : A → Event → Event}
    → ((a : A) (x : Event) → (set a x).id ≡ x.id)
    → ((a : A) (x : Event) → (set a x).hotel_id ≡ x.hotel_id)
    → ((a : A) (x : Event) → (set a x).status ≡ x.status)
    → ((a : A) (x : Event) → (set a x).published_at ≡ x.published_at)
    → IsSetter set
setter i h s p = record { id = i; hotel = h; status = s; stamp = p }

pub set_field-IsEdit :
    {A : Type 0} (same : A → A → Bool) (word : A → Detail) (key : String) (get : Event → A)
    (set : A → Event → Event) (old : Event) (field : Option A) (e : Edit)
    → IsSetter set
    → (is_sent field ≡ true → old.status ≡ draft)
    → IsEdit old e.event
    → IsEdit old (set_field same word key get set field e).event
unfolding set_field
set_field-IsEdit same word key get set old none e s d h = h
set_field-IsEdit same word key get set old (some a) e s d h =
    elim (Bool-cases (same a (get e.event))) [
      | inl eq ↦ rw eq h
      | inr ne ↦ rw ne (
          draft-IsEdit old (set a e.event) (d refl) (s.id a e.event ∙ h.same_id)
            (s.hotel a e.event ∙ h.same_hotel) (s.status a e.event ∙ h.same_status)
            (s.stamp a e.event ∙ h.same_stamp))
    ]

-- the capacity, which may rise on a published event
pub set_capacity-IsEdit :
    (same : Option ℕ → Option ℕ → Bool) (word : Option ℕ → Detail) (key : String) (old : Event)
    (field : Option (Option ℕ)) (e : Edit)
    → (is_sent field ≡ true → is_over old.status ≡ false)
    → (old.status ≡ published → is_capacity_safe old.capacity field ≡ true)
    → IsEdit old e.event
    → IsEdit old
        (set_field same word key (λ x. x.capacity) (λ a x. record x { capacity = a }) field e).event
unfolding set_field
set_capacity-IsEdit same word key old none e live safe h = h
set_capacity-IsEdit same word key old (some c) e live safe h =
    elim (Bool-cases (same c e.event.capacity)) [
      | inl eq ↦ rw eq h
      | inr ne ↦ rw ne (record {
        same_id = h.same_id;
        same_hotel = h.same_hotel;
        same_status = h.same_status;
        same_stamp = h.same_stamp;
        promised = h.promised;
        raised = λ p. up old.capacity c (safe p);
        over = λ o. cc (live refl);
      })
    ]
  where
    up : (o c : Option ℕ) → is_capacity_safe o (some c) ≡ true → Raised o c
    up o none k = tt
    up none (some d) k = cc
    up (some b) (some d) k = ground arith
