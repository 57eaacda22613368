-- ===== src/Events/Seats.antt =====
-- The seats of an event: src/modules/events. No change lets the booked seats pass the capacity.
use mathlib.Core.Path.{subst}
use hotello_backend.Common.{
  ℕ, ◌+◌, ◌≤◌, ◌≡◌, refl, sym, ap, ◌∙◌, inl, inr, arith, true, false, Bool-cases, ==_iff, Option,
  none, some, List, [], ◌∷◌, Text, ◌==◌,
}
use hotello_backend.Store.{TypeOrm, Covered, Covered-save, find-nil, total}
use hotello_backend.Store.Sums.{total-save, total-save_le}
use hotello_backend.Model.Charges.{EventBooking, staff, guest}
use hotello_backend.Model.Events.{Event, EventStatus, draft, published, completed}
use hotello_backend.Settlement.Bookings.{settled_booking}
use hotello_backend.Events.Rows.{
  holds_seats, seats_taken, new_booking, cancelled_booking, published_event, cancelled_event,
  completed_event,
}
use hotello_backend.Events.Guests.{has_room}
use hotello_backend.Events.Changes.{
  EventTable, BookingTable, Tables, IsKept, IsEdit, Raised, with_cancelled, created, edited, opened,
  ended, called_off, reserved, released, settled,
}

-- at most `c` seats, or any number
abbrev pub Within : Option ℕ → ℕ → Type 0
Within none n = Unit
Within (some c) n = n ≤ c

-- how many seats may be booked: none of an event that is not stored, a draft or cancelled
abbrev pub limit_of : EventStatus → Option ℕ → Option ℕ
limit_of draft capacity = some 0
limit_of published capacity = capacity
limit_of completed capacity = capacity
limit_of EventStatus.cancelled capacity = some 0

abbrev pub limit : Option Event → Option ℕ
limit none = some 0
limit (some e) = limit_of e.status e.capacity

Within-le : (c : Option ℕ) (m n : ℕ) → m ≤ n → Within c n → Within c m
Within-le none m n le h = tt
Within-le (some c) m n le h = omega arith

pub Within-zero : (c : Option ℕ) → Within c 0
Within-zero none = tt
Within-zero (some c) = omega arith

Within-raised : (c d : Option ℕ) (n : ℕ) → Raised c d → Within c n → Within d n
Within-raised c none n r h = tt
Within-raised none (some d) n r h = absurd r
Within-raised (some c) (some d) n r h = omega arith

-- a booking that has room stays within the capacity
Within-booked :
    (c : Option ℕ) (used size : ℕ)
    → has_room c used size ≡ true
    → Within c used
    → Within c (size + used)
Within-booked none used size room h = tt
Within-booked (some c) used size room h = ground arith

limit-edit :
    (old next : Event) (n : ℕ)
    → IsEdit old next
    → Within (limit (some old)) n
    → Within (limit (some next)) n
limit-edit old next n edit h = go old.status refl
  where
    was : {s : EventStatus} → old.status ≡ s → Within (limit_of s old.capacity) n
    was e = subst (λ s. Within (limit_of s old.capacity) n) e h

    put :
        (s : EventStatus)
        → old.status ≡ s
        → Within (limit_of s next.capacity) n
        → Within (limit (some next)) n
    put s e x = subst (λ s'. Within (limit_of s' next.capacity) n) (sym (edit.same_status ∙ e)) x

    same : next ≡ old → Within (limit (some next)) n
    same e = subst (λ x. Within (limit (some x)) n) (sym e) h

    go : (s : EventStatus) → old.status ≡ s → Within (limit (some next)) n
    go draft e = put draft e (was e)
    go published e =
        put published e (Within-raised old.capacity next.capacity n (edit.raised e) (was e))
    go completed e = same (edit.over (rw e refl))
    go EventStatus.cancelled e = same (edit.over (rw e refl))

module _ (orm : TypeOrm) where
  -- every event holds its limit
  abbrev pub SeatsFit : Tables orm → Type 0
  SeatsFit (e, b) = (k : ℕ) → Within (limit (orm.get e k)) (seats_taken orm k b)

  -- a save of an event changes what is stored under its own id only
  stored-save :
      (P : Option Event → Type 0) (e : EventTable orm) (next : Event) (k : ℕ)
      → (next.id ≡ k → P (some next))
      → P (orm.get e k)
      → P (orm.get (orm.save next e) k)
  stored-save P e next k here there = elim (Bool-cases (next.id == k)) [
    | inl hit ↦ rw (orm.get-save next e k, hit) (here (ground arith))
    | inr other ↦ rw (orm.get-save next e k, other) there
  ]

  cancelled-le :
      (k now : ℕ) (reason : Text) (bs : List EventBooking) (t : BookingTable orm)
      → seats_taken orm k (with_cancelled orm now reason bs t) ≤ seats_taken orm k t
  cancelled-le k now reason [] t = omega arith
  cancelled-le k now reason (b ∷ bs) t =
      let next = cancelled_booking staff now (some reason) b in
      let rest = cancelled-le k now reason bs (orm.save next t) in
      let one =
        total-save_le orm (λ (x : EventBooking). x.party_size) (holds_seats k) t next
          (λ h. absurd (ground arith)) in
      omega arith

  cancelled-Covered :
      (id now : ℕ) (reason : Text) (bs : List EventBooking) (t : BookingTable orm)
      → Covered orm {key = λ b. b.id} (holds_seats id) t bs
      → Covered orm {key = λ b. b.id} (holds_seats id) (with_cancelled orm now reason bs t) []
  cancelled-Covered id now reason [] t h = h
  cancelled-Covered id now reason (b ∷ bs) t h = cancelled-Covered id now reason bs _ (
      Covered-save orm (holds_seats id) t b (cancelled_booking staff now (some reason) b) bs refl
        (ground arith) h)

  -- the limit of a stored event
  at :
      (e : EventTable orm) (b : BookingTable orm) (x : Event)
      → SeatsFit (e, b)
      → orm.get e x.id ≡ some x
      → Within (limit (some x)) (seats_taken orm x.id b)
  at e b x h stored = subst (λ o. Within (limit o) (seats_taken orm x.id b)) stored (h x.id)

  -- the save of an event that takes the place of one with a limit no larger
  event-SeatsFit :
      (e : EventTable orm) (b : BookingTable orm) (next : Event)
      → Within (limit (some next)) (seats_taken orm next.id b)
      → SeatsFit (e, b)
      → SeatsFit (orm.save next e, b)
  event-SeatsFit e b next fits h k =
      stored-save (λ o. Within (limit o) (seats_taken orm k b)) e next k
        (λ i. subst (λ j. Within (limit (some next)) (seats_taken orm j b)) i fits) (h k)

  -- the save of a booking that takes no more seats
  booking-SeatsFit :
      (e : EventTable orm) (b : BookingTable orm) (next : EventBooking)
      → ((k : ℕ) → seats_taken orm k (orm.save next b) ≤ seats_taken orm k b)
      → SeatsFit (e, b)
      → SeatsFit (e, orm.save next b)
  booking-SeatsFit e b next le h k = Within-le (limit (orm.get e k)) _ _ (le k) (h k)

  pub SeatsFit-IsKept : IsKept orm SeatsFit
  SeatsFit-IsKept t u (created e b event fresh drafted) h =
      event-SeatsFit e b event
        (subst (λ s. Within (limit_of s event.capacity) (seats_taken orm event.id b)) (sym drafted)
          (subst (λ o. Within (limit o) (seats_taken orm event.id b)) fresh (h event.id)))
        h
  SeatsFit-IsKept t u (edited e b old next stored edit) h =
      event-SeatsFit e b next
        (subst (λ i. Within (limit (some next)) (seats_taken orm i b)) (sym edit.same_id)
          (limit-edit old next _ edit (at e b old h stored)))
        h
  SeatsFit-IsKept t u (opened e b old now stored drafted) h =
      event-SeatsFit e b (published_event now old)
        (let none_yet =
            subst (λ s. Within (limit_of s old.capacity) (seats_taken orm old.id b)) drafted
              (at e b old h stored) in
          Within-le old.capacity _ 0 none_yet (Within-zero old.capacity))
        h
  SeatsFit-IsKept t u (ended e b old now stored live) h =
      event-SeatsFit e b (completed_event now old)
        (subst (λ s. Within (limit_of s old.capacity) (seats_taken orm old.id b)) live
          (at e b old h stored))
        h
  SeatsFit-IsKept t u (called_off e b old now user_id reason stored live) h =
      event-SeatsFit e _ (cancelled_event now user_id reason old)
        (let gone = find-nil orm (holds_seats old.id) _ (
            cancelled-Covered old.id now reason (orm.find (holds_seats old.id) b) b
              (λ k r there passed. orm.find-complete (holds_seats old.id) b k r there passed)) in
          let sum = ap (total (λ (x : EventBooking). x.party_size)) gone in omega arith)
        (λ k.
          Within-le (limit (orm.get e k)) _ _
            (cancelled-le k now reason (orm.find (holds_seats old.id) b) b) (h k))
  SeatsFit-IsKept t u
        (reserved e b event id now size stay hotel price method stored live fresh small room) h =
      λ k. elim (Bool-cases (event.id == k)) [
        | inl hit ↦
            subst (λ j. Within (limit (orm.get e j)) (seats_taken orm j after))
              ((==_iff event.id k).0 hit) own
        | inr other ↦ Within-le (limit (orm.get e k)) _ _ (elsewhere k other) (h k)
      ]
    where
      row : EventBooking
      row = new_booking id now size stay hotel event price method

      after : BookingTable orm
      after = orm.save row b

      own : Within (limit (orm.get e event.id)) (seats_taken orm event.id after)
      own =
          let used =
            subst (λ s. Within (limit_of s event.capacity) (seats_taken orm event.id b)) live
              (at e b event h stored) in
          let sum =
            total-save orm (λ (x : EventBooking). x.party_size) (holds_seats event.id) b row in
          let fits =
            Within-le event.capacity _ _ sum (Within-booked event.capacity _ size room used) in
          subst (λ o. Within (limit o) (seats_taken orm event.id after)) (sym stored)
            (subst (λ s. Within (limit_of s event.capacity) (seats_taken orm event.id after))
              (sym live) fits)

      elsewhere : (k : ℕ) → (event.id == k) ≡ false → seats_taken orm k after ≤ seats_taken orm k b
      elsewhere k other =
          total-save_le orm (λ (x : EventBooking). x.party_size) (holds_seats k) b row
            (λ p. absurd (ground arith))
  SeatsFit-IsKept t u (released e b old now stored held) h =
      booking-SeatsFit e b (cancelled_booking guest now none old)
        (λ k.
          total-save_le orm (λ (x : EventBooking). x.party_size) (holds_seats k) b _
            (λ p. absurd (ground arith)))
        h
  SeatsFit-IsKept t u (settled e b old now user_id stored held) h =
      booking-SeatsFit e b (settled_booking now user_id old)
        (λ k.
          total-save_le orm (λ (x : EventBooking). x.party_size) (holds_seats k) b
            (settled_booking now user_id old) (λ p. (old, stored, p, omega arith)))
        h
