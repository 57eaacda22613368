-- ===== src/Stays/Handlers/Base.antt =====
-- The internals that the operations of src/modules/tenant-stays/tenant-stays.service.ts share, before
-- and after, and `issueUniqueCode`.
use mathlib.Core.Path.{subst}
use hotello_backend.Common.{
  ℕ, zero, suc, ◌≡◌, refl, sym, ap, ◌∙◌, arith, Bool, true, Option, none, some, Text,
}
use hotello_backend.Store.{TypeOrm}
use hotello_backend.Model.Rooms.{Room}
use hotello_backend.Model.Stays.{Stay, StayStatus}
use hotello_backend.Exec.{World, Outcome, pure}
use hotello_backend.Exec.Keeps.{
  Keeps, Any, Keeps-pure, Keeps-throw, Keeps-modify, Keeps-weaken, Keeps-guard, guard-Keeps,
  Keeps-then, Keeps-gets, Keeps-from_option, Keeps-bind,
}
use hotello_backend.Exec.Safe.{Safe, Safe-modify, Safe-Holds}
use hotello_backend.Shared.{is_null, is_active_stay}
use hotello_backend.Stays.Changes.{StayTable, IsFree, IsUnused, Change, IsKept}
use hotello_backend.Stays.Codes.{IssuedCode, has_code, generate, issue, issue_unique_code}
use hotello_backend.Stays.Shared.{
  occupies, find_stay, find_room, find_stay_in_hotel, load_hotel, assert_active,
  lock_available_room, save_stay, loaded_room,
}
use hotello_backend.Stays.Frame.{OnStays}

null-none : {A : Type 0} (o : Option A) → is_null o ≡ true → o ≡ none
null-none none e = refl
null-none (some a) e = cc

module _ (orm : TypeOrm) where
  -- a query that finds no active stay of the room shows that the room is free
  none-IsFree :
      (t : StayTable orm) (room_id : ℕ)
      → orm.find_one (occupies orm room_id) t ≡ none
      → IsFree orm t room_id
  none-IsFree t room_id e k s stored active =
      let missed = orm.find_one-none (occupies orm room_id) t k s e stored in λ same. ground arith

  none-IsUnused :
      (hash : Text → ℕ) (t : StayTable orm) (hotel_id code_hash : ℕ)
      → orm.find_one (has_code orm hash hotel_id code_hash) t ≡ none
      → IsUnused orm t hotel_id code_hash
  none-IsUnused hash t hotel_id code_hash e k s stored active own =
      let missed = orm.find_one-none (has_code orm hash hotel_id code_hash) t k s e stored in
      λ same. ground arith

  -- before its save an operation reads the table `t` and leaves it alone
  abbrev pub Before : (StayTable orm → Type 0) → StayTable orm → StayTable orm → Type 0
  Before J t x = (x ≡ t) × J t

  abbrev pub IsStored : StayTable orm → ℕ → Stay → Type 0
  IsStored t hotel_id s = (orm.get t s.id ≡ some s) × (s.hotel_id ≡ hotel_id)

  module _ (J : StayTable orm → Type 0) (t : StayTable orm) where
    pub load_hotel-Keeps :
        (hotel_id : ℕ) → Keeps (OnStays orm (Before J t)) Any (load_hotel orm hotel_id)
    unfolding load_hotel
    load_hotel-Keeps hotel_id =
        Keeps-bind {P = Any} _ _ (Keeps-gets _ (λ w h. tt)) λ o _. Keeps-from_option _ o (λ a e. tt)

    found :
        (test : Stay → Bool) (w : World orm) (s : Stay)
        → w.stays ≡ t
        → orm.find_one test w.stays ≡ some s
        → (orm.get t s.id ≡ some s) × (test s ≡ true)
    found test w s same e = orm.find_one-some test t s (rw same at e)

    pub find_stay-Keeps :
        (hotel_id id : ℕ)
        → Keeps (OnStays orm (Before J t)) (IsStored t hotel_id) (find_stay orm hotel_id id)
    unfolding find_stay
    find_stay-Keeps hotel_id id =
        Keeps-bind {P = λ o. (s : Stay) → o ≡ some s → IsStored t hotel_id s} _ _
          (Keeps-gets _
            (λ w h s e. let (stored, passed) = found _ w s h.0 e in (stored, ground arith)))
          λ o p. Keeps-from_option _ o p

    pub find_stay_in_hotel-Keeps :
        (hotel_id id : ℕ)
        → Keeps
            (OnStays orm (Before J t))
            (λ l. IsStored t hotel_id l.stay)
            (find_stay_in_hotel orm hotel_id id)
    unfolding find_stay_in_hotel find_room
    find_stay_in_hotel-Keeps hotel_id id =
        Keeps-bind _ _ (find_stay-Keeps hotel_id id)
          λ s p. Keeps-bind {P = Any} _ _ (Keeps-gets _ (λ w h. tt)) λ r _. Keeps-pure _ p

    pub assert_active-Keeps :
        (s : Stay)
        → Keeps (OnStays orm (Before J t)) (λ _. s.status ≡ StayStatus.active) (assert_active orm s)
    unfolding assert_active
    assert_active-Keeps s = Keeps-weaken _ (Keeps-guard (is_active_stay s) _) (λ _ e. ground arith)

    pub lock_available_room-Keeps :
        (hotel_id room_id : ℕ)
        → Keeps
            (OnStays orm (Before J t))
            (λ r. IsFree orm t r.id)
            (lock_available_room orm hotel_id room_id)
    unfolding lock_available_room
    lock_available_room-Keeps hotel_id room_id =
        Keeps-bind {P = Any} _ _ (Keeps-gets _ (λ w h. tt)) λ o _.
          Keeps-bind {P = Any} _ _ (Keeps-from_option _ o (λ a e. tt)) λ room _.
            Keeps-then _ _ (guard-Keeps _ _) (
              Keeps-bind {P = λ o. o ≡ orm.find_one (occupies orm room.id) t} _ _
                (Keeps-gets _ (λ w h. ap (orm.find_one (occupies orm room.id)) h.0))
                λ o e.
                  Keeps-bind _ _ (Keeps-guard (is_null o) _)
                    λ _ n. Keeps-pure room (none-IsFree t room.id (sym e ∙ null-none o n)))

    generate-Keeps : (hash : Text → ℕ) → Keeps (OnStays orm (Before J t)) Any (generate orm hash)
    unfolding generate
    generate-Keeps hash =
        Keeps-bind {P = Any} _ _ (Keeps-gets _ (λ w h. tt))
          λ n _. Keeps-then _ _ (Keeps-modify _ (λ w h. h)) (Keeps-pure _ tt)

    pub issue-Keeps :
        (hash : Text → ℕ) (hotel_id attempts : ℕ)
        → Keeps
            (OnStays orm (Before J t))
            (λ c. IsUnused orm t hotel_id c.code_hash)
            (issue orm hash hotel_id attempts)
    unfolding issue
    issue-Keeps hash hotel_id zero = Keeps-throw _
    issue-Keeps hash hotel_id (suc attempts) =
        Keeps-bind {P = Any} _ _ (generate-Keeps hash) λ code _.
          Keeps-bind {P = λ o. o ≡ orm.find_one (has_code orm hash hotel_id (hash code)) t} _ _
            (Keeps-gets _ (λ w h. ap (orm.find_one (has_code orm hash hotel_id (hash code))) h.0))
            λ o e. go (issue-Keeps hash hotel_id attempts) code o e
      where
        go :
            Keeps
              (OnStays orm (Before J t))
              (λ c. IsUnused orm t hotel_id c.code_hash)
              (issue orm hash hotel_id attempts)
            → (code : Text) (o : Option Stay)
            → o ≡ orm.find_one (has_code orm hash hotel_id (hash code)) t
            → Keeps {A = IssuedCode}
                (OnStays orm (Before J t))
                (λ c. IsUnused orm t hotel_id c.code_hash)
                (elim o [
                  | none ↦ pure (record { code = code; code_hash = hash code })
                  | some _ ↦ issue orm hash hotel_id attempts
                ])
        go again code none e = Keeps-pure _ (none-IsUnused hash t hotel_id (hash code) (sym e))
        go again code (some s) e = again

  module _ (J : StayTable orm → Type 0) (t : StayTable orm) where
    pub Before-holds : (w : World orm) → OnStays orm (Before J t) w → OnStays orm J w
    Before-holds w h = subst J (sym h.0) h.1

    -- the one save of an operation
    pub save_stay-Safe :
        (hotel_id : ℕ) (s : Stay)
        → IsKept orm hotel_id J
        → Change orm t hotel_id s
        → Safe (OnStays orm (Before J t)) (OnStays orm J) (λ _. OnStays orm J) (save_stay orm s)
    unfolding save_stay
    save_stay-Safe hotel_id s kept change =
        Safe-modify _ (λ w h. subst (λ x. J (orm.save s x)) (sym h.0) (kept t s change h.1))

    pub issue_unique_code-Keeps :
        (hash : Text → ℕ) (hotel_id : ℕ)
        → Keeps
            (OnStays orm (Before J t))
            (λ c. IsUnused orm t hotel_id c.code_hash)
            (issue_unique_code orm hash hotel_id)
    unfolding issue_unique_code
    issue_unique_code-Keeps hash hotel_id = issue-Keeps J t hash hotel_id 20

  module _ (J : StayTable orm → Type 0) where
    pub load_hotel_after-Keeps :
        (hotel_id : ℕ) → Keeps (OnStays orm J) Any (load_hotel orm hotel_id)
    unfolding load_hotel
    load_hotel_after-Keeps hotel_id =
        Keeps-bind {P = Any} _ _ (Keeps-gets _ (λ w h. tt)) λ o _. Keeps-from_option _ o (λ a e. tt)

    pub loaded_room-Keeps : (o : Option Room) → Keeps (OnStays orm J) Any (loaded_room orm o)
    unfolding loaded_room
    loaded_room-Keeps o = Keeps-from_option _ o (λ a e. tt)

    -- an operation that is right for the table that it starts from keeps `J`
    pub from_each :
        {A : Type 0} (m : World orm → Outcome (World orm) A)
        → ((t : StayTable orm)
            → Safe (OnStays orm (Before J t)) (OnStays orm J) (λ _. OnStays orm J) m)
        → Keeps (OnStays orm J) Any m
    from_each m k = record { at = λ w h. Safe-Holds m (k w.stays) w (refl, h) }
