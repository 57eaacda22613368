-- ===== src/Clock.antt =====
-- src/modules/tenant-stays/stay-time.ts: hotel-local wall-clock time. `Intl.DateTimeFormat` reads the
-- time-zone database and is a parameter: for a time zone and an instant it gives the formatted parts.
pub mod Digits
use hotello_backend.Common.{
  ℕ, ◌+◌, ◌-◌, ◌*◌, ◌%◌, Bool, true, false, ◌&&◌, [], ◌∷◌, ◌++◌, Text, ◌==◌, leb, if◌then◌else◌,
  text_eq, text_lt,
}

-- The parts of `formatToParts`, as digits.
pub record IntlParts : Type 0 where
  pub year : Text
  pub month : Text
  pub day : Text
  pub hour : Text
  pub minute : Text

pub record Intl : Type 0 where
  pub format_to_parts : Text → ℕ → IntlParts
  -- the name of the default time zone, `Africa/Cairo`
  pub cairo : Text

pub record HotelLocalParts : Type 0 where
  pub date : Text
  pub minutes : ℕ

-- `parseInt(text, 10)` on digits; it stops at the first other character
unfoldable pub parse_digits : ℕ → Text → ℕ
parse_digits acc [] = acc
parse_digits acc (c ∷ s) =
    let rest = parse_digits (acc * 10 + (c - 48)) s in if leb 48 c && leb c 57 then rest else acc

unfoldable pub parse_int : Text → ℕ
unfolding parse_digits
parse_int s = parse_digits 0 s

abbrev twenty_four : Text
twenty_four = b'2' ∷ b'4' ∷ []

unfoldable pub hotel_local_parts : Intl → Text → ℕ → HotelLocalParts
unfolding parse_int text_eq
hotel_local_parts intl timezone now =
    let parts = intl.format_to_parts timezone now in
    let hour : ℕ = if text_eq parts.hour twenty_four then 0 else parse_int parts.hour in
    record {
      date = parts.year ++ (b'-' ∷ (parts.month ++ (b'-' ∷ parts.day)));
      minutes = hour * 60 + parse_int parts.minute;
    }

-- the instant of the local midnight; an instant is in milliseconds, and below one day it would be
-- negative
unfoldable pub start_of_hotel_day : Intl → Text → ℕ → ℕ
unfolding hotel_local_parts
start_of_hotel_day intl timezone now =
    now - (hotel_local_parts intl timezone now).minutes * 60_000 - now % 60_000

-- `time.split(':')`: the text before the first separator, and the text between it and the next
before_colon : Text → Text
before_colon [] = []
before_colon (c ∷ s) = if c == b':' then [] else c ∷ before_colon s

after_colon : Text → Text
after_colon [] = []
after_colon (c ∷ s) = if c == b':' then s else after_colon s

unfoldable pub minutes_of : Text → ℕ
unfolding before_colon after_colon parse_int
minutes_of time = parse_int (before_colon time) * 60 + parse_int (before_colon (after_colon time))

-- a stay is overdue once the hotel's local clock passes the checkout time on its check-out date
unfoldable pub is_stay_overdue : Intl → Text → Text → Text → ℕ → Bool
unfolding hotel_local_parts text_lt minutes_of
is_stay_overdue intl check_out_date checkout_time timezone now =
    let local = hotel_local_parts intl timezone now in
    if text_lt check_out_date local.date
    then true
    else if text_lt local.date check_out_date
    then false
    else leb (minutes_of checkout_time) local.minutes
