-- ===== src/Fnb/Pricing.antt =====
-- src/modules/fnb/fnb-pricing.ts: the price of one order line. src/modules/events/event-pricing.ts: the
-- price of an event booking. An amount is in hundredths of a cent; a key is a string that is compared.
use package.text.Mathlib.Text.{◌==◌ as str_eq}
use hotello_backend.Common.{
  ℕ, ◌*◌, String, Bool, true, false, Option, none, some, List, any, find, if◌then◌else◌,
}
use hotello_backend.Model.People.{StayType}
use hotello_backend.Stays.Edits.{same_type}

pub record FnbVariantOption : Type 0 where
  pub key : String
  pub price : ℕ

pub record FnbVariant : Type 0 where
  pub options : List FnbVariantOption

pub record PricingItem : Type 0 where
  pub price : ℕ
  pub included_for : Option (List StayType)
  pub variant : Option FnbVariant

pub record PricingResult : Type 0 where
  pub included : Bool
  pub unit_price : ℕ

-- `includedFor ?? menuDefaultIncludedFor`
abbrev pub inherited : List StayType → Option (List StayType) → List StayType
inherited default none = default
inherited default (some types) = types

unfoldable pub includes_type : List StayType → StayType → Bool
unfolding any
includes_type types t = any (λ x. same_type x t) types

-- the option with the chosen key; no key matches none
unfoldable pub chosen : List FnbVariantOption → Option String → Option FnbVariantOption
unfolding find
chosen options none = none
chosen options (some key) = find (λ o. str_eq o.key key) options

abbrev is_set : Option String → Bool
is_set none = false
is_set (some key) = if str_eq key "" then false else true

abbrev priced : Bool → ℕ → PricingResult
priced included base = record { included = included; unit_price = if included then 0 else base }

-- the base price, or none for the two FNB_VARIANT_INVALID errors
unfoldable pub base_price : PricingItem → Option String → Option ℕ
base_price item key = elim item.variant [
  | none ↦ if is_set key then none else some item.price
  | some variant ↦ elim (chosen variant.options key) [ none ↦ none | some o ↦ some o.price ]
]

unfoldable pub resolve_price :
    PricingItem → List StayType → Option String → StayType → Option PricingResult
resolve_price item default key stay_type =
    let included = includes_type (inherited default item.included_for) stay_type in
    elim (base_price item key) [ none ↦ none | some base ↦ some (priced included base) ]

pub record EventPrice : Type 0 where
  pub included : Bool
  pub unit_price : ℕ
  pub total : ℕ

unfoldable pub resolve_event_price : ℕ → List StayType → StayType → ℕ → EventPrice
resolve_event_price price included_for stay_type party_size =
    let included = includes_type included_for stay_type in
    let unit_price : ℕ = if included then 0 else price in
    record { included = included; unit_price = unit_price; total = unit_price * party_size }
