-- ===== src/Region.antt =====
-- backend/app/domain/region: a region binds a currency, its locales, a tax rate and payment
-- methods. The table is the list of its rows.
pub mod Resolve
use neo_store.Errors.{coded_error, not_found, no_region_configured}
use neo_store.Prelude.Int.{ltb_ℤ, ℤ}
use neo_store.Result.{Result, ok, err}
use neo_store.Decimal.{Decimal}
use neo_store.Prelude.Text.{Text, text_eq, text_lt}
use mathlib.Core.Option
use neo_store.Prelude.{
  ℕ, Bool, List, if◌then◌else◌, Option, none, ltb, find, ◌∷◌, [], or_else, some, true, map,
  is_empty, false, select, sort_by,
}

pub record RegionPaymentMethod : Type 0 where
  pub provider_code : Text
  pub is_active : Bool

pub record Region : Type 0 where
  pub code : Text
  pub name : Text
  pub currency_code : Text
  pub tax_rate : Decimal
  pub is_default : Bool
  pub position : ℤ
  pub locale_links : List Text
  pub payment_method_links : List RegionPaymentMethod

-- `RegionRepository.get`
unfoldable pub get_region : List Region → Text → Option Region
get_region regions code = find (λ r. text_eq r.code code) regions

-- `RegionRepository.get_default`
unfoldable pub get_default : List Region → Option Region
get_default regions = find (λ r. r.is_default) regions

-- Does `a` stand before `b` by `ORDER BY position, code`?
unfoldable pub stands_before : Region → Region → Bool
stands_before a b =
    if ltb_ℤ a.position b.position
    then true
    else if ltb_ℤ b.position a.position
    then false
    else text_lt a.code b.code

-- `RegionRepository.get_first`
unfoldable pub get_first : List Region → Option Region
get_first [] = none
get_first (r ∷ rs) = elim (get_first rs) [
  | none ↦ some r
  | some first ↦ if stands_before first r then some first else some r
]

-- `RegionService.resolve_region`; an empty code counts as none
unfoldable pub resolve_region : List Region → Option Text → Result Region
resolve_region regions code =
    let fallback = or_else (get_default regions) (get_first regions) in
    let found =
      or_else (Option.bind code (λ c. if is_empty c then none else get_region regions c))
        fallback in
    elim found [ some region ↦ ok region | none ↦ err (coded_error not_found no_region_configured) ]

-- `RegionService.locales_for`
unfoldable pub locales_for : List Region → Text → List Text
locales_for regions region_code = elim (get_region regions region_code) [
  | none ↦ []
  | some region ↦ region.locale_links
]

-- `RegionService.available_payment_methods`
unfoldable pub available_payment_methods : List Region → Text → List Text
available_payment_methods regions region_code = elim (get_region regions region_code) [
  | none ↦ []
  | some region ↦ map (λ m. m.provider_code) (select (λ m. m.is_active) region.payment_method_links)
]

-- `RegionRepository.list_all`, which `RegionService.list_regions` passes on
unfoldable pub list_all : List Region → List Region
list_all regions = sort_by stands_before regions

-- `RegionRepository.upsert`, which leaves the links of a stored region alone
unfoldable pub upsert_region : Region → List Region → List Region
upsert_region region [] = region ∷ []
upsert_region region (r ∷ rs) =
    let rest = upsert_region region rs in
    if text_eq r.code region.code
    then record r {
      name = region.name;
      currency_code = region.currency_code;
      tax_rate = region.tax_rate;
      is_default = region.is_default;
      position = region.position;
    }
      ∷ rs
    else r ∷ rest

-- `RegionDetail` of schemas.py, and its `from_region`
pub record RegionDetail : Type 0 where
  pub code : Text
  pub name : Text
  pub currency_code : Text
  pub tax_rate : Decimal
  pub is_default : Bool
  pub locales : List Text
  pub payment_methods : List Text

unfoldable pub from_region : Region → RegionDetail
from_region region = record {
  code = region.code;
  name = region.name;
  currency_code = region.currency_code;
  tax_rate = region.tax_rate;
  is_default = region.is_default;
  locales = region.locale_links;
  payment_methods =
      map (λ (m : RegionPaymentMethod). m.provider_code)
        (select (λ (m : RegionPaymentMethod). m.is_active) region.payment_method_links);
}
