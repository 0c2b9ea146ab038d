-- ===== src/Region/Resolve.antt =====
-- Which region a request gets: `resolve_region` of backend/app/domain/region/service.py.
use neo_store.Errors.{coded_error, not_found, no_region_configured}
use neo_store.Result.{err, ok}
use neo_store.Prelude.Text.{Text}
use neo_store.Prelude.{
  List, ◌∷◌, is_empty, ◌≢◌, Option, ◌≡◌, none, arith, some, ◌↔◌, [], if◌then◌else◌,
}
use neo_store.Region.{get_first, resolve_region, get_region, Region, get_default}
use mathlib.Core.Option

get_first-ne-none : (r : Region) (rs : List Region) → get_first (r ∷ rs) ≢ none
unfolding get_first
get_first-ne-none r rs h = ground arith

-- Resolution raises exactly when there is no region at all, whatever code is asked for.
pub resolve_region_raises_iff :
    (regions : List Region) (code : Option Text)
    → (resolve_region regions code ≡ err (coded_error not_found no_region_configured))
      ↔ (regions ≡ [])
unfolding resolve_region Option.bind
resolve_region_raises_iff [] none = unfold get_first get_default in ground arith
resolve_region_raises_iff [] (some c) = unfold get_first get_default get_region in ground arith
resolve_region_raises_iff (r ∷ rs) none = ground (arith, get_first-ne-none r rs)
resolve_region_raises_iff (r ∷ rs) (some c) = ground (arith, get_first-ne-none r rs)

-- A code that is not empty and names a region resolves to that region; an empty or unknown code
-- resolves as no code does: to the default region, or to the first where none is the default.
pub resolve_region_precedence :
    (regions : List Region) (code : Text)
    → resolve_region regions (some code)
      ≡ (elim (if is_empty code then none else get_region regions code) [
        | some region ↦ ok region
        | none ↦ resolve_region regions none
      ])
unfolding resolve_region Option.bind
resolve_region_precedence regions code = ground arith
