-- ===== src/Catalog/Labels.antt =====
-- The label of a variant: `_variant_label` of backend/app/domain/order/service.py, and `_label_for`
-- of backend/app/domain/catalog/service.py, which has the same body.
use neo_store.Catalog.Models.{ProductVariant, OptionValueTranslation, OptionValue}
use neo_store.Prelude.Text.{Text, text_eq, join, text}
use neo_store.Prelude.{Option, List, if◌then◌else◌, or_else, is_empty, some, ◌∷◌, [], find, none}

-- The translation of an option value in the locale, or else in the default one.
abbrev value_row : Text → Text → OptionValue → Option OptionValueTranslation
value_row locale default_locale value =
    or_else (find (λ (t : OptionValueTranslation). text_eq t.locale locale) value.translations)
      (find (λ (t : OptionValueTranslation). text_eq t.locale default_locale) value.translations)

abbrev with_label : Option OptionValueTranslation → List Text → List Text
with_label none parts = parts
with_label (some row) parts = row.label ∷ parts

label_parts : Text → Text → List (Option OptionValue) → List Text
label_parts locale default_locale [] = []
label_parts locale default_locale (none ∷ links) = label_parts locale default_locale links
label_parts locale default_locale (some value ∷ links) =
    with_label (value_row locale default_locale value) (label_parts locale default_locale links)

unfoldable pub variant_label : ProductVariant → Text → Text → Option Text
unfolding label_parts
variant_label variant locale default_locale =
    let parts = label_parts locale default_locale variant.option_values in
    if is_empty parts then none else some (join (text " / ") parts)
