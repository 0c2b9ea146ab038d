-- ===== src/Locale/Translation.antt =====
-- Which row a translation comes from (backend/app/domain/i18n/service.py, `translate`).
use neo_store.Prelude.Text.{Text, text_eq, text_eq_iff}
use neo_store.Prelude.{
  Bool, List, ◌≡◌, some, none, ◌↔◌, true, ◌∷◌, any, false, Option-cases, inl, arith, [], inr,
  or_else, refl,
}
use neo_store.Locale.{find_last, translate}

module _ {A : Type 0} where
  find_last_passes : (p : A → Bool) (xs : List A) {a : A} → find_last p xs ≡ some a → p a ≡ true
  unfolding find_last
  find_last_passes p [] h = cc
  find_last_passes p (x ∷ xs) {a} h = elim (Option-cases (find_last p xs)) [
    | inl e ↦ ground arith
    | inr (b, e) ↦ ground (arith, find_last_passes p xs {a = a})
  ]

  find_last-none_iff : (p : A → Bool) (xs : List A) → (find_last p xs ≡ none) ↔ (any p xs ≡ false)
  unfolding find_last
  find_last-none_iff p [] = ground arith
  find_last-none_iff p (x ∷ xs) = ground (arith, find_last-none_iff p xs)

-- The two searches of a translation, as one equation for each case of the first.
translate_steps :
    {A : Type 0} (locale_of : A → Text) (default_code : Text) (rows : List A) (locale : Text)
    → translate locale_of default_code rows locale
      ≡ or_else
          (find_last (λ r. text_eq (locale_of r) locale) rows)
          (find_last (λ r. text_eq (locale_of r) default_code) rows)
unfolding translate
translate_steps locale_of default_code rows locale = refl

-- A translation is a row of the wanted locale if there is one, and otherwise a row of the default
-- locale; there is none exactly when no row is of either.
pub translate_outcome :
    {A : Type 0} (locale_of : A → Text) (default_code : Text) (rows : List A) (locale : Text)
    → ((row : A)
        → translate locale_of default_code rows locale ≡ some row
        → (any (λ r. text_eq (locale_of r) locale) rows ≡ true → locale_of row ≡ locale)
          × (any (λ r. text_eq (locale_of r) locale) rows ≡ false → locale_of row ≡ default_code))
      × ((translate locale_of default_code rows locale ≡ none) ↔ (
          (any (λ r. text_eq (locale_of r) locale) rows ≡ false)
          × (any (λ r. text_eq (locale_of r) default_code) rows ≡ false)))
translate_outcome {A} locale_of default_code rows locale =
    let wanted : A → Bool = λ r. text_eq (locale_of r) locale in
    let usual : A → Bool = λ r. text_eq (locale_of r) default_code in
    let steps = translate_steps locale_of default_code rows locale in
    let no_wanted = find_last-none_iff wanted rows in
    let no_usual = find_last-none_iff usual rows in
    elim (Option-cases (find_last wanted rows)) [
      | inl e ↦ (
        λ row h.
            let e' : find_last usual rows ≡ some row = ground arith in
            (
              λ a. absurd (ground arith),
              λ a. (text_eq_iff (locale_of row) default_code).0 (find_last_passes usual rows e'),
            ),
        (λ h. (ground arith, ground arith), λ (a, b). ground arith),
      )
      | inr (r, e) ↦ (
        λ row h.
            let e' : find_last wanted rows ≡ some row = ground arith in
            (
              λ a. (text_eq_iff (locale_of row) locale).0 (find_last_passes wanted rows e'),
              λ a. absurd (ground arith),
            ),
        (λ h. absurd (ground arith), λ (a, b). absurd (ground arith)),
      )
    ]
