-- ===== src/Seed/Again.antt =====
-- What a second run of the seed script finds (backend/app/seed.py).
use neo_store.Region.{get_region}
use neo_store.Prelude.Text.{Text, text_eq, upper, text_eq_refl}
use neo_store.Currency.Registry.{put_currency, upsert_currency}
use neo_store.Currency.{Currency, get_currency}
use neo_store.Prelude.{
  subst, sym, any, is_some, ◌++◌, find, arith, ◌∙◌, Bool, ◌≡◌, List, true, All, ◌∷◌, Bool-cases, [],
  inl, refl, inr, false,
}
use neo_store.Seed.{
  Label, seed_missing, SeedReport, add_skipped, add_created, has_currency, has_locale, has_region,
  add_row, locale_label, region_label, currency_label,
}

-- A loop that adds what is missing, for any kind of row.
module _ {A S : Type 0} (is_present : A → S → Bool) (add : A → S → S) (label : A → Label) where
  -- A row that is added is present, and what is present stays so.
  pub record IsAdding (IsGood : A → Type 0) : Type 0 where
    pub added : (x : A) (s : S) → IsGood x → is_present x (add x s) ≡ true
    pub kept : (x y : A) (s : S) → is_present x s ≡ true → is_present x (add y s) ≡ true

  abbrev pub Present : S → A → Type 0
  Present s x = is_present x s ≡ true

  abbrev seeded : List A → S → SeedReport → S × SeedReport
  seeded = seed_missing is_present add label

  seed_missing_present :
      (x : A) (xs : List A) (s : S) (report : SeedReport)
      → is_present x s ≡ true
      → seeded (x ∷ xs) s report ≡ seeded xs s (add_skipped (label x) report)
  unfolding seed_missing
  seed_missing_present x xs s report e = rw (seed_missing, e) refl

  seed_missing_absent :
      (x : A) (xs : List A) (s : S) (report : SeedReport)
      → is_present x s ≡ false
      → seeded (x ∷ xs) s report ≡ seeded xs (add x s) (add_created (label x) report)
  unfolding seed_missing
  seed_missing_absent x xs s report e = rw (seed_missing, e) refl

  module _ {IsGood : A → Type 0} (adding : IsAdding IsGood) where
    seed_missing_kept :
        (x : A) (xs : List A) (s : S) (report : SeedReport)
        → is_present x s ≡ true
        → is_present x (seeded xs s report).0 ≡ true
    unfolding seed_missing
    seed_missing_kept x [] s report h = h
    seed_missing_kept x (y ∷ ys) s report h = elim (Bool-cases (is_present y s)) [
      | inl e ↦ rw (seed_missing_present y ys s report e) (seed_missing_kept x ys s _ h)
      | inr e ↦
          rw (seed_missing_absent y ys s report e)
            (seed_missing_kept x ys (add y s) _ (adding.kept x y s h))
    ]

    pub seed_missing-Present :
        (xs : List A) (s : S) (report : SeedReport)
        → All IsGood xs
        → All (Present (seeded xs s report).0) xs
    seed_missing-Present [] s report good = tt
    seed_missing-Present (x ∷ xs) s report good = elim (Bool-cases (is_present x s)) [
      | inl e ↦
          subst (λ r. All (Present r.0) (x ∷ xs)) (sym (seed_missing_present x xs s report e))
            (seed_missing_kept x xs s _ e, seed_missing-Present xs s _ good.1)
      | inr e ↦
          subst (λ r. All (Present r.0) (x ∷ xs)) (sym (seed_missing_absent x xs s report e))
            (
              seed_missing_kept x xs (add x s) _ (adding.added x s good.0),
              seed_missing-Present xs (add x s) _ good.1,
            )
    ]

  -- Where all is present nothing is added.
  pub seed_missing_same :
      (xs : List A) (s : S) (report : SeedReport)
      → All (Present s) xs
      → ((seeded xs s report).0 ≡ s) × ((seeded xs s report).1.created ≡ report.created)
  unfolding seed_missing
  seed_missing_same [] s report h = (refl, refl)
  seed_missing_same (x ∷ xs) s report h =
      rw (seed_missing_present x xs s report h.0) (seed_missing_same xs s _ h.1)

pub find_last_row :
    {A : Type 0} (p : A → Bool) (x : A) (xs : List A) → p x ≡ true → any p (xs ++ x ∷ []) ≡ true
find_last_row p x [] h = ground arith
find_last_row p x (y ∷ ys) h = ground (arith, find_last_row p x ys h)

any_kept :
    {A : Type 0} (p : A → Bool) (x : A) (xs : List A)
    → any p xs ≡ true
    → any p (xs ++ x ∷ []) ≡ true
any_kept p x [] h = cc
any_kept p x (y ∷ ys) h = ground (arith, any_kept p x ys)

pub has_locale-IsAdding : IsAdding has_locale add_row (λ l. locale_label l.code) (λ l. Unit {0})
unfolding has_locale
has_locale-IsAdding = record {
  added = λ x s good. find_last_row _ x s (text_eq_refl x.code);
  kept = λ x y s h. any_kept _ y s h;
}

pub find_is_any : {A : Type 0} (p : A → Bool) (xs : List A) → is_some (find p xs) ≡ any p xs
find_is_any p [] = refl
find_is_any p (x ∷ xs) = ground (arith, find_is_any p xs)

pub has_region-IsAdding :
    IsAdding has_region add_row (λ r. region_label r.code r.currency_code) (λ r. Unit {0})
unfolding has_region get_region
has_region-IsAdding = record {
  added = λ x s good. find_is_any _ (add_row x s) ∙ find_last_row _ x s (text_eq_refl x.code);
  kept = λ x y s h. find_is_any _ (add_row y s) ∙ any_kept _ y s (sym (find_is_any _ s) ∙ h);
}

-- A code in capital letters.
abbrev pub IsUpper : Currency → Type 0
IsUpper c = upper c.code ≡ c.code

put_currency-added :
    (x : Currency) (cs : List Currency)
    → IsUpper x
    → any (λ (c : Currency). text_eq c.code (upper x.code)) (put_currency x cs) ≡ true
unfolding put_currency
put_currency-added x [] good = rw (good, text_eq_refl x.code) refl
put_currency-added x (c ∷ cs) good = ground (arith, put_currency-added x cs good)

put_currency-kept :
    (code : Text) (x : Currency) (cs : List Currency)
    → any (λ (c : Currency). text_eq c.code code) cs ≡ true
    → any (λ (c : Currency). text_eq c.code code) (put_currency x cs) ≡ true
unfolding put_currency
put_currency-kept code x [] h = cc
put_currency-kept code x (c ∷ cs) h = ground (arith, put_currency-kept code x cs)

pub has_currency-IsAdding :
    IsAdding has_currency upsert_currency (λ c. currency_label c.code) IsUpper
unfolding has_currency get_currency upsert_currency
has_currency-IsAdding = record {
  added = λ x t good.
      find_is_any _ (put_currency x t.currencies) ∙ put_currency-added x t.currencies good;
  kept = λ x y t h.
      find_is_any _ (put_currency y t.currencies)
      ∙ put_currency-kept (upper x.code) y t.currencies (sym (find_is_any _ t.currencies) ∙ h);
}
