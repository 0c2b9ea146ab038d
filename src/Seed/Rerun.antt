-- ===== src/Seed/Rerun.antt =====
-- A second run of the seed script changes nothing (backend/app/seed.py, `run_seed`).
use neo_store.Currency.Registry.{upsert_currency}
use neo_store.Currency.Refresh.{refresh_rates_effect}
use neo_store.Seed.Again.{
  find_is_any, IsUpper, find_last_row, seed_missing-Present, seed_missing_same, has_locale-IsAdding,
  has_region-IsAdding, has_currency-IsAdding,
}
use neo_store.Result.{err, ok}
use neo_store.Seed.Rates.{
  HasRate, fallback_loop_same, fallback_loop-HasRate, fallback_loop-currencies,
}
use neo_store.Errors.{plain_error, exchange_rate_unavailable}
use neo_store.Currency.{refresh_rates, CurrencyTables, fetch, HttpAnswer, get_currency, Currency}
use neo_store.Security.{find_admin, AdminUser}
use neo_store.Prelude.Text.{Text, upper, upper_char, text_eq_refl, text, text_eq}
use neo_store.Seed.{
  SeedRun, reset_hash, seed_admin, seed_exchange_rates, use_fallback, SeedReport, add_skipped,
  admin_label, fallback_rates, currencies, fallback_loop, add_row, rates_label, Reference,
  has_currency, seed_reference, has_locale, seed_locales, locales, seed_currencies, has_region,
  seed_regions, regions, locale_label, currency_label, region_label, add_note, provider_unavailable,
}
use neo_store.Prelude.{
  refl, ℕ, ◌≡◌, Bool, List, false, ◌⊎◌, is_some, All, true, Option-cases, ◌∷◌, arith, inl,
  Bool-cases, [], inr, ◌∙◌, ap, subst, find, sym,
}

-- The rates come from the script and not from the provider.
abbrev pub IsOffline : SeedRun → Type 0
IsOffline run =
    (run.refresh_rates ≡ false) ⊎ (fetch run.answer ≡ err (plain_error exchange_rate_unavailable))

-- The same run with --skip-rates and without --reset-admin-password, at another time.
abbrev pub skipping : SeedRun → ℕ → SeedRun
skipping run later = record run { refresh_rates = false; reset_admin_password = false; now = later }

reset_hash-found :
    (email h : Text) (admins : List AdminUser)
    → is_some (find_admin email admins) ≡ true
    → is_some (find_admin email (reset_hash email h admins)) ≡ true
unfolding reset_hash find_admin
reset_hash-found email h [] found = cc
reset_hash-found email h (u ∷ us) found = ground (arith, reset_hash-found email h us)

seed_admin-found :
    (email h : Text) (reset : Bool) (admins : List AdminUser) (report : SeedReport)
    → is_some (find_admin email (seed_admin email h reset admins report).0) ≡ true
unfolding seed_admin find_admin
seed_admin-found email h reset admins report = elim (Option-cases (find_admin email admins)) [
  | inl e ↦
      rw (seed_admin, e)
        (find_is_any _ (add_row _ admins) ∙ find_last_row _ _ admins (text_eq_refl email))
  | inr (u, e) ↦ elim (Bool-cases reset) [
    | inl r ↦ rw (seed_admin, e, r) (reset_hash-found email h admins (rw e refl))
    | inr r ↦ rw (seed_admin, e, r, e) refl
  ]
]

seed_admin_same :
    (email h : Text) (admins : List AdminUser) (report : SeedReport)
    → is_some (find_admin email admins) ≡ true
    → seed_admin email h false admins report ≡ (admins, add_skipped (admin_label email) report)
unfolding seed_admin
seed_admin_same email h admins report found = ground arith

-- Without live rates the tables are those that the loop over the fallback rates leaves.
seed_exchange_rates_offline :
    (refresh : Bool) (base : Text) (now : ℕ) (answer : HttpAnswer) (t : CurrencyTables)
    (report : SeedReport)
    → (refresh ≡ false) ⊎ (fetch answer ≡ err (plain_error exchange_rate_unavailable))
    → (rated : CurrencyTables × SeedReport) × (seed_exchange_rates refresh base now answer t report
        ≡ ok rated)
      × (rated.0 ≡ (fallback_loop refresh base now fallback_rates 0 t).1)
unfolding seed_exchange_rates use_fallback plain_error
seed_exchange_rates_offline false base now answer t report offline = (_, refl, refl)
seed_exchange_rates_offline true base now answer t report (inl off) = absurd cc
seed_exchange_rates_offline true base now answer t report (inr failed) =
    let source = text "open-exchange-rate" in
    let e = plain_error exchange_rate_unavailable in
    let left : refresh_rates base source now (fetch answer) t ≡ (err e, t) =
      ap (λ r. refresh_rates base source now r t) failed
      ∙ (refresh_rates_effect base source now t).0 e in
    (use_fallback true base now t (add_note provider_unavailable report), cc left, refl)

-- Where every tracked currency has a rate, and none is asked for, nothing is written.
seed_exchange_rates_same :
    (base : Text) (now : ℕ) (answer : HttpAnswer) (t : CurrencyTables) (report : SeedReport)
    → All (HasRate base t) fallback_rates
    → seed_exchange_rates false base now answer t report ≡ ok (t, add_skipped rates_label report)
unfolding seed_exchange_rates use_fallback
seed_exchange_rates_same base now answer t report filled =
    rw (fallback_loop_same base now fallback_rates 0 t filled) refl

currencies-IsUpper : All IsUpper currencies
unfolding currencies upper upper_char
currencies-IsUpper = (refl, (refl, (refl, (refl, (refl, tt)))))

no_condition : {A : Type 0} (xs : List A) → All (λ (x : A). Unit {0}) xs
no_condition [] = tt
no_condition (x ∷ xs) = (tt, no_condition xs)

-- All that the script looks for is there.
record IsSeeded (run : SeedRun) (s : Reference) : Type 0 where
  locales_present : All (λ l. has_locale l s.locales ≡ true) locales
  currencies_present : All (λ c. has_currency c s.currencies ≡ true) currencies
  regions_present : All (λ r. has_region r s.regions ≡ true) regions
  admin_present : is_some (find_admin run.admin_email s.admins) ≡ true
  rates_present : All (HasRate run.base_currency s.currencies) fallback_rates

has_currency_same :
    (t t' : CurrencyTables)
    → t.currencies ≡ t'.currencies
    → All (λ c. has_currency c t' ≡ true) currencies
    → All (λ c. has_currency c t ≡ true) currencies
unfolding has_currency get_currency
has_currency_same t t' e h =
    subst
      (λ (cs : List Currency).
        All
          (λ (c : Currency).
            is_some (find (λ (d : Currency). text_eq d.code (upper c.code)) cs) ≡ true)
          currencies)
      (sym e) h

seed_reference_offline :
    (run : SeedRun) (s : Reference) (report : SeedReport)
    → IsOffline run
    → (first : Reference × SeedReport) × (seed_reference run s report ≡ ok first)
      × IsSeeded run first.0
unfolding seed_reference seed_locales seed_currencies seed_regions
seed_reference_offline run s report offline =
    let (locale_rows, report1) = seed_locales s.locales report in
    let (currency_rows, report2) = seed_currencies s.currencies report1 in
    let (region_rows, report3) = seed_regions s.regions report2 in
    let (admin_rows, report4) =
      seed_admin run.admin_email run.password_hash run.reset_admin_password s.admins report3 in
    let (rated, e, table) =
      seed_exchange_rates_offline run.refresh_rates run.base_currency run.now run.answer
        currency_rows report4 offline in
    (
      (
        record {
          locales = locale_rows;
          currencies = rated.0;
          regions = region_rows;
          admins = admin_rows;
        },
        rated.1,
      ),
      rw e refl,
      record {
        locales_present =
            seed_missing-Present _ _ _ has_locale-IsAdding locales s.locales report
              (no_condition locales);
        currencies_present =
            has_currency_same rated.0 currency_rows
              (ap (λ (t : CurrencyTables). t.currencies) table
                ∙ fallback_loop-currencies run.refresh_rates run.base_currency run.now
                    fallback_rates 0 currency_rows)
              (seed_missing-Present _ _ _ has_currency-IsAdding currencies s.currencies report1
                currencies-IsUpper);
        regions_present =
            seed_missing-Present _ _ _ has_region-IsAdding regions s.regions report2
              (no_condition regions);
        admin_present =
            seed_admin-found run.admin_email run.password_hash run.reset_admin_password s.admins
              report3;
        rates_present =
            subst (λ t. All (HasRate run.base_currency t) fallback_rates) (sym table)
              (fallback_loop-HasRate run.refresh_rates run.base_currency run.now fallback_rates 0
                currency_rows);
      },
    )

seed_reference_same :
    (run : SeedRun) (later : ℕ) (s : Reference) (report : SeedReport)
    → IsSeeded run s
    → (last : SeedReport) × (seed_reference (skipping run later) s report ≡ ok (s, last))
      × (last.created ≡ report.created)
unfolding seed_reference seed_locales seed_currencies seed_regions
seed_reference_same run later s report seeded =
    let report1 = (seed_locales s.locales report).1 in
    let report2 = (seed_currencies s.currencies report1).1 in
    let report3 = (seed_regions s.regions report2).1 in
    let (table, _) = seed_currencies s.currencies report1 in
    let report4 = (seed_admin run.admin_email run.password_hash false s.admins report3).1 in
    let locale =
      seed_missing_same has_locale add_row (λ l. locale_label l.code) locales s.locales report
        seeded.locales_present in
    let currency =
      seed_missing_same has_currency upsert_currency (λ c. currency_label c.code) currencies
        s.currencies report1 seeded.currencies_present in
    let region =
      seed_missing_same has_region add_row (λ r. region_label r.code r.currency_code) regions
        s.regions report2 seeded.regions_present in
    let admin =
      seed_admin_same run.admin_email run.password_hash s.admins report3 seeded.admin_present in
    let rates : seed_exchange_rates false run.base_currency later run.answer table report4
        ≡ ok (s.currencies, add_skipped rates_label report4) =
      rw currency.0 (
        seed_exchange_rates_same run.base_currency later run.answer s.currencies report4
          seeded.rates_present) in
    (
      add_skipped rates_label report4,
      rw rates (
          rw (locale.0, region.0)
            (ap
              (λ us. ok (
                record {
                  locales = s.locales;
                  currencies = s.currencies;
                  regions = s.regions;
                  admins = us;
                },
                add_skipped rates_label report4,
              ))
              (ap (λ r. r.0) admin))),
      ap (λ r. r.1.created) admin ∙ region.1 ∙ currency.1 ∙ locale.1,
    )

-- Seeding the reference data without rates of the provider succeeds; and seeding them again, with
-- --skip-rates and without --reset-admin-password, succeeds at any later time, leaves them as they
-- are and adds nothing to what the report lists as created.
pub seed_reference_twice :
    (run : SeedRun) (later : ℕ) (s : Reference) (report again : SeedReport)
    → IsOffline run
    → (first : Reference × SeedReport) × (seed_reference run s report ≡ ok first)
      × ((last : SeedReport) × (seed_reference (skipping run later) first.0 again
            ≡ ok (first.0, last))
          × (last.created ≡ again.created))
seed_reference_twice run later s report again offline =
    let (first, e, seeded) = seed_reference_offline run s report offline in
    (first, e, seed_reference_same run later first.0 again seeded)
