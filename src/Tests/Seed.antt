-- ===== src/Tests/Seed.antt =====
-- Witnesses for the seed script.
use neo_store.Result.{ok}
use neo_store.Currency.Registry.{upsert_currency, put_currency}
use neo_store.Region.{get_region}
use neo_store.Security.{find_admin}
use neo_store.Currency.{unreachable, get_currency}
use neo_store.Prelude.Text.{text, upper, upper_char}
use neo_store.Seed.Rerun.{skipping, seed_reference_twice}
use neo_store.Seed.{
  Reference, SeedReport, SeedRun, seed_reference, seed_locales, seed_currencies, seed_regions,
  seed_missing, seed_admin, locales, regions, has_locale, has_currency, has_region,
}
use neo_store.Prelude.{refl, [], false, ◌≡◌, inl, length}

-- A run with --skip-rates.
abbrev offline_run : SeedRun
offline_run = record {
  refresh_rates = false;
  reset_admin_password = false;
  base_currency = text "USD";
  admin_email = text "admin@neostore.local";
  password_hash = text "hash";
  answer = unreachable;
  now = 7;
}

abbrev empty : Reference
empty = record {
  locales = [];
  currencies = record { currencies = []; rates = [] };
  regions = [];
  admins = [];
}

abbrev blank : SeedReport
blank = record { created = []; skipped = []; notes = [] }

three_locales : length (seed_locales [] blank).0 ≡ 3
unfolding seed_locales seed_missing locales has_locale
three_locales = refl

four_regions : length (seed_regions [] blank).1.created ≡ 4
unfolding seed_regions seed_missing regions has_region get_region
four_regions = refl

five_currencies : length (seed_currencies empty.currencies blank).0.currencies ≡ 5
unfolding seed_currencies seed_missing neo_store.Seed.currencies has_currency get_currency upper
    upper_char upsert_currency put_currency
five_currencies = refl

owner_added : length (seed_admin (text "a") (text "h") false [] blank).0 ≡ 1
unfolding seed_admin find_admin
owner_added = refl

seed_reference_twice_example :
    (first : Reference × SeedReport) × (seed_reference offline_run empty blank ≡ ok first)
    × ((last : SeedReport) × (seed_reference (skipping offline_run 9) first.0 blank
          ≡ ok (first.0, last))
        × (last.created ≡ []))
seed_reference_twice_example = seed_reference_twice offline_run 9 empty blank blank (inl refl)
