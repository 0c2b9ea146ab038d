-- ===== src/Locale.antt =====
-- backend/app/domain/i18n: the registry of locales, the negotiation of a request's locale, and
-- the choice of a translation.
pub mod Negotiation
use neo_store.Prelude.Int.{ℤ, ltb_ℤ}
use neo_store.Prelude.Text.{Text, text, text_eq, upper_char, text_lt}
use mathlib.Core.Option
use mathlib.Core.List.{reverse}
pub mod Translation
use neo_store.Prelude.{
  ℕ, List, Bool, Option, is_empty, find, if◌then◌else◌, ◌==◌, false, or_else, some, ◌∷◌, none, ◌++◌,
  ◌&&◌, [], ◌||◌, is_some, not, leb, sort_by, true, select,
}

pub record Locale : Type 0 where
  pub code : Text
  pub name : Text
  pub is_active : Bool
  pub is_default : Bool
  pub position : ℤ

-- `LocaleRepository.get_code`
unfoldable pub get_code : List Locale → Text → Option Text
get_code locales code =
    Option.map (λ (l : Locale). l.code) (find (λ l. text_eq l.code code && l.is_active) locales)

abbrev any_suffix : (Text → Bool) → Text → Bool
any_suffix f [] = f []
any_suffix f (c ∷ s) = f (c ∷ s) || any_suffix f s

abbrev one_char : (ℕ → Bool) → (Text → Bool) → Text → Bool
one_char p f [] = false
one_char p f (c ∷ s) = p c && f s

-- `s ILIKE pattern`, without escapes: `%` stands for any text and `_` for any one character.
unfoldable pub ilike : Text → Text → Bool
ilike [] s = is_empty s
ilike (p ∷ pattern_rest) s =
    let rest = ilike pattern_rest in
    if p == b'%'
    then any_suffix rest s
    else one_char (λ c. (p == b'_') || (upper_char p == upper_char c)) rest s

-- The first row that passes the test, by `ORDER BY position LIMIT 1`.
unfoldable pub first_by_position : (Locale → Bool) → List Locale → Option Locale
first_by_position test [] = none
first_by_position test (l ∷ ls) =
    let best = first_by_position test ls in
    if test l
    then elim best [
      | none ↦ some l
      | some b ↦ if ltb_ℤ b.position l.position then some b else some l
    ]
    else best

-- `LocaleRepository.find_by_prefix`
unfoldable pub find_by_prefix : List Locale → Text → Option Text
find_by_prefix locales prefix =
    Option.map (λ (l : Locale). l.code)
      (first_by_position (λ l. ilike (prefix ++ text "%") l.code && l.is_active) locales)

-- `LocaleRepository.default_code`
unfoldable pub default_code : List Locale → Option Text
default_code locales = Option.map (λ (l : Locale). l.code) (find (λ l. l.is_default) locales)

-- `a or b`, for texts: the empty text is false
abbrev text_or : Option Text → Text → Text
text_or none b = b
text_or (some a) b = if is_empty a then b else a

-- `I18nService.default_locale`; `configured` is `settings.default_locale`
unfoldable pub default_locale : Text → List Locale → Text
default_locale configured locales = text_or (default_code locales) configured

-- `tag.replace("_", "-").split("-")[0]`
unfoldable pub base_of : Text → Text
base_of [] = []
base_of (c ∷ s) = if (c == b'_') || (c == b'-') then [] else c ∷ base_of s

abbrev is_space : ℕ → Bool
is_space c = (c == 32) || (leb 9 c && leb c 13)

lstrip : Text → Text
lstrip [] = []
lstrip (c ∷ s) = if is_space c then lstrip s else c ∷ s

-- `s.strip()`
unfoldable pub strip : Text → Text
unfolding lstrip
strip s = reverse (lstrip (reverse (lstrip s)))

-- A found text that is not empty.
abbrev truthy : Option Text → Option Text
truthy none = none
truthy (some a) = if is_empty a then none else some a

abbrev get_text : Option Text → Text → Text
get_text none b = b
get_text (some a) b = a

-- `resolve_locale` for a tag that is not empty.
resolve_candidate : List Locale → Text → Text → Text
resolve_candidate locales fallback candidate =
    let base = base_of candidate in
    if is_some (truthy (get_code locales candidate))
    then candidate
    else if not (is_empty base) && not (text_eq base candidate)
    then get_text (truthy (find_by_prefix locales base)) fallback
    else fallback

-- `I18nService.resolve_locale`
unfoldable pub resolve_locale : Text → List Locale → Option Text → Text
unfolding resolve_candidate
resolve_locale configured locales requested =
    let fallback = default_locale configured locales in
    elim requested [
      | none ↦ fallback
      | some tag ↦
          if is_empty tag
          then fallback
          else if is_empty (strip tag)
          then fallback
          else resolve_candidate locales fallback (strip tag)
    ]

-- The part of a text before the first separator: `s.split(sep)[0]`
unfoldable pub before : ℕ → Text → Text
before sep [] = []
before sep (c ∷ s) = if c == sep then [] else c ∷ before sep s

-- Puts a character at the front of the first part.
abbrev push_char : ℕ → List Text → List Text
push_char c [] = (c ∷ []) ∷ []
push_char c (part ∷ parts) = (c ∷ part) ∷ parts

-- `s.split(sep)`
unfoldable pub split : ℕ → Text → List Text
split sep [] = [] ∷ []
split sep (c ∷ s) = let parts = split sep s in if c == sep then [] ∷ parts else push_char c parts

-- What one entry of the header resolves to, if anything.
entry_locale : List Locale → Text → Option Text
entry_locale locales tag =
    let base = base_of tag in
    if is_empty tag || text_eq tag (text "*")
    then none
    else if is_some (truthy (get_code locales tag))
    then some tag
    else if is_empty base
    then none
    else truthy (find_by_prefix locales base)

-- The loop of `resolve_from_accept_language`.
accept_loop : List Locale → Text → List Text → Text
unfolding entry_locale
accept_loop locales fallback [] = fallback
accept_loop locales fallback (raw ∷ rest) = elim (entry_locale locales (strip (before b';' raw))) [
  | some code ↦ code
  | none ↦ accept_loop locales fallback rest
]

-- `I18nService.resolve_from_accept_language`
unfoldable pub resolve_from_accept_language : Text → List Locale → Option Text → Text
unfolding accept_loop
resolve_from_accept_language configured locales header =
    let fallback = default_locale configured locales in
    elim header [
      | none ↦ fallback
      | some value ↦
          if is_empty value then fallback else accept_loop locales fallback (split b',' value)
    ]

-- `dict[k]`, for a dictionary that was made from the rows in order: the last row of a key counts
unfoldable pub find_last : {A : Type 0} → (A → Bool) → List A → Option A
find_last p [] = none
find_last p (x ∷ xs) = or_else (find_last p xs) (if p x then some x else none)

-- `I18nService.translate`, for rows with a `locale`
unfoldable pub translate : {A : Type 0} → (A → Text) → Text → List A → Text → Option A
translate locale_of default_code rows locale =
    or_else (find_last (λ r. text_eq (locale_of r) locale) rows)
      (find_last (λ r. text_eq (locale_of r) default_code) rows)

-- Does `a` stand before `b` by `ORDER BY position, code`?
abbrev stands_before : Locale → Locale → Bool
stands_before a b =
    if ltb_ℤ a.position b.position
    then true
    else if ltb_ℤ b.position a.position
    then false
    else text_lt a.code b.code

-- `LocaleRepository.list_active`, which `I18nService.list_active_locales` passes on
unfoldable pub list_active : List Locale → List Locale
list_active locales = sort_by stands_before (select (λ (l : Locale). l.is_active) locales)

-- `LocaleRepository.upsert`
unfoldable pub upsert_locale : Locale → List Locale → List Locale
upsert_locale locale [] = locale ∷ []
upsert_locale locale (l ∷ ls) =
    let rest = upsert_locale locale ls in
    if text_eq l.code locale.code
    then record l {
      name = locale.name;
      is_active = locale.is_active;
      is_default = locale.is_default;
      position = locale.position;
    }
      ∷ ls
    else l ∷ rest
