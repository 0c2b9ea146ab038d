-- ===== src/Locale/Negotiation.antt =====
-- What a negotiated locale can be (backend/app/domain/i18n/service.py).
use neo_store.Prelude.Int.{ltb_ℤ}
use neo_store.Prelude.{
  List, Bool, ◌≡◌, some, true, any, ◌∷◌, ◌&&◌, find, [], Bool-cases, inl, arith, subst, inr,
  Option-cases, find_passes, ◌++◌, ◌⊎◌, Option, none, refl,
}
use neo_store.Prelude.Text.{Text, text_eq, text_eq_refl, text, text_eq_iff}
use neo_store.Locale.{
  find_by_prefix, get_code, first_by_position, Locale, ilike, entry_locale, resolve_locale,
  resolve_from_accept_language, resolve_candidate, accept_loop, base_of, strip, default_locale,
  split, before,
}

abbrev names : Text → Locale → Bool
names code l = text_eq l.code code && l.is_active

-- Is the code that of an active locale?
abbrev pub is_registered : List Locale → Text → Bool
is_registered locales code = any (names code) locales

own_is_registered :
    (m : Locale) (ms : List Locale) (l : Locale)
    → m ≡ l
    → m.is_active ≡ true
    → is_registered (m ∷ ms) l.code ≡ true
own_is_registered m ms l e a =
    subst (λ (x : Locale). is_registered (m ∷ ms) x.code ≡ true) e
      (ground (arith, text_eq_refl m.code))

rest_is_registered :
    (m : Locale) (ms : List Locale) (b l : Locale)
    → b ≡ l
    → is_registered ms b.code ≡ true
    → is_registered (m ∷ ms) l.code ≡ true
rest_is_registered m ms b l e h =
    subst (λ (x : Locale). is_registered (m ∷ ms) x.code ≡ true) e (ground arith)

find-is_registered :
    (test : Locale → Bool) (locales : List Locale) {l : Locale}
    → ((m : Locale) → test m ≡ true → m.is_active ≡ true)
    → find test locales ≡ some l
    → is_registered locales l.code ≡ true
find-is_registered test [] active h = cc
find-is_registered test (m ∷ ms) {l} active h = elim (Bool-cases (test m)) [
  | inl e ↦ let same : m ≡ l = ground arith in own_is_registered m ms l same (active m e)
  | inr e ↦ ground (arith, find-is_registered test ms {l = l} active)
]

first-is_registered :
    (test : Locale → Bool) (locales : List Locale) {l : Locale}
    → ((m : Locale) → test m ≡ true → m.is_active ≡ true)
    → first_by_position test locales ≡ some l
    → is_registered locales l.code ≡ true
unfolding first_by_position
first-is_registered test [] active h = cc
first-is_registered test (m ∷ ms) {l} active h = elim (Option-cases (first_by_position test ms)) [
  | inl e ↦ elim (Bool-cases (test m)) [
    | inr e' ↦ absurd (ground arith)
    | inl e' ↦ let same : m ≡ l = ground arith in own_is_registered m ms l same (active m e')
  ]
  | inr (b, e) ↦
      let ih = first-is_registered test ms {l = b} active e in
      elim (Bool-cases (test m)) [
        | inr e' ↦ let same : b ≡ l = ground arith in rest_is_registered m ms b l same ih
        | inl e' ↦ elim (Bool-cases (ltb_ℤ b.position m.position)) [
          | inl p ↦ let same : b ≡ l = ground arith in rest_is_registered m ms b l same ih
          | inr p ↦ let same : m ≡ l = ground arith in own_is_registered m ms l same (active m e')
        ]
      ]
]

get_code-is_registered :
    (locales : List Locale) (code : Text) {c : Text}
    → get_code locales code ≡ some c
    → is_registered locales code ≡ true
unfolding get_code
get_code-is_registered locales code h =
    let test = λ (l : Locale). text_eq l.code code && l.is_active in
    elim (Option-cases (find test locales)) [
      | inl e ↦ absurd (ground arith)
      | inr (l, e) ↦
          let p = find_passes test locales e in
          let same : l.code ≡ code = ground (arith, text_eq_iff l.code code) in
          subst (λ c. is_registered locales c ≡ true) same
            (find-is_registered test locales (λ m a. ground arith) e)
    ]

find_by_prefix-is_registered :
    (locales : List Locale) (prefix : Text) {c : Text}
    → find_by_prefix locales prefix ≡ some c
    → is_registered locales c ≡ true
unfolding find_by_prefix
find_by_prefix-is_registered locales prefix {c} h =
    let test = λ (l : Locale). ilike (prefix ++ text "%") l.code && l.is_active in
    elim (Option-cases (first_by_position test locales)) [
      | inl e ↦ absurd (ground arith)
      | inr (l, e) ↦
          let same : l.code ≡ c = ground arith in
          subst (λ c. is_registered locales c ≡ true) same
            (first-is_registered test locales (λ m a. ground arith) e)
    ]

-- What a search by a tag or its base can give.
resolve_candidate_outcome :
    (locales : List Locale) (fallback candidate : Text)
    → (resolve_candidate locales fallback candidate ≡ fallback)
      ⊎ (is_registered locales (resolve_candidate locales fallback candidate) ≡ true)
unfolding resolve_candidate
resolve_candidate_outcome locales fallback candidate =
    elim (Option-cases (get_code locales candidate)) [
      | inr (c, e) ↦ grind (
        arith,
        get_code-is_registered locales candidate e,
        find_by_prefix-is_registered locales (base_of candidate),
      )
      | inl e ↦ grind (arith, find_by_prefix-is_registered locales (base_of candidate))
    ]

-- Whatever locale a request asks for, it is served in the default locale or in one that is
-- registered and active.
pub resolve_locale_registered :
    (configured : Text) (locales : List Locale) (requested : Option Text)
    → (resolve_locale configured locales requested ≡ default_locale configured locales)
      ⊎ (is_registered locales (resolve_locale configured locales requested) ≡ true)
unfolding resolve_locale
resolve_locale_registered configured locales none = inl refl
resolve_locale_registered configured locales (some tag) =
    ground
      (arith, resolve_candidate_outcome locales (default_locale configured locales) (strip tag))

entry_locale-is_registered :
    (locales : List Locale) (tag : Text) {c : Text}
    → entry_locale locales tag ≡ some c
    → is_registered locales c ≡ true
unfolding entry_locale
entry_locale-is_registered locales tag {c} h = elim (Option-cases (get_code locales tag)) [
  | inr (d, e) ↦ grind (
    arith,
    get_code-is_registered locales tag e,
    find_by_prefix-is_registered locales (base_of tag),
  )
  | inl e ↦ grind (arith, find_by_prefix-is_registered locales (base_of tag))
]

accept_loop_outcome :
    (locales : List Locale) (fallback : Text) (entries : List Text)
    → (accept_loop locales fallback entries ≡ fallback)
      ⊎ (is_registered locales (accept_loop locales fallback entries) ≡ true)
unfolding accept_loop
accept_loop_outcome locales fallback [] = inl refl
accept_loop_outcome locales fallback (raw ∷ rest) =
    elim (Option-cases (entry_locale locales (strip (before b';' raw)))) [
      | inl e ↦ ground (arith, accept_loop_outcome locales fallback rest)
      | inr (c, e) ↦ ground (arith, entry_locale-is_registered locales (strip (before b';' raw)) e)
    ]

-- An `Accept-Language` header is answered in the default locale or in one that is registered and
-- active.
pub accept_language_registered :
    (configured : Text) (locales : List Locale) (header : Option Text)
    → (resolve_from_accept_language configured locales header ≡ default_locale configured locales)
      ⊎ (is_registered locales (resolve_from_accept_language configured locales header) ≡ true)
unfolding resolve_from_accept_language
accept_language_registered configured locales none = inl refl
accept_language_registered configured locales (some value) =
    ground
      (arith, accept_loop_outcome locales (default_locale configured locales) (split b',' value))
