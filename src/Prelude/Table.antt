-- ===== src/Prelude/Table.antt =====
-- A database table as the list of its rows, read and written by a numeric primary key.
use neo_store.Prelude.{ap, subst, ==_iff, ◌++◌, true, false}
use neo_store.Prelude.Tests.{◌==◌, if◌then◌else◌, Bool-cases}
use neo_store.Prelude.Lists.{All, find}
use Prim.Native.Nat.{ℕ}
use mathlib.Core.Path.{◌≡◌, refl}
use mathlib.Core.Bool.{Bool}
use mathlib.Core.Logic.{inl, inr}
use mathlib.Core.Option.{Option, none, some}
use mathlib.Core.List.{List, [], ◌∷◌}
use native.Mathlib.Omega.{arith}

module _ {A : Type 0} (key : A → ℕ) where
  -- `session.get(Row, k)`
  unfoldable pub get : ℕ → List A → Option A
  get k [] = none
  get k (r ∷ rs) = if key r == k then some r else get k rs

  -- `session.add(row)`, and the flush of a row that was changed in place.
  unfoldable pub put : A → List A → List A
  put r [] = r ∷ []
  put r (s ∷ rs) = if key s == key r then r ∷ rs else s ∷ put r rs

  pub get-put :
      (k : ℕ) (r : A) (rs : List A) → get k (put r rs) ≡ (if key r == k then some r else get k rs)
  unfolding get put
  get-put k r [] = refl
  get-put k r (s ∷ rs) = ground (arith, get-put k r rs)

  pub get_key : (k : ℕ) (rs : List A) {r : A} → get k rs ≡ some r → key r ≡ k
  unfolding get
  get_key k [] h = cc
  get_key k (s ∷ rs) {r} h = ground (arith, get_key k rs {r = r})

  -- A row with a new key goes to the end.
  pub put_fresh : (r : A) (rs : List A) → get (key r) rs ≡ none → put r rs ≡ rs ++ r ∷ []
  unfolding put get
  put_fresh r [] e = refl
  put_fresh r (s ∷ rs) e = elim (Bool-cases (key s == key r)) [
    | inl e' ↦ absurd (ground arith)
    | inr e' ↦ rw e' (ap (◌∷◌ s) (put_fresh r rs (ground arith)))
  ]

  -- Of two writes with one key the later stands.
  pub put-put : (r s : A) (rs : List A) → key r ≡ key s → put r (put s rs) ≡ put r rs
  unfolding put
  put-put r s [] e = ground (arith, ==_iff (key s) (key r))
  put-put r s (t ∷ rs) e = let ih = put-put r s rs e in ground arith

  -- Each row has a key of its own.
  abbrev pub Keyed : List A → Type 0
  Keyed [] = Unit
  Keyed (r ∷ rs) = (get (key r) rs ≡ none) × Keyed rs

  pub put-Keyed : (r : A) (rs : List A) → Keyed rs → Keyed (put r rs)
  unfolding put
  put-Keyed r [] k = (unfold get in refl, tt)
  put-Keyed r (s ∷ rs) k = elim (Bool-cases (key s == key r)) [
    | inl e ↦ rw e (subst (λ j. get j rs ≡ none) (ground arith) k.0, k.1)
    | inr e ↦ rw e (ground (arith, get-put (key s) r rs), put-Keyed r rs k.1)
  ]

  pub put-All : (P : A → Type 0) (r : A) (rs : List A) → P r → All P rs → All P (put r rs)
  unfolding put
  put-All P r [] p a = (p, tt)
  put-All P r (s ∷ rs) p a = elim (Bool-cases (key s == key r)) [
    | inl e ↦ rw e (p, a.1)
    | inr e ↦ rw e (a.0, put-All P r rs p a.1)
  ]

  pub get-All : (P : A → Type 0) (k : ℕ) (rs : List A) {r : A} → All P rs → get k rs ≡ some r → P r
  unfolding get
  get-All P k [] a h = cc
  get-All P k (s ∷ rs) {r} a h = elim (Bool-cases (key s == k)) [
    | inl e ↦ subst P (ground arith) a.0
    | inr e ↦ get-All P k rs {r = r} a.1 (ground arith)
  ]

  -- The row that a search finds is the one that its key names.
  pub find-get :
      (test : A → Bool) (rs : List A) {r : A}
      → Keyed rs
      → find test rs ≡ some r
      → get (key r) rs ≡ some r
  unfolding get
  find-get test [] k h = cc
  find-get test (s ∷ rs) {r} k h = elim (Bool-cases (test s)) [
    | inl e ↦ ground arith
    | inr e ↦
        let ih = find-get test rs {r = r} k.1 (ground arith) in ground (arith, ap (λ x. get x rs))
  ]

  -- A search that found a row finds what is written in its place, if that passes the test.
  pub find-put :
      (test : A → Bool) (r s : A) (rs : List A)
      → Keyed rs
      → find test rs ≡ some r
      → key s ≡ key r
      → test s ≡ true
      → find test (put s rs) ≡ some s
  unfolding put
  find-put test r s [] k h e p = cc
  find-put test r s (x ∷ rs) k h e p = elim (Bool-cases (key x == key s)) [
    | inl e' ↦ rw (e', p) refl
    | inr e' ↦
        let n : test x ≡ false = ground arith in
        rw (e', n) (find-put test r s rs k.1 (ground arith) e p)
  ]
