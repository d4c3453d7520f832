-- ===== src/Base/Lists.antt =====
-- Lists measured by native numbers, and filtered and searched by Boolean tests.
use Prim.Native.Nat.{ℕ, suc, ◌+◌}
use mathlib.Core.Path.{◌≡◌, refl, subst}
use mathlib.Core.Logic.{◌⊎◌, inl, inr, ◌↔◌}
use mathlib.Core.Bool.{Bool, true, false, ◌&&◌, ◌||◌}
use mathlib.Core.List.{List, [], ◌∷◌, ◌++◌, map}
use mathlib.Core.Option.{Option, none, some}
use native.Mathlib.Omega.{arith}
use proof_arena.Base.Tests.{Equality, ◌==◌, if◌then◌else◌, Bool-cases}

module _ {ℓ} {A : Type ℓ} where
  abbrev pub length : List A → ℕ
  length [] = 0
  length (x ∷ xs) = suc (length xs)

  -- `[x for x in xs if test(x)]`
  abbrev pub filter : (A → Bool) → List A → List A
  filter test [] = []
  filter test (x ∷ xs) = if test x then x ∷ filter test xs else filter test xs

  -- `any(test(x) for x in xs)` and `all(…)`
  abbrev pub any : (A → Bool) → List A → Bool
  any test [] = false
  any test (x ∷ xs) = test x || any test xs

  abbrev pub all : (A → Bool) → List A → Bool
  all test [] = true
  all test (x ∷ xs) = test x && all test xs

  abbrev pub head? : List A → Option A
  head? [] = none
  head? (x ∷ xs) = some x

  -- the first element that passes the test
  abbrev pub find : (A → Bool) → List A → Option A
  find test [] = none
  find test (x ∷ xs) = if test x then some x else find test xs

  pub length-append : (xs ys : List A) → length (xs ++ ys) ≡ length xs + length ys
  length-append [] ys = omega arith
  length-append (x ∷ xs) ys = omega (arith, length-append xs ys)

  pub filter-append :
      (test : A → Bool) (xs ys : List A) → filter test (xs ++ ys) ≡ filter test xs ++ filter test ys
  filter-append test [] ys = refl
  filter-append test (x ∷ xs) ys = ground (arith, filter-append test xs ys)

-- what holds of each item, as one tuple
abbrev pub All {ℓ κ} : {Item : Type ℓ} → (Item → Type κ) → List Item → Type κ
All Holds [] = Unit
All Holds (item ∷ items) = Holds item × All Holds items

-- Membership with the place kept.
abbrev pub In : {A : Type 0} → A → List A → Type 0
In a [] = ⊥
In a (x ∷ xs) = (a ≡ x) ⊎ In a xs

pub All-append {ℓ κ} :
    {Item : Type ℓ} (Holds : Item → Type κ) (front back : List Item)
    → All Holds front
    → All Holds back
    → All Holds (front ++ back)
All-append Holds [] back none_in_front of_back = of_back
All-append Holds (item ∷ front) back (of_item, of_front) of_back =
    (of_item, All-append Holds front back of_front of_back)

pub All-filter {ℓ} :
    {A : Type ℓ} (test : A → Bool) (xs : List A) → All (λ x. test x ≡ true) (filter test xs)
All-filter test [] = tt
All-filter test (x ∷ xs) =
    elim (Bool-cases (test x)) as (λ _. All (λ x. test x ≡ true) (filter test (x ∷ xs))) [
      | inl e ↦ rw e (e, All-filter test xs)
      | inr e ↦ rw e (All-filter test xs)
    ]

-- `a in xs`
abbrev pub contains {ℓ} : {A : Type ℓ} ⦃e : Equality A⦄ → A → List A → Bool
contains a [] = false
contains a (x ∷ xs) = a == x || contains a xs

pub contains_iff :
    {A : Type 0} ⦃e : Equality A⦄ (a : A) (xs : List A) → (contains a xs ≡ true) ↔ In a xs
contains_iff a [] = (λ h. cc, λ h. absurd h)
contains_iff ⦃e⦄ a (x ∷ xs) = ground (arith, e.same_iff a x, contains_iff a xs)

pub filter-All {ℓ} :
    {A : Type ℓ} (test : A → Bool) (xs : List A) → All (λ x. test x ≡ true) xs → filter test xs ≡ xs
filter-All test [] h = refl
filter-All test (x ∷ xs) h = rw (h.0, filter-All test xs h.1) refl

pub All-map {ℓ κ μ} :
    {A : Type ℓ} {B : Type κ} (f : A → B) (P : B → Type μ) (xs : List A)
    → All (λ x. P (f x)) xs
    → All P (map f xs)
All-map f P [] h = tt
All-map f P (x ∷ xs) h = (h.0, All-map f P xs h.1)

pub All-imp {ℓ κ μ} :
    {A : Type ℓ} (P : A → Type κ) (Q : A → Type μ) (xs : List A)
    → ((x : A) → P x → Q x)
    → All P xs
    → All Q xs
All-imp P Q [] f h = tt
All-imp P Q (x ∷ xs) f h = (f x h.0, All-imp P Q xs f h.1)

-- a map that leaves every item as it is
pub map-fixed {ℓ} : {A : Type ℓ} (f : A → A) (xs : List A) → All (λ x. f x ≡ x) xs → map f xs ≡ xs
map-fixed f [] h = refl
map-fixed f (x ∷ xs) h = rw (h.0, map-fixed f xs h.1) refl

pub length-map {ℓ κ} :
    {A : Type ℓ} {B : Type κ} (f : A → B) (xs : List A) → length (map f xs) ≡ length xs
length-map f [] = refl
length-map f (x ∷ xs) = omega (arith, length-map f xs)

pub append-eq-nil {ℓ} : {A : Type ℓ} (xs ys : List A) → (xs ++ ys ≡ []) ↔ ((xs ≡ []) × (ys ≡ []))
append-eq-nil [] ys = ground arith
append-eq-nil (x ∷ xs) ys = ground arith

-- the lists that are appended are empty exactly if each is
pub five-eq-nil :
    {A : Type 0} (a b c d e : List A)
    → (a ++ b ++ c ++ d ++ e ≡ []) ↔ ((a ≡ []) × (b ≡ []) × (c ≡ []) × (d ≡ []) × (e ≡ []))
five-eq-nil a b c d e = ground (
  arith,
  append-eq-nil (a ++ b ++ c ++ d) e,
  append-eq-nil (a ++ b ++ c) d,
  append-eq-nil (a ++ b) c,
  append-eq-nil a b,
)

pub map-eq-nil : {A B : Type 0} (f : A → B) (xs : List A) → (map f xs ≡ []) ↔ (xs ≡ [])
map-eq-nil f [] = ground arith
map-eq-nil f (x ∷ xs) = ground arith

-- what was not found is found at the end
pub find-snoc :
    {A : Type 0} (test : A → Bool) (xs : List A) (x : A)
    → find test xs ≡ none
    → test x ≡ true
    → find test (xs ++ x ∷ []) ≡ some x
find-snoc test [] x missing passes = rw passes refl
find-snoc test (y ∷ ys) x missing passes =
    let ih = λ (h : find test ys ≡ none). find-snoc test ys x h passes in
    ground (arith, missing, ih)

-- what is found passes the test
pub find-passes :
    {A : Type 0} (test : A → Bool) (xs : List A) {x : A} → find test xs ≡ some x → test x ≡ true
find-passes test [] found = absurd (cc)
find-passes test (y ∷ ys) {x} found = elim (Bool-cases (test y)) [
  | inl e ↦ let same : y ≡ x = ground (arith, found) in subst (λ z. test z ≡ true) same e
  | inr e ↦ find-passes test ys (ground (arith, found))
]

-- what is found is still found in a longer list
pub find-append :
    {A : Type 0} (test : A → Bool) (xs ys : List A) {w : A}
    → find test xs ≡ some w
    → find test (xs ++ ys) ≡ some w
find-append test [] ys found = absurd (cc)
find-append test (x ∷ xs) ys {w} found = ground (arith, found, find-append test xs ys {w = w})
