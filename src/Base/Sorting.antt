-- ===== src/Base/Sorting.antt =====
-- Python's stable `sorted(xs, key=…)`, with the order of the keys given by a test, and what its
-- first item is.
use mathlib.Core.Path.{◌≡◌, refl, sym, ap, ◌∙◌, subst}
use mathlib.Core.Bool.{Bool, true, false}
use mathlib.Core.Logic.{inl, inr}
use mathlib.Core.List.{List, [], ◌∷◌, ◌++◌}
use mathlib.Core.Option.{Option, none, some, some-injective}
use native.Mathlib.Omega.{arith}
use Prim.Native.Nat.{ℕ, suc, ◌+◌}
use proof_arena.Base.Tests.{leb, if◌then◌else◌, Bool-cases, Option-cases}
use proof_arena.Base.Lists.{length, head?, All, All-append}

module _ {ℓ} {A : Type ℓ} (le : A → A → Bool) where
  -- `x` stood before the items of `ys`, so it stays before those that are equal to it.
  abbrev pub insert_sorted : A → List A → List A
  insert_sorted x [] = x ∷ []
  insert_sorted x (y ∷ ys) = if le x y then x ∷ y ∷ ys else y ∷ insert_sorted x ys

  abbrev pub sorted : List A → List A
  sorted [] = []
  sorted (x ∷ xs) = insert_sorted x (sorted xs)

  -- `w` is the earliest of the least items of `xs`.
  abbrev pub IsFirstLeast : A → List A → Type ℓ
  IsFirstLeast w xs =
      (pre : List A) × (post : List A) × (xs ≡ pre ++ w ∷ post)
      × All (λ r. le r w ≡ false) pre
      × All (λ r. le w r ≡ true) post

  abbrev pub pick : A → Option A → Option A
  pick x none = some x
  pick x (some y) = some (if le x y then x else y)

  -- the earliest least item, by one pass from the right
  abbrev pub least? : List A → Option A
  least? [] = none
  least? (x ∷ xs) = pick x (least? xs)

  head?-insert_sorted : (x : A) (ys : List A) → head? (insert_sorted x ys) ≡ pick x (head? ys)
  head?-insert_sorted x [] = refl
  head?-insert_sorted x (y ∷ ys) = ground arith

  pub head?-sorted : (xs : List A) → head? (sorted xs) ≡ least? xs
  head?-sorted [] = refl
  head?-sorted (x ∷ xs) = ground (arith, head?-insert_sorted x (sorted xs), head?-sorted xs)

module _ {ℓ} {A : Type ℓ} (le : A → A → Bool) (total : (a b : A) → le a b ≡ false → le b a ≡ true)
    (trans : (a b c : A) → le a b ≡ true → le b c ≡ true → le a c ≡ true) where
  All-trans :
      (x y : A) (xs : List A)
      → le x y ≡ true
      → All (λ r. le y r ≡ true) xs
      → All (λ r. le x r ≡ true) xs
  All-trans x y [] h a = tt
  All-trans x y (r ∷ rs) h a = (trans x y r h a.0, All-trans x y rs h a.1)

  All-total : (y : A) (xs : List A) → All (λ r. le r y ≡ false) xs → All (λ r. le y r ≡ true) xs
  All-total y [] a = tt
  All-total y (r ∷ rs) a = (total r y a.0, All-total y rs a.1)

  least?-none : (xs : List A) → least? le xs ≡ none → xs ≡ []
  least?-none [] h = refl
  least?-none (x ∷ xs) h = ground arith

  IsFirstLeast-cons :
      (x y : A) (xs : List A)
      → IsFirstLeast le y xs
      → IsFirstLeast le (if le x y then x else y) (x ∷ xs)
  IsFirstLeast-cons x y xs (pre, post, e, before, after) = elim (Bool-cases (le x y)) [
    | inl h ↦ rw h (
      [],
      xs,
      refl,
      tt,
      rw e (
          All-append _ pre (y ∷ post) (All-trans x y pre h (All-total y pre before))
            (h, All-trans x y post h after)),
    )
    | inr h ↦ rw h (x ∷ pre, post, rw e, (h, before), after)
  ]

  pub least?-IsFirstLeast : (xs : List A) {w : A} → least? le xs ≡ some w → IsFirstLeast le w xs
  least?-IsFirstLeast [] h = cc
  least?-IsFirstLeast (x ∷ xs) {w} h = elim (Option-cases (least? le xs)) [
    | inl e ↦
        subst (λ v. IsFirstLeast le v (x ∷ xs)) (some-injective _ _ (sym (ap (pick le x) e) ∙ h))
          ([], xs, refl, tt, rw (least?-none xs e) tt)
    | inr (y, e) ↦
        subst (λ v. IsFirstLeast le v (x ∷ xs)) (some-injective _ _ (sym (ap (pick le x) e) ∙ h))
          (IsFirstLeast-cons x y xs (least?-IsFirstLeast xs e))
  ]

-- The keys count on from `n`.
abbrev pub Ascending {ℓ} : {A : Type ℓ} → (A → ℕ) → ℕ → List A → Type 0
Ascending key n [] = Unit
Ascending key n (x ∷ xs) = (key x ≡ n) × Ascending key (suc n) xs

module _ {ℓ} {A : Type ℓ} (key : A → ℕ) where
  insert_sorted-Ascending :
      (x : A) (n : ℕ) (xs : List A)
      → key x ≡ n
      → Ascending key (suc n) xs
      → insert_sorted (λ a b. leb (key a) (key b)) x xs ≡ x ∷ xs
  insert_sorted-Ascending x n [] e h = refl
  insert_sorted-Ascending x n (y ∷ ys) e h =
      let le : leb (key x) (key y) ≡ true = ground arith in rw le refl

  pub sorted-Ascending :
      (n : ℕ) (xs : List A) → Ascending key n xs → sorted (λ a b. leb (key a) (key b)) xs ≡ xs
  sorted-Ascending n [] h = refl
  sorted-Ascending n (x ∷ xs) h =
      rw (sorted-Ascending (suc n) xs h.1) (insert_sorted-Ascending x n xs h.0 h.1)

  pub Ascending-append :
      (n : ℕ) (xs ys : List A)
      → Ascending key n xs
      → Ascending key (n + length xs) ys
      → Ascending key n (xs ++ ys)
  Ascending-append n [] ys hx hy = subst (λ m. Ascending key m ys) (omega arith) hy
  Ascending-append n (x ∷ xs) ys hx hy =
      (hx.0, Ascending-append (suc n) xs ys hx.1 (subst (λ m. Ascending key m ys) (omega arith) hy))
