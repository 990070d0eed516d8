-- ===== src/Prelude/Every.antt =====
-- A predicate on every row of a list, and how the list operations keep it.
use Prim.Native.Nat.{ℕ, zero, suc}
use mathlib.Core.Path.{◌≡◌, refl}
use mathlib.Core.Bool.{Bool, true, false}
use mathlib.Core.List.{List, [], ◌∷◌, ◌++◌, map}
use native.Mathlib.Omega.{arith}
use shiptawk_be.Prelude.Tests.{if◌then◌else◌, Bool-cases}
use mathlib.Core.Path.{subst}
use mathlib.Core.Option.{some}
use mathlib.Core.Logic.{inl, inr}
use Prim.Native.Nat.{◌≤◌}
use shiptawk_be.Prelude.Lists.{take, keep, update, count, find, any}
use shiptawk_be.Prelude.Sort.{insert, sorted}

module _ {ℓ κ} {A : Type ℓ} where
  -- By recursion: it computes to tuples.
  abbrev pub All : (A → Type κ) → List A → Type κ
  All P [] = Unit
  All P (x ∷ xs) = P x × All P xs

  module _ (P : A → Type κ) where
    All-cons_if :
        (b : Bool) (x : A) (xs : List A)
        → (b ≡ true → P x)
        → All P xs
        → All P (if b then x ∷ xs else xs)
    All-cons_if true x xs h rest = (h refl, rest)
    All-cons_if false x xs h rest = rest

    -- To prove something of a conditional, by its two cases.
    pub holds_if :
        (b : Bool) (x y : A) → (b ≡ true → P x) → (b ≡ false → P y) → P (if b then x else y)
    holds_if true x y h k = h refl
    holds_if false x y h k = k refl

    pub All-intro : ((x : A) → P x) → (xs : List A) → All P xs
    All-intro h [] = tt
    All-intro h (x ∷ xs) = (h x, All-intro h xs)

    pub All-append : (xs ys : List A) → All P xs → All P ys → All P (xs ++ ys)
    All-append [] ys h k = k
    All-append (x ∷ xs) ys h k = (h.0, All-append xs ys h.1 k)

    -- The rows kept by a test satisfy what the test implies for the rows there were.
    pub All-keep : (p : A → Bool) (xs : List A) → All (λ x. p x ≡ true → P x) xs → All P (keep p xs)
    All-keep p [] h = tt
    All-keep p (x ∷ xs) h = All-cons_if (p x) x (keep p xs) h.0 (All-keep p xs h.1)

    pub All-take : (n : ℕ) (xs : List A) → All P xs → All P (take n xs)
    All-take zero xs h = tt
    All-take (suc n) [] h = tt
    All-take (suc n) (x ∷ xs) h = (h.0, All-take n xs h.1)

    pub All-update :
        (q : A → Bool) (f : A → A) (xs : List A)
        → All (λ x. q x ≡ true → P (f x)) xs
        → All (λ x. q x ≡ false → P x) xs
        → All P (update q f xs)
    All-update q f [] h k = tt
    All-update q f (x ∷ xs) h k = (holds_if (q x) (f x) x h.0 k.0, All-update q f xs h.1 k.1)

    All-insert :
        (before : A → A → Bool) (x : A) (xs : List A) → P x → All P xs → All P (insert before x xs)
    unfolding insert
    All-insert before x [] h k = (h, tt)
    All-insert before x (y ∷ ys) h k = placed (before y x) (All-insert before x ys h k.1)
      where
        placed :
            (b : Bool)
            → All P (insert before x ys)
            → All P (if b then y ∷ insert before x ys else x ∷ y ∷ ys)
        placed true rest = (k.0, rest)
        placed false rest = (h, k)

    pub All-sorted : (before : A → A → Bool) (xs : List A) → All P xs → All P (sorted before xs)
    unfolding sorted
    All-sorted before [] h = tt
    All-sorted before (x ∷ xs) h =
        All-insert before x (sorted before xs) h.0 (All-sorted before xs h.1)

module _ {ℓ κ μ} {A : Type ℓ} (P : A → Type κ) (Q : A → Type μ) where
  pub All-mono : ((x : A) → P x → Q x) → (xs : List A) → All P xs → All Q xs
  All-mono f [] h = tt
  All-mono f (x ∷ xs) h = (f x h.0, All-mono f xs h.1)

module _ {ℓ} {A : Type ℓ} where
  pub All-of_count : (p : A → Bool) (xs : List A) → count p xs ≡ 0 → All (λ x. p x ≡ false) xs
  All-of_count p [] h = tt
  All-of_count p (x ∷ xs) h = (ground arith, All-of_count p xs (ground arith))

  pub any-of_All : (p : A → Bool) (xs : List A) → All (λ x. p x ≡ false) xs → any p xs ≡ false
  any-of_All p [] h = refl
  any-of_All p (x ∷ xs) h = rw h.0 (any-of_All p xs h.1)

  -- With at most one row to a key, every row with the key is the one that is found.
  pub All-of_unique :
      (p : A → Bool) (xs : List A) (a : A)
      → count p xs ≤ 1
      → find p xs ≡ some a
      → All (λ x. p x ≡ true → x ≡ a) xs
  All-of_unique p [] a h f = tt
  All-of_unique p (x ∷ xs) a h f = elim (Bool-cases (p x)) [
    | inl hit ↦ (
      (λ _. ground arith),
      All-mono (λ y. p y ≡ false) (λ y. p y ≡ true → y ≡ a) (λ y miss found. cc) xs
          (All-of_count p xs (ground arith)),
    )
    | inr miss ↦ ((λ found. cc), All-of_unique p xs a (ground arith) (ground arith))
  ]

  pub All-find {κ} :
      (P : A → Type κ) (p : A → Bool) (xs : List A) {a : A} → All P xs → find p xs ≡ some a → P a
  All-find P p [] h f = cc
  All-find P p (x ∷ xs) {a} h f = elim (Bool-cases (p x)) [
    | inl hit ↦ let here : x ≡ a = ground arith in subst P here h.0
    | inr miss ↦ All-find P p xs h.1 (ground arith)
  ]

  pub any-map :
      (p : A → Bool) (f : A → A)
      → ((x : A) → p (f x) ≡ p x)
      → (xs : List A) → any p (map f xs) ≡ any p xs
  any-map p f same [] = refl
  any-map p f same (x ∷ xs) = rw (same x, any-map p f same xs)

module _ {ℓ κ μ} {A : Type ℓ} {B : Type κ} (P : B → Type μ) where
  pub All-map : (f : A → B) (xs : List A) → All (λ x. P (f x)) xs → All P (map f xs)
  All-map f [] h = tt
  All-map f (x ∷ xs) h = (h.0, All-map f xs h.1)

module _ {ℓ κ μ ν} {A : Type ℓ} (P : A → Type κ) (Q : A → Type μ) (R : A → Type ν) where
  pub All-both : ((x : A) → P x → Q x → R x) → (xs : List A) → All P xs → All Q xs → All R xs
  All-both f [] h k = tt
  All-both f (x ∷ xs) h k = (f x h.0 k.0, All-both f xs h.1 k.1)

module _ {ℓ} {A : Type ℓ} where
  -- Every row is among the rows with its own key.
  pub All-any_self :
      (p : A → A → Bool)
      → ((x : A) → p x x ≡ true)
      → (xs : List A) → All (λ x. any (p x) xs ≡ true) xs
  All-any_self p self [] = tt
  All-any_self p self (x ∷ xs) = (
    rw (self x),
    All-mono (λ y. any (p y) xs ≡ true) (λ y. any (p y) (x ∷ xs) ≡ true) (λ y h. ground arith) xs
        (All-any_self p self xs),
  )

module _ {ℓ κ μ} {A : Type ℓ} {B : Type κ} (P : B → Type μ) where
  pub All-of_map : (f : A → B) (xs : List A) → All P (map f xs) → All (λ x. P (f x)) xs
  All-of_map f [] h = tt
  All-of_map f (x ∷ xs) h = (h.0, All-of_map f xs h.1)
