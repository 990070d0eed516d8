-- ===== src/Prelude/Lists.antt =====
-- Lists by native numbers, `any`, `find`, and predicates on all elements.
use Prim.Native.Nat.{ℕ, zero, suc, ◌+◌, ◌≤◌, ◌<◌, min}
use mathlib.Core.Path.{◌≡◌, refl, ap}
use mathlib.Core.Bool.{Bool, true, false, ◌&&◌, ◌||◌}
use mathlib.Core.Option.{Option, none, some}
use mathlib.Core.List.{List, [], ◌∷◌, ◌++◌, map}
use native.Mathlib.Omega.{arith}
use mathlib.Core.Logic.{inl, inr}
use shiptawk_be.Prelude.Tests.{if◌then◌else◌, Bool-cases}

module _ {ℓ} {A : Type ℓ} where
  abbrev pub length : List A → ℕ
  length [] = 0
  length (x ∷ xs) = suc (length xs)

  abbrev pub take : ℕ → List A → List A
  take zero xs = []
  take (suc n) [] = []
  take (suc n) (x ∷ xs) = x ∷ take n xs

  -- The rows that pass a test, in order.
  abbrev pub keep : (A → Bool) → List A → List A
  keep p [] = []
  keep p (x ∷ xs) = let rest = keep p xs in if p x then x ∷ rest else rest

  -- The first row that passes a test.
  abbrev pub find : (A → Bool) → List A → Option A
  find p [] = none
  find p (x ∷ xs) = let rest = find p xs in if p x then some x else rest

  abbrev pub any : (A → Bool) → List A → Bool
  any p [] = false
  any p (x ∷ xs) = p x || any p xs

  abbrev pub all : (A → Bool) → List A → Bool
  all p [] = true
  all p (x ∷ xs) = p x && all p xs

  abbrev pub count : (A → Bool) → List A → ℕ
  count p [] = 0
  count p (x ∷ xs) = let rest = count p xs in if p x then suc rest else rest

  -- Rewrite the rows that pass a test.
  abbrev pub update : (A → Bool) → (A → A) → List A → List A
  update p f [] = []
  update p f (x ∷ xs) = (if p x then f x else x) ∷ update p f xs

  pub length-append : (xs ys : List A) → length (xs ++ ys) ≡ length xs + length ys
  length-append [] ys = omega arith
  length-append (x ∷ xs) ys = omega (arith, length-append xs ys)

  pub length-take : (n : ℕ) (xs : List A) → length (take n xs) ≡ min n (length xs)
  length-take zero xs = omega arith
  length-take (suc n) [] = omega arith
  length-take (suc n) (x ∷ xs) = omega (arith, length-take n xs)

  pub count-append : (p : A → Bool) (xs ys : List A) → count p (xs ++ ys) ≡ count p xs + count p ys
  count-append p [] ys = omega arith
  count-append p (x ∷ xs) ys = ground (arith, count-append p xs ys)

module _ {ℓ} {A : Type ℓ} where
  pub count-keep-le : (p q : A → Bool) (xs : List A) → count p (keep q xs) ≤ count p xs
  count-keep-le p q [] = omega arith
  count-keep-le p q (x ∷ xs) = ground (arith, count-keep-le p q xs)

  pub count-take-le : (p : A → Bool) (n : ℕ) (xs : List A) → count p (take n xs) ≤ count p xs
  count-take-le p zero xs = omega arith
  count-take-le p (suc n) [] = omega arith
  count-take-le p (suc n) (x ∷ xs) = ground (arith, count-take-le p n xs)

  -- A rewrite that leaves the test alone leaves the count alone.
  pub count-update :
      (p q : A → Bool) (f : A → A)
      → ((x : A) → p (f x) ≡ p x)
      → (xs : List A) → count p (update q f xs) ≡ count p xs
  count-update p q f same [] = refl
  count-update p q f same (x ∷ xs) = ground (arith, same x, count-update p q f same xs)

  pub length-update : (q : A → Bool) (f : A → A) (xs : List A) → length (update q f xs) ≡ length xs
  length-update q f [] = refl
  length-update q f (x ∷ xs) = ap suc (length-update q f xs)

  pub any-of_count : (p : A → Bool) (xs : List A) → any p xs ≡ false → count p xs ≡ 0
  any-of_count p [] h = refl
  any-of_count p (x ∷ xs) h = ground (arith, any-of_count p xs)

  -- Two tests that agree find the same row.
  pub find-update :
      (p q : A → Bool) (f : A → A)
      → ((x : A) → p (f x) ≡ p x)
      → ((x : A) → p x ≡ true → q x ≡ false)
      → (xs : List A) → find p (update q f xs) ≡ find p xs
  find-update p q f same apart [] = refl
  find-update p q f same apart (x ∷ xs) =
      ground (arith, same x, apart x, find-update p q f same apart xs)

  pub find-append :
      (p : A → Bool) (xs ys : List A) → find p xs ≡ none → find p (xs ++ ys) ≡ find p ys
  find-append p [] ys h = refl
  find-append p (x ∷ xs) ys h = ground (arith, find-append p xs ys)

  pub find-append_some :
      (p : A → Bool) (xs ys : List A) {a : A} → find p xs ≡ some a → find p (xs ++ ys) ≡ some a
  find-append_some p [] ys h = cc
  find-append_some p (x ∷ xs) ys {a} h = ground (arith, find-append_some p xs ys {a = a})

  pub find-holds : (p : A → Bool) (xs : List A) {a : A} → find p xs ≡ some a → p a ≡ true
  find-holds p [] h = cc
  find-holds p (x ∷ xs) {a} h = ground (arith, find-holds p xs {a = a})

  -- Where no row passes the test, none is counted.
  pub count-of_find-none : (p : A → Bool) (xs : List A) → find p xs ≡ none → count p xs ≡ 0
  count-of_find-none p [] h = refl
  count-of_find-none p (x ∷ xs) h = ground (arith, count-of_find-none p xs)

  -- One more row keeps a key unique if no row had it.
  pub count-append_one :
      (p : A → Bool) (xs : List A) (e : A)
      → (p e ≡ true → count p xs ≡ 0)
      → count p xs ≤ 1
      → count p (xs ++ e ∷ []) ≤ 1
  count-append_one p xs e none_before h = ground (arith, count-append p xs (e ∷ []), none_before)

module _ {ℓ} {A : Type ℓ} where
  pub take_all : (n : ℕ) (xs : List A) → length xs ≤ n → take n xs ≡ xs
  take_all zero [] h = refl
  take_all zero (x ∷ xs) h = absurd (omega arith)
  take_all (suc n) [] h = refl
  take_all (suc n) (x ∷ xs) h = ap (◌∷◌ x) (take_all n xs (omega arith))

  pub length-keep-le : (p : A → Bool) (xs : List A) → length (keep p xs) ≤ length xs
  length-keep-le p [] = omega arith
  length-keep-le p (x ∷ xs) = ground (arith, length-keep-le p xs)

  pub any-of_count_pos : (p : A → Bool) (xs : List A) → 0 < count p xs → any p xs ≡ true
  any-of_count_pos p [] h = absurd (omega arith)
  any-of_count_pos p (x ∷ xs) h = ground (arith, any-of_count_pos p xs)

  pub count-of_any : (p : A → Bool) (xs : List A) → any p xs ≡ true → 0 < count p xs
  count-of_any p [] h = cc
  count-of_any p (x ∷ xs) h = ground (arith, count-of_any p xs)

  -- A found row that passes a filter is counted after it.
  pub count-keep_found :
      (p q : A → Bool) (xs : List A) (a : A)
      → find p xs ≡ some a
      → q a ≡ true
      → 0 < count p (keep q xs)
  count-keep_found p q [] a f h = cc
  count-keep_found p q (x ∷ xs) a f h = ground (arith, count-keep_found p q xs a)

  pub find-of_any : (p : A → Bool) (xs : List A) → any p xs ≡ true → (a : A) × (find p xs ≡ some a)
  find-of_any p [] h = cc
  find-of_any p (x ∷ xs) h = elim (Bool-cases (p x)) [
    | inl hit ↦ (x, rw hit)
    | inr miss ↦ let (a, found) = find-of_any p xs (ground arith) in (a, rw miss found)
  ]

  -- The row that is found after a rewrite which keeps the key is the rewritten row found before.
  pub find-update-some :
      (p q : A → Bool) (f : A → A)
      → ((x : A) → p (f x) ≡ p x)
      → (xs : List A) (a : A) → find p xs ≡ some a
      → find p (update q f xs) ≡ some (if q a then f a else a)
  find-update-some p q f same [] a h = cc
  find-update-some p q f same (x ∷ xs) a h =
      ground (arith, same x, find-update-some p q f same xs a)

  pub length-map_self : (f : A → A) (xs : List A) → length (map f xs) ≡ length xs
  length-map_self f [] = refl
  length-map_self f (x ∷ xs) = ap suc (length-map_self f xs)

  pub count-map :
      (p : A → Bool) (f : A → A)
      → ((x : A) → p (f x) ≡ p x)
      → (xs : List A) → count p (map f xs) ≡ count p xs
  count-map p f same [] = refl
  count-map p f same (x ∷ xs) = ground (arith, same x, count-map p f same xs)

  pub find-update-none :
      (p q : A → Bool) (f : A → A)
      → ((x : A) → p (f x) ≡ p x)
      → (xs : List A) → find p xs ≡ none
      → find p (update q f xs) ≡ none
  find-update-none p q f same [] h = refl
  find-update-none p q f same (x ∷ xs) h = ground (arith, same x, find-update-none p q f same xs)

  pub any-of_find :
      (p q : A → Bool) (xs : List A) (a : A)
      → find p xs ≡ some a
      → q a ≡ true
      → any (λ x. p x && q x) xs ≡ true
  any-of_find p q [] a f h = cc
  any-of_find p q (x ∷ xs) a f h = ground (arith, any-of_find p q xs a)

  pub keep-append_miss :
      (p : A → Bool) (xs : List A) (x : A) → p x ≡ false → keep p (xs ++ x ∷ []) ≡ keep p xs
  keep-append_miss p [] x miss = ground arith
  keep-append_miss p (y ∷ ys) x miss = ground (arith, keep-append_miss p ys x miss)
