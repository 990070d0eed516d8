-- ===== src/Prelude/Counts.antt =====
-- How rewriting rows changes what a test counts.
use Prim.Native.Nat.{◌≤◌, ◌<◌}
use mathlib.Core.Path.{◌≡◌, refl}
use mathlib.Core.Bool.{Bool, true, false, ◌||◌}
use mathlib.Core.Option.{none, some}
use mathlib.Core.List.{List, [], ◌∷◌, ◌++◌}
use native.Mathlib.Omega.{arith}
use shiptawk_be.Prelude.Lists.{count, update, find, any}

module _ {ℓ} {A : Type ℓ} where
  -- A rewrite that makes no row pass the test raises no count.
  pub count-update-le :
      (p q : A → Bool) (f : A → A)
      → ((x : A) → p (f x) ≡ true → p x ≡ true)
      → (xs : List A) → count p (update q f xs) ≤ count p xs
  count-update-le p q f less [] = omega arith
  count-update-le p q f less (x ∷ xs) = ground (arith, less x, count-update-le p q f less xs)

  -- It lowers the count if it makes a found row fail it.
  pub count-update-lt :
      (p q r : A → Bool) (f : A → A)
      → ((x : A) → p (f x) ≡ true → p x ≡ true)
      → (xs : List A) (a : A) → find r xs ≡ some a
      → q a ≡ true
      → p a ≡ true
      → p (f a) ≡ false
      → count p (update q f xs) < count p xs
  count-update-lt p q r f less [] a found rewritten before after = absurd (ground arith)
  count-update-lt p q r f less (x ∷ xs) a found rewritten before after =
      ground (arith, less x, count-update-le p q f less xs, count-update-lt p q r f less xs a)

  -- Where no row passes a test, a found row fails it.
  pub miss-of_any :
      (p r : A → Bool) (xs : List A) (a : A) → any p xs ≡ false → find r xs ≡ some a → p a ≡ false
  miss-of_any p r [] a free found = absurd (ground arith)
  miss-of_any p r (x ∷ xs) a free found = ground (arith, miss-of_any p r xs a)

  -- A rewrite that leaves a test alone leaves it to the same rows.
  pub any-update :
      (p q : A → Bool) (f : A → A)
      → ((x : A) → p (f x) ≡ p x)
      → (xs : List A) → any p (update q f xs) ≡ any p xs
  any-update p q f same [] = refl
  any-update p q f same (x ∷ xs) = ground (arith, same x, any-update p q f same xs)

  pub any-append : (p : A → Bool) (xs ys : List A) → any p (xs ++ ys) ≡ (any p xs || any p ys)
  any-append p [] ys = refl
  any-append p (x ∷ xs) ys = ground (arith, any-append p xs ys)

  -- A test that implies one which no row passes counts none.
  pub count-of_any_none :
      (p r : A → Bool)
      → ((x : A) → p x ≡ true → r x ≡ true)
      → (xs : List A) → any r xs ≡ false
      → count p xs ≡ 0
  count-of_any_none p r implied [] free = refl
  count-of_any_none p r implied (x ∷ xs) free =
      ground (arith, implied x, count-of_any_none p r implied xs)

  -- A found row that passes another test witnesses it.
  pub any-of_found :
      (p q : A → Bool) (xs : List A) (a : A) → find p xs ≡ some a → q a ≡ true → any q xs ≡ true
  any-of_found p q [] a found holds = absurd (ground arith)
  any-of_found p q (x ∷ xs) a found holds = ground (arith, any-of_found p q xs a)

  -- A test that implies one which no row passes finds none.
  pub find-miss :
      (p r : A → Bool)
      → ((x : A) → p x ≡ true → r x ≡ true)
      → (xs : List A) → any r xs ≡ false
      → find p xs ≡ none
  find-miss p r implied [] free = refl
  find-miss p r implied (x ∷ xs) free = ground (arith, implied x, find-miss p r implied xs)
