-- ===== src/Prelude/Unique.antt =====
-- What follows from a key that at most one row has.
use Prim.Native.Nat.{◌≤◌}
use mathlib.Core.Path.{◌≡◌, refl, ◌∙◌, sym, ap, subst}
use mathlib.Core.Bool.{Bool, true, false}
use mathlib.Core.Option.{none, some}
use mathlib.Core.List.{List, [], ◌∷◌}
use native.Mathlib.Omega.{arith}
use shiptawk_be.Prelude.Lists.{count, find, update, find-holds, find-of_any}
use shiptawk_be.Prelude.Counts.{any-of_found}
use shiptawk_be.Prelude.Every.{All, All-mono, All-find, All-of_unique}

module _ {ℓ} {A : Type ℓ} where
  -- Where a test implies a unique key and a row passes it, it passes all rows with the key.
  pub All-of_found :
      (key test : A → Bool) (xs : List A) (a : A)
      → count key xs ≤ 1
      → ((x : A) → test x ≡ true → key x ≡ true)
      → find test xs ≡ some a
      → All (λ x. key x ≡ true → test x ≡ true) xs
  All-of_found key test xs a unique by_key found =
      let hit : test a ≡ true = find-holds test xs found in
      let (first, is_first) =
        find-of_any key xs (any-of_found test key xs a found (by_key a hit)) in
      let each = All-of_unique key xs first unique is_first in
      let is_a : a ≡ first =
        All-find (λ x. key x ≡ true → x ≡ first) test xs each found (by_key a hit) in
      All-mono _ _ (λ x it own. subst (λ y. test y ≡ true) (is_a ∙ sym (it own)) hit) xs each

  -- A test that no row passes finds, counts and rewrites nothing.
  pub update-miss :
      (p : A → Bool) (f : A → A) (xs : List A)
      → All (λ x. p x ≡ false) xs
      → (find p xs ≡ none) × (count p xs ≡ 0) × (update p f xs ≡ xs)
  update-miss p f [] h = (refl, refl, refl)
  update-miss p f (x ∷ xs) h =
      let (found, counted, same) = update-miss p f xs h.1 in
      let miss = h.0 in (ground arith, ground arith, rw miss (ap (◌∷◌ x) same))

  -- A found row that has a unique key is the row with the key.
  pub find-of_unique :
      (key test : A → Bool) (xs : List A) (a : A)
      → count key xs ≤ 1
      → find test xs ≡ some a
      → key a ≡ true
      → find key xs ≡ some a
  find-of_unique key test xs a unique found own =
      let (first, is_first) = find-of_any key xs (any-of_found test key xs a found own) in
      let each = All-of_unique key xs first unique is_first in
      let is_a : a ≡ first = All-find (λ x. key x ≡ true → x ≡ first) test xs each found own in
      is_first ∙ ap some (sym is_a)
