-- ===== src/Text/Slug.antt =====
-- What the string methods of error categories keep: the alphabet, and no leading mark.
use mathlib.Core.List.{reverse, reverse-cons}
use shiptawk_be.Prelude.{
  ℕ, Bool, true, false, not, ◌≡◌, refl, ◌||◌, [], ◌∷◌, ◌==◌, All, All-append, holds_if, Bool-cases,
  inl, inr,
}
use shiptawk_be.Text.{Text, is_slug, lstrip, strip, collapse}

-- A letter, a digit or an underscore.
abbrev pub IsWord : ℕ → Type 0
IsWord c = (is_slug c || c == b'_') ≡ true

word_of_slug : (b d : Bool) → b ≡ true → (b || d) ≡ true
word_of_slug true d h = refl
word_of_slug false d h = cc

pub collapse-IsWord : (inside : Bool) (cs : Text) → All IsWord (collapse inside cs)
unfolding collapse
collapse-IsWord inside [] = tt
collapse-IsWord inside (c ∷ cs) =
    let rest : All IsWord (collapse (not (is_slug c)) cs) = collapse-IsWord (not (is_slug c)) cs in
    holds_if (All IsWord) (is_slug c) _ _
      (λ slug. (word_of_slug (is_slug c) (c == b'_') slug, rest))
      λ _. holds_if (All IsWord) inside _ _ (λ _. rest) (λ _. (refl, rest))

reverse-All : (P : ℕ → Type 0) (cs : Text) → All P cs → All P (reverse cs)
reverse-All P [] h = tt
reverse-All P (c ∷ cs) h =
    rw reverse-cons (All-append P (reverse cs) (c ∷ []) (reverse-All P cs h.1) (h.0, tt))

lstrip-All : (P : ℕ → Type 0) (mark : ℕ) (cs : Text) → All P cs → All P (lstrip mark cs)
unfolding lstrip
lstrip-All P mark [] h = tt
lstrip-All P mark (c ∷ cs) h = elim (Bool-cases (c == mark)) [
  | inl e ↦ rw e (lstrip-All P mark cs h.1)
  | inr e ↦ rw e h
]

pub strip-All : (P : ℕ → Type 0) (mark : ℕ) (cs : Text) → All P cs → All P (strip mark cs)
unfolding strip
strip-All P mark cs h =
    reverse-All P _ (lstrip-All P mark _ (reverse-All P _ (lstrip-All P mark cs h)))
