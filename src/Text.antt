-- ===== src/Text.antt =====
-- Texts as lists of code points, and the string methods that the modelled code calls.
pub mod Slug
use shiptawk_be.Prelude.{
  ℕ, Bool, true, false, not, ◌≡◌, refl, ap, subst, arith, Option, none, some, ◌&&◌, ◌||◌, List, [],
  ◌∷◌, ◌++◌, leb, ◌==◌, if◌then◌else◌,
}
use mathlib.Core.List.{reverse}

abbrev pub Text : Type 0
Text = List ℕ

-- `[a-z0-9]`
abbrev pub is_slug : ℕ → Bool
is_slug c = (leb b'a' c && leb c b'z') || (leb b'0' c && leb c b'9')

-- `value.split(mark, maxsplit=1)[0]`
unfoldable pub before_mark : ℕ → Text → Text
before_mark mark [] = []
before_mark mark (c ∷ cs) = let rest = before_mark mark cs in if c == mark then [] else c ∷ rest

-- `value.lstrip(mark)`
unfoldable pub lstrip : ℕ → Text → Text
lstrip mark [] = []
lstrip mark (c ∷ cs) = let rest = lstrip mark cs in if c == mark then rest else c ∷ cs

-- `value.strip(mark)`
unfoldable pub strip : ℕ → Text → Text
unfolding lstrip
strip mark cs = reverse (lstrip mark (reverse (lstrip mark cs)))

-- `re.sub(r"[^a-z0-9]+", "_", value)`; `inside` says that the run at hand has its underscore.
unfoldable pub collapse : Bool → Text → Text
collapse inside [] = []
collapse inside (c ∷ cs) =
    let rest = collapse (not (is_slug c)) cs in
    if is_slug c then c ∷ rest else if inside then rest else b'_' ∷ rest

-- `value.startswith(prefix)`
abbrev pub starts_with : Text → Text → Bool
starts_with [] text = true
starts_with (p ∷ ps) [] = false
starts_with (p ∷ ps) (c ∷ cs) = p == c && starts_with ps cs

-- `part in text`
abbrev pub has_part : Text → Text → Bool
has_part part [] = starts_with part []
has_part part (c ∷ cs) = starts_with part (c ∷ cs) || has_part part cs

abbrev pub same_text : Text → Text → Bool
same_text [] [] = true
same_text (a ∷ xs) (b ∷ ys) = a == b && same_text xs ys
same_text _ _ = false

pub same_text_self : (t : Text) → same_text t t ≡ true
same_text_self [] = refl
same_text_self (c ∷ cs) = ground (arith, same_text_self cs)

-- `==` between two optional texts.
abbrev pub same_opt_text : Option Text → Option Text → Bool
same_opt_text none none = true
same_opt_text (some a) (some b) = same_text a b
same_opt_text _ _ = false

pub same_opt_text_self : (t : Option Text) → same_opt_text t t ≡ true
same_opt_text_self none = refl
same_opt_text_self (some t) = same_text_self t

pub same_text-eq : (a b : Text) → same_text a b ≡ true → a ≡ b
same_text-eq [] [] h = refl
same_text-eq [] (b ∷ bs) h = absurd (ground arith)
same_text-eq (a ∷ xs) [] h = absurd (ground arith)
same_text-eq (a ∷ xs) (b ∷ ys) h =
    let rest = same_text-eq xs ys (ground arith) in
    let first : a ≡ b = ground arith in subst (λ c. a ∷ xs ≡ c ∷ ys) first (ap (◌∷◌ a) rest)

starts_with-append : (p t : Text) → starts_with p (p ++ t) ≡ true
starts_with-append [] t = refl
starts_with-append (c ∷ p) t = ground (arith, starts_with-append p t)

-- A text with a part in its middle is found to have it.
pub has_part-append : (p a b : Text) → has_part p (a ++ (p ++ b)) ≡ true
has_part-append [] [] [] = refl
has_part-append [] [] (c ∷ b) = refl
has_part-append (d ∷ p) [] b = ground (arith, starts_with-append p b)
has_part-append p (c ∷ a) b = ground (arith, has_part-append p a b)
