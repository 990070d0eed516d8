-- ===== src/Outbox/Category.antt =====
-- `_sanitize_error_category` of app/db/outbox.py.
use shiptawk_be.Prelude.{◌≤◌, refl, false, [], ◌∷◌, arith, All, All-take, length, length-take, take}
use shiptawk_be.Text.{Text, before_mark, collapse, strip}
use shiptawk_be.Text.Slug.{IsWord, collapse-IsWord, strip-All}
use shiptawk_be.Outbox.{or_unknown, sanitize_error_category}

or_unknown-IsWord : (cs : Text) → All IsWord cs → All IsWord (or_unknown cs)
or_unknown-IsWord [] h = (refl, (refl, (refl, (refl, (refl, (refl, (refl, tt)))))))
or_unknown-IsWord (c ∷ cs) h = h

or_unknown_bounds :
    (cs : Text) → length cs ≤ 64 → (1 ≤ length (or_unknown cs)) × (length (or_unknown cs) ≤ 64)
or_unknown_bounds [] h = omega arith
or_unknown_bounds (c ∷ cs) h = omega arith

-- Whatever the category and the runtime's lower-casing, the stored category consists of lower-case
-- ASCII letters, digits and underscores, and has between 1 and 64 characters, so it fits its column.
pub sanitize_error_category-IsWord :
    (lower : Text → Text) (category : Text)
    → All IsWord (sanitize_error_category lower category)
      × (1 ≤ length (sanitize_error_category lower category))
      × (length (sanitize_error_category lower category) ≤ 64)
unfolding sanitize_error_category
sanitize_error_category-IsWord lower category =
    let cut = strip b'_' (collapse false (lower (before_mark b':' category))) in
    let (some_left, fits) = or_unknown_bounds (take 64 cut) (omega (arith, length-take 64 cut)) in
    (
      or_unknown-IsWord (take 64 cut)
          (All-take IsWord 64 cut (strip-All IsWord b'_' _ (collapse-IsWord false _))),
      some_left,
      fits,
    )
