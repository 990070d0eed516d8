-- ===== src/Outbox/Metadata/Safe.antt =====
-- `OutboxMetadata.validate_metadata`: what accepted metadata do not hold.
use shiptawk_be.Prelude.{
  ℕ, ◌≤◌, ◌≡◌, refl, sym, ap, ◌∙◌, ◌⊎◌, inl, inr, Bool, true, false, not, List, [], ◌∷◌, ◌++◌,
  arith, any, keep, length, ◌==◌, ==_iff, ok, All, Bool-cases, Result-cases, subst,
}
use shiptawk_be.Text.{Text, has_part, has_part-append}
use shiptawk_be.Outbox.Metadata.{
  Scalar, MetadataValue, sensitive_key_parts, is_joint, ends_with_id, is_long, items_of,
  normalized_key, check_entry, validate_metadata,
}

-- The text is the word with underscores and dashes put in anywhere.
pub data Spells : Text → Text → Type 0 where
  finished : Spells [] []
  letter : (c : ℕ) {word text : Text} → Spells word text → Spells (c ∷ word) (c ∷ text)
  underscore : {word text : Text} → Spells word text → Spells word (b'_' ∷ text)
  dash : {word text : Text} → Spells word text → Spells word (b'-' ∷ text)

-- The word is spelled somewhere in the text, or at its end.
abbrev pub HasWord : Text → Text → Type 0
HasWord word text = (a : Text) × (m : Text) × (b : Text) × (text ≡ a ++ (m ++ b)) × Spells word m

abbrev pub EndsIn : Text → Text → Type 0
EndsIn word text = (a : Text) × (m : Text) × (text ≡ a ++ m) × Spells word m

abbrev pub forbidden_words : List Text
forbidden_words =
    (b'b' ∷ b'o' ∷ b'd' ∷ b'y' ∷ [])
    ∷ (b'c' ∷ b'o' ∷ b'n' ∷ b't' ∷ b'e' ∷ b'n' ∷ b't' ∷ [])
    ∷ (b'c' ∷ b'r' ∷ b'e' ∷ b'd' ∷ b'e' ∷ b'n' ∷ b't' ∷ b'i' ∷ b'a' ∷ b'l' ∷ [])
    ∷ (b'p' ∷ b'a' ∷ b's' ∷ b's' ∷ b'w' ∷ b'o' ∷ b'r' ∷ b'd' ∷ [])
    ∷ (b'p' ∷ b'a' ∷ b'y' ∷ b'l' ∷ b'o' ∷ b'a' ∷ b'd' ∷ [])
    ∷ (b'p' ∷ b'r' ∷ b'o' ∷ b'm' ∷ b'p' ∷ b't' ∷ [])
    ∷ (b's' ∷ b'e' ∷ b'c' ∷ b'r' ∷ b'e' ∷ b't' ∷ [])
    ∷ (b's' ∷ b'o' ∷ b'u' ∷ b'r' ∷ b'c' ∷ b'e' ∷ [])
    ∷ (b't' ∷ b'o' ∷ b'k' ∷ b'e' ∷ b'n' ∷ [])
    ∷ []

abbrev pub IsShort : Scalar → Type 0
IsShort (Scalar.string t) = length t ≤ 2048
IsShort _ = Unit

abbrev is_letter : ℕ → Bool
is_letter c = not (is_joint c)

Spells-keep : {word text : Text} → Spells word text → keep is_letter text ≡ keep is_letter word
Spells-keep finished = refl
Spells-keep (letter c spelled) = let rest = Spells-keep spelled in ground arith
Spells-keep (underscore spelled) = let rest = Spells-keep spelled in ground arith
Spells-keep (dash spelled) = let rest = Spells-keep spelled in ground arith

keep-append : (a b : Text) → keep is_letter (a ++ b) ≡ keep is_letter a ++ keep is_letter b
keep-append [] b = refl
keep-append (c ∷ a) b =
    let rest = keep-append a b in
    elim (Bool-cases (is_joint c)) [ inl joint ↦ ground arith | inr other ↦ ground arith ]

joint-cases : (c : ℕ) → is_joint c ≡ true → (c ≡ b'_') ⊎ (c ≡ b'-')
joint-cases c h = elim (Bool-cases (c == b'_')) [
  | inl under ↦ inl ((==_iff c b'_').0 under)
  | inr other ↦ inr ((==_iff c b'-').0 (ground arith))
]

keep-Spells : (text : Text) → Spells (keep is_letter text) text
keep-Spells [] = finished
keep-Spells (c ∷ text) =
    let rest = keep-Spells text in
    elim (Bool-cases (is_joint c)) [
      | inr other ↦
          let kept : c ∷ keep is_letter text ≡ keep is_letter (c ∷ text) = ground arith in
          subst (λ w. Spells w (c ∷ text)) kept (letter c rest)
      | inl joint ↦
          let kept : keep is_letter text ≡ keep is_letter (c ∷ text) = ground arith in
          let shown : Spells (keep is_letter text) (c ∷ text) = elim (joint-cases c joint) [
            | inl under ↦
                subst (λ d. Spells (keep is_letter text) (d ∷ text)) (sym under) (underscore rest)
            | inr line ↦ subst (λ d. Spells (keep is_letter text) (d ∷ text)) (sym line) (dash rest)
          ] in
          subst (λ w. Spells w (c ∷ text)) kept shown
    ]

-- A text whose letters end in a word ends in it.
keep-EndsIn : (text a word : Text) → keep is_letter text ≡ a ++ word → EndsIn word text
keep-EndsIn text [] word e = ([], text, refl, subst (λ w. Spells w text) e (keep-Spells text))
keep-EndsIn [] (x ∷ a) word e = absurd (ground arith)
keep-EndsIn (c ∷ text) (x ∷ a) word e = elim (Bool-cases (is_joint c)) [
  | inr other ↦
      let (before, m, split, spelled) = keep-EndsIn text a word (ground arith) in
      (c ∷ before, m, ap (λ t. c ∷ t) split, spelled)
  | inl joint ↦
      let (before, m, split, spelled) = keep-EndsIn text (x ∷ a) word (ground arith) in
      (c ∷ before, m, ap (λ t. c ∷ t) split, spelled)
]

ends_with_id-split : (t : Text) → ends_with_id t ≡ true → (a : Text) × (t ≡ a ++ (b'i' ∷ b'd' ∷ []))
ends_with_id-split [] h = absurd (ground arith)
ends_with_id-split (c ∷ []) h = absurd (ground arith)
ends_with_id-split (c ∷ (d ∷ [])) h =
    let i : c ≡ b'i' = (==_iff c b'i').0 (ground arith) in
    let j : d ≡ b'd' = (==_iff d b'd').0 (ground arith) in
    ([], ap (λ x. x ∷ d ∷ []) i ∙ ap (λ x. b'i' ∷ x ∷ []) j)
ends_with_id-split (c ∷ (d ∷ (e ∷ rest))) h =
    let (a, split) = ends_with_id-split (d ∷ (e ∷ rest)) h in (c ∷ a, ap (λ t. c ∷ t) split)

-- Where the letters of a text do not have the letters of a word, the text does not have the word.
wordless :
    (words : List Text) (text : Text)
    → any (λ w. has_part (keep is_letter w) (keep is_letter text)) words ≡ false
    → All (λ w. HasWord w text → ⊥) words
wordless [] text h = tt
wordless (w ∷ words) text h = (
  (λ has.
      let (a, m, b, split, spelled) = has in
      let letters : keep is_letter text
          ≡ keep is_letter a ++ (keep is_letter w ++ keep is_letter b) =
        ap (keep is_letter) split
        ∙ keep-append a (m ++ b)
        ∙ ap (λ t. keep is_letter a ++ t)
            (keep-append m b ∙ ap (λ t. t ++ keep is_letter b) (Spells-keep spelled)) in
      let there : has_part (keep is_letter w) (keep is_letter text) ≡ true =
        rw letters (has_part-append (keep is_letter w) (keep is_letter a) (keep is_letter b)) in
      absurd (ground arith)),
  wordless words text (ground arith),
)

long-IsShort : (s : Scalar) → is_long s ≡ false → IsShort s
long-IsShort (Scalar.string t) h = ground arith
long-IsShort (Scalar.number t) h = tt
long-IsShort (Scalar.boolean b) h = tt
long-IsShort Scalar.null h = tt

items-IsShort : (items : List Scalar) → any is_long items ≡ false → All IsShort items
items-IsShort [] h = tt
items-IsShort (s ∷ items) h = (long-IsShort s (ground arith), items-IsShort items (ground arith))

module _ (lower : Text → Text) where
  -- The lower-cased key ends in the letters of an identifier or has no forbidden word, and every string
  -- is short.
  abbrev pub IsSafe : Text → MetadataValue → Type 0
  IsSafe key item =
      (EndsIn (b'i' ∷ b'd' ∷ []) (lower key) ⊎ All (λ w. HasWord w (lower key) → ⊥) forbidden_words)
      × All IsShort (items_of item)

  check_entry-IsSafe :
      (key : Text) (item : MetadataValue) → check_entry lower key item ≡ ok tt → IsSafe key item
  unfolding check_entry normalized_key
  check_entry-IsSafe key item h =
      let letters = keep is_letter (lower key) in
      let long : any is_long (items_of item) ≡ false = ground arith in
      (
        elim (Bool-cases (ends_with_id letters)) [
          | inl id_key ↦
              let (a, split) = ends_with_id-split letters id_key in
              inl (keep-EndsIn (lower key) a (b'i' ∷ b'd' ∷ []) split)
          | inr other ↦ inr (wordless forbidden_words (lower key) (absent (ground arith)))
        ],
        items-IsShort (items_of item) long,
      )
    where
      absent :
          any (λ part. has_part part (keep is_letter (lower key))) sensitive_key_parts ≡ false
          → any (λ w. has_part (keep is_letter w) (keep is_letter (lower key))) forbidden_words
            ≡ false
      absent none_there = none_there

  -- Metadata that is accepted has no key that, lower-cased, spells one of the words body, content,
  -- credential, password, payload, prompt, secret, source and token in its middle, with underscores and
  -- dashes anywhere, unless the lower-cased key ends in `id` spelled in that way; and no string in it,
  -- alone or in a list, has more than 2048 characters.
  pub validate_metadata-IsSafe :
      (entries : List (Text × MetadataValue))
      → validate_metadata lower entries ≡ ok tt
      → All (λ e. IsSafe e.0 e.1) entries
  unfolding validate_metadata
  validate_metadata-IsSafe [] h = tt
  validate_metadata-IsSafe ((key, item) ∷ rest) h =
      elim (Result-cases (check_entry lower key item)) [
        | inr (e, refused) ↦ absurd (ground arith)
        | inl (tt, passed) ↦
            (check_entry-IsSafe key item passed, validate_metadata-IsSafe rest (ground arith))
      ]
