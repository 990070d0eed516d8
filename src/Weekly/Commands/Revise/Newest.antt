-- ===== src/Weekly/Commands/Revise/Newest.antt =====
-- `get_latest_asset`: the greatest revision of an asset.
use shiptawk_be.Prelude.{
  ℕ, ◌≤◌, ◌≡◌, refl, sym, ◌⊎◌, inl, inr, Bool, true, false, none, some, List, [], ◌∷◌, arith, keep,
  ltb, sorted, insert, All, All-mono, Option-cases, Bool-cases, subst, if◌then◌else◌,
}
use shiptawk_be.Weekly.Store.{Tenant, Store, PreparedAsset, is_sibling}
use shiptawk_be.Weekly.Commands.Revise.{first, latest_asset}

abbrev pub Member : PreparedAsset → List PreparedAsset → Type 0
Member a [] = ⊥
Member a (x ∷ xs) = (a ≡ x) ⊎ Member a xs

-- A row of the asset, of which no row of the table has a greater revision.
pub record IsNewest (t : Tenant) (root latest : PreparedAsset) (s : Store) : Type 0 where
  pub there : Member latest s.assets
  pub sibling : is_sibling t root.recommendation_id root.action_id latest ≡ true
  pub greatest :
      All
        (λ x.
          (is_sibling t root.recommendation_id root.action_id x ≡ false)
          ⊎ (x.revision ≤ latest.revision))
        s.assets

abbrev newer : PreparedAsset → PreparedAsset → Bool
newer a b = ltb b.revision a.revision

first-insert :
    (x m : PreparedAsset) (zs : List PreparedAsset)
    → first zs ≡ some m
    → first (insert newer x zs) ≡ some (if newer m x then m else x)
unfolding insert
first-insert x m [] h = cc
first-insert x m (z ∷ zs) h = ground arith

first-insert_some :
    (x : PreparedAsset) (zs : List PreparedAsset) → first (insert newer x zs) ≡ none → ⊥
unfolding insert
first-insert_some x [] h = cc
first-insert_some x (z ∷ zs) h = ground arith

-- The first of the rows in descending order is one of them, and has the greatest revision.
first-sorted :
    (xs : List PreparedAsset) (l : PreparedAsset)
    → first (sorted newer xs) ≡ some l
    → Member l xs × All (λ x. x.revision ≤ l.revision) xs
unfolding sorted
first-sorted [] l h = absurd (ground arith)
first-sorted (x ∷ []) l h =
    let own : x ≡ l = unfold insert in ground arith in (inl (sym own), (rw own (omega arith), tt))
first-sorted (x ∷ y ∷ ys) l h = elim (Option-cases (first (sorted newer (y ∷ ys)))) [
  | inl empty ↦ absurd (first-insert_some y (sorted newer ys) empty)
  | inr (m, top) ↦
      let (there, most) = first-sorted (y ∷ ys) m top in
      let head = first-insert x m (sorted newer (y ∷ ys)) top in
      elim (Bool-cases (newer m x)) [
        | inl less ↦
            let own : m ≡ l = ground arith in
            subst (λ k. Member k (x ∷ y ∷ ys) × All (λ z. z.revision ≤ k.revision) (x ∷ y ∷ ys)) own
              (inr there, (ground arith, most))
        | inr least ↦
            let own : x ≡ l = ground arith in
            let over : m.revision ≤ x.revision = ground arith in
            subst (λ k. Member k (x ∷ y ∷ ys) × All (λ z. z.revision ≤ k.revision) (x ∷ y ∷ ys)) own
              (inl refl, (omega arith, All-mono _ _ (λ z h. omega arith) (y ∷ ys) most))
      ]
]

kept-Member :
    (q : PreparedAsset → Bool) (l : PreparedAsset) (xs : List PreparedAsset)
    → Member l (keep q xs)
    → Member l xs × (q l ≡ true)
kept-Member q l [] h = absurd h
kept-Member q l (x ∷ xs) h = elim (Bool-cases (q x)) [
  | inl hit ↦
      let cut : keep q (x ∷ xs) ≡ x ∷ keep q xs = ground arith in
      elim (subst (Member l) cut h) [
        | inl own ↦ (inl own, rw own hit)
        | inr rest ↦ let (there, held) = kept-Member q l xs rest in (inr there, held)
      ]
  | inr miss ↦
      let cut : keep q (x ∷ xs) ≡ keep q xs = ground arith in
      let (there, held) = kept-Member q l xs (subst (Member l) cut h) in (inr there, held)
]

kept-All :
    (q : PreparedAsset → Bool) (n : ℕ) (xs : List PreparedAsset)
    → All (λ x. x.revision ≤ n) (keep q xs)
    → All (λ x. (q x ≡ false) ⊎ (x.revision ≤ n)) xs
kept-All q n [] h = tt
kept-All q n (x ∷ xs) h = elim (Bool-cases (q x)) [
  | inl hit ↦
      let cut : keep q (x ∷ xs) ≡ x ∷ keep q xs = ground arith in
      let split = subst (All (λ y. y.revision ≤ n)) cut h in (inr split.0, kept-All q n xs split.1)
  | inr miss ↦
      let cut : keep q (x ∷ xs) ≡ keep q xs = ground arith in
      (inl miss, kept-All q n xs (subst (All (λ y. y.revision ≤ n)) cut h))
]

pub latest_asset-IsNewest :
    (t : Tenant) (root latest : PreparedAsset) (s : Store)
    → latest_asset t root s ≡ some latest
    → IsNewest t root latest s
unfolding latest_asset
latest_asset-IsNewest t root latest s h =
    let q = is_sibling t root.recommendation_id root.action_id in
    let (there, most) = first-sorted (keep q s.assets) latest h in
    let (member, held) = kept-Member q latest s.assets there in
    record { there = member; sibling = held; greatest = kept-All q latest.revision s.assets most }
