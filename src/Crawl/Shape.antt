-- ===== src/Crawl/Shape.antt =====
-- The turns of the loop of `_discover_sitemaps`.
use shiptawk_be.Prelude.{
  ℕ, ◌≡◌, ◌⊎◌, refl, inl, inr, Bool, true, false, Option, List, ◌∷◌, arith, Bool-cases,
  Option-cases,
}
use shiptawk_be.Text.{Text, same_text}
use shiptawk_be.Crawl.{
  Discovery, FetchResult, Document, add_locations, document_at, locations_of, visit, is_skipped,
  take_url, index_name, local_name,
}

module _ (normalize : Text → Option Text) (host_of : Text → Option Text)
    (fetch : Text → Option FetchResult) (parse : Text → Option Document) (stripped : Text → Text)
    (base_host : Option Text) (max_fetches : ℕ) where
  -- A turn drops the URL, or visits its normal form, which is new and on the site.
  pub take_url-cases :
      (raw : Text) (d : Discovery)
      → (take_url normalize host_of fetch parse stripped base_host max_fetches raw d ≡ d)
        ⊎ ((url : Text) × (is_skipped normalize host_of fetch parse stripped base_host max_fetches
                url d
              ≡ false)
            × (take_url normalize host_of fetch parse stripped base_host max_fetches raw d
                ≡ visit normalize host_of fetch parse stripped base_host max_fetches url d))
  unfolding take_url
  take_url-cases raw d = elim (Option-cases (normalize raw)) [
    | inl bad ↦ inl (ground arith)
    | inr (url, good) ↦
        elim (Bool-cases
          (is_skipped normalize host_of fetch parse stripped base_host max_fetches url d)) [
            | inl skip ↦ inl (ground arith)
            | inr new ↦ inr (url, new, ground arith)
          ]
  ]

  -- A visit adds its URL alone to the visited ones, and its locations to one of the lists, if any.
  pub visit-cases :
      (url : Text) (d : Discovery)
      → (visit normalize host_of fetch parse stripped base_host max_fetches url d
          ≡ record d { visited = url ∷ d.visited })
        ⊎ ((index : Bool) × (locations : List Text) × (visit normalize host_of fetch parse stripped
                base_host max_fetches url d
              ≡ add_locations index locations (record d { visited = url ∷ d.visited })))
  unfolding visit
  visit-cases url d =
      elim (Option-cases
        (document_at normalize host_of fetch parse stripped base_host max_fetches url)) [
          | inl nothing ↦ inl (ground arith)
          | inr (root, there) ↦ inr (
            same_text (local_name root.tag) index_name,
            locations_of normalize host_of fetch parse stripped base_host max_fetches root.elements,
            ground arith,
          )
        ]

  added-visited :
      (index : Bool) (locations : List Text) (d : Discovery)
      → (add_locations index locations d).visited ≡ d.visited
  added-visited true locations d = refl
  added-visited false locations d = refl

  pub visit-visited :
      (url : Text) (d : Discovery)
      → (visit normalize host_of fetch parse stripped base_host max_fetches url d).visited
        ≡ url ∷ d.visited
  visit-visited url d = elim (visit-cases url d) [
    | inl plain ↦ rw plain refl
    | inr (index, locations, more) ↦
        rw more (added-visited index locations (record d { visited = url ∷ d.visited }))
  ]
