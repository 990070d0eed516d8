-- ===== src/Crawl/Ends.antt =====
-- Whether the loop of `_discover_sitemaps` ends.
use shiptawk_be.Prelude.{
  ℕ, zero, suc, ◌+◌, ◌≤◌, ◌≡◌, ◌⊎◌, refl, sym, subst, inl, inr, Option, some, List, [], ◌∷◌, arith,
  length, leb, Bool-cases,
}
use shiptawk_be.Text.{Text}
use shiptawk_be.Crawl.{Discovery, FetchResult, Document, visit, take_url, discover_sitemaps}
use shiptawk_be.Crawl.Shape.{take_url-cases, visit-visited}

module _ (normalize : Text → Option Text) (host_of : Text → Option Text)
    (fetch : Text → Option FetchResult) (parse : Text → Option Document) (stripped : Text → Text)
    (base_host : Option Text) (max_fetches : ℕ) where
  -- Some number of turns is enough.
  abbrev pub Ends : Discovery → Type 0
  Ends d =
      (fuel : ℕ) × (final : Discovery) × (discover_sitemaps normalize host_of fetch parse stripped
          base_host max_fetches fuel d
        ≡ some final)

  stopped-Ends :
      (d : Discovery) (pending : List Text)
      → d.pending ≡ pending
      → (pending ≡ []) ⊎ (max_fetches ≤ length d.visited)
      → Ends d
  unfolding discover_sitemaps
  stopped-Ends d [] is why = (1, d, rw is refl)
  stopped-Ends d (raw ∷ rest) is (inl none_left) = absurd (ground arith)
  stopped-Ends d (raw ∷ rest) is (inr full) = (1, d, ground arith)

  -- A turn before a loop that ends.
  turn-Ends :
      (d : Discovery) (raw : Text) (rest : List Text)
      → d.pending ≡ raw ∷ rest
      → Ends (
          take_url normalize host_of fetch parse stripped base_host max_fetches raw
            (record d { pending = rest }))
      → Ends d
  unfolding discover_sitemaps
  turn-Ends d raw rest is (fuel, final, ended) =
      elim (Bool-cases (leb max_fetches (length d.visited))) [
        | inl full ↦ (1, d, ground arith)
        | inr more ↦ (suc fuel, final, ground arith)
      ]

  queue-Ends :
      (n : ℕ)
      → ((d : Discovery) → max_fetches ≤ length d.visited + n → Ends d)
      → (pending : List Text) (d : Discovery) → d.pending ≡ pending
      → max_fetches ≤ length d.visited + suc n
      → Ends d
  queue-Ends n later [] d is room = stopped-Ends d [] is (inl refl)
  queue-Ends n later (raw ∷ rest) d is room =
      let shorter : Discovery = record d { pending = rest } in
      turn-Ends d raw rest is
        (elim (take_url-cases normalize host_of fetch parse stripped base_host max_fetches raw
          shorter) [
            | inl dropped ↦ subst Ends (sym dropped) (queue-Ends n later rest shorter refl room)
            | inr (url, new, visited) ↦
                let one_more =
                  visit-visited normalize host_of fetch parse stripped base_host max_fetches url
                    shorter in
                subst Ends (sym visited) (
                  later
                    (visit normalize host_of fetch parse stripped base_host max_fetches url shorter)
                    (rw one_more (omega arith)))
          ])

  room-Ends : (n : ℕ) (d : Discovery) → max_fetches ≤ length d.visited + n → Ends d
  room-Ends zero d full = stopped-Ends d d.pending refl (inr (omega arith))
  room-Ends (suc n) d room = queue-Ends n (room-Ends n) d.pending d refl room

  -- The search for sitemaps ends from every queue, whatever the provider answers: also if sitemap
  -- indexes name each other in a circle.
  pub discover_sitemaps-Ends : (d : Discovery) → Ends d
  discover_sitemaps-Ends d = room-Ends max_fetches d (omega arith)
