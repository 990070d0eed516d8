-- ===== src/Crawl/Bounds.antt =====
-- What the loop of `_discover_sitemaps` fetches and counts.
use shiptawk_be.Prelude.{
  ℕ, zero, suc, ◌+◌, ◌≤◌, ◌<◌, ◌≡◌, refl, sym, subst, inl, inr, Bool, true, false, Option, some,
  List, [], ◌∷◌, arith, length, length-append, any, leb, Bool-cases, All,
}
use shiptawk_be.Text.{Text, same_text, same_opt_text}
use shiptawk_be.Crawl.{
  Discovery, FetchResult, Document, add_locations, is_skipped, take_url, discover_sitemaps,
}
use shiptawk_be.Crawl.Shape.{take_url-cases, visit-cases}

abbrev pub Distinct : List Text → Type 0
Distinct [] = Unit
Distinct (x ∷ xs) = (any (same_text x) xs ≡ false) × Distinct xs

-- The URLs that were fetched are no more than allowed, different, and on the site; each success is one
-- of them; and the pages are those that were added to the candidates there were at the start.
pub record IsBounded (host_of : Text → Option Text) (base_host : Option Text)
    (max_fetches given : ℕ) (d : Discovery) : Type 0 where
  pub fetches : length d.visited ≤ max_fetches
  pub succeeded : d.succeeded ≤ length d.visited
  pub on_site : All (λ u. same_opt_text (host_of u) base_host ≡ true) d.visited
  pub distinct : Distinct d.visited
  pub pages : d.pages_discovered + given ≡ length d.candidates

module _ (normalize : Text → Option Text) (host_of : Text → Option Text)
    (fetch : Text → Option FetchResult) (parse : Text → Option Document) (stripped : Text → Text)
    (base_host : Option Text) (max_fetches given : ℕ) where
  plain_visit :
      (url : Text) (d : Discovery)
      → is_skipped normalize host_of fetch parse stripped base_host max_fetches url d ≡ false
      → length d.visited < max_fetches
      → IsBounded host_of base_host max_fetches given d
      → IsBounded host_of base_host max_fetches given (record d { visited = url ∷ d.visited })
  plain_visit url d new room b =
      let fewer = b.succeeded in
      record {
        fetches = omega arith;
        succeeded = omega arith;
        on_site = (ground arith, b.on_site);
        distinct = (ground arith, b.distinct);
        pages = b.pages;
      }

  added :
      (index : Bool) (locations : List Text) (url : Text) (d : Discovery)
      → is_skipped normalize host_of fetch parse stripped base_host max_fetches url d ≡ false
      → length d.visited < max_fetches
      → IsBounded host_of base_host max_fetches given d
      → IsBounded host_of base_host max_fetches given
          (add_locations index locations (record d { visited = url ∷ d.visited }))
  added true locations url d new room b =
      let plain = plain_visit url d new room b in
      let fewer = b.succeeded in
      record {
        fetches = plain.fetches;
        succeeded = omega arith;
        on_site = plain.on_site;
        distinct = plain.distinct;
        pages = b.pages;
      }
  added false locations url d new room b =
      let plain = plain_visit url d new room b in
      let fewer = b.succeeded in
      let before = b.pages in
      let grown = length-append d.candidates locations in
      record {
        fetches = plain.fetches;
        succeeded = omega arith;
        on_site = plain.on_site;
        distinct = plain.distinct;
        pages = omega arith;
      }

  take_url-IsBounded :
      (raw : Text) (d : Discovery)
      → length d.visited < max_fetches
      → IsBounded host_of base_host max_fetches given d
      → IsBounded host_of base_host max_fetches given
          (take_url normalize host_of fetch parse stripped base_host max_fetches raw d)
  take_url-IsBounded raw d room b =
      let B = IsBounded host_of base_host max_fetches given in
      elim (take_url-cases normalize host_of fetch parse stripped base_host max_fetches raw d) [
        | inl dropped ↦ subst B (sym dropped) b
        | inr (url, new, is_visit) ↦
            subst B (sym is_visit)
              (elim (visit-cases normalize host_of fetch parse stripped base_host max_fetches url
                d) [
                  | inl plain ↦ subst B (sym plain) (plain_visit url d new room b)
                  | inr (index, locations, more) ↦
                      subst B (sym more) (added index locations url d new room b)
                ])
      ]

  loop-IsBounded :
      (fuel : ℕ) (d final : Discovery) (pending : List Text)
      → d.pending ≡ pending
      → discover_sitemaps normalize host_of fetch parse stripped base_host max_fetches fuel d
        ≡ some final
      → IsBounded host_of base_host max_fetches given d
      → IsBounded host_of base_host max_fetches given final
  unfolding discover_sitemaps
  loop-IsBounded zero d final pending is ended b = absurd (ground arith)
  loop-IsBounded (suc fuel) d final [] is ended b =
      let same_one : d ≡ final = ground arith in
      subst (IsBounded host_of base_host max_fetches given) same_one b
  loop-IsBounded (suc fuel) d final (raw ∷ rest) is ended b =
      elim (Bool-cases (leb max_fetches (length d.visited))) [
        | inl full ↦
            let same_one : d ≡ final = ground arith in
            subst (IsBounded host_of base_host max_fetches given) same_one b
        | inr more ↦
            let shorter : Discovery = record d { pending = rest } in
            let kept : IsBounded host_of base_host max_fetches given shorter = record {
              fetches = b.fetches;
              succeeded = b.succeeded;
              on_site = b.on_site;
              distinct = b.distinct;
              pages = b.pages;
            } in
            let after =
              take_url normalize host_of fetch parse stripped base_host max_fetches raw shorter in
            loop-IsBounded fuel after final after.pending refl (ground arith)
              (take_url-IsBounded raw shorter (ground arith) kept)
      ]

-- A search that starts with nothing visited fetches at most the allowed number of sitemaps, none twice
-- and all on the host of the website; it counts no more successes than fetches, and as many pages as
-- it adds to the candidates.
pub discover_sitemaps-IsBounded :
    (normalize host_of : Text → Option Text) (fetch : Text → Option FetchResult)
    (parse : Text → Option Document) (stripped : Text → Text) (base_host : Option Text)
    (max_fetches fuel : ℕ) (pending candidates : List Text) (final : Discovery)
    → discover_sitemaps normalize host_of fetch parse stripped base_host max_fetches fuel (record {
      pending = pending;
      visited = [];
      candidates = candidates;
      succeeded = 0;
      pages_discovered = 0;
    })
      ≡ some final
    → IsBounded host_of base_host max_fetches (length candidates) final
discover_sitemaps-IsBounded normalize host_of fetch parse stripped base_host max_fetches fuel
      pending candidates final ended =
    let begin : Discovery = record {
      pending = pending;
      visited = [];
      candidates = candidates;
      succeeded = 0;
      pages_discovered = 0;
    } in
    loop-IsBounded normalize host_of fetch parse stripped base_host max_fetches (length candidates)
      fuel begin final pending refl ended
      (record {
        fetches = omega arith;
        succeeded = omega arith;
        on_site = tt;
        distinct = tt;
        pages = omega arith;
      })
