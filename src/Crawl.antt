-- ===== src/Crawl.antt =====
-- app/modules/products/services/website_crawl_service.py, `_discover_sitemaps`: the sitemaps of a
-- website, and the sitemaps that these name.
pub mod Shape
pub mod Ends
pub mod Bounds
use shiptawk_be.Prelude.{
  ℕ, zero, suc, Bool, true, false, not, ◌+◌, ◌&&◌, ◌||◌, Option, none, some, List, [], ◌∷◌, ◌++◌,
  length, any, leb, ◌==◌, if◌then◌else◌,
}
use shiptawk_be.Text.{Text, same_text, same_opt_text}

-- What the loop changes. The visited URLs are a set, kept as the list of its members.
pub record Discovery : Type 0 where
  pub pending : List Text
  pub visited : List Text
  pub candidates : List Text
  pub succeeded : ℕ
  pub pages_discovered : ℕ

pub record FetchResult : Type 0 where
  pub status_code : ℕ
  pub content_type : Text
  pub body : Text

-- A parsed document: the tag of its root, and its elements with their texts.
pub record Document : Type 0 where
  pub tag : Text
  pub elements : List (Text × Option Text)

abbrev pub has_brace : Text → Bool
has_brace [] = false
has_brace (c ∷ cs) = c == 125 || has_brace cs

-- `tag.rsplit("}", 1)[-1]`
unfoldable pub local_name : Text → Text
local_name [] = []
local_name (c ∷ cs) =
    let rest = local_name cs in if has_brace cs then rest else if c == 125 then cs else c ∷ cs

abbrev pub loc_name : Text
loc_name = b'l' ∷ b'o' ∷ b'c' ∷ []

abbrev pub index_name : Text
index_name = b's' ∷ b'i' ∷ b't' ∷ b'e' ∷ b'm' ∷ b'a' ∷ b'p' ∷ b'i' ∷ b'n' ∷ b'd' ∷ b'e' ∷ b'x' ∷ []

abbrev pub application_xml : Text
application_xml =
    b'a' ∷ b'p' ∷ b'p' ∷ b'l' ∷ b'i' ∷ b'c' ∷ b'a' ∷ b't' ∷ b'i' ∷ b'o' ∷ b'n' ∷ b'/' ∷ b'x' ∷ b'm'
    ∷ b'l' ∷ []

abbrev pub text_xml : Text
text_xml = b't' ∷ b'e' ∷ b'x' ∷ b't' ∷ b'/' ∷ b'x' ∷ b'm' ∷ b'l' ∷ []

abbrev pub is_xml : Text → Bool
is_xml content_type = same_text content_type application_xml || same_text content_type text_xml

abbrev pub is_empty_text : Text → Bool
is_empty_text [] = true
is_empty_text (c ∷ cs) = false

-- What the locations of a document are added to: an index names sitemaps, others name pages.
abbrev pub add_locations : Bool → List Text → Discovery → Discovery
add_locations true locations d = record d {
  succeeded = d.succeeded + 1;
  pending = d.pending ++ locations;
}
add_locations false locations d = record d {
  succeeded = d.succeeded + 1;
  candidates = d.candidates ++ locations;
  pages_discovered = d.pages_discovered + length locations;
}

-- `normalize_website_url`, where `none` is a `ValueError`; the host of `urlsplit`; the provider, where
-- `none` is a `WebsiteFetchError`; the XML parser, where `none` is a `ParseError`; and `str.strip`. A
-- URL is fetched at most once, so the provider is a function of it.
module _ (normalize : Text → Option Text) (host_of : Text → Option Text)
    (fetch : Text → Option FetchResult) (parse : Text → Option Document) (stripped : Text → Text)
    (base_host : Option Text) (max_fetches : ℕ) where
  -- `locations`
  unfoldable pub locations_of : List (Text × Option Text) → List Text
  unfolding local_name
  locations_of [] = []
  locations_of ((tag, none) ∷ rest) = locations_of rest
  locations_of ((tag, some t) ∷ rest) =
      let others = locations_of rest in
      if same_text (local_name tag) loc_name
        && not (is_empty_text t)
        && not (is_empty_text (stripped t))
      then stripped t ∷ others
      else others

  -- The document that a fetch brings, if it brings one.
  unfoldable pub document_at : Text → Option Document
  document_at url = elim (fetch url) [
    | none ↦ none
    | some r ↦ if leb 400 r.status_code || not (is_xml r.content_type) then none else parse r.body
  ]

  -- A URL that is taken from the queue and not skipped.
  unfoldable pub visit : Text → Discovery → Discovery
  unfolding document_at locations_of local_name
  visit url d =
      let visited = record d { visited = url ∷ d.visited } in
      elim (document_at url) [
        | none ↦ visited
        | some root ↦
            add_locations (same_text (local_name root.tag) index_name) (locations_of root.elements)
              visited
      ]

  abbrev pub is_skipped : Text → Discovery → Bool
  is_skipped url d = any (same_text url) d.visited || not (same_opt_text (host_of url) base_host)

  -- The body of the loop, for the first URL of the queue.
  unfoldable pub take_url : Text → Discovery → Discovery
  unfolding visit
  take_url raw d = elim (normalize raw) [
    | none ↦ d
    | some url ↦ if is_skipped url d then d else visit url d
  ]

  -- `while pending and len(visited) < max_fetches`. Fuel bounds the turns of the loop.
  unfoldable pub discover_sitemaps : ℕ → Discovery → Option Discovery
  unfolding take_url
  discover_sitemaps zero d = none
  discover_sitemaps (suc fuel) d = elim d.pending [
    | [] ↦ some d
    | raw ∷ rest ↦
        if leb max_fetches (length d.visited)
        then some d
        else discover_sitemaps fuel (take_url raw (record d { pending = rest }))
  ]
