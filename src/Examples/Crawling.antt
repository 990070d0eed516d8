-- ===== src/Examples/Crawling.antt =====
-- Two sitemap indexes that name each other.
use shiptawk_be.Prelude.{◌≡◌, refl, Bool, Option, some, [], ◌∷◌, any, ◌==◌, if◌then◌else◌}
use shiptawk_be.Text.{Text}
use shiptawk_be.Crawl.{
  Discovery, FetchResult, Document, application_xml, index_name, loc_name, local_name, locations_of,
  document_at, visit, take_url, discover_sitemaps,
}
use shiptawk_be.Crawl.Ends.{Ends, discover_sitemaps-Ends}
use shiptawk_be.Crawl.Bounds.{IsBounded, discover_sitemaps-IsBounded}

abbrev left : Text
left = b'l' ∷ []

abbrev right : Text
right = b'r' ∷ []

abbrev as_given : Text → Option Text
as_given t = some t

abbrev site : Text → Option Text
site t = some left

abbrev serve : Text → Option FetchResult
serve url = some (record { status_code = 200; content_type = application_xml; body = url })

abbrev is_left : Text → Bool
is_left t = any (λ c. c == b'l') t

-- The index at each URL names the other URL.
abbrev read : Text → Option Document
read body = some (record {
  tag = index_name;
  elements = (loc_name, some (if is_left body then right else left)) ∷ [];
})

abbrev plain : Text → Text
plain t = t

abbrev begin : Discovery
begin = record {
  pending = left ∷ [];
  visited = [];
  candidates = [];
  succeeded = 0;
  pages_discovered = 0;
}

abbrev final : Discovery
final = record {
  pending = [];
  visited = right ∷ left ∷ [];
  candidates = [];
  succeeded = 2;
  pages_discovered = 0;
}

found : discover_sitemaps as_given site serve read plain (some left) 9 4 begin ≡ some final
unfolding discover_sitemaps take_url visit document_at locations_of local_name
found = refl

discover_sitemaps-Ends_example : Ends as_given site serve read plain (some left) 9 begin
discover_sitemaps-Ends_example =
    discover_sitemaps-Ends as_given site serve read plain (some left) 9 begin

discover_sitemaps-IsBounded_example : IsBounded site (some left) 9 0 final
discover_sitemaps-IsBounded_example =
    discover_sitemaps-IsBounded as_given site serve read plain (some left) 9 4 (left ∷ []) [] final
      found
