-- ===== src/Targets/Tests.antt =====
-- The theorems of Targets at a concrete list of targets.
use deepwork_browser.Prelude.{codes, List, [], ◌∷◌, none, some, ◌≡◌, refl, trim_space}
use deepwork_browser.Targets.Select.{Target, url_origin}
use Prim.Native.String.{String}

abbrev page : String → String → Target
page id url = record {
  web_socket_debugger_url = none;
  id = some (codes id);
  url = some (codes url);
  type = some (codes "page");
}

abbrev open_pages : List Target
open_pages = page "1" "about:blank" ∷ page "2" "https://a.org/x/" ∷ page "3" "https://b.org/" ∷ []

origin_of_path : url_origin (codes " https://a.org/x/y ") ≡ codes "https://a.org"
unfolding url_origin trim_space
origin_of_path = refl
