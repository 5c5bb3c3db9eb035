-- ===== src/Fragments/Pager/Tests.antt =====
-- Runs of the paging of hub3/fragments, and the theorems at inputs that exercise the code.
use hub.Prelude.{
  ℕ, ◌≡◌, refl, Bool, true, false, if◌then◌else◌, ◌==◌, Option, none, some, List, [], ◌∷◌, Text,
  codes, ℤ, pos, negsuc, pos_part, ◌+ℤ◌, ◌-ℤ◌, ◌≤ℤ◌, wrap_int32, All, arith,
}
use hub.Fragments.Request.{TreeQuery, SearchRequest, new_tree_query, default_search_request}
use hub.Fragments.Request.Params.{Libraries}
use hub.Fragments.Filter.{equal, is_text}
use hub.Fragments.Pager.{
  pagers, sort_insert, sort_pages, max_min, previous_current_next_page, set_start, set_page,
  deep_copy, search_request_to_hex, new_search_request_scroll_page, scroll_pagers, scroll_next,
}
use hub.Fragments.Pager.Ids.{at_start}
use hub.Fragments.Pager.Window.{IsIn, previous_current_next_page_lem}

pager_run : Unit {0}
unfolding wrap_int32 ◌+ℤ◌ ◌-ℤ◌ sort_insert sort_pages max_min previous_current_next_page set_start
    set_page deep_copy search_request_to_hex new_search_request_scroll_page scroll_pagers
pager_run = tt

-- A request with a session and a tree that is a search.
abbrev delft_request : SearchRequest
delft_request = record (default_search_request (codes "session")) {
  query = codes "delft";
  tree = some (record new_tree_query { is_paging = true; is_search = true });
}

abbrev delft_at : Bool → ℕ → SearchRequest
delft_at p k = at_start delft_request 10 p k

-- A code for these requests.
abbrev encode : SearchRequest → List ℕ
encode sr = (if sr.paging then 1 else 0) ∷ pos_part sr.start ∷ []

abbrev decode : List ℕ → Option SearchRequest
decode (flag ∷ k ∷ []) = some (delft_at (flag == 1) k)
decode _ = none

abbrev hex : List ℕ → Text
hex bytes = bytes

abbrev from_hex : Text → Option (List ℕ)
from_hex s = some s

abbrev no_number : Text → Option ℤ
no_number s = none

abbrev libraries : Libraries
libraries = record {
  unmarshal = λ s. none;
  cmp_equal = equal;
  unmarshal_facet = λ s. none;
  facet_size = pos 50;
  atoi = no_number;
  atoi_value = λ s. pos 0;
  equal_fold = is_text;
  encode_after = λ key level. some level;
  request_from_hex = λ s. none;
}

-- Without hits the previous page is the request itself.
no_hits_test :
    scroll_pagers (λ sr. some (encode sr)) decode hex (delft_at false 0) (pos 0)
    ≡ pagers (record {
      previous_scroll_id = 0 ∷ 0 ∷ [];
      next_scroll_id = [];
      cursor = pos 0;
      rows = pos 10;
      total = pos 0;
    })
unfolding pager_run
no_hits_test = refl

-- Behind 2 ^ 31 the next start is below 0.
overflow_test :
    (set_start scroll_next (at_start delft_request 16 false 2147483640)).start ≡ negsuc 2147483639
unfolding pager_run
overflow_test = refl

abbrev two_pages : TreeQuery
two_pages = record new_tree_query { page = pos 0 ∷ negsuc 2 ∷ []; is_paging = true }

previous_current_next_page_example :
    (prev : ℤ) × (current : ℤ) × (next : ℤ) × (previous_current_next_page two_pages
      ≡ (prev, current, next))
    × All (λ q. (current ≤ℤ q) × (q ≤ℤ next -ℤ pos 1)) (pos 0 ∷ negsuc 2 ∷ [])
    × IsIn current (pos 0 ∷ negsuc 2 ∷ [])
    × IsIn (next -ℤ pos 1) (pos 0 ∷ negsuc 2 ∷ [])
    × (prev +ℤ pos 1 ≡ current)
previous_current_next_page_example =
    previous_current_next_page_lem two_pages (pos 0) (negsuc 2 ∷ []) refl
      ((omega arith, omega arith), ((omega arith, omega arith), tt))
