-- ===== src/Fragments/BreadCrumb.antt =====
-- hub3/fragments/api.go: the trail of bread crumbs of a search.
pub mod Trail
use hub.Prelude.{
  ℕ, Bool, true, false, ◌||◌, Option, none, some, List, [], ◌∷◌, ◌++◌, Text, codes, if◌then◌else◌,
  is_blank, has_suffix, join,
}
use hub.Fragments.Filter.{QueryFilter, empty_filter, is_text}

pub record BreadCrumb : Type 0 where
  pub href : Text
  pub display : Text
  pub field : Text
  pub value : Text
  pub is_last : Bool

pub record BreadCrumbBuilder : Type 0 where
  pub href_path : List Text
  pub crumbs : List BreadCrumb

abbrev pub new_bread_crumb : BreadCrumb
new_bread_crumb = record { href = []; display = []; field = []; value = []; is_last = true }

abbrev pub ampersand : Text
ampersand = codes "&"

unfoldable pub get_path : List Text → Text
get_path href_path = join href_path ampersand

abbrev pub with_brackets : Text → Text
with_brackets param = if has_suffix param (codes "[]") then param else param ++ codes "[]"

-- `if bcb.GetPath() != "" { bc.Href = bcb.GetPath() + "&" + bc.Href }`
abbrev pub behind_path : Text → Text → Text
behind_path path href = if is_blank path then href else path ++ (ampersand ++ href)

abbrev pub is_filter_param : Text → Bool
is_filter_param param =
    is_text param (codes "qf[]")
    || is_text param (codes "qf")
    || is_text param (codes "qf.id")
    || is_text param (codes "qf.id[]")

abbrev pub is_exist_param : Text → Bool
is_exist_param param = is_text param (codes "qf.exist[]") || is_text param (codes "qf.exist")

-- A crumb for a filter and the path with it, given what is shown.
abbrev pub filter_crumb : Text → QueryFilter → Text → Text → List Text → BreadCrumb × List Text
filter_crumb param qf qfs value path =
    let href = with_brackets param ++ (b'=' ∷ qfs) in
    (
      record {
        href = behind_path (get_path path) href;
        display = qfs;
        field = qf.search_label;
        value = value;
        is_last = true;
      },
      path ++ href ∷ [],
    )

abbrev pub query_crumb : QueryFilter → List Text → BreadCrumb × List Text
query_crumb qf path = if is_blank qf.value then (new_bread_crumb, path) else (
  record new_bread_crumb { href = codes "q=" ++ qf.value; display = qf.value; value = qf.value },
  path ++ (codes "q=" ++ qf.value) ∷ [],
)

-- `label:value`, with a minus for an excluding filter.
abbrev pub filter_text : QueryFilter → Text
filter_text qf =
    if qf.exclude
    then b'-' ∷ qf.search_label ++ b':' ∷ qf.value
    else qf.search_label ++ b':' ∷ qf.value

-- The switch on the parameter.
unfoldable pub make_crumb : Text → QueryFilter → List Text → BreadCrumb × List Text
make_crumb param qf path =
    if is_text param (codes "query")
    then query_crumb qf path
    else if is_filter_param param
    then filter_crumb param qf (filter_text qf) qf.value path
    else if is_exist_param param
    then filter_crumb param qf qf.search_label [] path
    else (new_bread_crumb, path)

-- The last crumb is not the last one any more.
unfoldable pub unset_last : List BreadCrumb → List BreadCrumb
unset_last [] = []
unset_last (bc ∷ []) = record bc { is_last = false } ∷ []
unset_last (bc ∷ next ∷ rest) = bc ∷ unset_last (next ∷ rest)

unfoldable pub append_bread_crumb : Text → QueryFilter → BreadCrumbBuilder → BreadCrumbBuilder
append_bread_crumb param qf bcb =
    let (bc, path) = make_crumb param qf bcb.href_path in
    record { href_path = path; crumbs = unset_last bcb.crumbs ++ bc ∷ [] }

unfoldable pub get_last : List BreadCrumb → Option BreadCrumb
get_last [] = none
get_last (bc ∷ []) = some bc
get_last (bc ∷ next ∷ rest) = get_last (next ∷ rest)

abbrev pub field_key : QueryFilter → Text
field_key qf =
    if qf.exists then codes "qf.exist[]" else if qf.id then codes "qf.id[]" else codes "qf[]"

-- The loop over the filters.
unfoldable pub append_filters : List QueryFilter → BreadCrumbBuilder → BreadCrumbBuilder
append_filters [] bcb = bcb
append_filters (qf ∷ filters) bcb =
    append_filters filters (append_bread_crumb (field_key qf) qf bcb)

-- `NewUserQuery`
unfoldable pub new_user_query : Text → List QueryFilter → BreadCrumbBuilder
new_user_query query filters =
    let bcb : BreadCrumbBuilder = record { href_path = []; crumbs = [] } in
    append_filters filters (
      if is_blank query
      then bcb
      else append_bread_crumb (codes "query") (record empty_filter { value = query }) bcb)
