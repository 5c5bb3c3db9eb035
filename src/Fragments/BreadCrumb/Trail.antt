-- ===== src/Fragments/BreadCrumb/Trail.antt =====
-- hub3/fragments/api.go: the trail that `NewUserQuery` builds.
use mathlib.Core.List.{append_assoc, append-nil}
use hub.Prelude.{
  ℕ, ◌≡◌, refl, Bool, true, false, ◌&&◌, not, List, [], ◌∷◌, ◌++◌, map, Text, codes, text_discrete,
  ℕ_discrete, if◌then◌else◌, is_blank, has_prefix, has_suffix, join, arith, ap, ◌∙◌, sym,
}
use hub.Fragments.Filter.{QueryFilter, empty_filter}
use hub.Fragments.BreadCrumb.{
  BreadCrumb, BreadCrumbBuilder, ampersand, get_path, behind_path, filter_text, make_crumb,
  unset_last, append_bread_crumb, field_key, append_filters, new_user_query,
}

-- The path behind some steps.
abbrev walk : Text → List Text → Text
walk path [] = path
walk path (x ∷ xs) = walk (behind_path path x) xs

-- The paths behind each of the steps.
abbrev pub trail : Text → List Text → List Text
trail path [] = []
trail path (x ∷ xs) = behind_path path x ∷ trail (behind_path path x) xs

-- Only the last of so many is the last.
abbrev pub last_flags : List Text → List Bool
last_flags [] = []
last_flags (x ∷ []) = true ∷ []
last_flags (x ∷ y ∷ xs) = false ∷ last_flags (y ∷ xs)

abbrev all_filled : List Text → Bool
all_filled [] = true
all_filled (x ∷ xs) = not (is_blank x) && all_filled xs

abbrev hrefs : List BreadCrumb → List Text
hrefs crumbs = map (λ bc. bc.href) crumbs

abbrev lasts : List BreadCrumb → List Bool
lasts crumbs = map (λ bc. bc.is_last) crumbs

abbrev pub filter_step : QueryFilter → Text
filter_step qf = field_key qf ++ b'=' ∷ (if qf.exists then qf.search_label else filter_text qf)

-- The steps of a search: the query, if there is one, and the filters.
abbrev pub steps : Text → List QueryFilter → List Text
steps query filters =
    if is_blank query
    then map filter_step filters
    else (codes "q=" ++ query) ∷ map filter_step filters

join-merge :
    (p sep y : Text) (rest : List Text)
    → join ((p ++ (sep ++ y)) ∷ rest) sep ≡ p ++ (sep ++ join (y ∷ rest) sep)
unfolding join
join-merge p sep y [] = refl
join-merge p sep y (z ∷ rest) =
    let tail = sep ++ join (z ∷ rest) sep in
    append_assoc p (sep ++ y) tail ∙ ap (λ t. p ++ t) (append_assoc sep y tail)

join-walk : (p : Text) (xs : List Text) → is_blank p ≡ false → join (p ∷ xs) ampersand ≡ walk p xs
unfolding join
join-walk p [] h = refl
join-walk [] (y ∷ rest) h = ground arith
join-walk (c ∷ p) (y ∷ rest) h =
    sym (join-merge (c ∷ p) ampersand y rest) ∙ join-walk ((c ∷ p) ++ (ampersand ++ y)) rest refl

get_path-walk : (xs : List Text) → all_filled xs ≡ true → get_path xs ≡ walk [] xs
unfolding get_path
get_path-walk [] h = unfold join in refl
get_path-walk (x ∷ xs) h = join-walk x xs (ground arith)

trail-append :
    (p : Text) (xs : List Text) (x : Text)
    → trail p (xs ++ x ∷ []) ≡ trail p xs ++ behind_path (walk p xs) x ∷ []
trail-append p [] x = refl
trail-append p (y ∷ xs) x = ap (λ t. behind_path p y ∷ t) (trail-append (behind_path p y) xs x)

record IsTrail (bcb : BreadCrumbBuilder) : Type 0 where
  filled : all_filled bcb.href_path ≡ true
  paths : hrefs bcb.crumbs ≡ trail [] bcb.href_path
  flags : lasts bcb.crumbs ≡ last_flags bcb.href_path

hrefs-append :
    (cs : List BreadCrumb) (bc : BreadCrumb)
    → hrefs (unset_last cs ++ bc ∷ []) ≡ hrefs cs ++ bc.href ∷ []
unfolding unset_last
hrefs-append [] bc = refl
hrefs-append (c ∷ []) bc = refl
hrefs-append (c ∷ d ∷ cs) bc = ap (λ t. c.href ∷ t) (hrefs-append (d ∷ cs) bc)

abbrev unset_flags : List Bool → List Bool
unset_flags [] = []
unset_flags (b ∷ []) = false ∷ []
unset_flags (b ∷ c ∷ bs) = b ∷ unset_flags (c ∷ bs)

lasts-append :
    (cs : List BreadCrumb) (bc : BreadCrumb)
    → lasts (unset_last cs ++ bc ∷ []) ≡ unset_flags (lasts cs) ++ bc.is_last ∷ []
unfolding unset_last
lasts-append [] bc = refl
lasts-append (c ∷ []) bc = refl
lasts-append (c ∷ d ∷ cs) bc = ap (λ t. c.is_last ∷ t) (lasts-append (d ∷ cs) bc)

last_flags-append :
    (xs : List Text) (x : Text)
    → unset_flags (last_flags xs) ++ true ∷ [] ≡ last_flags (xs ++ x ∷ [])
last_flags-append [] x = refl
last_flags-append (y ∷ []) x = refl
last_flags-append (y ∷ z ∷ []) x = refl
last_flags-append (y ∷ z ∷ w ∷ xs) x = ap (λ t. false ∷ t) (last_flags-append (z ∷ w ∷ xs) x)

all_filled-append :
    (xs : List Text) (x : Text)
    → all_filled xs ≡ true
    → is_blank x ≡ false
    → all_filled (xs ++ x ∷ []) ≡ true
all_filled-append [] x h n = ground arith
all_filled-append (y ∷ xs) x h n = ground (arith, all_filled-append xs x)

-- A crumb that leads to a further step.
abbrev LeadsTo : List Text → Text → BreadCrumb × List Text → Type 0
LeadsTo path x r =
    (r.0.href ≡ behind_path (get_path path) x) × (r.0.is_last ≡ true) × (r.1 ≡ path ++ x ∷ [])

append-IsTrail :
    (param : Text) (qf : QueryFilter) (bcb : BreadCrumbBuilder) (x : Text)
    → is_blank x ≡ false
    → LeadsTo bcb.href_path x (make_crumb param qf bcb.href_path)
    → IsTrail bcb
    → IsTrail (append_bread_crumb param qf bcb)
      × ((append_bread_crumb param qf bcb).href_path ≡ bcb.href_path ++ x ∷ [])
unfolding append_bread_crumb
append-IsTrail param qf bcb x n l t = (
  record {
    filled = rw (l.2) (all_filled-append bcb.href_path x t.filled n);
    paths =
        rw
          (
            hrefs-append bcb.crumbs (make_crumb param qf bcb.href_path).0,
            l.0,
            l.2,
            trail-append [] bcb.href_path x,
            t.paths,
            get_path-walk bcb.href_path t.filled,
          )
          refl;
    flags =
        rw (lasts-append bcb.crumbs (make_crumb param qf bcb.href_path).0, l.1, l.2, t.flags)
          (last_flags-append bcb.href_path x);
  },
  l.2,
)

abbrev key : Bool → Bool → Text
key exists id = if exists then codes "qf.exist[]" else if id then codes "qf.id[]" else codes "qf[]"

filter-LeadsTo :
    (exists id : Bool) (qf : QueryFilter) (path : List Text)
    → LeadsTo path
        (key exists id ++ b'=' ∷ (if exists then qf.search_label else filter_text qf))
        (make_crumb (key exists id) qf path)
unfolding make_crumb text_discrete ℕ_discrete has_suffix has_prefix
filter-LeadsTo true id qf path = (refl, refl, refl)
filter-LeadsTo false true qf path = (refl, refl, refl)
filter-LeadsTo false false qf path = (refl, refl, refl)

filter_step-filled : (exists id : Bool) (rest : Text) → is_blank (key exists id ++ rest) ≡ false
filter_step-filled true id rest = refl
filter_step-filled false true rest = refl
filter_step-filled false false rest = refl

append_filters-IsTrail :
    (filters : List QueryFilter) (bcb : BreadCrumbBuilder)
    → IsTrail bcb
    → IsTrail (append_filters filters bcb)
      × ((append_filters filters bcb).href_path ≡ bcb.href_path ++ map filter_step filters)
unfolding append_filters
append_filters-IsTrail [] bcb t = (t, sym (append-nil bcb.href_path))
append_filters-IsTrail (qf ∷ filters) bcb t =
    let (t', e) =
      append-IsTrail (field_key qf) qf bcb (filter_step qf)
        (filter_step-filled qf.exists qf.id
          (b'=' ∷ (if qf.exists then qf.search_label else filter_text qf)))
        (filter-LeadsTo qf.exists qf.id qf bcb.href_path) t in
    let (u, f) = append_filters-IsTrail filters (append_bread_crumb (field_key qf) qf bcb) t' in
    (
      u,
      f
          ∙ ap (λ p. p ++ map filter_step filters) e
          ∙ append_assoc bcb.href_path (filter_step qf ∷ []) (map filter_step filters),
    )

query-LeadsTo :
    (c : ℕ) (query : Text) (path : List Text)
    → LeadsTo []
        (codes "q=" ++ c ∷ query)
        (make_crumb (codes "query") (record empty_filter { value = c ∷ query }) [])
unfolding make_crumb text_discrete ℕ_discrete get_path join
query-LeadsTo c query path = (refl, refl, refl)

no_crumbs-IsTrail : IsTrail (record { href_path = []; crumbs = [] })
no_crumbs-IsTrail = record { filled = refl; paths = refl; flags = refl }

-- What `NewUserQuery` builds for the steps of a search.
abbrev pub IsTrailOf : List Text → BreadCrumbBuilder → Type 0
IsTrailOf xs bcb =
    (bcb.href_path ≡ xs)
    × (map (λ bc. bc.href) bcb.crumbs ≡ trail [] xs)
    × (map (λ bc. bc.is_last) bcb.crumbs ≡ last_flags xs)

IsTrail-IsTrailOf :
    (xs : List Text) (bcb : BreadCrumbBuilder) → IsTrail bcb → bcb.href_path ≡ xs → IsTrailOf xs bcb
IsTrail-IsTrailOf xs bcb t e = (e, t.paths ∙ ap (trail []) e, t.flags ∙ ap last_flags e)

-- `NewUserQuery` has a crumb for the query, if there is one, and for each filter, in their order: each
-- crumb leads to the steps up to its own, joined by `&`, the path is that of all steps, and only the last
-- crumb is marked as the last.
pub new_user_query-IsTrailOf :
    (query : Text) (filters : List QueryFilter)
    → IsTrailOf (steps query filters) (new_user_query query filters)
unfolding new_user_query
new_user_query-IsTrailOf [] filters =
    let (t, e) =
      append_filters-IsTrail filters (record { href_path = []; crumbs = [] }) no_crumbs-IsTrail in
    IsTrail-IsTrailOf (map filter_step filters) (new_user_query [] filters) t e
new_user_query-IsTrailOf (c ∷ query) filters =
    let bcb : BreadCrumbBuilder = record { href_path = []; crumbs = [] } in
    let qf : QueryFilter = record empty_filter { value = c ∷ query } in
    let (t, e) =
      append-IsTrail (codes "query") qf bcb (codes "q=" ++ c ∷ query) refl
        (query-LeadsTo c query []) no_crumbs-IsTrail in
    let (u, f) = append_filters-IsTrail filters (append_bread_crumb (codes "query") qf bcb) t in
    IsTrail-IsTrailOf (steps (c ∷ query) filters) (new_user_query (c ∷ query) filters) u
      (f ∙ ap (λ p. p ++ map filter_step filters) e)
