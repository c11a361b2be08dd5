-- ===== src/Web/Server.antt =====
-- The handlers of cmd/drover/web.go, and the job ids of cmd/drover/format.go.
use drover.Prelude.{
  ℕ, zero, suc, String, Bool, true, false, not, ◌&&◌, List, map, Option, none, some, str_eq,
  if◌then◌else◌, Result, ok, err, ℤ, pos, negsuc,
}
use drover.Driver.{JobRow}
use drover.Inspector.{ListJobsOpts, InspectError, err_not_found, err_invalid_transition}
use drover.Web.Query.{Values}
use drover.Web.{
  Numerals, FilterView, JobView, Flash, parse_page_filters, list_opts_from_filters, view_for_job,
  refresh_values, flash_from_query, redirect_values, refresh_seconds,
}

-- The mux's GET patterns take HEAD too.
pub data Method : Type 0 where
  reads posts others : Method

pub data Route : Type 0 where
  root : Route
  retry_route cancel_route : String → Route
  elsewhere : Route

-- `form` is r.Form, or none where ParseForm fails.
pub record Request : Type 0 where
  pub origin : String
  pub referer : String
  pub host : String
  pub query : Values
  pub form : Option Values

pub record PageData (D : Type 0) : Type 0 where
  pub stats : D
  pub jobs : List JobView
  pub filters : FilterView
  pub refresh_every : ℕ
  pub refresh_link : Values
  pub flash : Option Flash

-- A page that only tells an error by its status, a redirect to the status page with a query, or that page.
pub data Response (D : Type 0) : Type 0 where
  html : ℕ → Response D
  see_other : Values → Response D
  status_page : PageData D → Response D

pub record Calls (S D : Type 0) : Type 0 where
  pub stats : S → Result InspectError D
  pub list_jobs : Option ListJobsOpts → S → Result InspectError (List JobRow)
  pub retry : ℕ → S → S × Result InspectError JobRow
  pub cancel : ℕ → S → S × Result InspectError JobRow

-- `trim` is strings.TrimSpace.
unfoldable pub parse_job_id : Numerals → (String → String) → String → Option ℕ
parse_job_id nums trim text = elim (nums.atoi (trim text)) [
  | none ↦ none
  | some (pos zero) ↦ none
  | some (pos (suc n)) ↦ some (suc n)
  | some (negsuc n) ↦ none
]

-- `host_of` is the host of a URL, if url.Parse reads it.
unfoldable pub is_host : (String → Option String) → String → String → Bool
is_host host_of host url = elim (host_of url) [ none ↦ false | some h ↦ str_eq h host ]

unfoldable pub same_origin : (String → Option String) → Request → Bool
unfolding is_host
same_origin host_of r =
    if not (str_eq r.origin "")
    then is_host host_of r.host r.origin
    else not (str_eq r.referer "") && is_host host_of r.host r.referer

-- The error is neither of those that the redirect reports.
abbrev pub is_failure : Result InspectError JobRow → Bool
is_failure (ok row) = false
is_failure (err (err_not_found e)) = false
is_failure (err (err_invalid_transition e)) = false
is_failure (err _) = true

module _ {S D : Type 0} (nums : Numerals) (trim : String → String)
    (host_of : String → Option String) (calls : Calls S D) where
  unfoldable pub post_mutation :
      String → (ℕ → S → S × Result InspectError JobRow) → String → Request → S → S × Response D
  unfolding same_origin parse_job_id
  post_mutation notice mutate text r s =
      if not (same_origin host_of r) then (s, html 403) else elim (parse_job_id nums trim text) [
        | none ↦ (s, html 400)
        | some id ↦ elim r.form [
          | none ↦ (s, html 400)
          | some form ↦
              let out = mutate id s in
              if is_failure out.1
              then (out.0, html 500)
              else (out.0, see_other (redirect_values nums form notice out.1 (pos id)))
        ]
      ]

  unfoldable pub get_page : ℤ → Request → S → Response D
  get_page refresh r s = elim (parse_page_filters nums r.query) [
    | err e ↦ html 400
    | ok filters ↦ elim (calls.stats s) [
      | err e ↦ html 500
      | ok stats ↦ elim (calls.list_jobs (some (list_opts_from_filters filters)) s) [
        | err e ↦ html 500
        | ok rows ↦ status_page (record {
          stats = stats;
          jobs = map view_for_job rows;
          filters = filters;
          refresh_every = refresh_seconds refresh;
          refresh_link = refresh_values nums filters;
          flash = flash_from_query nums r.query;
        })
      ]
    ]
  ]

  -- The mux of newStatusHandler.
  unfoldable pub serve : ℤ → Method → Route → Request → S → S × Response D
  unfolding post_mutation get_page
  serve refresh reads root r s = (s, get_page refresh r s)
  serve refresh reads (retry_route text) r s = (s, html 405)
  serve refresh reads (cancel_route text) r s = (s, html 405)
  serve refresh posts (retry_route text) r s = post_mutation "retried" calls.retry text r s
  serve refresh posts (cancel_route text) r s = post_mutation "cancelled" calls.cancel text r s
  serve refresh method route r s = (s, html 404)
