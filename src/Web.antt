-- ===== src/Web.antt =====
-- cmd/drover/web.go: the status page and its two forms, over an inspector's calls. The patterns of the mux
-- are the constructors of Route. strconv, url.Parse, Encode and Query are parameters; the texts of error
-- pages, headers and the template are left out.
pub mod Query
pub mod Filters
pub mod Server
pub mod Flashes
pub mod Serving
pub mod Buttons
mod Tests
use drover.Prelude.{
  ℕ, ◌/◌, String, Bool, true, false, ◌&&◌, ◌||◌, not, List, [], ◌∷◌, map, Option, none, some,
  str_eq, if◌then◌else◌, Result, ok, err, ℤ, pos, leb_ℤ, ltb_ℤ,
}
use drover.Driver.{
  JobState, available, scheduled, running, retryable, completed, cancelled, dead, state_text,
  JobRow,
}
use drover.Inspector.{ListJobsOpts, InspectError, err_not_found, err_invalid_transition}
use drover.Web.Query.{Values, get, set, set_if}

-- droverDefaultListLimit.
abbrev pub web_list_limit : ℕ
web_list_limit = 100

abbrev pub known_job_states : List String
known_job_states =
    map state_text (available ∷ scheduled ∷ running ∷ retryable ∷ completed ∷ cancelled ∷ dead ∷ [])

unfoldable pub is_known : String → List String → Bool
is_known text [] = false
is_known text (s ∷ ss) = str_eq s text || is_known text ss

pub record FilterView : Type 0 where
  pub queue : String
  pub state : String
  pub limit : ℤ

pub data FilterError : Type 0 where
  limit_out_of_range : FilterError
  invalid_state : String → FilterError

pub record JobView : Type 0 where
  pub row : JobRow
  pub can_retry : Bool
  pub can_cancel : Bool

-- A flash's text with its kind, by the job's id.
pub data Flash : Type 0 where
  redrove cancelled_job was_not_found refused : ℤ → Flash

-- The texts of numbers: strconv's Itoa and FormatInt, Atoi, and ParseInt in base 10.
pub record Numerals : Type 0 where
  pub itoa : ℤ → String
  pub atoi : String → Option ℤ

unfoldable pub parse_limit : Numerals → String → Result FilterError ℤ
parse_limit nums text = if str_eq text "" then ok (pos web_list_limit) else elim (nums.atoi text) [
  | none ↦ err limit_out_of_range
  | some n ↦ if ltb_ℤ n (pos 1) || ltb_ℤ (pos 1000) n then err limit_out_of_range else ok n
]

-- The filters, by the texts of the queue, the state and the limit.
unfoldable pub filters_of : Numerals → String → String → String → Result FilterError FilterView
unfolding parse_limit is_known
filters_of nums queue state limit =
    let chosen = if str_eq state "" then state_text dead else state in
    elim (parse_limit nums limit) [
      | err e ↦ err e
      | ok n ↦
          if not (str_eq chosen "all") && not (is_known chosen known_job_states)
          then err (invalid_state chosen)
          else ok (record { queue = queue; state = chosen; limit = n })
    ]

unfoldable pub parse_page_filters : Numerals → Values → Result FilterError FilterView
unfolding filters_of get
parse_page_filters nums q = filters_of nums (get "queue" q) (get "state" q) (get "limit" q)

unfoldable pub list_opts_from_filters : FilterView → ListJobsOpts
list_opts_from_filters f = record {
  queue = f.queue;
  state = if str_eq f.state "all" then "" else f.state;
  limit = f.limit;
}

abbrev pub is_dead_state : JobState → Bool
is_dead_state dead = true
is_dead_state _ = false

abbrev pub cancellable_state : JobState → Bool
cancellable_state available = true
cancellable_state scheduled = true
cancellable_state retryable = true
cancellable_state dead = true
cancellable_state _ = false

unfoldable pub view_for_job : JobRow → JobView
view_for_job row = record {
  row = row;
  can_retry = is_dead_state row.state;
  can_cancel = cancellable_state row.state;
}

-- What refreshURL puts into the query.
unfoldable pub refresh_values : Numerals → FilterView → Values
unfolding set_if
refresh_values nums f =
    let is_default = leb_ℤ f.limit (pos web_list_limit) && leb_ℤ (pos web_list_limit) f.limit in
    set_if (not is_default) "limit" (nums.itoa f.limit) (
      set_if (not (str_eq f.state "") && not (str_eq f.state (state_text dead))) "state" f.state
        (set_if (not (str_eq f.queue "")) "queue" f.queue []))

unfoldable pub flash_from_query : Numerals → Values → Option Flash
unfolding get
flash_from_query nums q = elim (nums.atoi (get "id" q)) [
  | none ↦ none
  | some id ↦
      if leb_ℤ id (pos 0)
      then none
      else if str_eq (get "notice" q) "retried"
      then some (redrove id)
      else if str_eq (get "notice" q) "cancelled"
      then some (cancelled_job id)
      else if str_eq (get "error" q) "not_found"
      then some (was_not_found id)
      else if str_eq (get "error" q) "invalid_transition"
      then some (refused id)
      else none
]

-- One field of the form, copied where it has a text.
unfoldable pub copy_field : String → Values → Values → Values
unfolding get set_if
copy_field key form v = set_if (not (str_eq (get key form) "")) key (get key form) v

-- What mutationRedirect puts into the query.
unfoldable pub redirect_values :
    Numerals → Values → String → Result InspectError JobRow → ℤ → Values
unfolding copy_field set
redirect_values nums form notice answer id =
    let v : Values = [] in
    let fields = copy_field "limit" form (copy_field "state" form (copy_field "queue" form v)) in
    let named = set "id" (nums.itoa id) fields in
    elim answer [
      | ok row ↦ set "notice" notice named
      | err (err_not_found e) ↦ set "error" "not_found" named
      | err (err_invalid_transition e) ↦ set "error" "invalid_transition" named
      | err other ↦ named
    ]

unfoldable pub refresh_seconds : ℤ → ℕ
refresh_seconds (pos d) = d / 1_000_000_000
refresh_seconds d = 0
