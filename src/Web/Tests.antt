-- ===== src/Web/Tests.antt =====
-- Requests to the status page over memdriver, with numbers written as tallies and links left as they are.
use drover.Prelude.{
  ℕ, zero, suc, String, ◌≡◌, ◌⊎◌, refl, [], ◌∷◌, Option, none, some, ok, ℤ, pos, negsuc, arith, ◌<◌,
  ◌≢◌, ltb, if◌then◌else◌, str_eq, ap,
}
use drover.Driver.{dead}
use drover.Inspector.{inspect_list, retry_job, cancel_job}
use drover.MemDriver.Sample.{sample, job}
use drover.MemDriver.Rows.{Store, find_row}
use drover.MemDriver.Read.{list_jobs}
use drover.MemDriver.Operator.{redrive_dead, operator_cancel}
use drover.Web.Query.{Values}
use drover.Web.{Numerals, FilterView, parse_page_filters, refresh_values, view_for_job}
use drover.Web.Filters.{ReadsBack, refresh-parse}
use drover.Web.Server.{Calls, Request, posts, retry_route, serve}
use drover.Web.Serving.{Act, act_of, Barred, Acted, serve-Acted}
use drover.Web.Buttons.{undisturbed, succeeds, view_for_job-succeeds}

tally : ℕ → String
tally zero = String.◌∷◌ "1" String.[]
tally (suc n) = String.◌∷◌ "1" (tally n)

marks : String → ℕ
marks String.[] = 0
marks (String.◌∷◌ c s) = suc (marks s)

read_tally : String → Option ℤ
unfolding marks
read_tally String.[] = none
read_tally (String.◌∷◌ c s) =
    if ltb (marks s) 9_223_372_036_854_775_808 then some (pos (marks s)) else none

write_tally : ℤ → String
unfolding tally
write_tally (pos n) = tally n
write_tally (negsuc n) = ""

abbrev tallies : Numerals
tallies = record { itoa = write_tally; atoi = read_tally }

marks-tally : (n : ℕ) → marks (tally n) ≡ suc n
unfolding marks tally
marks-tally zero = refl
marks-tally (suc n) = ap suc (marks-tally n)

read-write :
    (n : ℕ) → n < 9_223_372_036_854_775_808 → read_tally (write_tally (pos n)) ≡ some (pos n)
unfolding read_tally write_tally
read-write zero small = refl
read-write (suc n) small = ground (arith, marks-tally n)

written : (n : ℕ) → write_tally (pos n) ≢ ""
unfolding write_tally
written zero e = cc
written (suc n) e = cc

in_range : (text : String) (n : ℕ) → read_tally text ≡ some (pos n) → n < 9_223_372_036_854_775_808
unfolding read_tally
in_range String.[] n e = absurd (ground arith)
in_range (String.◌∷◌ c s) n e = ground arith

tallies-ReadsBack : ReadsBack tallies
tallies-ReadsBack = record {
  atoi-itoa = read-write;
  written = λ n small. written n;
  in_range = in_range;
}

abbrev asked : Values
asked = ("state", "all") ∷ ("limit", "111") ∷ []

abbrev shown : FilterView
shown = record { queue = ""; state = "all"; limit = pos 2 }

asked_filters : parse_page_filters tallies asked ≡ ok shown
unfolding parse_page_filters read_tally marks
asked_filters = refl

refresh-parse_example : parse_page_filters tallies (refresh_values tallies shown) ≡ ok shown
refresh-parse_example =
    refresh-parse tallies (λ v. v) (λ v. v) asked shown tallies-ReadsBack (λ key v. refl)
      asked_filters

abbrev over_memdriver : Calls Store ℕ
over_memdriver = record {
  stats = λ s. ok 0;
  list_jobs = inspect_list list_jobs;
  retry = retry_job (redrive_dead 70 undisturbed undisturbed);
  cancel = cancel_job (operator_cancel 70 undisturbed undisturbed);
}

abbrev trim : String → String
trim text = text

abbrev host_of : String → Option String
host_of url = if str_eq url "http://drover" then some "drover" else none

-- The form of the retry button of job 3.
abbrev clicked : Request
clicked = record {
  origin = "http://drover";
  referer = "";
  host = "drover";
  query = [];
  form = some asked;
}

serve-Acted_example :
    let out =
      serve tallies trim host_of over_memdriver (pos 0) posts (retry_route "1111") clicked sample in
    ((out.0 ≡ sample) × (act_of posts (retry_route "1111") ≡ none))
    ⊎ ((a : Act) × (text : String) × (act_of posts (retry_route "1111") ≡ some (a, text))
        × (((out.0 ≡ sample)
              × Barred tallies trim host_of over_memdriver (λ v. v) (λ v. v) text clicked)
            ⊎ Acted tallies trim host_of over_memdriver
                (λ v. v)
                (λ v. v)
                a
                text
                clicked
                sample
                out))
serve-Acted_example =
    serve-Acted tallies trim host_of over_memdriver (λ v. v) (λ v. v) tallies-ReadsBack
      (λ key v. refl) (pos 0) posts (retry_route "1111") clicked sample

view_for_job-succeeds_example :
    let r = job 3 dead 25 none (some 50) "k" in
    (succeeds (retry_job (redrive_dead 70 undisturbed undisturbed) r.id sample).1
      ≡ (view_for_job r).can_retry)
    × (succeeds (cancel_job (operator_cancel 70 undisturbed undisturbed) r.id sample).1
        ≡ (view_for_job r).can_cancel)
unfolding find_row
view_for_job-succeeds_example =
    view_for_job-succeeds 70 (job 3 dead 25 none (some 50) "k") sample refl
