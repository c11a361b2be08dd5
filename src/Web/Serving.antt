-- ===== src/Web/Serving.antt =====
-- What a request to the status page does, and what the page then says about it.
use drover.Prelude.{
  ℕ, zero, suc, String, true, false, str_eq, eq_iff, ◌≡◌, ◌≢◌, refl, sym, ap, ◌∙◌, ◌<◌, ◌⊎◌, inl,
  inr, arith, Option, none, some, Result, ℤ, pos, negsuc, Bool-cases, Option-cases,
}
use drover.Driver.{JobRow}
use drover.Inspector.{InspectError}
use drover.Stats.Maps.{true_not_false}
use drover.Web.Query.{Values, get}
use drover.Web.{Numerals, flash_from_query, redirect_values}
use drover.Web.Filters.{ReadsBack}
use drover.Web.Flashes.{reported, redirect-flash}
use drover.Web.Server.{
  Method, reads, posts, others, Route, root, retry_route, cancel_route, elsewhere, Request,
  Response, html, see_other, Calls, parse_job_id, is_host, same_origin, is_failure, post_mutation,
  serve,
}

-- What a form does: which call, on which text of an id.
pub data Act : Type 0 where
  retries cancels : Act

abbrev pub act_of : Method → Route → Option (Act × String)
act_of posts (retry_route text) = some (retries, text)
act_of posts (cancel_route text) = some (cancels, text)
act_of method route = none

abbrev pub notice_of : Act → String
notice_of retries = "retried"
notice_of cancels = "cancelled"

notice_of-known : (a : Act) → (notice_of a ≡ "retried") ⊎ (notice_of a ≡ "cancelled")
notice_of-known retries = inl refl
notice_of-known cancels = inr refl

abbrev pub act : {S D : Type 0} → Calls S D → Act → ℕ → S → S × Result InspectError JobRow
act calls retries = calls.retry
act calls cancels = calls.cancel

-- The page that sent the form is of the host that is asked: by its Origin, or without one by its Referer.
abbrev pub FromOwnPage : (String → Option String) → Request → Type 0
FromOwnPage host_of r =
    ((r.origin ≢ "") × (host_of r.origin ≡ some r.host))
    ⊎ ((r.origin ≡ "") × (r.referer ≢ "") × (host_of r.referer ≡ some r.host))

is_host-some :
    (host_of : String → Option String) (host url : String)
    → is_host host_of host url ≡ true
    → host_of url ≡ some host
unfolding is_host
is_host-some host_of host url h = elim (Option-cases (host_of url)) [
  | inl e ↦
      let no : is_host host_of host url ≡ false = rw (e, is_host) refl in
      absurd (true_not_false (sym h ∙ no))
  | inr (x, e) ↦
      let tested : is_host host_of host url ≡ str_eq x host = rw (e, is_host) refl in
      e ∙ ap some ((eq_iff x host).0 (sym tested ∙ h))
]

some-is_host :
    (host_of : String → Option String) (host url : String)
    → host_of url ≡ some host
    → is_host host_of host url ≡ true
unfolding is_host
some-is_host host_of host url e = rw (e, is_host) ((eq_iff host host).1 refl)

same_origin-FromOwnPage :
    (host_of : String → Option String) (r : Request)
    → (same_origin host_of r ≡ true → FromOwnPage host_of r)
      × (FromOwnPage host_of r → same_origin host_of r ≡ true)
unfolding same_origin
same_origin-FromOwnPage host_of r = elim (Bool-cases (str_eq r.origin "")) [
  | inr given ↦
      let some_origin : r.origin ≢ "" =
        λ e. true_not_false (sym ((eq_iff r.origin "").1 e) ∙ given) in
      let tested : same_origin host_of r ≡ is_host host_of r.host r.origin = rw given refl in
      (
        λ h. inl (some_origin, is_host-some host_of r.host r.origin (sym tested ∙ h)),
        λ own. elim own [
          | inl (there, e) ↦ tested ∙ some-is_host host_of r.host r.origin e
          | inr (none_there, there, e) ↦ absurd (some_origin none_there)
        ],
      )
  | inl absent ↦
      let no_origin : r.origin ≡ "" = (eq_iff r.origin "").0 absent in
      elim (Bool-cases (str_eq r.referer "")) [
        | inl missing ↦
            let tested : same_origin host_of r ≡ false = rw absent (rw missing refl) in
            (
              λ h. absurd (true_not_false (sym h ∙ tested)),
              λ own. elim own [
                | inl (there, e) ↦ absurd (there no_origin)
                | inr (none_there, there, e) ↦ absurd (there ((eq_iff r.referer "").0 missing))
              ],
            )
        | inr given ↦
            let tested : same_origin host_of r ≡ is_host host_of r.host r.referer =
              rw absent (rw given refl) in
            let some_referer : r.referer ≢ "" =
              λ e. true_not_false (sym ((eq_iff r.referer "").1 e) ∙ given) in
            (
              λ h.
                  inr (
                    no_origin,
                    some_referer,
                    is_host-some host_of r.host r.referer (sym tested ∙ h),
                  ),
              λ own. elim own [
                | inl (there, e) ↦ absurd (there no_origin)
                | inr (none_there, there, e) ↦ tested ∙ some-is_host host_of r.host r.referer e
              ],
            )
      ]
]

parse_job_id-positive :
    (nums : Numerals) (trim : String → String) (text : String) (n : ℕ)
    → ReadsBack nums
    → parse_job_id nums trim text ≡ some n
    → (0 < n) × (n < 9_223_372_036_854_775_808)
unfolding parse_job_id
parse_job_id-positive nums trim text n reads_back h = read (nums.atoi (trim text)) refl
  where
    read : (o : Option ℤ) → nums.atoi (trim text) ≡ o → (0 < n) × (n < 9_223_372_036_854_775_808)
    read none e = absurd (ground arith)
    read (some (pos zero)) e = absurd (ground arith)
    read (some (negsuc m)) e = absurd (ground arith)
    read (some (pos (suc m))) e =
        let same : n ≡ suc m = ground arith in
        let small = reads_back.in_range (trim text) (suc m) e in (omega arith, omega arith)

module _ {S D Raw : Type 0} (nums : Numerals) (trim : String → String)
    (host_of : String → Option String) (calls : Calls S D) (encode : Values → Raw)
    (query : Raw → Values) where
  -- The call was made, and unless it failed the redirect's query reports its answer.
  abbrev pub Acted : Act → String → Request → S → S × Response D → Type 0
  Acted a text r s out =
      (n : ℕ) × (parse_job_id nums trim text ≡ some n)
      × FromOwnPage host_of r
      × (out.0 ≡ (act calls a n s).0)
      × (((is_failure (act calls a n s).1 ≡ true) × (out.1 ≡ html 500))
          ⊎ ((v : Values) × (out.1 ≡ see_other v)
              × (flash_from_query nums (query (encode v))
                  ≡ reported (notice_of a) (act calls a n s).1 (pos n))))

  -- A form that does nothing: from another origin, for no job, or unreadable.
  abbrev pub Barred : String → Request → Type 0
  Barred text r =
      (FromOwnPage host_of r → ⊥) ⊎ (parse_job_id nums trim text ≡ none) ⊎ (r.form ≡ none)

  module _ (reads_back : ReadsBack nums)
      (same : (key : String) (v : Values) → get key (query (encode v)) ≡ get key v) where
    post_mutation-Acted :
        (a : Act) (text : String) (r : Request) (s : S)
        → let out = post_mutation nums trim host_of calls (notice_of a) (act calls a) text r s in
          ((out.0 ≡ s) × Barred text r) ⊎ Acted a text r s out
    unfolding post_mutation
    post_mutation-Acted a text r s = elim (Bool-cases (same_origin host_of r)) [
      | inr foreign ↦ inl (
        rw foreign refl,
        inl (λ own. true_not_false (sym ((same_origin-FromOwnPage host_of r).1 own) ∙ foreign)),
      )
      | inl own ↦ elim (Option-cases (parse_job_id nums trim text)) [
        | inl bad ↦ inl (rw own (rw bad refl), inr (inl bad))
        | inr (n, e) ↦ elim (Option-cases r.form) [
          | inl bad ↦ inl (rw own (rw e (rw bad refl)), inr (inr bad))
          | inr (form, f) ↦ elim (Bool-cases (is_failure (act calls a n s).1)) [
            | inl failed ↦ inr (
              n,
              e,
              (same_origin-FromOwnPage host_of r).0 own,
              rw own (rw e (rw f (rw failed refl))),
              inl (failed, rw own (rw e (rw f (rw failed refl)))),
            )
            | inr answered ↦
                let (low, high) = parse_job_id-positive nums trim text n reads_back e in
                inr (
                  n,
                  e,
                  (same_origin-FromOwnPage host_of r).0 own,
                  rw own (rw e (rw f (rw answered refl))),
                  inr (
                    redirect_values nums form (notice_of a) (act calls a n s).1 (pos n),
                    rw own (rw e (rw f (rw answered refl))),
                    redirect-flash nums reads_back encode query same form (notice_of a)
                        (act calls a n s).1 n (notice_of-known a) low high,
                  ),
                )
          ]
        ]
      ]
    ]

    -- A request changes nothing but by a form that comes from a page of the host that is asked, by its Origin or else
    -- its Referer, names a job and can be read. Every such form makes its call once, on that job. If the call failed
    -- the answer is a 500, and otherwise a redirect whose query tells flashFromQuery the call's answer for that job;
    -- whether the page takes the filters in that query is left open.
    pub serve-Acted :
        (refresh : ℤ) (method : Method) (route : Route) (r : Request) (s : S)
        → let out = serve nums trim host_of calls refresh method route r s in
          ((out.0 ≡ s) × (act_of method route ≡ none))
          ⊎ ((a : Act) × (text : String) × (act_of method route ≡ some (a, text))
              × (((out.0 ≡ s) × Barred text r) ⊎ Acted a text r s out))
    unfolding serve
    serve-Acted refresh reads root r s = inl (refl, refl)
    serve-Acted refresh reads (retry_route text) r s = inl (refl, refl)
    serve-Acted refresh reads (cancel_route text) r s = inl (refl, refl)
    serve-Acted refresh reads elsewhere r s = inl (refl, refl)
    serve-Acted refresh posts root r s = inl (refl, refl)
    serve-Acted refresh posts elsewhere r s = inl (refl, refl)
    serve-Acted refresh others root r s = inl (refl, refl)
    serve-Acted refresh others (retry_route text) r s = inl (refl, refl)
    serve-Acted refresh others (cancel_route text) r s = inl (refl, refl)
    serve-Acted refresh others elsewhere r s = inl (refl, refl)
    serve-Acted refresh posts (retry_route text) r s =
        inr (retries, text, refl, post_mutation-Acted retries text r s)
    serve-Acted refresh posts (cancel_route text) r s =
        inr (cancels, text, refl, post_mutation-Acted cancels text r s)
