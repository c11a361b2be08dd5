-- ===== src/Web/Filters.antt =====
-- The page's own link keeps its filters.
use drover.Prelude.{
  ℕ, String, false, ◌&&◌, not, ◌≡◌, ◌≢◌, refl, sym, subst, ◌<◌, ◌≤◌, inl, inr, arith, some, str_eq,
  eq_iff, if◌then◌else◌, ok, ℤ, pos, negsuc, leb_ℤ, Bool-cases, Result-cases,
}
use mathlib.Core.Bool.{and-true, and-false}
use drover.Driver.{state_text, dead}
use drover.Web.Query.{Values, get, get-set_if}
use drover.Web.{
  Numerals, FilterView, web_list_limit, known_job_states, is_known, parse_limit, filters_of,
  parse_page_filters, refresh_values,
}

-- What the texts of numbers owe: a number up to the largest int64 is read back from its text, which is not
-- empty, and no larger one is read.
pub record ReadsBack (nums : Numerals) : Type 0 where
  pub atoi-itoa :
      (n : ℕ) → n < 9_223_372_036_854_775_808 → nums.atoi (nums.itoa (pos n)) ≡ some (pos n)
  pub written : (n : ℕ) → n < 9_223_372_036_854_775_808 → nums.itoa (pos n) ≢ ""
  pub in_range :
      (text : String) (n : ℕ) → nums.atoi text ≡ some (pos n) → n < 9_223_372_036_854_775_808

-- What the page accepts as filters.
pub record Accepted (f : FilterView) : Type 0 where
  pub limit : (n : ℕ) × (f.limit ≡ pos n) × (1 ≤ n) × (n ≤ 1000)
  pub state : str_eq f.state "" ≡ false
  pub known : (not (str_eq f.state "all") && not (is_known f.state known_job_states)) ≡ false

parse_limit-bounds :
    (nums : Numerals) (text : String) (l : ℤ)
    → parse_limit nums text ≡ ok l
    → (n : ℕ) × (l ≡ pos n) × (1 ≤ n) × (n ≤ 1000)
unfolding parse_limit
parse_limit-bounds nums text (pos n) h = (n, refl, ground arith, ground arith)
parse_limit-bounds nums text (negsuc n) h = absurd (ground arith)

abbrev chosen_state : String → String
chosen_state state = if str_eq state "" then state_text dead else state

chosen_state-text : (state : String) → str_eq (chosen_state state) "" ≡ false
chosen_state-text state = elim (Bool-cases (str_eq state "")) [ inl e ↦ rw e refl | inr e ↦ rw e e ]

filters_of-ok :
    (nums : Numerals) (queue state limit c : String) (n : ℤ)
    → chosen_state state ≡ c
    → parse_limit nums limit ≡ ok n
    → (not (str_eq c "all") && not (is_known c known_job_states)) ≡ false
    → filters_of nums queue state limit ≡ ok (record { queue = queue; state = c; limit = n })
unfolding filters_of
filters_of-ok nums queue state limit c n chosen good known =
    rw (good, filters_of) (rw chosen (rw known refl))

filters_of-Accepted :
    (nums : Numerals) (queue state limit : String) (f : FilterView)
    → filters_of nums queue state limit ≡ ok f
    → Accepted f
unfolding filters_of
filters_of-Accepted nums queue state limit f h =
    let chosen = chosen_state state in
    elim (Result-cases (parse_limit nums limit)) [
      | inr (e, bad) ↦ absurd (ground arith)
      | inl (n, good) ↦
          elim (Bool-cases (not (str_eq chosen "all") && not (is_known chosen known_job_states))) [
            | inl strange ↦ absurd (ground arith)
            | inr known ↦
                let found = filters_of-ok nums queue state limit chosen n refl good known in
                let same : record { queue = queue; state = chosen; limit = n } ≡ f = cc in
                subst Accepted same (record {
                  limit = parse_limit-bounds nums limit n good;
                  state = chosen_state-text state;
                  known = known;
                })
          ]
    ]

unless_empty : (text : String) → (if not (str_eq text "") then text else "") ≡ text
unless_empty text = elim (Bool-cases (str_eq text "")) [
  | inl e ↦ rw e (sym ((eq_iff text "").0 e))
  | inr e ↦ rw e refl
]

-- The texts that the link gives the state and the limit, empty at their defaults.
abbrev shown_state : String → String
shown_state state =
    if not (str_eq state "") && not (str_eq state (state_text dead)) then state else ""

abbrev shown_limit : Numerals → ℤ → String
shown_limit nums l =
    if not (leb_ℤ l (pos web_list_limit) && leb_ℤ (pos web_list_limit) l) then nums.itoa l else ""

ruleset lookups = (get-set_if, and-false, and-true)

module _ (nums : Numerals) (f : FilterView) where
  refresh-queue : get "queue" (refresh_values nums f) ≡ f.queue
  unfolding refresh_values get
  refresh-queue = simp lookups (unless_empty f.queue)

  refresh-state : get "state" (refresh_values nums f) ≡ shown_state f.state
  unfolding refresh_values get
  refresh-state = simp lookups

  refresh-limit : get "limit" (refresh_values nums f) ≡ shown_limit nums f.limit
  unfolding refresh_values get
  refresh-limit = simp lookups

chosen_state-shown_state :
    (text : String) → str_eq text "" ≡ false → chosen_state (shown_state text) ≡ text
chosen_state-shown_state text some_text = elim (Bool-cases (str_eq text (state_text dead))) [
  | inl e ↦ rw (some_text, e) (sym ((eq_iff text (state_text dead)).0 e))
  | inr e ↦ rw (some_text, e) (rw some_text refl)
]

limit_read :
    (nums : Numerals)
    → ReadsBack nums
    → (n : ℕ) → 1 ≤ n
    → n ≤ 1000
    → parse_limit nums (shown_limit nums (pos n)) ≡ ok (pos n)
unfolding parse_limit
limit_read nums reads n low high =
    elim (Bool-cases (leb_ℤ (pos n) (pos web_list_limit) && leb_ℤ (pos web_list_limit) (pos n))) [
      | inl e ↦ rw e (ground arith)
      | inr e ↦
          let some_text : str_eq (nums.itoa (pos n)) "" ≡ false =
            ground (arith, eq_iff (nums.itoa (pos n)) "", reads.written n) in
          rw e (rw (some_text, reads.atoi-itoa n (omega arith)) (ground arith))
    ]

-- The link that refreshes the page keeps the filters: whatever query the page accepted, the query of the link
-- is accepted with the same queue, state and limit, although the link leaves out those at their defaults.
pub refresh-parse :
    {Raw : Type 0} (nums : Numerals) (encode : Values → Raw) (query : Raw → Values) (q : Values)
    (f : FilterView)
    → ReadsBack nums
    → ((key : String) (v : Values) → get key (query (encode v)) ≡ get key v)
    → parse_page_filters nums q ≡ ok f
    → parse_page_filters nums (query (encode (refresh_values nums f))) ≡ ok f
unfolding parse_page_filters
refresh-parse nums encode query q f reads same accepted =
    let a = filters_of-Accepted nums (get "queue" q) (get "state" q) (get "limit" q) f accepted in
    let (n, limit, low, high) = a.limit in
    let v = refresh_values nums f in
    rw (same "state" v, same "limit" v, same "queue" v)
      (rw (refresh-queue nums f, refresh-state nums f, refresh-limit nums f)
        (filters_of-ok nums f.queue (shown_state f.state) (shown_limit nums f.limit) f.state f.limit
          (chosen_state-shown_state f.state a.state) (rw limit (limit_read nums reads n low high))
          a.known))
