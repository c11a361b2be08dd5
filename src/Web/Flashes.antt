-- ===== src/Web/Flashes.antt =====
-- The flash that the page shows after a form's redirect.
use drover.Prelude.{
  ℕ, zero, suc, String, false, ◌≡◌, refl, ◌<◌, ◌⊎◌, inl, inr, arith, Option, none, some, str_eq,
  if◌then◌else◌, Result, ok, err, ℤ, pos, leb_ℤ,
}
use mathlib.Core.Bool.{and-true, and-false}
use drover.Driver.{JobRow}
use drover.Inspector.{
  InspectError, limit_exceeds, err_invalid_kind, invalid_json, err_not_found,
  err_invalid_transition, driver_error,
}
use drover.Web.Query.{Values, get, get-set, get-set_if}
use drover.Web.{
  Numerals, Flash, redrove, cancelled_job, was_not_found, refused, flash_from_query,
  redirect_values, copy_field,
}
use drover.Web.Filters.{ReadsBack}

ruleset fields = (get-set, get-set_if, and-true, and-false)

-- What the redirect's "notice" and "error" say of an answer.
abbrev notice_text : String → Result InspectError JobRow → String
notice_text notice (ok row) = notice
notice_text notice (err e) = ""

abbrev error_text : Result InspectError JobRow → String
error_text (ok row) = ""
error_text (err (err_not_found e)) = "not_found"
error_text (err (err_invalid_transition e)) = "invalid_transition"
error_text (err _) = ""

module _ (nums : Numerals) (form : Values) (notice : String) (id : ℤ) where
  abbrev Says : Result InspectError JobRow → Type 0
  Says answer =
      let v = redirect_values nums form notice answer id in
      (get "id" v ≡ nums.itoa id)
      × (get "notice" v ≡ notice_text notice answer)
      × (get "error" v ≡ error_text answer)

  redirect-Says : (answer : Result InspectError JobRow) → Says answer
  unfolding redirect_values get copy_field
  redirect-Says (ok row) = (simp fields, simp fields, simp fields)
  redirect-Says (err (err_not_found e)) = (simp fields, simp fields, simp fields)
  redirect-Says (err (err_invalid_transition e)) = (simp fields, simp fields, simp fields)
  redirect-Says (err (limit_exceeds l)) = (simp fields, simp fields, simp fields)
  redirect-Says (err err_invalid_kind) = (simp fields, simp fields, simp fields)
  redirect-Says (err invalid_json) = (simp fields, simp fields, simp fields)
  redirect-Says (err (driver_error e)) = (simp fields, simp fields, simp fields)

-- What the page tells the operator of an answer.
abbrev pub reported : String → Result InspectError JobRow → ℤ → Option Flash
reported notice (ok row) id =
    if str_eq notice "retried" then some (redrove id) else some (cancelled_job id)
reported notice (err (err_not_found e)) id = some (was_not_found id)
reported notice (err (err_invalid_transition e)) id = some (refused id)
reported notice (err _) id = none

-- The tests of flashFromQuery after that of the id.
abbrev flash_of : String → String → ℤ → Option Flash
flash_of notice error id =
    if str_eq notice "retried"
    then some (redrove id)
    else if str_eq notice "cancelled"
    then some (cancelled_job id)
    else if str_eq error "not_found"
    then some (was_not_found id)
    else if str_eq error "invalid_transition"
    then some (refused id)
    else none

flash_of-reported :
    (notice : String) (answer : Result InspectError JobRow) (id : ℤ)
    → (notice ≡ "retried") ⊎ (notice ≡ "cancelled")
    → flash_of (notice_text notice answer) (error_text answer) id ≡ reported notice answer id
flash_of-reported notice (ok row) id (inl e) = rw e refl
flash_of-reported notice (ok row) id (inr e) = rw e refl
flash_of-reported notice (err (err_not_found e)) id known = refl
flash_of-reported notice (err (err_invalid_transition e)) id known = refl
flash_of-reported notice (err (limit_exceeds l)) id known = refl
flash_of-reported notice (err err_invalid_kind) id known = refl
flash_of-reported notice (err invalid_json) id known = refl
flash_of-reported notice (err (driver_error e)) id known = refl

module _ {Raw : Type 0} (nums : Numerals) (reads : ReadsBack nums) (encode : Values → Raw)
    (query : Raw → Values)
    (same : (key : String) (v : Values) → get key (query (encode v)) ≡ get key v) where
  redirect-flash_suc :
      (form : Values) (notice : String) (answer : Result InspectError JobRow) (n : ℕ)
      → (notice ≡ "retried") ⊎ (notice ≡ "cancelled")
      → suc n < 9_223_372_036_854_775_808
      → flash_from_query nums
          (query (encode (redirect_values nums form notice answer (pos (suc n)))))
        ≡ reported notice answer (pos (suc n))
  unfolding flash_from_query
  redirect-flash_suc form notice answer n known small =
      let v = redirect_values nums form notice answer (pos (suc n)) in
      let positive : leb_ℤ (pos (suc n)) (pos 0) ≡ false = ground arith in
      let (id, told, failed) = redirect-Says nums form notice (pos (suc n)) answer in
      rw (same "id" v, id, reads.atoi-itoa (suc n) small, flash_from_query)
        (rw (same "notice" v, same "error" v, told, failed)
          (rw positive (flash_of-reported notice answer (pos (suc n)) known)))

  pub redirect-flash :
      (form : Values) (notice : String) (answer : Result InspectError JobRow) (n : ℕ)
      → (notice ≡ "retried") ⊎ (notice ≡ "cancelled")
      → 0 < n
      → n < 9_223_372_036_854_775_808
      → flash_from_query nums (query (encode (redirect_values nums form notice answer (pos n))))
        ≡ reported notice answer (pos n)
  redirect-flash form notice answer zero known low small = absurd (omega arith)
  redirect-flash form notice answer (suc n) known low small =
      redirect-flash_suc form notice answer n known small
