-- ===== src/Web/Query.antt =====
-- url.Values, with one text for each key, which is what the pages use.
use drover.Prelude.{
  String, Bool, true, false, List, [], ◌∷◌, str_eq, if◌then◌else◌, ◌≡◌, refl, eq_iff, arith, ◌&&◌,
}

abbrev pub Values : Type 0
Values = List (String × String)

unfoldable pub get : String → Values → String
get key [] = ""
get key ((k, text) ∷ v) = if str_eq k key then text else get key v

unfoldable pub set : String → String → Values → Values
set key text [] = (key, text) ∷ []
set key text ((k, old) ∷ v) = if str_eq k key then (k, text) ∷ v else (k, old) ∷ set key text v

pub get-set :
    (j key text : String) (v : Values)
    → get j (set key text v) ≡ (if str_eq key j then text else get j v)
unfolding get set
get-set j key text [] = refl
get-set j key text ((k, old) ∷ v) =
    ground (arith, eq_iff k key, eq_iff k j, eq_iff key j, get-set j key text v)

-- A key that is set under a condition.
unfoldable pub set_if : Bool → String → String → Values → Values
unfolding set
set_if b key text v = if b then set key text v else v

pub get-set_if :
    (j key text : String) (b : Bool) (v : Values)
    → get j (set_if b key text v) ≡ (if b && str_eq key j then text else get j v)
unfolding set_if
get-set_if j key text true v = get-set j key text v
get-set_if j key text false v = refl
