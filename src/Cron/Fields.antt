-- ===== src/Cron/Fields.antt =====
-- parseField, addPart and parseRange, with what they use of package strings and of strconv.Atoi.
use drover.Prelude.{
  ℕ, zero, suc, ◌+◌, ◌-◌, ◌*◌, ◌^◌, Bool, true, false, ◌&&◌, ◌||◌, List, [], ◌∷◌, Option, none,
  some, ltb, leb, ◌==◌, if◌then◌else◌, Result, ok, err, ◌>>=◌, ℤ, pos, negsuc, pos_part, leb_ℤ,
  ltb_ℤ,
}
use drover.Driver.{Bytes}
use drover.Cron.{Field}

-- The last is a panic: a shift by a negative count.
pub data FieldError : Type 0 where
  empty_field empty_list_item no_valid_values invalid_step invalid_value : FieldError
  invalid_range out_of_range out_of_fuel negative_shift : FieldError

abbrev pub comma : ℕ
comma = 0x2c

abbrev pub slash : ℕ
slash = 0x2f

abbrev pub dash : ℕ
dash = 0x2d

abbrev pub plus : ℕ
plus = 0x2b

abbrev pub star : Bytes
star = 0x2a ∷ []

abbrev push : ℕ → List Bytes → List Bytes
push b [] = (b ∷ []) ∷ []
push b (x ∷ xs) = (b ∷ x) ∷ xs

-- strings.SplitSeq at one byte.
unfoldable pub split_on : ℕ → Bytes → List Bytes
split_on c [] = [] ∷ []
split_on c (b ∷ bs) = let rest = split_on c bs in if b == c then [] ∷ rest else push b rest

-- strings.Cut at one byte; what follows it is `none` where it does not occur.
unfoldable pub cut : ℕ → Bytes → Bytes × Option Bytes
cut c [] = ([], none)
cut c (b ∷ bs) = let rest = cut c bs in if b == c then ([], some bs) else (b ∷ rest.0, rest.1)

unfoldable pub digits : ℕ → Bytes → Option ℕ
digits acc [] = some acc
digits acc (b ∷ bs) =
    let rest = digits (acc * 10 + (b - 0x30)) bs in if ltb b 0x30 || ltb 0x39 b then none else rest

unfoldable pub number : Bytes → Option ℕ
unfolding digits
number [] = none
number (b ∷ bs) = digits 0 (b ∷ bs)

abbrev negated : ℕ → ℤ
negated zero = pos 0
negated (suc n) = negsuc n

unfoldable pub positive : Option ℕ → Option ℤ
positive none = none
positive (some n) = if ltb n (2 ^ 63) then some (pos n) else none

unfoldable pub negative : Option ℕ → Option ℤ
negative none = none
negative (some n) = if leb n (2 ^ 63) then some (negated n) else none

-- strconv.Atoi.
unfoldable pub atoi : Bytes → Option ℤ
unfolding number positive negative
atoi [] = none
atoi (b ∷ bs) =
    if b == plus
    then positive (number bs)
    else if b == dash
    then negative (number bs)
    else positive (number (b ∷ bs))

unfoldable pub bytes_eq : Bytes → Bytes → Bool
bytes_eq [] [] = true
bytes_eq (a ∷ xs) (b ∷ ys) = a == b && bytes_eq xs ys
bytes_eq _ _ = false

-- The last test of parseRange.
unfoldable pub checked_range : ℕ → ℕ → ℤ → ℤ → Result FieldError (ℕ × ℕ)
checked_range low high start end =
    if ltb_ℤ start (pos low) || ltb_ℤ (pos high) end || ltb_ℤ end start
    then err out_of_range
    else ok (pos_part start, pos_part end)

unfoldable pub parse_range : Bytes → ℕ → ℕ → Result FieldError (ℕ × ℕ)
unfolding bytes_eq cut atoi checked_range
parse_range tok low high =
    if bytes_eq tok star
    then ok (low, high)
    else let (from, to) = cut dash tok in
      elim (atoi from) [
        | none ↦ err invalid_value
        | some start ↦ elim to [
          | none ↦ checked_range low high start start
          | some until ↦ elim (atoi until) [
            | none ↦ err invalid_range
            | some end ↦ checked_range low high start end
          ]
        ]
      ]

abbrev pub bit_of : Bool → ℕ → ℕ
bit_of wrap7 v = if wrap7 && v == 7 then 0 else v

-- The loop over the range from `v`, on fuel. The sum `v + step` is an int: past 2^63 - 1 it wraps to a
-- negative number, which the loop's test lets through and the shift panics on.
unfoldable pub fill : ℕ → ℕ → ℕ → ℕ → Bool → Field → Result FieldError Field
fill zero v end step wrap7 f = err out_of_fuel
fill (suc n) v end step wrap7 f =
    let rest = fill n (v + step) end step wrap7 (bit_of wrap7 v ∷ f) in
    if ltb end v then ok f else if leb (2 ^ 63) (v + step) then err negative_shift else rest

unfoldable pub parse_step : Option Bytes → Result FieldError ℕ
unfolding atoi
parse_step none = ok 1
parse_step (some tok) = elim (atoi tok) [
  | none ↦ err invalid_step
  | some n ↦ if leb_ℤ n (pos 0) then err invalid_step else ok (pos_part n)
]

unfoldable pub add_part : ℕ → ℕ → Bool → Field → Bytes → Result FieldError Field
unfolding cut parse_step parse_range fill
add_part low high wrap7 f part = do
  step ← parse_step (cut slash part).1
  range ← parse_range (cut slash part).0 low high
  fill (suc (range.1 + 1)) range.0 range.1 step wrap7 f

-- The loop over the list's items.
unfoldable pub add_parts : ℕ → ℕ → Bool → Field → List Bytes → Result FieldError Field
unfolding add_part
add_parts low high wrap7 f [] = ok f
add_parts low high wrap7 f ([] ∷ parts) = err empty_list_item
add_parts low high wrap7 f ((b ∷ part) ∷ parts) =
    add_part low high wrap7 f (b ∷ part) >>= (λ g. add_parts low high wrap7 g parts)

unfoldable pub parse_field : Bytes → ℕ → ℕ → Bool → Result FieldError Field
unfolding split_on add_parts
parse_field [] low high wrap7 = err empty_field
parse_field (b ∷ tok) low high wrap7 = do
  f ← add_parts low high wrap7 [] (split_on comma (b ∷ tok))
  elim f [ [] ↦ err no_valid_values | v ∷ vs ↦ ok (v ∷ vs) ]
