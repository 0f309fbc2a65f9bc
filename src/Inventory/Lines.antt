-- ===== src/Inventory/Lines.antt =====
-- `normalizedLines` and `sameLines`, and the sort that they and the database use.
use accensa_app.Prelude.{
  ℕ, zero, suc, ◌+◌, ◌-◌, ◌*◌, ◌/◌, ◌%◌, ◌^◌, String, Bool, true, false, ◌&&◌, ◌||◌, not, List, [],
  ◌∷◌, ltb, leb, ◌==◌, if◌then◌else◌, str_eq, length,
}
use accensa_app.Prelude.Text.{matches_class, is_alnum}
use accensa_app.Inventory.{Line, Result, ok, throw, type_error}

abbrev pub max_safe_integer : ℕ
max_safe_integer = 2 ^ 53 - 1

-- `Number.isSafeInteger(n)` of a natural number.
abbrev pub is_safe : ℕ → Bool
is_safe n = leb n max_safe_integer

-- The distance of two doubles next to a natural number below 2 ^ 64, from 1 on.
unfoldable pub spacing : ℕ → ℕ → ℕ → ℕ
spacing zero unit n = unit
spacing (suc fuel) unit n =
    let wider = spacing fuel (2 * unit) n in if leb n (2 ^ 53 * unit) then unit else wider

-- `down` is the multiple of `unit` below, by `rest`; a tie goes to the even multiple.
abbrev pub round_by : ℕ → ℕ → ℕ → ℕ
round_by unit rest down =
    if ltb (2 * rest) unit
    then down
    else (if ltb unit (2 * rest) || (down / unit) % 2 == 1 then down + unit else down)

abbrev pub round_to : ℕ → ℕ → ℕ
round_to unit n = round_by unit (n % unit) (n - n % unit)

-- The double nearest to a natural number below 2 ^ 64, as `+` of two numbers rounds its sum.
unfoldable pub nearest : ℕ → ℕ
unfolding spacing
nearest n = round_to (spacing 11 1 n) n

abbrev is_sku_char : ℕ → Bool
is_sku_char c = is_alnum c || c == b'.' || c == b'_' || c == b':' || c == b'-'

unfoldable pub is_sku : String → Bool
unfolding matches_class
is_sku s = matches_class is_sku_char 1 100 s

abbrev pub is_line : Line → Bool
is_line l = is_sku l.sku && is_safe l.quantity && not (ltb l.quantity 1)

-- `quantities.set(line.sku, (quantities.get(line.sku) ?? 0) + line.quantity)`: a new key goes last.
unfoldable pub add_line : Line → List Line → List Line
unfolding nearest
add_line l [] = l ∷ []
add_line l (x ∷ xs) =
    if str_eq x.sku l.sku
    then record x { quantity = nearest (x.quantity + l.quantity) } ∷ xs
    else x ∷ add_line l xs

-- The loop of `normalizedLines`.
unfoldable pub collect : List Line → List Line → Result (List Line)
collect quantities [] = ok quantities
collect quantities (l ∷ ls) =
    let rest = collect (add_line l quantities) ls in if is_line l then rest else throw type_error

-- `sort`, which is stable.
unfoldable pub insert : (String → String → Bool) → Line → List Line → List Line
insert le l [] = l ∷ []
insert le l (x ∷ xs) = if le l.sku x.sku then l ∷ x ∷ xs else x ∷ insert le l xs

unfoldable pub sort : (String → String → Bool) → List Line → List Line
unfolding insert
sort le [] = []
sort le (l ∷ ls) = insert le l (sort le ls)

abbrev sorted_result : (String → String → Bool) → Result (List Line) → Result (List Line)
sorted_result le (ok ls) = ok (sort le ls)
sorted_result le (throw e) = throw e

unfoldable pub normalized_lines : (String → String → Bool) → List Line → Result (List Line)
unfolding collect add_line sort insert is_sku
normalized_lines le lines =
    if ltb (length lines) 1 || ltb 50 (length lines)
    then throw type_error
    else sorted_result le (collect [] lines)

-- `left.length === right.length && left.every(…)`
unfoldable pub same_lines : List Line → List Line → Bool
same_lines [] [] = true
same_lines (l ∷ ls) (r ∷ rs) = (str_eq l.sku r.sku && l.quantity == r.quantity) && same_lines ls rs
same_lines _ _ = false
