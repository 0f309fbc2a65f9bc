-- ===== src/Prelude/Text.antt =====
-- Text as the source tests it: code points, `trim`, the length in UTF-16 units, and the classes of
-- characters of its regular expressions.
use Prim.Native.Char.{Char, code}
use Prim.Native.String.{String}
use Prim.Native.Nat.{ℕ, ◌+◌}
use mathlib.Core.Bool.{Bool, true, false, not, ◌&&◌, ◌||◌}
use mathlib.Core.Path.{◌≡◌, refl, ap₂}
use native.Mathlib.Omega.{arith}
use mathlib.Core.List.{List, [], ◌∷◌}
use accensa_app.Prelude.Tests.{leb, ltb, ◌==◌, if◌then◌else◌}
use accensa_app.Prelude.Lists.{length, all}

abbrev pub codes : String → List ℕ
codes String.[] = []
codes (String.◌∷◌ c s) = code c ∷ codes s

abbrev pub is_empty : String → Bool
is_empty String.[] = true
is_empty (String.◌∷◌ c s) = false

-- `s.length`: a code point above 0xffff takes two units.
unfoldable pub utf16_length : String → ℕ
utf16_length String.[] = 0
utf16_length (String.◌∷◌ c s) = (if ltb (code c) 0x10000 then 1 else 2) + utf16_length s

-- The white space and line ends that `trim` removes.
unfoldable pub is_space : ℕ → Bool
is_space c =
    (leb 9 c && leb c 13)
    || c == 32
    || c == 0xa0
    || c == 0x1680
    || (leb 0x2000 c && leb c 0x200a)
    || c == 0x2028
    || c == 0x2029
    || c == 0x202f
    || c == 0x205f
    || c == 0x3000
    || c == 0xfeff

trim_start : String → String
trim_start String.[] = ""
trim_start (String.◌∷◌ c s) =
    let rest = trim_start s in if is_space (code c) then rest else String.◌∷◌ c s

drop_blank : Char → String → String
drop_blank c String.[] = if is_space (code c) then "" else String.◌∷◌ c ""
drop_blank c (String.◌∷◌ d s) = String.◌∷◌ c (String.◌∷◌ d s)

trim_end : String → String
trim_end String.[] = ""
trim_end (String.◌∷◌ c s) = drop_blank c (trim_end s)

unfoldable pub trim : String → String
unfolding trim_start trim_end drop_blank is_space
trim s = trim_end (trim_start s)

abbrev pub is_digit : ℕ → Bool
is_digit c = leb b'0' c && leb c b'9'

abbrev pub is_alnum : ℕ → Bool
is_alnum c = is_digit c || (leb b'A' c && leb c b'Z') || (leb b'a' c && leb c b'z')

-- `/^[class]{low,high}$/`
unfoldable pub matches_class : (ℕ → Bool) → ℕ → ℕ → String → Bool
matches_class is_member low high s =
    let cs = codes s in leb low (length cs) && leb (length cs) high && all is_member cs

-- `trim` on a list of code points.
unfoldable pub drop_spaces : List ℕ → List ℕ
drop_spaces [] = []
drop_spaces (c ∷ cs) = let rest = drop_spaces cs in if is_space c then rest else c ∷ cs

keep_inner : ℕ → List ℕ → List ℕ
keep_inner c [] = if is_space c then [] else c ∷ []
keep_inner c (d ∷ cs) = c ∷ d ∷ cs

drop_last_spaces : List ℕ → List ℕ
drop_last_spaces [] = []
drop_last_spaces (c ∷ cs) = keep_inner c (drop_last_spaces cs)

unfoldable pub trim_codes : List ℕ → List ℕ
unfolding drop_spaces drop_last_spaces keep_inner is_space
trim_codes cs = drop_last_spaces (drop_spaces cs)

drop_spaces-plain : (cs : List ℕ) → all (λ c. not (is_space c)) cs ≡ true → drop_spaces cs ≡ cs
unfolding drop_spaces
drop_spaces-plain [] h = refl
drop_spaces-plain (c ∷ cs) h = let solid : is_space c ≡ false = ground arith in rw solid refl

drop_last_spaces-plain :
    (cs : List ℕ) → all (λ c. not (is_space c)) cs ≡ true → drop_last_spaces cs ≡ cs
unfolding drop_last_spaces keep_inner
drop_last_spaces-plain [] h = refl
drop_last_spaces-plain (c ∷ []) h = let solid : is_space c ≡ false = ground arith in rw solid refl
drop_last_spaces-plain (c ∷ d ∷ cs) h = rw (drop_last_spaces-plain (d ∷ cs) (ground arith)) refl

-- A text without white space is not trimmed.
pub trim_codes-plain : (cs : List ℕ) → all (λ c. not (is_space c)) cs ≡ true → trim_codes cs ≡ cs
unfolding trim_codes
trim_codes-plain cs h = rw (drop_spaces-plain cs h) (drop_last_spaces-plain cs h)

unfoldable pub same_text : List ℕ → List ℕ → Bool
same_text [] [] = true
same_text (c ∷ cs) (d ∷ ds) = c == d && same_text cs ds
same_text _ _ = false

pub same_text_refl : (cs : List ℕ) → same_text cs cs ≡ true
unfolding same_text
same_text_refl [] = refl
same_text_refl (c ∷ cs) = let same : (c == c) ≡ true = ground arith in rw same (same_text_refl cs)

pub eq_of_same : (cs ds : List ℕ) → same_text cs ds ≡ true → cs ≡ ds
unfolding same_text
eq_of_same [] [] h = refl
eq_of_same [] (d ∷ ds) h = absurd (cc)
eq_of_same (c ∷ cs) [] h = absurd (cc)
eq_of_same (c ∷ cs) (d ∷ ds) h =
    let first : c ≡ d = ground arith in
    let rest : same_text cs ds ≡ true = ground arith in ap₂ ◌∷◌ first (eq_of_same cs ds rest)
