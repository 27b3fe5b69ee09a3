-- ===== src/Text.antt =====
-- What the code uses of Go's packages strings, strconv and fmt, on texts as lists of bytes.
pub mod Digits
pub mod Printed
use Prim.Native.Char.{code}
use Prim.Native.String.{String}
use polarisagi_harness.Prelude.{
  ℕ, zero, suc, ◌+◌, ◌-◌, ◌*◌, ◌^◌, ◌%◌, ◌/◌, Bool, true, false, ◌&&◌, ◌||◌, Option, none, some,
  List, [], ◌∷◌, ◌++◌, ltb, leb, ◌==◌, if◌then◌else◌,
}

abbrev pub Bytes : Type 0
Bytes = List ℕ

-- The bytes of an ASCII text.
abbrev pub codes : String → Bytes
codes String.[] = []
codes (String.◌∷◌ c s) = code c ∷ codes s

unfoldable pub same_bytes : Bytes → Bytes → Bool
same_bytes [] [] = true
same_bytes (x ∷ xs) (y ∷ ys) = if x == y then same_bytes xs ys else false
same_bytes _ _ = false

-- Tab, line feed, vertical tab, form feed, carriage return, space: of the white space of Unicode, what
-- is ASCII.
unfoldable pub is_space : ℕ → Bool
is_space c = (leb 9 c && leb c 13) || c == 32

unfoldable pub trim_left : Bytes → Bytes
trim_left [] = []
trim_left (c ∷ cs) = let rest = trim_left cs in if is_space c then rest else c ∷ cs

unfoldable pub is_blank : Bytes → Bool
is_blank [] = true
is_blank (c ∷ cs) = if is_space c then is_blank cs else false

unfoldable pub trim_right : Bytes → Bytes
trim_right [] = []
trim_right (c ∷ cs) = let rest = trim_right cs in if is_blank (c ∷ cs) then [] else c ∷ rest

-- strings.TrimSpace
unfoldable pub trim : Bytes → Bytes
trim cs = trim_right (trim_left cs)

-- strings.Split by one byte: always at least one part.
abbrev on_first : ℕ → List Bytes → List Bytes
on_first c [] = (c ∷ []) ∷ []
on_first c (p ∷ ps) = (c ∷ p) ∷ ps

unfoldable pub split : ℕ → Bytes → List Bytes
split sep [] = [] ∷ []
split sep (c ∷ cs) = let rest = split sep cs in if c == sep then [] ∷ rest else on_first c rest

-- strings.Fields: the parts between spaces that are not empty.
unfoldable pub fields_from : Bytes → Bytes → List Bytes
fields_from [] [] = []
fields_from (w ∷ ws) [] = (w ∷ ws) ∷ []
fields_from [] (c ∷ cs) =
    let skip = fields_from [] cs in
    let go = fields_from (c ∷ []) cs in if is_space c then skip else go
fields_from (w ∷ ws) (c ∷ cs) =
    let stop = fields_from [] cs in
    let go = fields_from ((w ∷ ws) ++ c ∷ []) cs in if is_space c then (w ∷ ws) ∷ stop else go

unfoldable pub fields : Bytes → List Bytes
fields cs = fields_from [] cs

unfoldable pub has : ℕ → Bytes → Bool
has sep [] = false
has sep (c ∷ cs) = if c == sep then true else has sep cs

-- strings.SplitN(s, sep, 2), for a text that has the separator.
unfoldable pub before : ℕ → Bytes → Bytes
before sep [] = []
before sep (c ∷ cs) = let rest = before sep cs in if c == sep then [] else c ∷ rest

unfoldable pub beyond : ℕ → Bytes → Bytes
beyond sep [] = []
beyond sep (c ∷ cs) = if c == sep then cs else beyond sep cs

-- An int of 64 bits; `negsuc n` is -(n + 1).
pub data ℤ : Type 0 where
  pos : ℕ → ℤ
  negsuc : ℕ → ℤ

unfoldable pub is_digit : ℕ → Bool
is_digit c = leb b'0' c && leb c b'9'

unfoldable pub digits_from : ℕ → Bytes → Option ℕ
digits_from n [] = some n
digits_from n (c ∷ cs) =
    let rest = digits_from (n * 10 + (c - b'0')) cs in if is_digit c then rest else none

unfoldable pub unsigned : Bytes → Option ℕ
unsigned [] = none
unsigned (c ∷ cs) = digits_from 0 (c ∷ cs)

unfoldable pub in_range : Option ℕ → Option ℤ
in_range none = none
in_range (some n) = if ltb n (2 ^ 63) then some (pos n) else none

abbrev negated : ℕ → ℤ
negated zero = pos 0
negated (suc n) = negsuc n

unfoldable pub in_range_negative : Option ℕ → Option ℤ
in_range_negative none = none
in_range_negative (some n) = if leb n (2 ^ 63) then some (negated n) else none

-- strconv.Atoi; the two errors are `none`.
unfoldable pub atoi : Bytes → Option ℤ
atoi [] = none
atoi (c ∷ cs) =
    if c == b'-'
    then in_range_negative (unsigned cs)
    else if c == b'+'
    then in_range (unsigned cs)
    else in_range (unsigned (c ∷ cs))

-- The verb %d of package fmt, with room for all the digits of the number.
unfoldable pub decimal_from : ℕ → ℕ → Bytes → Bytes
decimal_from zero n cs = cs
decimal_from (suc room) n cs =
    let ds = (b'0' + n % 10) ∷ cs in
    let rest = decimal_from room (n / 10) ds in if n / 10 == 0 then ds else rest

unfoldable pub decimal : ℕ → Bytes
decimal n = decimal_from (suc n) n []
