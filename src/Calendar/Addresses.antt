-- ===== src/Calendar/Addresses.antt =====
-- The addresses that lib/calendar/safeCalendarFetch.ts blocks: isBlockedIpv4 and isBlockedIpv6.
pub mod Blocked
use hostrepository.Base.{
  ℕ, zero, suc, ◌+◌, ◌*◌, ◌-◌, Bool, true, false, not, ◌&&◌, ◌||◌, Option, none, some, List, [],
  ◌∷◌, ◌++◌, map, ◌==◌, leb, ltb, length, all, any, if◌then◌else◌,
}
use hostrepository.Base.Text.{
  Text, codes, drop, is_empty, same_text, starts_with, ends_with, to_lower_case, split_at_first,
}
use hostrepository.Base.Result.{Result, ok, err, ◌>>=◌, ◌>>◌, throw_if, require, or_throw}
use hostrepository.Calendar.Dates.{is_digit}
use hostrepository.Calendar.Ical.{number}

abbrev pub add_to_part : ℕ → List Text → List Text
add_to_part c [] = (c ∷ []) ∷ []
add_to_part c (part ∷ parts) = (c ∷ part) ∷ parts

-- `s.split(c)` of one code unit.
unfoldable pub split : ℕ → Text → List Text
split c [] = [] ∷ []
split c (d ∷ s) = let parts = split c s in if d == c then [] ∷ parts else add_to_part d parts

-- `Number(part)` where it is an integer. The parts of an address that `isIP` accepts are decimal, or
-- hold a `:` or letters, of which `Number` makes no number.
abbrev pub octet : Text → Option ℕ
octet part = if all is_digit part && ltb (number part) 256 then some (number part) else none

abbrev pub four_octets : Option ℕ → Option ℕ → Option ℕ → Option ℕ → Option (List ℕ)
four_octets (some a) (some b) (some c) (some d) = some (a ∷ b ∷ c ∷ d ∷ [])
four_octets _ _ _ _ = none

abbrev pub parse_parts : List Text → Option (List ℕ)
parse_parts (a ∷ b ∷ c ∷ d ∷ []) = four_octets (octet a) (octet b) (octet c) (octet d)
parse_parts _ = none

-- `parseIpv4`, `.` being 46.
unfoldable pub parse_ipv4 : Text → Option (List ℕ)
parse_ipv4 address = parse_parts (split 46 address)

abbrev pub is_blocked_parts : List ℕ → Bool
is_blocked_parts (a ∷ b ∷ c ∷ rest) =
    a == 0
    || a == 10
    || a == 127
    || (a == 100 && leb 64 b && leb b 127)
    || (a == 169 && b == 254)
    || (a == 172 && leb 16 b && leb b 31)
    || (a == 192 && b == 0)
    || (a == 192 && b == 168)
    || (a == 192 && b == 0 && c == 2)
    || (a == 198 && (b == 18 || b == 19))
    || (a == 198 && b == 51 && c == 100)
    || (a == 203 && b == 0 && c == 113)
    || leb 224 a
is_blocked_parts _ = true

abbrev pub is_blocked_octets : Option (List ℕ) → Bool
is_blocked_octets none = true
is_blocked_octets (some parts) = is_blocked_parts parts

unfoldable pub is_blocked_ipv4 : Text → Bool
is_blocked_ipv4 address = is_blocked_octets (parse_ipv4 address)

-- The value of a hexadecimal digit.
abbrev pub hex_value : ℕ → Option ℕ
hex_value c =
    if is_digit c
    then some (c - 48)
    else if leb 97 c && leb c 102
    then some (c - 87)
    else if leb 65 c && leb c 70
    then some (c - 55)
    else none

-- `Number.parseInt(s, 16)`: the digits that the text begins with; none is NaN.
unfoldable pub hex_prefix : Option ℕ → Text → Option ℕ
hex_prefix n [] = n
hex_prefix n (c ∷ s) = elim (hex_value c) [
  | none ↦ n
  | some v ↦ hex_prefix (elim n [ none ↦ some v | some m ↦ some (m * 16 + v) ]) s
]

abbrev pub before : Text → Option (Text × Text) → Text
before s none = s
before s (some (a, b)) = a

-- `s.split(c)[0]`
abbrev pub first_part : ℕ → Text → Text
first_part c s = before s (split_at_first c s)

abbrev pub is_blocked_first : Text → Option ℕ → Bool
is_blocked_first address none = true
is_blocked_first address (some n) =
    (leb 64512 n && leb n 65023)
    || (leb 65152 n && leb n 65215)
    || (leb 65280 n && leb n 65535)
    || starts_with address (codes "2001:db8:")

abbrev pub or_zero : Text → Text
or_zero [] = codes "0"
or_zero (c ∷ s) = c ∷ s

unfoldable pub is_blocked_ipv6 : Text → Bool
is_blocked_ipv6 address =
    let normalized = first_part 37 (to_lower_case address) in
    if same_text normalized (codes "::") || same_text normalized (codes "::1")
    then true
    else if starts_with normalized (codes "::ffff:")
    then is_blocked_ipv4 (drop 7 normalized)
    else is_blocked_first normalized (hex_prefix none (or_zero (first_part 58 normalized)))
