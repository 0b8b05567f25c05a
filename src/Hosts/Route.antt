-- ===== src/Hosts/Route.antt =====
-- app/hosts/local.py: `_default_route`, the interface and the gateway of the default route, and the
-- hexadecimal numbers of /proc/net/route.
pub mod Hex
pub mod Gateways
use mathlib.Core.Option
use insatomcat_webui.Base.{
  ℕ, zero, suc, ◌+◌, ◌-◌, ◌*◌, ◌/◌, ◌%◌, ◌^◌, ℤ, pos, negsuc, String, ◌==◌, ◌=?◌, leb, ltb, Bool,
  true, false, not, ◌&&◌, ◌||◌, Option, none, some, List, [], ◌∷◌, ◌++◌, if◌then◌else◌, map, length,
  Text, codes, text_of, strip, words, join_text, decimal,
}
use insatomcat_webui.Hosts.Tree.{Tree, read_text, text_lines, given}

abbrev is_between : ℕ → ℕ → ℕ → Bool
is_between low high c = leb low c && leb c high

unfoldable pub hex_digit : ℕ → Option ℕ
hex_digit c =
    if is_between b'0' b'9' c
    then some (c - b'0')
    else if is_between b'a' b'f' c
    then some (c - b'a' + 10)
    else if is_between b'A' b'F' c
    then some (c - b'A' + 10)
    else none

-- digits with single underscores between them; the flag says that a digit has to come
unfoldable pub hex_digits : Bool → Text → ℕ → Option ℕ
unfolding hex_digit
hex_digits need [] n = if need then none else some n
hex_digits need (c ∷ s) n = elim (hex_digit c) [
  | some d ↦ hex_digits false s (n * 16 + d)
  | none ↦ let rest = hex_digits true s n in if (c =? b'_') && not need then rest else none
]

-- behind the sign: an optional `0x`, which an underscore may follow
unfoldable pub hex_unsigned : Text → Option ℕ
unfolding hex_digits
hex_unsigned (z ∷ x ∷ u ∷ s) =
    if (z =? b'0') && ((x =? b'x') || (x =? b'X'))
    then (if u =? b'_' then hex_digits true s 0 else hex_digits true (u ∷ s) 0)
    else hex_digits true (z ∷ x ∷ u ∷ s) 0
hex_unsigned (z ∷ x ∷ []) = hex_digits true (z ∷ x ∷ []) 0
hex_unsigned (z ∷ []) = hex_digits true (z ∷ []) 0
hex_unsigned [] = none

abbrev negated : ℕ → ℤ
negated zero = pos 0
negated (suc n) = negsuc n

pub hex_signed : Text → Option ℤ
unfolding hex_unsigned
hex_signed [] = none
hex_signed (c ∷ s) =
    if c =? b'-'
    then Option.map negated (hex_unsigned s)
    else if c =? b'+'
    then Option.map pos (hex_unsigned s)
    else Option.map pos (hex_unsigned (c ∷ s))

-- `int(s, 16)` for ASCII digits; `none` is `ValueError`.
unfoldable pub int_of_hex : Text → Option ℤ
unfolding hex_signed strip
int_of_hex s = hex_signed (strip s)

-- `(raw >> shift) & 0xFF`; the bits of a negative number are those of its complement, turned around
unfoldable pub byte_at : ℕ → ℤ → ℕ
byte_at shift (pos n) = n / 2 ^ shift % 256
byte_at shift (negsuc n) = 255 - n / 2 ^ shift % 256

abbrev pub dotted : ℕ → ℕ → ℕ → ℕ → Text
dotted a b c d = join_text b'.' (decimal a ∷ decimal b ∷ decimal c ∷ decimal d ∷ [])

unfoldable pub bytes_of : ℤ → Text
unfolding byte_at
bytes_of raw = dotted (byte_at 0 raw) (byte_at 8 raw) (byte_at 16 raw) (byte_at 24 raw)

-- `_hex_to_ipv4`
unfoldable pub hex_to_ipv4 : Text → Option Text
unfolding int_of_hex bytes_of
hex_to_ipv4 value = Option.map bytes_of (int_of_hex value)

pub record Route : Type 0 where
  pub interface : Option String
  pub gateway : Option String

abbrev pub no_route : Route
no_route = record { interface = none; gateway = none }

-- a line of at least three fields whose destination is zero
abbrev route_if : List Text → Route → Route
unfolding hex_to_ipv4
route_if (name ∷ destination ∷ gateway ∷ _) rest =
    if text_of destination == "00000000"
    then record {
      interface = some (text_of name);
      gateway = Option.map text_of (hex_to_ipv4 gateway);
    }
    else rest
route_if fields rest = rest

-- the loop of `_default_route`
unfoldable pub route_in : List Text → Route
unfolding route_if words
route_in [] = no_route
route_in (line ∷ lines) = route_if (words line) (route_in lines)

abbrev behind_first : List Text → List Text
behind_first [] = []
behind_first (_ ∷ lines) = lines

abbrev route_of : Option String → Route
unfolding route_in text_lines
route_of none = no_route
route_of (some raw) = route_in (behind_first (text_lines raw))

-- `_default_route`
unfoldable pub default_route : Tree → Route
unfolding route_of read_text
default_route tree = route_of (given (read_text tree ("proc/net/route" ∷ [])))
