-- ===== src/Inventory/Address.antt =====
-- `_address` of app/inventory/validation.py, with what it uses of Python's `ipaddress`: the texts
-- of IPv4 and IPv6 addresses, loopback, and networks.
pub mod Dotted
use insatomcat_webui.Base.{
  ℕ, ◌+◌, ◌-◌, ◌*◌, ◌/◌, ◌^◌, String, Bool, true, false, not, ◌&&◌, ◌||◌, Option, none, some, List,
  [], ◌∷◌, ◌=?◌, leb, ltb, if◌then◌else◌, ◌>>=?◌, Text, codes, split_on, partition, length, null,
  any, ◌≡◌, refl,
}

pub data Address : Type 0 where
  v4 : ℕ → Address
  v6 : ℕ → Address

abbrev is_digit : ℕ → Bool
is_digit c = leb b'0' c && leb c b'9'

digits : Text → ℕ → Option ℕ
digits [] n = some n
digits (c ∷ s) n = let rest = digits s (n * 10 + (c - b'0')) in if is_digit c then rest else none

abbrev leading_zero : Text → Bool
leading_zero [] = false
leading_zero (c ∷ []) = false
leading_zero (c ∷ d ∷ s) = c =? b'0'

-- One to three digits, no leading zero, at most 255.
octet : Text → Option ℕ
unfolding digits
octet s =
    if null s || ltb 3 (length s) || leading_zero s
    then none
    else digits s 0 >>=? λ n. if ltb 255 n then none else some n

abbrev four_octets : List Text → Option ℕ
four_octets (a ∷ b ∷ c ∷ d ∷ []) = octet a >>=? λ w.
    octet b >>=? λ x. octet c >>=? λ y. octet d >>=? λ z. some (((w * 256 + x) * 256 + y) * 256 + z)
four_octets _ = none

unfoldable pub parse_v4 : Text → Option ℕ
unfolding octet
parse_v4 s = four_octets (split_on b'.' s)

abbrev hex_digit : ℕ → Option ℕ
hex_digit c =
    if is_digit c
    then some (c - b'0')
    else if leb b'a' c && leb c b'f'
    then some (c - b'a' + 10)
    else if leb b'A' c && leb c b'F'
    then some (c - b'A' + 10)
    else none

hex_digits : Text → ℕ → Option ℕ
hex_digits [] n = some n
hex_digits (c ∷ s) n = hex_digit c >>=? λ d. hex_digits s (n * 16 + d)

-- What stands between two colons.
pub data Part : Type 0 where
  blank bad : Part
  value : ℕ → Part

abbrev as_part : Option ℕ → Part
as_part none = bad
as_part (some n) = value n

-- a hextet: one to four hexadecimal digits
part_of : Text → Part
unfolding hex_digits
part_of [] = blank
part_of (c ∷ s) = if ltb 4 (length (c ∷ s)) then bad else as_part (hex_digits (c ∷ s) 0)

abbrev v4_parts : Option ℕ → Option (List Part)
v4_parts none = none
v4_parts (some n) = some (value (n / 65536) ∷ value (n - n / 65536 * 65536) ∷ [])

-- a dotted last part stands for two hextets
parts_of : List Text → Option (List Part)
unfolding part_of
parts_of [] = some []
parts_of (t ∷ []) = if any (λ c. c =? b'.') t then v4_parts (parse_v4 t) else some (part_of t ∷ [])
parts_of (t ∷ u ∷ ts) = parts_of (u ∷ ts) >>=? λ ps. some (part_of t ∷ ps)

abbrev is_blank : Part → Bool
is_blank blank = true
is_blank bad = false
is_blank (value _) = false

-- the parts before and behind the first blank one that is not the last
split_blank : List Part → Option (List Part × List Part)
split_blank [] = none
split_blank (p ∷ []) = none
split_blank (p ∷ q ∷ ps) =
    let later = split_blank (q ∷ ps) >>=? λ r. some (p ∷ r.0, r.1) in
    if is_blank p then some ([], q ∷ ps) else later

number : List Part → ℕ → Option ℕ
number [] n = some n
number (value v ∷ ps) n = number ps (n * 65536 + v)
number (blank ∷ ps) n = none
number (bad ∷ ps) n = none

abbrev last_blank : List Part → Bool
last_blank [] = false
last_blank (p ∷ []) = is_blank p
last_blank (p ∷ q ∷ ps) = last_blank (q ∷ ps)

-- the parts in front of `::`, where a blank first part may stand alone only
abbrev front : Part → List Part → Option (List Part)
front p hi = if is_blank p then (if null hi then some [] else none) else some (p ∷ hi)

abbrev back : List Part → Option (List Part)
back lo = if last_blank lo then (if length lo =? 1 then some [] else none) else some lo

abbrev is_none : Option (List Part × List Part) → Bool
is_none none = true
is_none (some _) = false

-- `::` stands for at least one hextet of zeros
abbrev filled : List Part → List Part → Option ℕ
filled h l =
    if ltb (length h + length l) 8
    then (number h 0 >>=? λ n. number l (n * 65536 ^ (8 - (length h + length l))))
    else none

abbrev skipping : Part → List Part → Option (List Part × List Part) → Option ℕ
skipping p ps (some (hi, lo)) =
    if is_none (split_blank lo) then (front p hi >>=? λ h. back lo >>=? λ l. filled h l) else none
skipping p ps none = if length (p ∷ ps) =? 8 then number (p ∷ ps) 0 else none

abbrev hextets : List Part → Option ℕ
hextets [] = none
hextets (p ∷ ps) = if ltb 9 (length (p ∷ ps)) then none else skipping p ps (split_blank ps)

abbrev without_scope : Text × Bool × Text → Option Text
without_scope (addr, found, scope) =
    if not found
    then some addr
    else if null scope || any (λ c. c =? b'%') scope
    then none
    else some addr

abbrev colon_parts : List Text → Option ℕ
colon_parts ts = if ltb (length ts) 3 then none else parts_of ts >>=? hextets

unfoldable pub parse_v6 : Text → Option ℕ
unfolding parts_of split_blank number
parse_v6 s =
    if any (λ c. c =? b'/') s
    then none
    else without_scope (partition b'%' s) >>=? λ addr. colon_parts (split_on b':' addr)

abbrev or_v6 : Text → Option ℕ → Option Address
or_v6 s (some n) = some (v4 n)
or_v6 s none = parse_v6 s >>=? λ n. some (v6 n)

-- `_address`: a missing text is read as the empty one, which is no address.
unfoldable pub address : Option String → Option Address
unfolding parse_v4 parse_v6
address none = none
address (some s) = or_v6 (codes s) (parse_v4 (codes s))

unfoldable pub is_loopback : Address → Bool
is_loopback (v4 n) = n / 2 ^ 24 =? 127
is_loopback (v6 n) = n =? 1

-- how many bits an address has, which is the longest prefix that `ip_network` takes of it
abbrev pub width : Address → ℕ
width (v4 _) = 32
width (v6 _) = 128

-- `gateway in ip_network(f"{address}/{prefix}", strict=False)`, where the prefix is no longer than the
-- address; `ip_network` raises for a longer one, which `network_raises` of Inventory/Validation finds
unfoldable pub in_network : Address → ℕ → Address → Bool
in_network (v4 a) prefix (v4 g) = g / 2 ^ (32 - prefix) =? a / 2 ^ (32 - prefix)
in_network (v6 a) prefix (v6 g) = g / 2 ^ (128 - prefix) =? a / 2 ^ (128 - prefix)
in_network (v4 a) prefix (v6 g) = false
in_network (v6 a) prefix (v4 g) = false

addresses_read :
    (address (some "192.168.1.20") ≡ some (v4 3232235796))
    × (address (some "192.168.01.20") ≡ none)
    × (address (some "::1") ≡ some (v6 1))
    × (address (some "fe80::1%eth0") ≡ some (v6 338288524927261089654018896841347694593))
    × (address (some "1:2:3:4:5:6:7:8") ≡ some (v6 5192455318486707404433266433261576))
    × (address (some "::ffff:10.0.0.1") ≡ some (v6 281470849515521))
    × (address (some "1::2::3") ≡ none)
    × (address (some "") ≡ none)
unfolding address split_on partition
addresses_read = (refl, refl, refl, refl, refl, refl, refl, refl)
