-- ===== src/Hosts/Route/Gateways.antt =====
-- The gateways that are read from /proc/net/route.
use mathlib.Core.Option
use insatomcat_webui.Base.{
  ℕ, ◌+◌, ◌*◌, ◌/◌, ◌%◌, ◌^◌, ◌<◌, ℤ, pos, negsuc, String, ◌≡◌, refl, subst, inl, inr, Option, none,
  some, List, [], ◌∷◌, All, All-append, arith, Bool-cases, Option-cases, ◌==◌, Text, text_of,
  codes-text_of, strip-NoSpaces, words, join_text, decimal, IsDecimal, decimal-IsDecimal,
}
use insatomcat_webui.Inventory.Address.{v4, address}
use insatomcat_webui.Inventory.Address.Dotted.{parse_v4-dotted}
use insatomcat_webui.Hosts.Tree.{Tree, given, read_text, text_lines}
use insatomcat_webui.Hosts.Route.{
  int_of_hex, byte_at, dotted, bytes_of, hex_to_ipv4, Route, route_if, route_in, route_of,
  behind_first, default_route,
}
use insatomcat_webui.Hosts.Route.Hex.{
  bytes_of-pos, hex_signed-kernel, kernel_hex, kernel_hex-NoSpaces,
}

-- An IPv4 address that the kernel prints in its little endian hexadecimal is read back as the dotted text
-- of its bytes.
pub hex_to_ipv4-kernel_hex :
    (a b c d : ℕ)
    → a < 256
    → b < 256
    → c < 256
    → d < 256
    → hex_to_ipv4 (kernel_hex a b c d) ≡ some (dotted a b c d)
unfolding hex_to_ipv4 int_of_hex
hex_to_ipv4-kernel_hex a b c d ha hb hc hd =
    rw
      (
        strip-NoSpaces (kernel_hex a b c d) (kernel_hex-NoSpaces a b c d ha hb hc hd),
        hex_signed-kernel a b c d ha hb hc hd,
        bytes_of-pos a b c d ha hb hc hd,
      )
      refl

below_256 : (m : ℕ) → m % 256 < 256
below_256 m = omega arith

byte_at-bound : (shift : ℕ) (raw : ℤ) → byte_at shift raw < 256
unfolding byte_at
byte_at-bound shift (pos n) = below_256 (n / 2 ^ shift)
byte_at-bound shift (negsuc n) = omega arith

digits_small : (s : Text) → All IsDecimal s → All (λ k. k < 55296) s
digits_small [] h = tt
digits_small (c ∷ s) (hc, h) = (omega arith, digits_small s h)

-- the text of an IPv4 address
abbrev pub IsIpv4 : String → Type 0
IsIpv4 s = (n : ℕ) × (address (some s) ≡ some (v4 n))

decimal-small : (n : ℕ) → All (λ k. k < 55296) (decimal n)
decimal-small n = digits_small (decimal n) (decimal-IsDecimal n)

dotted-small : (a b c d : ℕ) → All (λ k. k < 55296) (dotted a b c d)
unfolding join_text
dotted-small a b c d =
    let dot : 46 < 55296 = omega arith in
    All-append (λ k. k < 55296) (decimal a) _ (decimal-small a)
      (
        dot,
        All-append (λ k. k < 55296) (decimal b) _ (decimal-small b)
            (
              dot,
              All-append (λ k. k < 55296) (decimal c) _ (decimal-small c) (dot, decimal-small d),
            ),
      )

dotted-IsIpv4 :
    (a b c d : ℕ) → a < 256 → b < 256 → c < 256 → d < 256 → IsIpv4 (text_of (dotted a b c d))
unfolding address
dotted-IsIpv4 a b c d ha hb hc hd = (
  ((a * 256 + b) * 256 + c) * 256 + d,
  rw (codes-text_of (dotted a b c d) (dotted-small a b c d), parse_v4-dotted a b c d ha hb hc hd)
      refl,
)

hex_to_ipv4-IsIpv4 : (value t : Text) → hex_to_ipv4 value ≡ some t → IsIpv4 (text_of t)
unfolding hex_to_ipv4 bytes_of
hex_to_ipv4-IsIpv4 value t e = elim (Option-cases (int_of_hex value)) [
  | inl n ↦ absurd (let k = rw n at e in cc k)
  | inr (raw, n) ↦
      let k : dotted (byte_at 0 raw) (byte_at 8 raw) (byte_at 16 raw) (byte_at 24 raw) ≡ t =
        (let m = rw n at e in cc m) in
      subst (λ x. IsIpv4 (text_of x)) k
        (dotted-IsIpv4 _ _ _ _ (byte_at-bound 0 raw) (byte_at-bound 8 raw) (byte_at-bound 16 raw)
          (byte_at-bound 24 raw))
]

-- A route whose gateway, if it has one, is an IPv4 address.
abbrev IsSound : Route → Type 0
IsSound r = (g : String) → r.gateway ≡ some g → IsIpv4 g

gateway-IsIpv4 :
    (value : Text) (g : String) → Option.map text_of (hex_to_ipv4 value) ≡ some g → IsIpv4 g
gateway-IsIpv4 value g e = elim (Option-cases (hex_to_ipv4 value)) [
  | inl n ↦ absurd (let k = rw n at e in cc k)
  | inr (t, n) ↦
      let k : text_of t ≡ g = (let m = rw n at e in cc m) in
      subst IsIpv4 k (hex_to_ipv4-IsIpv4 value t n)
]

route_if-IsSound :
    (fields : List Text) (rest : Route) → IsSound rest → IsSound (route_if fields rest)
unfolding route_if
route_if-IsSound [] rest h = h
route_if-IsSound (_ ∷ []) rest h = h
route_if-IsSound (_ ∷ _ ∷ []) rest h = h
route_if-IsSound (name ∷ destination ∷ gateway ∷ _) rest h =
    elim (Bool-cases (text_of destination == "00000000")) [
      | inl e ↦ rw e (gateway-IsIpv4 gateway)
      | inr e ↦ rw e h
    ]

route_in-IsSound : (lines : List Text) → IsSound (route_in lines)
unfolding route_in
route_in-IsSound [] = λ g e. absurd (cc e)
route_in-IsSound (line ∷ lines) =
    route_if-IsSound (words line) (route_in lines) (route_in-IsSound lines)

route_of-IsSound : (raw : Option String) → IsSound (route_of raw)
unfolding route_of
route_of-IsSound none = λ g e. absurd (cc e)
route_of-IsSound (some raw) = route_in-IsSound (behind_first (text_lines raw))

pub default_route-IsIpv4 :
    (tree : Tree) (g : String) → (default_route tree).gateway ≡ some g → IsIpv4 g
unfolding default_route
default_route-IsIpv4 tree g e =
    route_of-IsSound (given (read_text tree ("proc/net/route" ∷ []))) g e
