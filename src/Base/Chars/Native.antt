-- ===== src/Base/Chars/Native.antt =====
-- Python's `str` where the code searches it: the native texts.
use Prim.Native.Nat.{ℕ}
use Prim.Native.Char.{Char, code}
use Prim.Native.String
use Prim.Native.String.{String}
use mathlib.Core.Path.{◌≡◌, refl}
use mathlib.Core.Bool.{Bool, true, false}
use native.Mathlib.Omega.{arith}
use insatomcat_webui.Base.Tests.{Bool-cases, =?_iff}
use mathlib.Core.Logic.{inl, inr}
use mathlib.Core.Path.{ap}
use text.Mathlib.TextLemmas.{nil-append, cons-append}
use text.Mathlib.TextEquality.{Char-path}
use mathlib.Core.Logic.{◌≢◌}
use insatomcat_webui.Base.Tests.{ltb, ◌=?◌, if◌then◌else◌}

-- `partition` on the native texts.
abbrev prepend_char : Char → String × Bool × String → String × Bool × String
prepend_char c (before, found, after) = (String.◌∷◌ c before, found, after)

unfoldable pub partition_string : ℕ → String → String × Bool × String
partition_string sep String.[] = ("", false, "")
partition_string sep (String.◌∷◌ c s) =
    let rest = prepend_char c (partition_string sep s) in
    if code c =? sep then ("", true, s) else rest

abbrev pub LacksCode : ℕ → String → Type 0
LacksCode sep String.[] = Unit
LacksCode sep (String.◌∷◌ c s) = (code c ≢ sep) × LacksCode sep s

-- What `s.encode("ascii", "ignore")` keeps.
unfoldable pub ascii_only : String → String
ascii_only String.[] = ""
ascii_only (String.◌∷◌ c s) =
    let rest = ascii_only s in if ltb (code c) 128 then String.◌∷◌ c rest else rest

pub partition_string-append :
    (c : Char) (s t : String)
    → LacksCode (code c) s
    → partition_string (code c) (String.◌++◌ s (String.◌∷◌ c t)) ≡ (s, true, t)
unfolding partition_string
partition_string-append c String.[] t h = rw nil-append (ground arith)
partition_string-append c (String.◌∷◌ d s) t (hd, hs) =
    rw cons-append (ground (arith, partition_string-append c s t hs))

module _ (c : Char) where
  sound_here :
      (d : Char) (s before after : String)
      → code d ≡ code c
      → ◌≡◌ {A = String × Bool × String} ("", true, s) (before, true, after)
      → (String.◌∷◌ d s ≡ String.◌++◌ before (String.◌∷◌ c after)) × LacksCode (code c) before
  sound_here d s before after e h =
      rw
        (
          ← ap (λ (t : String × Bool × String). t.0) h,
          ← ap (λ (t : String × Bool × String). t.2) h,
          nil-append,
          Char-path d c e,
        )
        (refl, tt)

  sound_later :
      (d : Char) (s before after : String) (r : String × Bool × String)
      → code d ≢ code c
      → ◌≡◌ {A = String × Bool × String} (prepend_char d r) (before, true, after)
      → (r.1 ≡ true → (s ≡ String.◌++◌ r.0 (String.◌∷◌ c r.2)) × LacksCode (code c) r.0)
      → (String.◌∷◌ d s ≡ String.◌++◌ before (String.◌∷◌ c after)) × LacksCode (code c) before
  sound_later d s before after (b, f, a) ne h ih =
      let (e, l) = ih (ap (λ (t : String × Bool × String). t.1) h) in
      rw
        (
          ← ap (λ (t : String × Bool × String). t.0) h,
          ← ap (λ (t : String × Bool × String). t.2) h,
          cons-append,
        )
        (ap (λ t. String.◌∷◌ d t) e, (ne, l))

pub partition_string_sound :
    (c : Char) (s : String)
    → (partition_string (code c) s).1 ≡ true
    → (s
        ≡ String.◌++◌
            (partition_string (code c) s).0
            (String.◌∷◌ c (partition_string (code c) s).2))
      × LacksCode (code c) (partition_string (code c) s).0
unfolding partition_string
partition_string_sound c String.[] h = absurd (cc)
partition_string_sound c (String.◌∷◌ d s) h = elim (Bool-cases (code d =? code c)) [
  | inl e ↦ rw e (sound_here c d s "" s ((=?_iff _ _).0 e) refl)
  | inr e ↦ rw e (
      sound_later c d s _ _ (partition_string (code c) s) (ground arith)
        (ap
          (λ (f : Bool).
            (String.◌∷◌ d (partition_string (code c) s).0, f, (partition_string (code c) s).2))
          (rw e at h))
        (partition_string_sound c s))
]
