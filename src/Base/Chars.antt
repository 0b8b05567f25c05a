-- ===== src/Base/Chars.antt =====
-- Python's `str` where the code walks it: the list of its code points, with the operations used.
pub mod Words
pub mod Breaks
pub mod Native
use Prim.Native.Nat.{ℕ, zero, suc, ◌+◌, ◌-◌, ◌*◌, ◌/◌, ◌%◌, ◌≤◌, ◌<◌, compare, Ordering}
use Prim.Native.Char.{Char, char, code, nul}
use Prim.Native.String
use Prim.Native.String.{String}
use mathlib.Core.Path.{◌≡◌, refl}
use mathlib.Core.Bool.{Bool, true, false, ◌&&◌, ◌||◌}
use mathlib.Core.Option.{Option, none, some}
use mathlib.Core.List.{List, [], ◌∷◌, ◌++◌, append_assoc, append-nil}
use native.Mathlib.Omega.{arith}
use insatomcat_webui.Base.Tests.{Bool-cases, =?_iff}
use mathlib.Core.Logic.{inl, inr}
use mathlib.Core.Path.{ap, sym, ◌∙◌}
use text.Mathlib.TextLemmas.{nil-append, cons-append}
use text.Mathlib.TextEquality.{Char-path}
use mathlib.Core.Logic.{◌≢◌}
use insatomcat_webui.Base.Tests.{ltb, leb, ◌=?◌, if◌then◌else◌}
use insatomcat_webui.Base.Lists.{All, null}

abbrev pub Text : Type 0
Text = List ℕ

abbrev pub codes : String → Text
codes String.[] = []
codes (String.◌∷◌ c s) = code c ∷ codes s

-- An f-string, piece by piece.
unfoldable pub concat : List String → String
concat [] = ""
concat (s ∷ ss) = String.◌++◌ s (concat ss)

-- `sep.join(ss)`
unfoldable pub join : String → List String → String
join sep [] = ""
join sep (s ∷ []) = s
join sep (s ∷ t ∷ ss) = String.◌++◌ s (String.◌++◌ sep (join sep (t ∷ ss)))

-- `c.isspace()`, which is what `strip` and `split` take for white space
abbrev pub is_space : ℕ → Bool
is_space c =
    (leb 9 c && leb c 13)
    || (leb 28 c && leb c 32)
    || (c =? 133)
    || (c =? 160)
    || (c =? 5760)
    || (leb 8192 c && leb c 8202)
    || (c =? 8232)
    || (c =? 8233)
    || (c =? 8239)
    || (c =? 8287)
    || (c =? 12288)

drop_spaces : Text → Text
drop_spaces [] = []
drop_spaces (c ∷ s) = let rest = drop_spaces s in if is_space c then rest else c ∷ s

drop_last_spaces : Text → Text
drop_last_spaces [] = []
drop_last_spaces (c ∷ s) =
    let rest = drop_last_spaces s in if null rest && is_space c then [] else c ∷ rest

-- `s.strip()`
unfoldable pub strip : Text → Text
unfolding drop_spaces drop_last_spaces
strip s = drop_spaces (drop_last_spaces s)

-- puts a word that has ended in front of those behind it
abbrev close : Text → List Text → List Text
close [] ws = ws
close (c ∷ w) ws = (c ∷ w) ∷ ws

words_from : Text → Text → List Text
words_from cur [] = close cur []
words_from cur (c ∷ s) =
    let ended = close cur (words_from [] s) in
    let longer = words_from (cur ++ c ∷ []) s in if is_space c then ended else longer

-- `s.split()`
unfoldable pub words : Text → List Text
unfolding words_from
words s = words_from [] s

-- `ws[-1]`, with the empty text where Python raises `IndexError`
unfoldable pub last_word : List Text → Text
last_word [] = []
last_word (w ∷ []) = w
last_word (w ∷ v ∷ ws) = last_word (v ∷ ws)

-- `s.startswith(p)`
unfoldable pub starts_with : Text → Text → Bool
starts_with s [] = true
starts_with [] (d ∷ p) = false
starts_with (c ∷ s) (d ∷ p) = (c =? d) && starts_with s p

abbrev prepend : ℕ → Text × Bool × Text → Text × Bool × Text
prepend c (before, found, after) = (c ∷ before, found, after)

-- `s.partition(sep)` at a separator of one character; the flag says that it was found.
unfoldable pub partition : ℕ → Text → Text × Bool × Text
partition sep [] = ([], false, [])
partition sep (c ∷ s) =
    let rest = prepend c (partition sep s) in if c =? sep then ([], true, s) else rest

split_from : ℕ → Text → Text → List Text
split_from sep cur [] = cur ∷ []
split_from sep cur (c ∷ s) =
    let closed = cur ∷ split_from sep [] s in
    let longer = split_from sep (cur ++ c ∷ []) s in if c =? sep then closed else longer

-- `sep.join(ts)` at a separator of one character
unfoldable pub join_text : ℕ → List Text → Text
join_text sep [] = []
join_text sep (t ∷ []) = t
join_text sep (t ∷ u ∷ ts) = t ++ sep ∷ join_text sep (u ∷ ts)

-- `s.split(sep)`
unfoldable pub split_on : ℕ → Text → List Text
unfolding split_from
split_on sep s = split_from sep [] s

module _ (sep : ℕ) where
  split_from-append :
      (t s cur : Text)
      → All (λ c. (c =? sep) ≡ false) t
      → split_from sep cur (t ++ s) ≡ split_from sep (cur ++ t) s
  unfolding split_from
  split_from-append [] s cur h = rw append-nil
  split_from-append (c ∷ t) s cur (hc, h) =
      rw hc (rw (split_from-append t s (cur ++ c ∷ []) h, append_assoc))

  split_from-join :
      (t : Text) (ts : List Text)
      → All (All (λ c. (c =? sep) ≡ false)) (t ∷ ts)
      → split_from sep [] (join_text sep (t ∷ ts)) ≡ t ∷ ts
  unfolding join_text split_from
  split_from-join t [] (h, _) =
      ap (split_from sep []) (sym (append-nil t)) ∙ split_from-append t [] [] h
  split_from-join t (u ∷ ts) (h, hs) =
      rw (split_from-append t _ [] h) (ground (arith, split_from-join u ts hs))

-- Splitting what was joined gives the parts back, if there is one and none holds the separator.
pub split_on-join :
    (sep : ℕ) (t : Text) (ts : List Text)
    → All (All (λ c. (c =? sep) ≡ false)) (t ∷ ts)
    → split_on sep (join_text sep (t ∷ ts)) ≡ t ∷ ts
unfolding split_on
split_on-join sep t ts h = split_from-join sep t ts h

abbrev pub NoSpaces : Text → Type 0
NoSpaces = All (λ c. is_space c ≡ false)

drop_last_spaces-NoSpaces : (s : Text) → NoSpaces s → drop_last_spaces s ≡ s
unfolding drop_last_spaces
drop_last_spaces-NoSpaces [] h = refl
drop_last_spaces-NoSpaces (c ∷ s) (hc, hs) = ground (arith, drop_last_spaces-NoSpaces s hs)

drop_spaces-NoSpaces : (s : Text) → NoSpaces s → drop_spaces s ≡ s
unfolding drop_spaces
drop_spaces-NoSpaces [] h = refl
drop_spaces-NoSpaces (c ∷ s) (hc, hs) = rw hc

pub strip-NoSpaces : (s : Text) → NoSpaces s → strip s ≡ s
unfolding strip
strip-NoSpaces s h = rw (drop_last_spaces-NoSpaces s h) (drop_spaces-NoSpaces s h)

pub partition-append :
    (sep : ℕ) (s t : Text)
    → All (λ c. (c =? sep) ≡ false) s
    → partition sep (s ++ sep ∷ t) ≡ (s, true, t)
unfolding partition
partition-append sep [] t h = ground arith
partition-append sep (c ∷ s) t (hc, hs) = rw (hc, partition-append sep s t hs)

pub partition-none :
    (sep : ℕ) (s : Text) → All (λ c. (c =? sep) ≡ false) s → partition sep s ≡ (s, false, [])
unfolding partition
partition-none sep [] h = refl
partition-none sep (c ∷ s) (hc, hs) = rw (hc, partition-none sep s hs)

-- behind the surrogates
above_surrogates :
    (n : ℕ) (p q : Ordering)
    → compare n 55296 ≡ Ordering.gt
    → compare 57343 n ≡ p
    → compare n 1114112 ≡ q
    → Char
above_surrogates n Ordering.lt Ordering.lt high e f = char n (rw (high, e, f) tt)
above_surrogates n _ _ high e f = nul

scalar : (n : ℕ) (o : Ordering) → compare n 55296 ≡ o → Char
unfolding above_surrogates
scalar n Ordering.lt e = char n (rw e tt)
scalar n Ordering.eq e = nul
scalar n Ordering.gt e = above_surrogates n (compare 57343 n) (compare n 1114112) e refl refl

-- The text of a list of code points.
unfoldable pub text_of : Text → String
unfolding scalar
text_of [] = ""
text_of (c ∷ s) = String.◌∷◌ (scalar c (compare c 55296) refl) (text_of s)

code-scalar : (n : ℕ) (o : Ordering) (e : compare n 55296 ≡ o) → n < 55296 → code (scalar n o e) ≡ n
unfolding scalar
code-scalar n Ordering.lt e h = refl
code-scalar n Ordering.eq e h = absurd (ground arith)
code-scalar n Ordering.gt e h = absurd (ground arith)

-- Text that is built from code points below the surrogates is walked as it was built.
pub codes-text_of : (s : Text) → All (λ c. c < 55296) s → codes (text_of s) ≡ s
unfolding text_of
codes-text_of [] h = refl
codes-text_of (c ∷ s) (hc, hs) = cc (code-scalar c (compare c 55296) refl hc, codes-text_of s hs)
