-- ===== src/Base/Sort.antt =====
-- Python's `sorted` and `sorted(set(…))`, by insertion.
use Prim.Native.Nat.{ℕ}
use Prim.Native.String.{String, compare}
use mathlib.Core.Bool.{Bool}
use mathlib.Core.List.{List, [], ◌∷◌}
use text.Mathlib.Text.{◌==◌, is_lt}
use insatomcat_webui.Base.Tests.{ltb, ◌=?◌, if◌then◌else◌}

-- code points in order, as Python compares texts
unfoldable pub str_lt : String → String → Bool
str_lt s t = is_lt (compare s t)

-- a text that is there already is not put in again
unfoldable pub insert_sorted : String → List String → List String
unfolding str_lt
insert_sorted s [] = s ∷ []
insert_sorted s (t ∷ ts) =
    let rest = t ∷ insert_sorted s ts in
    if s == t then t ∷ ts else if str_lt s t then s ∷ t ∷ ts else rest

-- `sorted(set(ss))`
unfoldable pub sorted : List String → List String
unfolding insert_sorted
sorted [] = []
sorted (s ∷ ss) = insert_sorted s (sorted ss)

unfoldable pub insert_nat : ℕ → List ℕ → List ℕ
insert_nat a [] = a ∷ []
insert_nat a (b ∷ bs) =
    let rest = b ∷ insert_nat a bs in
    if a =? b then b ∷ bs else if ltb a b then a ∷ b ∷ bs else rest

-- `sorted(set(ns))`
unfoldable pub sorted_nat : List ℕ → List ℕ
unfolding insert_nat
sorted_nat [] = []
sorted_nat (a ∷ bs) = insert_nat a (sorted_nat bs)
