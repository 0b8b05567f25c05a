-- ===== src/Base/Chars/Breaks.antt =====
-- Python's line breaks: what reading a file as text makes of them, and `splitlines`.
use Prim.Native.Nat.{ℕ}
use mathlib.Core.Bool.{Bool, true, false, ◌&&◌, ◌||◌}
use mathlib.Core.List.{List, [], ◌∷◌, ◌++◌}
use insatomcat_webui.Base.Tests.{leb, ◌=?◌, if◌then◌else◌}
use insatomcat_webui.Base.Chars.{Text}

-- Universal newlines of `read_text`: a carriage return, with the line feed behind it, is a line feed.
unfoldable pub newlines : Bool → Text → Text
newlines after_cr [] = []
newlines after_cr (c ∷ s) =
    let returned = 10 ∷ newlines true s in
    let joined = newlines false s in
    if c =? 13 then returned else if after_cr && (c =? 10) then joined else c ∷ joined

-- what `str.splitlines` splits at
abbrev pub is_break : ℕ → Bool
is_break c =
    (leb 10 c && leb c 13) || (leb 28 c && leb c 30) || (c =? 133) || (c =? 8232) || (c =? 8233)

abbrev last_line : Text → List Text
last_line [] = []
last_line (c ∷ s) = (c ∷ s) ∷ []

unfoldable pub lines_from : Text → Text → List Text
lines_from cur [] = last_line cur
lines_from cur (c ∷ s) =
    let ended = cur ∷ lines_from [] s in
    let longer = lines_from (cur ++ c ∷ []) s in if is_break c then ended else longer

-- `read_text().splitlines()`
unfoldable pub split_lines : Text → List Text
unfolding newlines lines_from
split_lines content = lines_from [] (newlines false content)
