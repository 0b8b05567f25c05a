-- ===== src/Api/Runs/Frames.antt =====
-- The frames of the event stream, and events files that only grow.
use insatomcat_webui.Base.{
  ℕ, zero, suc, ◌+◌, ◌≡◌, refl, sym, ap, ◌∙◌, Bool, true, false, All, List, [], ◌∷◌, ◌++◌,
  append_assoc, length, arith,
}
use insatomcat_webui.Runs.Progress.{Summary}
use insatomcat_webui.Runs.Store.{drop, Line, whole, torn, unended, wholes}
use insatomcat_webui.Api.Runs.{Frame, numbered, after}

pub length-numbered : (index : ℕ) (es : List Summary) → length (numbered index es) ≡ length es
unfolding numbered
length-numbered index [] = refl
length-numbered index (e ∷ es) = omega (arith, length-numbered (index + 1) es)

pub numbered-append :
    (index : ℕ) (es fs : List Summary)
    → numbered index (es ++ fs) ≡ numbered index es ++ numbered (index + length es) fs
unfolding numbered
numbered-append index [] fs = ap (λ k. numbered k fs) (omega arith)
numbered-append index (e ∷ es) fs =
    ap (λ l. Frame.event index e ∷ l)
      (numbered-append (index + 1) es fs
        ∙ ap (λ k. numbered (index + 1) es ++ numbered k fs) (omega arith))

drop-length : (es fs : List Summary) → drop (length es) (es ++ fs) ≡ fs
drop-length [] fs = refl
drop-length (e ∷ es) fs = drop-length es fs

-- Behind what was dropped, what comes next is dropped where the first part ends.
pub drop-append :
    (n : ℕ) (es fs : List Summary)
    → drop n (es ++ fs) ≡ drop n es ++ drop (n + length (drop n es)) (es ++ fs)
drop-append zero [] fs = ap (λ k. drop k fs) {x = 0} {y = 0 + 0} (omega arith)
drop-append (suc n) [] fs = ap (λ k. drop k fs) {x = suc n} {y = suc n + 0} (omega arith)
drop-append zero (e ∷ es) fs =
    ap (λ l. (e ∷ es) ++ l)
      (sym (drop-length (e ∷ es) fs)
        ∙ ap (λ k. drop k ((e ∷ es) ++ fs)) {x = length (e ∷ es)} {y = 0 + length (e ∷ es)}
            (omega arith))
drop-append (suc n) (e ∷ es) fs =
    drop-append n es fs
    ∙ ap (λ k. drop n es ++ drop k ((e ∷ es) ++ fs)) {x = suc (n + length (drop n es))}
        {y = suc n + length (drop n es)} (omega arith)

pub after-after :
    (fs gs : List Frame) (r : List Frame × Bool) → after fs (after gs r) ≡ after (fs ++ gs) r
after-after fs gs (frames, closed) = ap (λ l. (l, closed)) (sym (append_assoc fs gs frames))

pub after-nil : (r : List Frame × Bool) → after [] r ≡ r
after-nil (frames, closed) = refl

after-closed : (fs : List Frame) (r : List Frame × Bool) → (after fs r).1 ≡ r.1
after-closed fs (frames, closed) = refl

after-frames : (fs : List Frame) (r : List Frame × Bool) → (after fs r).0 ≡ fs ++ r.0
after-frames fs (frames, closed) = refl

-- A later reading of the events file has the events of the earlier one in front.
abbrev pub Extends : List Summary → List Summary → Type 0
Extends es fs = (more : List Summary) × (fs ≡ es ++ more)

abbrev is_whole : Line → Bool
is_whole (whole _) = true
is_whole torn = false
is_whole unended = false

-- every line is an event
abbrev pub AllWhole : List Line → Type 0
AllWhole = All (λ l. is_whole l ≡ true)

pub wholes-drop : (n : ℕ) (ls : List Line) → AllWhole ls → wholes (drop n ls) ≡ drop n (wholes ls)
wholes-drop zero ls h = refl
wholes-drop (suc n) [] h = refl
wholes-drop (suc n) (whole e ∷ ls) (hl, h) = wholes-drop n ls h
wholes-drop (suc n) (torn ∷ ls) (hl, h) = absurd (cc hl)
wholes-drop (suc n) (unended ∷ ls) (hl, h) = absurd (cc hl)
