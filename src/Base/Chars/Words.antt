-- ===== src/Base/Chars/Words.antt =====
-- `strip` and `split` on a text that ends in a word.
use Prim.Native.Nat.{ℕ}
use mathlib.Core.Path.{◌≡◌, refl, ap, ◌∙◌}
use mathlib.Core.Logic.{inl, inr}
use mathlib.Core.Bool.{false}
use mathlib.Core.List.{List, [], ◌∷◌, ◌++◌, append_assoc, append-nil}
use insatomcat_webui.Base.Tests.{Bool-cases}
use insatomcat_webui.Base.Lists.{null}
use insatomcat_webui.Base.Chars.{
  Text, is_space, strip, drop_spaces, drop_last_spaces, drop_last_spaces-NoSpaces, NoSpaces, close,
  words_from, words, last_word,
}

-- A text that ends in a word keeps that word.
drop_last_spaces-word :
    (s : Text) (c : ℕ) (w : Text) → NoSpaces (c ∷ w) → drop_last_spaces (s ++ c ∷ w) ≡ s ++ c ∷ w
unfolding drop_last_spaces
drop_last_spaces-word [] c w h = drop_last_spaces-NoSpaces (c ∷ w) h
drop_last_spaces-word (d ∷ []) c w h = rw (drop_last_spaces-word [] c w h)
drop_last_spaces-word (d ∷ e ∷ s) c w h = rw (drop_last_spaces-word (e ∷ s) c w h)

pub strip-word :
    (d : ℕ) (s : Text) (c : ℕ) (w : Text)
    → is_space d ≡ false
    → NoSpaces (c ∷ w)
    → strip (d ∷ s ++ c ∷ w) ≡ d ∷ s ++ c ∷ w
unfolding strip drop_spaces
strip-word d s c w hd h = ap drop_spaces (drop_last_spaces-word (d ∷ s) c w h) ∙ rw hd

word_in : (ws : List Text) (c : ℕ) (w : Text) → last_word ws ≡ c ∷ w → null ws ≡ false
unfolding last_word
word_in [] c w h = absurd (cc h)
word_in (v ∷ ws) c w h = refl

last_word-close :
    (cur : Text) (ws : List Text) → null ws ≡ false → last_word (close cur ws) ≡ last_word ws
unfolding last_word
last_word-close cur [] h = absurd (cc h)
last_word-close [] (v ∷ ws) h = refl
last_word-close (c ∷ cur) (v ∷ ws) h = refl

words_from-word :
    (w : Text) (c : ℕ) (cur : Text) → NoSpaces w → words_from (c ∷ cur) w ≡ (c ∷ cur ++ w) ∷ []
unfolding words_from
words_from-word [] c cur n = rw append-nil
words_from-word (d ∷ w) c cur (hd, n) =
    rw hd
      (words_from-word w c (cur ++ d ∷ []) n ∙ ap (λ x. (c ∷ x) ∷ []) (append_assoc cur (d ∷ []) w))

last_word-words_from :
    (s cur : Text) (c : ℕ) (w : Text)
    → NoSpaces (c ∷ w)
    → last_word (words_from cur (s ++ 32 ∷ c ∷ w)) ≡ c ∷ w
unfolding words_from last_word
last_word-words_from [] cur c w (hc, h) =
    rw (hc, words_from-word w c [] h) (last_word-close cur ((c ∷ w) ∷ []) refl)
last_word-words_from (d ∷ s) cur c w h = elim (Bool-cases (is_space d)) [
  | inl e ↦
      let k = last_word-words_from s [] c w h in rw e (last_word-close cur _ (word_in _ c w k) ∙ k)
  | inr e ↦ rw e (last_word-words_from s (cur ++ d ∷ []) c w h)
]

pub last_word-words :
    (s : Text) (c : ℕ) (w : Text) → NoSpaces (c ∷ w) → last_word (words (s ++ 32 ∷ c ∷ w)) ≡ c ∷ w
unfolding words
last_word-words s c w h = last_word-words_from s [] c w h

drop_spaces_head : (c : ℕ) (s : Text) → is_space c ≡ false → null (drop_spaces (c ∷ s)) ≡ false
unfolding drop_spaces
drop_spaces_head c s h = rw h

pub strip_head : (c : ℕ) (s : Text) → is_space c ≡ false → null (strip (c ∷ s)) ≡ false
unfolding strip drop_last_spaces
strip_head c s h = elim (Bool-cases (null (drop_last_spaces s))) [
  | inl e ↦ rw (e, h) (drop_spaces_head c (drop_last_spaces s) h)
  | inr e ↦ rw e (drop_spaces_head c (drop_last_spaces s) h)
]
