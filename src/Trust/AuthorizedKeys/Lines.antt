-- ===== src/Trust/AuthorizedKeys/Lines.antt =====
-- The lines of a file that the service wrote, and the comment of a line that it rendered.
use insatomcat_webui.Base.{
  ℕ, ◌≡◌, refl, ap, ◌∙◌, inl, inr, true, false, some, List, [], ◌∷◌, ◌++◌, ◌=?◌, All, arith,
  Bool-cases, if◌then◌else◌, null, Text, strip, starts_with, join_text, is_space, NoSpaces,
  append-nil, append_assoc, newlines, is_break, lines_from, split_lines,
}
use insatomcat_webui.Base.Chars.Words.{strip-word, last_word-words}
use insatomcat_webui.Trust.AuthorizedKeys.{
  AuthorizedKey, comment_prefix, options_of, render, comment_of,
}

-- a text within one line
abbrev pub Unbroken : Text → Type 0
Unbroken = All (λ c. is_break c ≡ false)

abbrev lines_text : List Text → Text
lines_text [] = []
lines_text (t ∷ ts) = t ++ 10 ∷ lines_text ts

written_lem :
    (ts : List Text) → join_text 10 ts ++ (if null ts then [] else 10 ∷ []) ≡ lines_text ts
unfolding join_text
written_lem [] = refl
written_lem (t ∷ []) = refl
written_lem (t ∷ u ∷ ts) = append_assoc t _ _ ∙ ap (λ s. t ++ 10 ∷ s) (written_lem (u ∷ ts))

lines_from-append :
    (t s cur : Text) → Unbroken t → lines_from cur (t ++ 10 ∷ s) ≡ (cur ++ t) ∷ lines_from [] s
unfolding lines_from
lines_from-append [] s cur h = rw append-nil
lines_from-append (c ∷ t) s cur (hc, h) = rw hc (
    lines_from-append t s (cur ++ c ∷ []) h
    ∙ ap (λ x. x ∷ lines_from [] s) (append_assoc cur (c ∷ []) t))

lines_from-lines_text : (ts : List Text) → All Unbroken ts → lines_from [] (lines_text ts) ≡ ts
unfolding lines_from
lines_from-lines_text [] h = refl
lines_from-lines_text (t ∷ ts) (ht, h) =
    lines_from-append t (lines_text ts) [] ht ∙ ap (λ l. t ∷ l) (lines_from-lines_text ts h)

newlines-append :
    (t s : Text) → Unbroken t → newlines false (t ++ 10 ∷ s) ≡ t ++ 10 ∷ newlines false s
unfolding newlines
newlines-append [] s h = refl
newlines-append (c ∷ t) s (hc, h) = ground (arith, newlines-append t s h)

newlines-lines_text :
    (ts : List Text) → All Unbroken ts → newlines false (lines_text ts) ≡ lines_text ts
unfolding newlines
newlines-lines_text [] h = refl
newlines-lines_text (t ∷ ts) (ht, h) =
    newlines-append t (lines_text ts) ht ∙ ap (λ s. t ++ 10 ∷ s) (newlines-lines_text ts h)

-- Reading what was written gives the lines back.
pub split_lines-write :
    (ts : List Text)
    → All Unbroken ts
    → split_lines (join_text 10 ts ++ (if null ts then [] else 10 ∷ [])) ≡ ts
unfolding split_lines
split_lines-write ts h =
    ap (λ s. lines_from [] (newlines false s)) (written_lem ts)
    ∙ ap (lines_from []) (newlines-lines_text ts h)
    ∙ lines_from-lines_text ts h

Unbroken-append : (s t : Text) → Unbroken s → Unbroken t → Unbroken (s ++ t)
Unbroken-append [] t hs ht = ht
Unbroken-append (c ∷ s) t (hc, hs) ht = (hc, Unbroken-append s t hs ht)

lines_from-Unbroken : (s cur : Text) → Unbroken cur → All Unbroken (lines_from cur s)
unfolding lines_from
lines_from-Unbroken [] [] h = tt
lines_from-Unbroken [] (c ∷ cur) h = (h, tt)
lines_from-Unbroken (c ∷ s) cur h = elim (Bool-cases (is_break c)) [
  | inl e ↦ rw e (h, lines_from-Unbroken s [] tt)
  | inr e ↦ rw e (lines_from-Unbroken s (cur ++ c ∷ []) (Unbroken-append cur (c ∷ []) h (e, tt)))
]

pub split_lines-Unbroken : (content : Text) → All Unbroken (split_lines content)
unfolding split_lines
split_lines-Unbroken content = lines_from-Unbroken (newlines false content) [] tt

-- A key as the service makes them: a comment of one word with the prefix of the service, and no line
-- break in any part.
pub record IsKey (key : AuthorizedKey) : Type 0 where
  pub head : ℕ
  pub tail : Text
  pub comment_form : key.comment ≡ head ∷ tail
  pub one_word : NoSpaces (head ∷ tail)
  pub prefixed : starts_with (head ∷ tail) comment_prefix ≡ true
  pub on_one_line : Unbroken (render key)

options-head :
    (froms : List Text)
    → (d : ℕ) × (s : Text) × (options_of froms ≡ d ∷ s)
      × (is_space d ≡ false)
      × ((d =? b'#') ≡ false)
options-head [] = (b'r', _, refl, refl, refl)
options-head (a ∷ froms) = (b'f', _, refl, refl, refl)

strip-line :
    (d : ℕ) (s : Text) (c : ℕ) (w : Text)
    → is_space d ≡ false
    → NoSpaces (c ∷ w)
    → strip (d ∷ s ++ 32 ∷ c ∷ w) ≡ d ∷ s ++ 32 ∷ c ∷ w
strip-line d s c w hd h =
    let k = strip-word d (s ++ 32 ∷ []) c w hd h in
    let m = rw (append_assoc s (32 ∷ []) (c ∷ w)) at k in m

line_comment :
    (d : ℕ) (s : Text) (c : ℕ) (w : Text)
    → is_space d ≡ false
    → (d =? b'#') ≡ false
    → NoSpaces (c ∷ w)
    → starts_with (c ∷ w) comment_prefix ≡ true
    → comment_of (d ∷ s ++ 32 ∷ c ∷ w) ≡ some (c ∷ w)
unfolding comment_of starts_with
line_comment d s c w hd hash h p =
    rw (strip-line d s c w hd h, last_word-words (d ∷ s) c w h, hash, p)

-- The comment of a rendered key is read back.
pub comment_of-render :
    (key : AuthorizedKey) → IsKey key → comment_of (render key) ≡ some key.comment
unfolding render
comment_of-render key h =
    let (d, s, e, hd, hash) = options-head key.from_addresses in
    let k = line_comment d (s ++ 32 ∷ key.public_key) h.head h.tail hd hash h.one_word h.prefixed in
    rw (h.comment_form, e) k
