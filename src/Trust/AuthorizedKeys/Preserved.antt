-- ===== src/Trust/AuthorizedKeys/Preserved.antt =====
-- What `install` and `remove` leave of a file that belongs to someone else.
use insatomcat_webui.Base.{
  ◌≡◌, ◌⊎◌, refl, sym, ap, ap₂, subst, ◌∙◌, inl, inr, Bool, true, false, not, some, List, [], ◌∷◌,
  ◌++◌, All, All-append, arith, Bool-cases, Option-cases, keep, keep-append, append-nil, any, Text,
  ok, err, is_some,
}
use insatomcat_webui.Trust.AuthorizedKeys.{
  AuthorizedKey, render, comment_of, same_text, is_text, same_lines, KeyFile, MissingAccount, read,
  write, is_other, kept, rewritten, install, remove, comments, installed,
}
use insatomcat_webui.Trust.AuthorizedKeys.Lines.{
  Unbroken, split_lines-write, split_lines-Unbroken, IsKey, comment_of-render,
}

same_text_refl : (s : Text) → same_text s s ≡ true
same_text_refl [] = refl
same_text_refl (c ∷ s) = ground (arith, same_text_refl s)

same_text_sound : (s t : Text) → same_text s t ≡ true → s ≡ t
same_text_sound [] [] h = refl
same_text_sound [] (d ∷ t) h = absurd (cc h)
same_text_sound (c ∷ s) [] h = absurd (cc h)
same_text_sound (c ∷ s) (d ∷ t) h =
    ap₂ (λ x l. x ∷ l) (ground arith) (same_text_sound s t (ground arith))

same_lines_refl : (s : List Text) → same_lines s s ≡ true
same_lines_refl [] = refl
same_lines_refl (c ∷ s) = rw (same_text_refl c, same_lines_refl s)

same_lines_sound : (s t : List Text) → same_lines s t ≡ true → s ≡ t
same_lines_sound [] [] h = refl
same_lines_sound [] (d ∷ t) h = absurd (cc h)
same_lines_sound (c ∷ s) [] h = absurd (cc h)
same_lines_sound (c ∷ s) (d ∷ t) h =
    ap₂ (λ x l. x ∷ l) (same_text_sound c d (ground arith)) (same_lines_sound s t (ground arith))

-- The lines that the service does not own, in their order.
abbrev pub foreign : List Text → List Text
foreign = keep (λ line. not (is_some (comment_of line)))

foreign-kept : (key : AuthorizedKey) (lines : List Text) → foreign (kept key lines) ≡ foreign lines
unfolding kept
foreign-kept key [] = refl
foreign-kept key (line ∷ lines) = elim (Option-cases (comment_of line)) [
  | inl e ↦ rw e (ground (arith, foreign-kept key lines, e))
  | inr (comment, e) ↦ elim (Bool-cases (is_other key line (some comment))) [
    | inl o ↦ rw (e, o) (rw e (foreign-kept key lines))
    | inr o ↦ rw (e, o) (foreign-kept key lines)
  ]
]

foreign-installed :
    (key : AuthorizedKey) (lines : List Text)
    → IsKey key
    → foreign (kept key lines ++ render key ∷ []) ≡ foreign lines
foreign-installed key lines h =
    keep-append _ (kept key lines) (render key ∷ [])
    ∙ rw (comment_of-render key h, append-nil) (foreign-kept key lines)

-- Installing a second time keeps the lines.
kept-kept : (key : AuthorizedKey) (lines : List Text) → kept key (kept key lines) ≡ kept key lines
unfolding kept
kept-kept key [] = refl
kept-kept key (line ∷ lines) = elim (Bool-cases (is_other key line (comment_of line))) [
  | inl e ↦ rw e (rw e (ap (λ l. line ∷ l) (kept-kept key lines)))
  | inr e ↦ rw e (kept-kept key lines)
]

kept-installed :
    (key : AuthorizedKey) (lines : List Text)
    → IsKey key
    → kept key (kept key lines ++ render key ∷ []) ≡ kept key lines
unfolding kept
kept-installed key lines h =
    keep-append _ (kept key lines) (render key ∷ [])
    ∙ rw (comment_of-render key h, same_text_refl key.comment, append-nil) (kept-kept key lines)

-- the lines of the file behind an operation, when the operation took them there
rewritten_lem :
    (updated lines : List Text) (file : KeyFile)
    → All Unbroken updated
    → read file ≡ ok lines
    → (read (rewritten updated lines file).0 ≡ ok updated)
      × ((rewritten updated lines file).1 ≡ false → (rewritten updated lines file).0 ≡ file)
unfolding read write
rewritten_lem updated lines file h e = elim (Bool-cases (same_lines updated lines)) [
  | inl s ↦ rw s (e ∙ ap ok (sym (same_lines_sound updated lines s)), λ _. refl)
  | inr s ↦ rw s (ap ok (split_lines-write updated h), λ f. absurd (cc f))
]

All-keep {ℓ} : (P : Text → Type ℓ) (p : Text → Bool) (xs : List Text) → All P xs → All P (keep p xs)
All-keep P p [] h = tt
All-keep P p (x ∷ xs) (hx, h) = elim (Bool-cases (p x)) [
  | inl e ↦ rw e (hx, All-keep P p xs h)
  | inr e ↦ rw e (All-keep P p xs h)
]

read_cases :
    (file : KeyFile)
    → (read file ≡ err MissingAccount.missing_account)
      ⊎ ((lines : List Text) × (read file ≡ ok lines) × All Unbroken lines)
unfolding read
read_cases file = elim (Option-cases file.content) [
  | inl e ↦ elim (Bool-cases file.directory) [
    | inl d ↦ rw (e, d) (inr ([], refl, tt))
    | inr d ↦ rw (e, d) (inl refl)
  ]
  | inr (content, e) ↦ rw e (inr (_, refl, split_lines-Unbroken content))
]

read-Unbroken : (file : KeyFile) (lines : List Text) → read file ≡ ok lines → All Unbroken lines
read-Unbroken file lines h = elim (read_cases file) [
  | inl e ↦ absurd (cc (e, h))
  | inr (read_lines, e, u) ↦
      let same : read_lines ≡ lines = cc (e, h) in subst (λ (x : List Text). All Unbroken x) same u
]

has_comment :
    (c : Text) (lines : List Text) (line : Text)
    → comment_of line ≡ some c
    → any (λ x. same_text x c) (comments (lines ++ line ∷ [])) ≡ true
unfolding comments
has_comment c [] line e = rw (e, same_text_refl c)
has_comment c (l ∷ lines) line e = elim (Option-cases (comment_of l)) [
  | inl n ↦ rw n (has_comment c lines line e)
  | inr (d, n) ↦ rw (n, has_comment c lines line e) (ground arith)
]

abbrev updated : AuthorizedKey → List Text → List Text
updated key lines = kept key lines ++ render key ∷ []

-- The file behind `install`: its lines, among them those of others as they were.
pub record IsInstalled (key : AuthorizedKey) (file : KeyFile) (lines : List Text) (file' : KeyFile)
    (changed : Bool) : Type 0 where
  pub new_lines : List Text
  pub reads : read file' ≡ ok new_lines
  pub others_kept : foreign new_lines ≡ foreign lines
  pub listed_now : any (λ c. same_text c key.comment) (comments new_lines) ≡ true
  pub unchanged : changed ≡ false → file' ≡ file
  pub again : install key file' ≡ ok (file', false)

module _ (key : AuthorizedKey) (h : IsKey key) where
  installed_lem :
      (file : KeyFile) (lines : List Text)
      → read file ≡ ok lines
      → IsInstalled key file lines
          (rewritten (updated key lines) lines file).0
          (rewritten (updated key lines) lines file).1
  unfolding install
  installed_lem file lines e =
      let unbroken =
        All-append Unbroken (kept key lines) (render key ∷ [])
          (unfold kept in All-keep Unbroken _ lines (read-Unbroken file lines e))
          (h.on_one_line, tt) in
      let (reads, unchanged) = rewritten_lem (updated key lines) lines file unbroken e in
      record {
        new_lines = updated key lines;
        reads = reads;
        others_kept = foreign-installed key lines h;
        listed_now =
            has_comment key.comment (kept key lines) (render key) (comment_of-render key h);
        unchanged = unchanged;
        again = rw (reads, kept-installed key lines h, same_lines_refl (updated key lines));
      }

  -- Installing a key of the service in a file that can be read never fails. It leaves the lines of
  -- others as they were and in their order, lists the key's comment, leaves the file alone if it says
  -- that it did not change, and changes nothing when it is done again.
  pub install-IsInstalled :
      (file : KeyFile) (lines : List Text)
      → read file ≡ ok lines
      → (file' : KeyFile) × (changed : Bool) × (install key file ≡ ok (file', changed))
        × IsInstalled key file lines file' changed
  unfolding install
  install-IsInstalled file lines e =
      let result = rewritten (updated key lines) lines file in
      (result.0, result.1, rw e, installed_lem file lines e)

foreign-removed :
    (c : Text) (lines : List Text)
    → foreign (keep (λ line. not (is_text c (comment_of line))) lines) ≡ foreign lines
foreign-removed c [] = refl
foreign-removed c (line ∷ lines) = elim (Option-cases (comment_of line)) [
  | inl e ↦ rw e (rw e (ap (λ l. line ∷ l) (foreign-removed c lines)))
  | inr (d, e) ↦ elim (Bool-cases (same_text d c)) [
    | inl o ↦ rw (e, o) (foreign-removed c lines)
    | inr o ↦ rw (e, o) (rw e (foreign-removed c lines))
  ]
]

-- the comments but one
abbrev pub without : Text → List Text → List Text
without c = keep (λ d. not (same_text d c))

comments-removed :
    (c : Text) (lines : List Text)
    → comments (keep (λ line. not (is_text c (comment_of line))) lines) ≡ without c (comments lines)
unfolding comments
comments-removed c [] = refl
comments-removed c (line ∷ lines) = elim (Option-cases (comment_of line)) [
  | inl e ↦ rw (e, comments, e) (comments-removed c lines)
  | inr (d, e) ↦ elim (Bool-cases (same_text d c)) [
    | inl o ↦ rw (e, o) (comments-removed c lines)
    | inr o ↦ rw (e, o, comments, e) (ap (λ l. d ∷ l) (comments-removed c lines))
  ]
]

-- Removing a comment from a file that can be read leaves the lines of others as they were and in
-- their order, takes that comment, and no other, from those installed, and leaves the file alone if it
-- says that it did not change.
pub remove-foreign :
    (c : Text) (file : KeyFile) (lines : List Text)
    → read file ≡ ok lines
    → (file' : KeyFile) × (changed : Bool) × (new_lines : List Text) × (remove c file
        ≡ ok (file', changed))
      × (read file' ≡ ok new_lines)
      × (foreign new_lines ≡ foreign lines)
      × (installed file' ≡ ok (without c (comments lines)))
      × (changed ≡ false → file' ≡ file)
unfolding remove installed
remove-foreign c file lines e =
    let new_lines = keep (λ line. not (is_text c (comment_of line))) lines in
    let result = rewritten new_lines lines file in
    let (reads, unchanged) =
      rewritten_lem new_lines lines file (All-keep Unbroken _ lines (read-Unbroken file lines e))
        e in
    (
      result.0,
      result.1,
      new_lines,
      rw e,
      reads,
      foreign-removed c lines,
      rw (reads, comments-removed c lines),
      unchanged,
    )
