-- ===== src/Runs/Variables/Accepted.antt =====
-- Which variables are let through.
use insatomcat_webui.Base.{
  String, ◌≡◌, ◌↔◌, refl, Bool, true, false, not, ◌&&◌, List, [], ◌∷◌, keep, keys, Dict, Value,
  null, sorted, insert_sorted, member, All, ok, arith, inl, inr, Bool-cases,
}
use insatomcat_webui.Runs.Catalogue.Entries.{PlaybookEntry, VariableSpec}
use insatomcat_webui.Runs.Variables.{
  declared_names, unknown_variables, missing_variables, accepted_variables,
}

null-insert_sorted : (s : String) (ts : List String) → null (insert_sorted s ts) ≡ false
unfolding insert_sorted
null-insert_sorted s [] = refl
null-insert_sorted s (t ∷ ts) = ground arith

null-sorted : (ss : List String) → null (sorted ss) ≡ null ss
unfolding sorted
null-sorted [] = refl
null-sorted (s ∷ ss) = null-insert_sorted s (sorted ss)

none_kept :
    (p : String → Bool) (xs : List String)
    → (null (keep (λ x. not (p x)) xs) ≡ true) ↔ All (λ x. p x ≡ true) xs
none_kept p [] = (λ _. tt, λ _. refl)
none_kept p (x ∷ xs) =
    let (to, from) = none_kept p xs in
    elim (Bool-cases (p x)) [
      | inl e ↦ ((λ h. (e, to (ground arith))), λ (_, ps). ground (arith, from ps))
      | inr e ↦ ((λ h. absurd (ground arith)), λ (q, _). absurd (cc (e, q)))
    ]

none_missing :
    (specs : List VariableSpec) (supplied : Dict Value)
    → (null (missing_variables specs supplied) ≡ true)
      ↔ All (λ spec. spec.required ≡ true → member spec.name (keys supplied) ≡ true) specs
unfolding missing_variables
none_missing [] supplied = (λ _. tt, λ _. refl)
none_missing (spec ∷ specs) supplied =
    let (to, from) = none_missing specs supplied in
    elim (Bool-cases (spec.required && not (member spec.name (keys supplied)))) [
      | inl e ↦ ((λ h. absurd (ground arith)), λ (q, _). absurd (ground arith))
      | inr e ↦
          ((λ h. ((λ r. ground arith), to (ground arith))), λ (_, ps). ground (arith, from ps))
    ]

-- The variables are let through, unchanged, exactly if the entry declares each of them and they
-- give each variable that the entry requires.
pub accepted_variables_iff :
    (entry : PlaybookEntry) (supplied : Dict Value)
    → (accepted_variables entry supplied ≡ ok supplied) ↔ (
        All (λ name. member name (declared_names entry.variables) ≡ true) (keys supplied)
        × All
            (λ spec. spec.required ≡ true → member spec.name (keys supplied) ≡ true)
            entry.variables)
unfolding accepted_variables unknown_variables
accepted_variables_iff entry supplied =
    let (known, is_known) =
      none_kept (λ name. member name (declared_names entry.variables)) (keys supplied) in
    let (given, is_given) = none_missing entry.variables supplied in
    let same =
      null-sorted
        (keep (λ name. not (member name (declared_names entry.variables))) (keys supplied)) in
    elim (Bool-cases
      (null (keep (λ name. not (member name (declared_names entry.variables))) (keys supplied)))) [
        | inl e ↦ elim (Bool-cases (null (missing_variables entry.variables supplied))) [
          | inl m ↦ ((λ _. (known e, given m)), λ _. rw (same, e, m))
          | inr m ↦ (
            (λ h. absurd (let k = rw (same, e, m) at h in cc k)),
            λ (_, g). absurd (cc (is_given g, m)),
          )
        ]
        | inr e ↦ (
          (λ h. absurd (let k = rw (same, e) at h in cc k)),
          λ (n, _). absurd (cc (is_known n, e)),
        )
      ]
