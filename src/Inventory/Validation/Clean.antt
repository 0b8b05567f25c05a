-- ===== src/Inventory/Validation/Clean.antt =====
-- Lists of findings without an error.
use insatomcat_webui.Base.{
  ℕ, ◌≤◌, ◌≡◌, refl, ◌↔◌, false, ◌||◌, List, [], ◌∷◌, ◌++◌, ◌=?◌, any, All, arith,
}
use insatomcat_webui.Inventory.Validation.{Finding, is_error}

-- The rules find no error.
unfoldable pub IsClean : List Finding → Type 0
IsClean fs = any is_error fs ≡ false

any-append : (xs ys : List Finding) → any is_error (xs ++ ys) ≡ (any is_error xs || any is_error ys)
any-append [] ys = refl
any-append (x ∷ xs) ys = ground (arith, any-append xs ys)

pub IsClean-split : (xs ys : List Finding) → IsClean (xs ++ ys) → IsClean xs × IsClean ys
unfolding IsClean
IsClean-split xs ys h = ground (arith, any-append xs ys)

pub IsClean-join : (xs ys : List Finding) → IsClean xs → IsClean ys → IsClean (xs ++ ys)
unfolding IsClean
IsClean-join xs ys hx hy = ground (arith, any-append xs ys)

pub IsClean-nil : IsClean []
unfolding IsClean
IsClean-nil = refl

pub All-positive : (cs : List ℕ) → (any (λ c. c =? 0) cs ≡ false) ↔ All (λ c. 1 ≤ c) cs
All-positive [] = (λ _. tt, λ _. refl)
All-positive (c ∷ cs) =
    let (to, from) = All-positive cs in
    ((λ h. (ground arith, to (ground arith))), λ (p, ps). ground (arith, from ps))
