-- ===== src/Base/Values.antt =====
-- The values of Python that `Any` stands for in the code: what YAML and JSON hold, without floats
-- and dates.
use insatomcat_webui.Base.Numbers.{ℤ}
use Prim.Native.String.{String}
use mathlib.Core.Path.{◌≡◌, refl, ap}
use mathlib.Core.Bool.{Bool}
use mathlib.Core.List.{List, [], ◌∷◌}

mutual
  pub data Value : Type 0 where
    null : Value
    bool : Bool → Value
    int : ℤ → Value
    str : String → Value
    list : Items → Value
    dict : Fields → Value

  pub data Items : Type 0 where
    nil : Items
    cons : Value → Items → Items

  pub data Fields : Type 0 where
    end : Fields
    field : String → Value → Fields → Fields

abbrev pub items : Items → List Value
items nil = []
items (cons v vs) = v ∷ items vs

abbrev pub pairs : Fields → List (String × Value)
pairs end = []
pairs (field k v fs) = (k, v) ∷ pairs fs

abbrev pub of_items : List Value → Items
of_items [] = nil
of_items (v ∷ vs) = cons v (of_items vs)

abbrev pub of_pairs : List (String × Value) → Fields
of_pairs [] = end
of_pairs ((k, v) ∷ fs) = field k v (of_pairs fs)

abbrev pub list_of : List Value → Value
list_of vs = Value.list (of_items vs)

abbrev pub dict_of : List (String × Value) → Value
dict_of fs = Value.dict (of_pairs fs)

pub items-of_items : (vs : List Value) → items (of_items vs) ≡ vs
items-of_items [] = refl
items-of_items (v ∷ vs) = ap (λ l. v ∷ l) (items-of_items vs)

pub pairs-of_pairs : (fs : List (String × Value)) → pairs (of_pairs fs) ≡ fs
pairs-of_pairs [] = refl
pairs-of_pairs ((k, v) ∷ fs) = ap (λ l. (k, v) ∷ l) (pairs-of_pairs fs)
