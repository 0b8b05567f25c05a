-- ===== src/Runs/Variables.antt =====
-- app/runs/service.py: `_accepted_variables`, which lets through only what an entry declares.
pub mod Accepted
use insatomcat_webui.Base.{
  String, ◌==◌, Bool, true, false, not, ◌&&◌, ◌||◌, List, [], ◌∷◌, if◌then◌else◌, concat, join, map,
  keep, keys, Dict, Value, list_of, null, sorted, member, Result, ok, err,
}
use insatomcat_webui.Core.Errors.{ApiError}
use insatomcat_webui.Runs.Catalogue.Entries.{PlaybookEntry, VariableSpec}

abbrev pub declared_names : List VariableSpec → List String
declared_names [] = []
declared_names (spec ∷ specs) = spec.name ∷ declared_names specs

-- `sorted(set(supplied) - set(declared))`
unfoldable pub unknown_variables : PlaybookEntry → Dict Value → List String
unfolding sorted
unknown_variables entry supplied =
    sorted (keep (λ name. not (member name (declared_names entry.variables))) (keys supplied))

-- The names of an entry's variables are distinct, so the dictionary `declared` holds each of them.
unfoldable pub missing_variables : List VariableSpec → Dict Value → List String
missing_variables [] supplied = []
missing_variables (spec ∷ specs) supplied =
    let rest = missing_variables specs supplied in
    if spec.required && not (member spec.name (keys supplied)) then spec.name ∷ rest else rest

abbrev or_none_declared : String → String
or_none_declared names = if names == "" then "no variables" else names

unfoldable pub accepted_variables : PlaybookEntry → Dict Value → Result ApiError (Dict Value)
unfolding unknown_variables missing_variables
accepted_variables entry supplied =
    let declared = sorted (declared_names entry.variables) in
    let unknown = unknown_variables entry supplied in
    let missing = missing_variables entry.variables supplied in
    if not (null unknown)
    then err (record {
      code = "unknown_variable";
      message = concat (
          entry.title
          ∷ " accepts "
          ∷ or_none_declared (join ", " declared)
          ∷ ", not "
          ∷ join ", " unknown
          ∷ "."
          ∷ []);
      status = 400;
      detail = ("accepted", list_of (map Value.str declared)) ∷ [];
    })
    else if not (null missing)
    then err (record {
      code = "missing_variable";
      message = concat (entry.title ∷ " requires " ∷ join ", " missing ∷ "." ∷ []);
      status = 400;
      detail = [];
    })
    else ok supplied
