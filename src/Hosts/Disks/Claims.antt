-- ===== src/Hosts/Disks/Claims.antt =====
-- Which disks are listed, which of them are claimed, and which stable name a disk has.
use mathlib.Core.Option
use insatomcat_webui.Base.{
  String, ◌==◌, eq_iff, ◌≡◌, refl, ap, subst, ◌∙◌, ◌↔◌, inl, inr, Bool, false, not, ◌||◌, is_some,
  Option, none, some, List, [], ◌∷◌, if◌then◌else◌, map, keep, first, null, concat, sorted, Dict,
  lookup, lookup-insert, lookup-nil, All, Bool-cases, Option-cases,
}
use insatomcat_webui.Hosts.Tree.{Tree, path, base_name, iterdir}
use insatomcat_webui.Hosts.Disks.{
  BlockDevice, is_ignored, by_path_directory, set_default, indexed, index_from, by_path_index,
  device_of, disk_names, disks_in, disks, partitions_of, holders_of, reason_of,
}

abbrev is_target : String → Option String → Bool
is_target name none = false
is_target name (some target) = base_name target == name

-- whether a link points at a device
abbrev pub points_at : Tree → String → String → Bool
points_at tree name entry = is_target name (tree.link (path (by_path_directory ∷ entry ∷ [])))

-- The first link, in order of names, that points at a device.
abbrev pub stable_name : Tree → String → Option String
stable_name tree name =
    Option.map (λ entry. concat ("/dev/disk/by-path/" ∷ entry ∷ []))
      (first (points_at tree name) (sorted (iterdir tree (by_path_directory ∷ []))))

abbrev or_else_some : Option String → String → Option String
or_else_some none s = some s
or_else_some (some t) s = some t

abbrev or_first : Tree → String → Option String → List String → Option String
or_first tree name (some s) entries = some s
or_first tree name none entries =
    Option.map (λ entry. concat ("/dev/disk/by-path/" ∷ entry ∷ []))
      (first (points_at tree name) entries)

lookup-set_default :
    (key name value : String) (index : Dict String)
    → lookup name (set_default key value index)
      ≡ (if key == name then or_else_some (lookup name index) value else lookup name index)
unfolding set_default
lookup-set_default key name value index = elim (Option-cases (lookup key index)) [
  | inl e ↦ elim (Bool-cases (key == name)) [
    | inl same ↦
        let k = subst (λ x. lookup x index ≡ none) ((eq_iff key name).0 same) e in
        rw (e, same, lookup-insert, same, k) refl
    | inr differs ↦ rw (e, lookup-insert, differs) refl
  ]
  | inr (s, e) ↦ elim (Bool-cases (key == name)) [
    | inl same ↦
        let k = subst (λ x. lookup x index ≡ some s) ((eq_iff key name).0 same) e in
        rw (e, same, k) refl
    | inr differs ↦ rw (e, differs) refl
  ]
]

-- an entry's link, against a name
step_lem :
    (tree : Tree) (name entry : String) (index : Dict String) (entries : List String)
    (o : Option String)
    → or_first tree name (lookup name (indexed entry o index)) entries ≡ (
        if is_target name o
        then or_else_some (lookup name index) (concat ("/dev/disk/by-path/" ∷ entry ∷ []))
        else or_first tree name (lookup name index) entries)
unfolding indexed
step_lem tree name entry index entries none = refl
step_lem tree name entry index entries (some target) =
    ap (λ o. or_first tree name o entries)
      (lookup-set_default (base_name target) name (concat ("/dev/disk/by-path/" ∷ entry ∷ []))
        index)
    ∙ elim (Bool-cases (base_name target == name)) [
      | inl t ↦ elim (Option-cases (lookup name index)) [
        | inl e ↦ rw (t, e)
        | inr (s, e) ↦ rw (t, e)
      ]
      | inr t ↦ rw t
    ]

lookup-index_from :
    (tree : Tree) (name : String) (entries : List String) (index : Dict String)
    → lookup name (index_from tree index entries) ≡ or_first tree name (lookup name index) entries
unfolding index_from
lookup-index_from tree name [] index = elim (Option-cases (lookup name index)) [
  | inl e ↦ rw e
  | inr (s, e) ↦ rw e
]
lookup-index_from tree name (entry ∷ entries) index =
    let o = tree.link (path (by_path_directory ∷ entry ∷ [])) in
    lookup-index_from tree name entries (indexed entry o index)
    ∙ step_lem tree name entry index entries o
    ∙ elim (Option-cases (lookup name index)) [
      | inl e ↦ elim (Bool-cases (is_target name o)) [ inl t ↦ rw (e, t) | inr t ↦ rw (e, t) ]
      | inr (s, e) ↦ elim (Bool-cases (is_target name o)) [ inl t ↦ rw (e, t) | inr t ↦ rw (e, t) ]
    ]

-- What a listed disk is like.
pub record IsListed (tree : Tree) (d : BlockDevice) : Type 0 where
  pub offered : is_ignored d.name ≡ false
  pub claims : (d.claimed ≡ false) ↔ ((d.partitions ≡ []) × (d.holders ≡ []))
  pub explained : is_some d.claim_reason ≡ d.claimed
  pub stable : d.by_path ≡ stable_name tree d.name

lookup-by_path_index :
    (tree : Tree) (name : String) → lookup name (by_path_index tree) ≡ stable_name tree name
unfolding by_path_index
lookup-by_path_index tree name =
    lookup-index_from tree name (sorted (iterdir tree (by_path_directory ∷ []))) []
    ∙ ap (λ o. or_first tree name o (sorted (iterdir tree (by_path_directory ∷ []))))
        (lookup-nil name)

claims_lem :
    (ps hs : List String) → ((not (null ps) || not (null hs)) ≡ false) ↔ ((ps ≡ []) × (hs ≡ []))
claims_lem [] [] = ((λ _. (refl, refl)), (λ _. refl))
claims_lem [] (h ∷ hs) = ((λ e. absurd (cc e)), (λ e. absurd (cc e.1)))
claims_lem (p ∷ ps) hs = ((λ e. absurd (cc e)), (λ e. absurd (cc e.0)))

reason_lem : (ps hs : List String) → is_some (reason_of ps hs) ≡ (not (null ps) || not (null hs))
unfolding reason_of
reason_lem [] [] = refl
reason_lem [] (h ∷ hs) = refl
reason_lem (p ∷ ps) hs = refl

device-IsListed :
    (tree : Tree) (name : String)
    → is_ignored name ≡ false
    → IsListed tree (device_of tree (by_path_index tree) name)
unfolding device_of
device-IsListed tree name h = record {
  offered = h;
  claims = claims_lem (partitions_of tree name) (holders_of tree name);
  explained = reason_lem (partitions_of tree name) (holders_of tree name);
  stable = lookup-by_path_index tree name;
}

devices-IsListed :
    (tree : Tree) (names : List String)
    → All
        (IsListed tree)
        (map (device_of tree (by_path_index tree)) (keep (λ n. not (is_ignored n)) names))
devices-IsListed tree [] = tt
devices-IsListed tree (n ∷ ns) = elim (Bool-cases (is_ignored n)) [
  | inl e ↦ rw e (devices-IsListed tree ns)
  | inr e ↦ rw e (device-IsListed tree n e, devices-IsListed tree ns)
]

listing-IsListed :
    (tree : Tree) (names : Option (List String))
    → All (IsListed tree) (disks_in tree (by_path_index tree) names).devices
unfolding disks_in disk_names
listing-IsListed tree none = tt
listing-IsListed tree (some names) = devices-IsListed tree (sorted names)

-- Every disk that is listed has no name that is ignored; it is unclaimed exactly if nothing holds it and
-- it carries no partition, and a reason is given exactly if it is claimed; and its stable name is the
-- first link under /dev/disk/by-path, in order of names, that points at it, if there is one.
pub disks-IsListed : (tree : Tree) → All (IsListed tree) (disks tree).devices
unfolding disks
disks-IsListed tree = listing-IsListed tree (tree.entries "sys/block")
