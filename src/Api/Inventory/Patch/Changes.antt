-- ===== src/Api/Inventory/Patch/Changes.antt =====
-- What the changes of a form make of the fields of a configuration.
use insatomcat_webui.Base.{
  ℕ, pos, negsuc, String, ◌==◌, eq_iff, ◌≡◌, refl, sym, ap, ◌∙◌, subst, inl, inr, Bool-cases,
  Option-cases, All, of_items, of_pairs, end, field, Option, none, some, List, [], ◌∷◌, map, Dict,
  lookup, insert, update, Value, Items, Fields, nil, cons, list_of, dict_of, pairs, ◌>>=?◌,
}
use insatomcat_webui.Inventory.Model.{NodeConfig}
use insatomcat_webui.Api.Inventory.Patch.{
  fields_of, text_or_null, number_or_null, as_text, as_text_or_null, as_number, as_number_or_null,
  joined, texts_of, as_texts, as_pairs, Setter, setters, put_field, updated,
}

text_lem : (v : Value) (s : String) → as_text v ≡ some s → v ≡ Value.str s
text_lem Value.null s e = absurd (cc e)
text_lem (Value.bool b) s e = absurd (cc e)
text_lem (Value.int n) s e = absurd (cc e)
text_lem (Value.str t) s e = cc e
text_lem (Value.list vs) s e = absurd (cc e)
text_lem (Value.dict fs) s e = absurd (cc e)

text_or_null_lem : (v : Value) (o : Option String) → as_text_or_null v ≡ some o → v ≡ text_or_null o
text_or_null_lem Value.null o e = let k : none ≡ o = cc e in rw (← k)
text_or_null_lem (Value.bool b) o e = absurd (cc e)
text_or_null_lem (Value.int n) o e = absurd (cc e)
text_or_null_lem (Value.str t) o e = let k : some t ≡ o = cc e in rw (← k)
text_or_null_lem (Value.list vs) o e = absurd (cc e)
text_or_null_lem (Value.dict fs) o e = absurd (cc e)

number_lem : (v : Value) (n : ℕ) → as_number v ≡ some n → v ≡ Value.int (pos n)
number_lem Value.null n e = absurd (cc e)
number_lem (Value.bool b) n e = absurd (cc e)
number_lem (Value.int (pos m)) n e = cc e
number_lem (Value.int (negsuc m)) n e = absurd (cc e)
number_lem (Value.str t) n e = absurd (cc e)
number_lem (Value.list vs) n e = absurd (cc e)
number_lem (Value.dict fs) n e = absurd (cc e)

number_or_null_lem :
    (v : Value) (o : Option ℕ) → as_number_or_null v ≡ some o → v ≡ number_or_null o
number_or_null_lem Value.null o e = let k : none ≡ o = cc e in rw (← k)
number_or_null_lem (Value.bool b) o e = absurd (cc e)
number_or_null_lem (Value.int (pos m)) o e = let k : some m ≡ o = cc e in rw (← k)
number_or_null_lem (Value.int (negsuc m)) o e = absurd (cc e)
number_or_null_lem (Value.str t) o e = absurd (cc e)
number_or_null_lem (Value.list vs) o e = absurd (cc e)
number_or_null_lem (Value.dict fs) o e = absurd (cc e)

joined_lem :
    (a : Option String) (b : Option (List String)) (ss : List String)
    → joined a b ≡ some ss
    → (s : String) × (rest : List String) × (a ≡ some s) × (b ≡ some rest) × (ss ≡ s ∷ rest)
joined_lem none b ss e = absurd (cc e)
joined_lem (some s) none ss e = absurd (cc e)
joined_lem (some s) (some rest) ss e = (s, rest, refl, refl, cc e)

texts_of_lem :
    (vs : Items) (ss : List String) → texts_of vs ≡ some ss → vs ≡ of_items (map Value.str ss)
texts_of_lem nil ss e = let k : [] ≡ ss = cc e in rw (← k)
texts_of_lem (cons v vs) ss e =
    let (s, rest, first, later, same) = joined_lem (as_text v) (texts_of vs) ss e in
    rw (same, text_lem v s first, texts_of_lem vs rest later)

texts_lem : (v : Value) (ss : List String) → as_texts v ≡ some ss → v ≡ list_of (map Value.str ss)
texts_lem Value.null ss e = absurd (cc e)
texts_lem (Value.bool b) ss e = absurd (cc e)
texts_lem (Value.int n) ss e = absurd (cc e)
texts_lem (Value.str t) ss e = absurd (cc e)
texts_lem (Value.list vs) ss e = ap Value.list (texts_of_lem vs ss e)
texts_lem (Value.dict fs) ss e = absurd (cc e)

of_pairs-pairs : (fs : Fields) → of_pairs (pairs fs) ≡ fs
of_pairs-pairs end = refl
of_pairs-pairs (field k v fs) = ap (field k v) (of_pairs-pairs fs)

pairs_lem : (v : Value) (d : Dict Value) → as_pairs v ≡ some d → v ≡ dict_of d
pairs_lem Value.null d e = absurd (cc e)
pairs_lem (Value.bool b) d e = absurd (cc e)
pairs_lem (Value.int n) d e = absurd (cc e)
pairs_lem (Value.str t) d e = absurd (cc e)
pairs_lem (Value.list vs) d e = absurd (cc e)
pairs_lem (Value.dict fs) d e =
    let k : pairs fs ≡ d = cc e in rw (← k) (ap Value.dict (sym (of_pairs-pairs fs)))

-- a setter changes its field alone, to the value
abbrev Sets : String → Setter → Type 0
Sets name set =
    (v : Value) (node node' : NodeConfig)
    → set v node ≡ some node'
    → fields_of node' ≡ insert name v (fields_of node)

bound :
    {A : Type 0} (name : String) (decode : Value → Option A) (encode : A → Value)
    → (put : A → NodeConfig → NodeConfig) → ((v : Value) (a : A) → decode v ≡ some a → v ≡ encode a)
    → ((a : A) (node : NodeConfig)
        → fields_of (put a node) ≡ insert name (encode a) (fields_of node))
    → Sets name (λ v node. decode v >>=? λ a. some (put a node))
bound name decode encode put sound same v node node' h = elim (Option-cases (decode v)) [
  | inl e ↦ absurd (let k = rw e at h in cc k)
  | inr (a, e) ↦
      let k : put a node ≡ node' = (let m = rw e at h in cc m) in
      rw (← k, sound v a e) (same a node)
]

setters-Sets : All (λ (e : String × Setter). Sets e.0 e.1) setters
unfolding insert
setters-Sets = (
  bound "ansible_host" as_text Value.str (λ s node. record node { ansible_host = s }) text_lem
      (λ a node. refl),
  (
    bound "network_interface" as_text Value.str (λ s node. record node { network_interface = s })
        text_lem (λ a node. refl),
    (
      bound "subnet" as_number (λ n. Value.int (pos n)) (λ n node. record node { subnet = n })
          number_lem (λ a node. refl),
      (
        bound "gateway_addr" as_text_or_null text_or_null
            (λ s node. record node { gateway_addr = s }) text_or_null_lem (λ a node. refl),
        (
          bound "dns_servers" as_texts (λ ss. list_of (map Value.str ss))
              (λ ss node. record node { dns_servers = ss }) texts_lem (λ a node. refl),
          (
            bound "ptp_interface" as_text_or_null text_or_null
                (λ s node. record node { ptp_interface = s }) text_or_null_lem (λ a node. refl),
            (
              bound "ptp_domain_number" as_number_or_null number_or_null
                  (λ n node. record node { ptp_domain_number = n }) number_or_null_lem
                  (λ a node. refl),
              (
                bound "ntp_servers" as_texts (λ ss. list_of (map Value.str ss))
                    (λ ss node. record node { ntp_servers = ss }) texts_lem (λ a node. refl),
                (
                  bound "admin_user" as_text_or_null text_or_null
                      (λ s node. record node { admin_user = s }) text_or_null_lem (λ a node. refl),
                  (
                    bound "grub_password" as_text_or_null text_or_null
                        (λ s node. record node { grub_password = s }) text_or_null_lem
                        (λ a node. refl),
                    (
                      bound "isolcpus" as_text_or_null text_or_null
                          (λ s node. record node { isolcpus = s }) text_or_null_lem
                          (λ a node. refl),
                      (
                        bound "extra" as_pairs dict_of (λ d node. record node { extra = d })
                            pairs_lem (λ a node. refl),
                        tt,
                      ),
                    ),
                  ),
                ),
              ),
            ),
          ),
        ),
      ),
    ),
  ),
)

lookup-Sets :
    (name : String) (d : Dict Setter) (set : Setter)
    → All (λ (e : String × Setter). Sets e.0 e.1) d
    → lookup name d ≡ some set
    → Sets name set
unfolding lookup
lookup-Sets name [] set h e = absurd (cc e)
lookup-Sets name ((k, s) ∷ d) set (hs, h) e = elim (Bool-cases (k == name)) [
  | inl q ↦
      let m : s ≡ set = (let n = rw q at e in cc n) in
      subst (λ x. Sets name x) m (subst (λ x. Sets x s) ((eq_iff k name).0 q) hs)
  | inr q ↦ lookup-Sets name d set h (let n = rw q at e in n)
]

put_field-Sets : (name : String) → Sets name (put_field name)
unfolding put_field
put_field-Sets name v node node' h = elim (Option-cases (lookup name setters)) [
  | inl e ↦ absurd (let k = rw e at h in cc k)
  | inr (set, e) ↦ lookup-Sets name setters set setters-Sets e v node node' (let k = rw e at h in k)
]

-- The fields of the changed configuration are those of the former one with the changes put in, in
-- their order.
pub fields_of-updated :
    (changes : Dict Value) (node node' : NodeConfig)
    → updated changes node ≡ some node'
    → fields_of node' ≡ update (fields_of node) changes
unfolding updated update
fields_of-updated [] node node' h = let k : node ≡ node' = cc h in rw (← k)
fields_of-updated ((name, v) ∷ changes) node node' h = elim (Option-cases (put_field name v node)) [
  | inl e ↦ absurd (let k = rw e at h in cc k)
  | inr (middle, e) ↦
      fields_of-updated changes middle node' (let k = rw e at h in k)
      ∙ ap (λ d. update d changes) (put_field-Sets name v node middle e)
]
