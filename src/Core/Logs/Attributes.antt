-- ===== src/Core/Logs/Attributes.antt =====
-- What `unflatten_log_record` makes of the two parallel attribute lists.
use logarithm.Prelude.{
  ℕ, zero, suc, ◌+◌, String, ◌≡◌, refl, ap, ◌∙◌, List, [], ◌∷◌, map, arith, ltb, if◌then◌else◌,
  length, get_or, drop, drop-nil, drop-drop,
}
use logarithm.Core.Logs.{KeyValue, FlatLogRecord, pair_attributes, unflatten_log_record}

abbrev pub keys : List KeyValue → List String
keys = map λ kv. kv.key

abbrev pub values : List KeyValue → List String
values = map λ kv. kv.value

-- `vs` cut or filled up with empty texts to the length of `ks`.
abbrev pub fitted : List String → List String → List String
fitted [] vs = []
fitted (k ∷ ks) [] = "" ∷ fitted ks []
fitted (k ∷ ks) (v ∷ vs) = v ∷ fitted ks vs

pair_attributes-keys : (i : ℕ) (ks vs : List String) → keys (pair_attributes i ks vs) ≡ ks
unfolding pair_attributes
pair_attributes-keys i [] vs = refl
pair_attributes-keys i (k ∷ ks) vs = ap (λ l. k ∷ l) (pair_attributes-keys (i + 1) ks vs)

-- The value read at `i` is the head of what is left from `i` on.
get_or-drop :
    (i : ℕ) (vs : List String)
    → (if ltb i (length vs) then get_or vs i "" else "") ≡ get_or (drop i vs) 0 ""
get_or-drop i [] = ground (arith, drop-nil {A = String} i)
get_or-drop zero (v ∷ vs) = ground arith
get_or-drop (suc i) (v ∷ vs) = ground (arith, get_or-drop i vs)

fitted_step :
    (k : String) (ks vs : List String) → fitted (k ∷ ks) vs ≡ get_or vs 0 "" ∷ fitted ks (drop 1 vs)
fitted_step k ks [] = refl
fitted_step k ks (v ∷ vs) = refl

pair_attributes-values :
    (i : ℕ) (ks vs : List String) → values (pair_attributes i ks vs) ≡ fitted ks (drop i vs)
unfolding pair_attributes
pair_attributes-values i [] vs = refl
pair_attributes-values i (k ∷ ks) vs =
    rw (fitted_step k ks (drop i vs), drop-drop i 1 vs, get_or-drop i vs)
      (ap (λ l. get_or (drop i vs) 0 "" ∷ l) (pair_attributes-values (i + 1) ks vs))

fitted_same : (ks vs : List String) → length ks ≡ length vs → fitted ks vs ≡ vs
fitted_same [] [] h = refl
fitted_same [] (v ∷ vs) h = absurd (omega arith)
fitted_same (k ∷ ks) [] h = absurd (omega arith)
fitted_same (k ∷ ks) (v ∷ vs) h = ap (λ l. v ∷ l) (fitted_same ks vs (omega arith))

-- The shown attributes have the row's keys in their order, and its values cut or filled up with
-- empty texts to the number of keys; this for the log's attributes and for the resource's.
pub unflatten-attributes :
    (flat : FlatLogRecord)
    → (keys (unflatten_log_record flat).log_attributes ≡ flat.log_attr_keys)
      × (values (unflatten_log_record flat).log_attributes
          ≡ fitted flat.log_attr_keys flat.log_attr_values)
      × (keys (unflatten_log_record flat).resource_attributes ≡ flat.res_attr_keys)
      × (values (unflatten_log_record flat).resource_attributes
          ≡ fitted flat.res_attr_keys flat.res_attr_values)
unfolding unflatten_log_record
unflatten-attributes flat = (
  pair_attributes-keys 0 flat.log_attr_keys flat.log_attr_values,
  pair_attributes-values 0 flat.log_attr_keys flat.log_attr_values,
  pair_attributes-keys 0 flat.res_attr_keys flat.res_attr_values,
  pair_attributes-values 0 flat.res_attr_keys flat.res_attr_values,
)

-- Where the row has as many values as keys, for the log and for the resource, nothing of the
-- attributes is lost: both lists can be read back from what is shown.
pub unflatten_lossless :
    (flat : FlatLogRecord)
    → length flat.log_attr_keys ≡ length flat.log_attr_values
    → length flat.res_attr_keys ≡ length flat.res_attr_values
    → (keys (unflatten_log_record flat).log_attributes ≡ flat.log_attr_keys)
      × (values (unflatten_log_record flat).log_attributes ≡ flat.log_attr_values)
      × (keys (unflatten_log_record flat).resource_attributes ≡ flat.res_attr_keys)
      × (values (unflatten_log_record flat).resource_attributes ≡ flat.res_attr_values)
unflatten_lossless flat h k =
    let shown = unflatten-attributes flat in
    (
      shown.0,
      shown.1 ∙ fitted_same flat.log_attr_keys flat.log_attr_values h,
      shown.2,
      shown.3 ∙ fitted_same flat.res_attr_keys flat.res_attr_values k,
    )
