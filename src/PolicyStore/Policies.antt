-- ===== src/PolicyStore/Policies.antt =====
-- The policies of internal/agent/policy/store.go.
use vault_fleet.Prelude.{
  Bool, Option, none, some, List, [], ◌∷◌, ◌++◌, Text, codes, text_eq, text_leb, trim_space,
  is_empty, sort_by, if◌then◌else◌,
}
use vault_fleet.Engine.{
  Result, ok, err, not_found, message, M, pure, fail, ◌>>=◌, ◌>>◌, attempt, statement,
}
use vault_fleet.PolicyStore.Files.{
  Location, legacy_policy, stored_policy, Files, Disk, touch, write_file0600, read_file,
  remove_file,
}

-- A payload by its identifier and its other fields.
pub record PolicyPushPayload : Type 0 where
  pub policy_id : Text
  pub fields : Text

-- `json.MarshalIndent`, `json.Unmarshal`, `filepath.Base`, and whether `filepath.Ext` is ".json".
pub record Env : Type 0 where
  pub disk : Disk
  pub encode : PolicyPushPayload → Text
  pub decode : Text → Option PolicyPushPayload
  pub base : Text → Text
  pub is_json : Text → Bool

unfoldable pub policy_path : Env → Text → Location
policy_path env policy_id =
    let id = trim_space policy_id in
    if is_empty id then legacy_policy else stored_policy (env.base id ++ codes ".json")

unfoldable pub save_policy : Env → PolicyPushPayload → M Files (Unit {0})
unfolding policy_path
save_policy env policy = do
  touch env.disk
  write_file0600 env.disk (policy_path env policy.policy_id) (env.encode policy)

abbrev pub decoded : Option PolicyPushPayload → M Files PolicyPushPayload
decoded none = fail (message (codes "invalid JSON"))
decoded (some policy) = pure policy

unfoldable pub load_policy_file : Env → Location → M Files PolicyPushPayload
load_policy_file env l = do data' ← read_file env.disk l; decoded (env.decode data')

unfoldable pub load_policy_by_id : Env → Text → M Files PolicyPushPayload
unfolding load_policy_file policy_path
load_policy_by_id env policy_id = load_policy_file env (policy_path env policy_id)

unfoldable pub delete_policy : Env → Text → M Files (Unit {0})
unfolding policy_path
delete_policy env policy_id = remove_file env.disk (policy_path env policy_id)

unfoldable pub policy_key : PolicyPushPayload → Text
policy_key stored =
    if is_empty (trim_space stored.policy_id) then codes "legacy" else stored.policy_id

-- `byID[key] = stored`.
unfoldable pub put_policy :
    Text → PolicyPushPayload → List (Text × PolicyPushPayload) → List (Text × PolicyPushPayload)
put_policy key p [] = (key, p) ∷ []
put_policy key p (e ∷ es) = if text_eq e.0 key then (key, p) ∷ es else e ∷ put_policy key p es

abbrev pub legacy_found : Result PolicyPushPayload → M Files (List (Text × PolicyPushPayload))
legacy_found (ok p) = pure (put_policy (policy_key p) p [])
legacy_found (err not_found) = pure []
legacy_found (err e) = fail e

abbrev pub json_name : Env → Location → List Text
json_name env (stored_policy name) = if env.is_json name then name ∷ [] else []
json_name env _ = []

unfoldable pub json_names : Env → Files → List Text
json_names env [] = []
json_names env (f ∷ fs) = json_name env f.location ++ json_names env fs

unfoldable pub load_each :
    Env → List Text → List (Text × PolicyPushPayload) → M Files (List (Text × PolicyPushPayload))
unfolding load_policy_file put_policy policy_key
load_each env [] by_id = pure by_id
load_each env (name ∷ names) by_id = load_policy_file env (stored_policy name) >>= λ stored.
    load_each env names (put_policy (policy_key stored) stored by_id)

abbrev pub by_key : Text × PolicyPushPayload → Text × PolicyPushPayload → Bool
by_key x y = text_leb x.0 y.0

unfoldable pub payloads : List (Text × PolicyPushPayload) → List PolicyPushPayload
payloads [] = []
payloads (e ∷ es) = e.1 ∷ payloads es

-- `os.ReadDir` gives the names in order.
unfoldable pub load_policies : Env → M Files (List PolicyPushPayload)
unfolding load_policy_file json_names load_each payloads put_policy policy_key
load_policies env = do
  legacy ← attempt (load_policy_file env legacy_policy)
  by_id ← legacy_found legacy
  names ← statement env.disk.engine λ fs. (sort_by text_leb (json_names env fs), fs)
  all ← load_each env names by_id
  pure (payloads (sort_by by_key all))

abbrev pub last_policy : List PolicyPushPayload → M Files PolicyPushPayload
last_policy [] = fail not_found
last_policy (p ∷ []) = pure p
last_policy (p ∷ q ∷ ps) = last_policy (q ∷ ps)

unfoldable pub load_policy : Env → M Files PolicyPushPayload
unfolding load_policies
load_policy env = load_policies env >>= last_policy
