-- ===== src/PolicyStore/Examples.antt =====
-- Runs of the store of internal/agent/policy/store.go.
use vault_fleet.Prelude.{
  ℕ, zero, suc, ◌==◌, ◌++◌, length, ◌≡◌, refl, true, false, Option, none, some, [], ◌∷◌, Text,
  trim_space,
}
use vault_fleet.Engine.{Db, ok, err, not_found}
use vault_fleet.PolicyStore.Files.{pending_results, same_location, Files, find_file, Disk}
use vault_fleet.PolicyStore.Policies.{
  PolicyPushPayload, Env, policy_path, save_policy, load_policy_by_id, delete_policy,
}
use vault_fleet.PolicyStore.Pending.{Json}
use vault_fleet.PolicyStore.Roundtrip.{
  saves, target, after, one_file_changes, saved_policy_is_loaded,
}

-- A policy is encoded as the length of its identifier, the identifier, and the rest.
abbrev after_id : ℕ → Text → PolicyPushPayload
after_id zero t = record { policy_id = []; fields = t }
after_id (suc n) [] = record { policy_id = []; fields = [] }
after_id (suc n) (c ∷ cs) = record (after_id n cs) { policy_id = c ∷ (after_id n cs).policy_id }

abbrev decode : Text → Option PolicyPushPayload
decode [] = none
decode (n ∷ t) = some (after_id n t)

abbrev disk : Disk
disk = record {
  engine = record { fails = λ n. false; clock = λ n. 0; uuid = λ n. [] };
  torn = λ n. none;
}

-- A disk whose third step fails, and leaves half of a file.
abbrev failing : Disk
failing = record {
  engine = record { fails = λ n. n == 2; clock = λ n. 0; uuid = λ n. [] };
  torn = λ n. some (9 ∷ []);
}

abbrev env_on : Disk → Env
env_on disk = record {
  disk = disk;
  encode = λ p. length p.policy_id ∷ (p.policy_id ++ p.fields);
  decode = decode;
  base = λ t. t;
  is_json = λ t. true;
}

abbrev json : Json
json = record {
  encode = λ r. r.payload;
  array = λ ts. [];
  elements = λ t. some [];
  has_payload = λ t. some true;
  decode = λ t. none;
  decode_payload = λ t. some t;
}

abbrev policy : PolicyPushPayload
policy = record { policy_id = 97 ∷ 98 ∷ []; fields = 5 ∷ 6 ∷ [] }

abbrev empty_disk : Db Files
empty_disk = record { tables = []; tick = 0 }

saved_policy_is_loaded_example :
    ((load_policy_by_id
        (env_on disk)
        policy.policy_id
        (save_policy (env_on disk) policy empty_disk).1).0
      ≡ ok policy)
    × ((load_policy_by_id
          (env_on disk)
          policy.policy_id
          (delete_policy
            (env_on disk)
            policy.policy_id
            (save_policy (env_on disk) policy empty_disk).1).1).0
        ≡ err not_found)
saved_policy_is_loaded_example =
    saved_policy_is_loaded (env_on disk) policy empty_disk (λ n. refl) refl

other_file : same_location (target (env_on failing) (saves policy)) pending_results ≡ false
unfolding target policy_path same_location trim_space
other_file = refl

one_file_changes_example :
    find_file pending_results empty_disk.tables
    ≡ find_file pending_results (after (env_on failing) json (saves policy) empty_disk).tables
one_file_changes_example =
    one_file_changes (env_on failing) json (saves policy) pending_results empty_disk other_file
