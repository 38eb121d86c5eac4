-- ===== src/PolicyStore/Pending.antt =====
-- The pending results of internal/agent/policy/store.go. A file that an older agent has written holds
-- payloads without a message id.
use vault_fleet.Prelude.{Bool, true, false, Option, none, some, List, [], ◌∷◌, Text, codes}
use vault_fleet.Engine.{Result, ok, err, not_found, message, M, pure, fail, ◌>>=◌, ◌>>◌, attempt}
use vault_fleet.PolicyStore.Files.{
  pending_results, Files, Disk, touch, write_file0600, read_file, remove_file,
}

-- `payload` is the encoded `TaskResultPayload`.
pub record PendingTaskResult : Type 0 where
  pub message_id : Text
  pub payload : Text

-- What the store uses of `encoding/json`: the encoding of a result and of an array of encoded
-- elements, the elements of an array, whether an object has the field "payload", and the decoding
-- of a result and of a payload.
pub record Json : Type 0 where
  pub encode : PendingTaskResult → Text
  pub array : List Text → Text
  pub elements : Text → Option (List Text)
  pub has_payload : Text → Option Bool
  pub decode : Text → Option PendingTaskResult
  pub decode_payload : Text → Option Text

abbrev pub encoded : Json → List PendingTaskResult → List Text
encoded json [] = []
encoded json (r ∷ rs) = json.encode r ∷ encoded json rs

unfoldable pub save_pending_results : Disk → Json → List PendingTaskResult → M Files (Unit {0})
save_pending_results disk json results = do
  touch disk
  write_file0600 disk pending_results (json.array (encoded json results))

abbrev pub decode_as : Json → Text → Bool → Option PendingTaskResult
decode_as json raw true = json.decode raw
decode_as json raw false = elim (json.decode_payload raw) [
  | none ↦ none
  | some payload ↦ some (record { message_id = []; payload = payload })
]

abbrev pub decode_element : Json → Text → Option Bool → Option PendingTaskResult
decode_element json raw none = none
decode_element json raw (some has_payload) = decode_as json raw has_payload

unfoldable pub decode_elements : Json → List Text → Option (List PendingTaskResult)
decode_elements json [] = some []
decode_elements json (raw ∷ raws) =
    let rest = decode_elements json raws in
    elim (decode_element json raw (json.has_payload raw)) [
      | none ↦ none
      | some r ↦ elim rest [ none ↦ none | some rs ↦ some (r ∷ rs) ]
    ]

abbrev pub all_decoded : Option (List PendingTaskResult) → M Files (List PendingTaskResult)
all_decoded none = fail (message (codes "invalid JSON"))
all_decoded (some rs) = pure rs

abbrev pub raw_decoded : Json → Option (List Text) → M Files (List PendingTaskResult)
raw_decoded json none = fail (message (codes "invalid JSON"))
raw_decoded json (some raws) = all_decoded (decode_elements json raws)

-- A missing file holds no results.
abbrev pub pending_content : Json → Result Text → M Files (List PendingTaskResult)
pending_content json (ok content) = raw_decoded json (json.elements content)
pending_content json (err not_found) = pure []
pending_content json (err e) = fail e

unfoldable pub load_pending_results : Disk → Json → M Files (List PendingTaskResult)
unfolding decode_elements
load_pending_results disk json = attempt (read_file disk pending_results) >>= pending_content json

unfoldable pub clear_pending_results : Disk → M Files (Unit {0})
clear_pending_results disk = remove_file disk pending_results
