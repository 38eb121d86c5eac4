-- ===== src/PolicyStore/Roundtrip.antt =====
-- What the files of internal/agent/policy/store.go hold after a write, and after one that fails.
use mathlib.Core.Path.{subst}
use vault_fleet.Prelude.{
  arith, ℕ, suc, ◌≡◌, refl, sym, ap, ◌∙◌, true, false, inl, inr, Bool-cases, Option, none, some,
  List, [], ◌∷◌, Text, text_eq_iff, text_eq_refl,
}
use vault_fleet.Engine.{Db, ok, err, not_found, M, ◌>>=◌, ◌>>◌, statement}
use vault_fleet.Engine.Keeps.{Keeps, Keeps-bind, Keeps-statement}
use vault_fleet.PolicyStore.Files.{
  Location, legacy_policy, stored_policy, pending_results, same_location, Files, find_file,
  delete_file, set_file, Disk, torn_file, write_content, touch, write_file0600, read_file,
  remove_file,
}
use vault_fleet.PolicyStore.Policies.{
  PolicyPushPayload, Env, policy_path, save_policy, load_policy_file, load_policy_by_id,
  delete_policy,
}
use vault_fleet.PolicyStore.Pending.{
  PendingTaskResult, Json, save_pending_results, clear_pending_results,
}

same_location→eq : (k l : Location) → same_location k l ≡ true → k ≡ l
unfolding same_location
same_location→eq legacy_policy legacy_policy h = refl
same_location→eq legacy_policy (stored_policy b) h = absurd (ground (arith, h))
same_location→eq legacy_policy pending_results h = absurd (ground (arith, h))
same_location→eq (stored_policy a) legacy_policy h = absurd (ground (arith, h))
same_location→eq (stored_policy a) (stored_policy b) h = ap stored_policy ((text_eq_iff a b).0 h)
same_location→eq (stored_policy a) pending_results h = absurd (ground (arith, h))
same_location→eq pending_results legacy_policy h = absurd (ground (arith, h))
same_location→eq pending_results (stored_policy b) h = absurd (ground (arith, h))
same_location→eq pending_results pending_results h = refl

same_location_refl : (l : Location) → same_location l l ≡ true
unfolding same_location
same_location_refl legacy_policy = refl
same_location_refl (stored_policy a) = text_eq_refl a
same_location_refl pending_results = refl

find_file-delete : (l : Location) (fs : Files) → find_file l (delete_file l fs) ≡ none
unfolding find_file delete_file
find_file-delete l [] = refl
find_file-delete l (f ∷ fs) = elim (Bool-cases (same_location f.location l)) [
  | inl e ↦ rw e (find_file-delete l fs)
  | inr e ↦ rw (e, e) (find_file-delete l fs)
]

find_file-delete_other :
    (k l : Location) (fs : Files)
    → same_location l k ≡ false
    → find_file k (delete_file l fs) ≡ find_file k fs
unfolding find_file delete_file
find_file-delete_other k l [] h = refl
find_file-delete_other k l (f ∷ fs) h = elim (Bool-cases (same_location f.location l)) [
  | inl e ↦
      let other : same_location f.location k ≡ false =
        subst (λ x. same_location x k ≡ false) (sym (same_location→eq f.location l e)) h in
      rw (e, other) (find_file-delete_other k l fs h)
  | inr e ↦ elim (Bool-cases (same_location f.location k)) [
    | inl x ↦ rw (e, x) refl
    | inr x ↦ rw (e, x) (find_file-delete_other k l fs h)
  ]
]

find_file-set : (l : Location) (c : Text) (fs : Files) → find_file l (set_file l c fs) ≡ some c
unfolding find_file set_file
find_file-set l c fs = rw (same_location_refl l) refl

find_file-set_other :
    (k l : Location) (c : Text) (fs : Files)
    → same_location l k ≡ false
    → find_file k (set_file l c fs) ≡ find_file k fs
unfolding find_file set_file
find_file-set_other k l c fs h = rw h (find_file-delete_other k l fs h)

-- The file at a location is as it was.
abbrev Untouched : Location → Files → Files → Type 0
Untouched k fs gs = find_file k fs ≡ find_file k gs

module _ (k : Location) where
  then-Untouched :
      {A B : Type 0} (m : M Files A) (f : A → M Files B)
      → Keeps (Untouched k) m
      → ((a : A) → Keeps (Untouched k) (f a))
      → Keeps (Untouched k) (m >>= f)
  then-Untouched = Keeps-bind (Untouched k) (λ fs. refl) (λ fs gs hs p q. p ∙ q)

  statement-Untouched :
      {A : Type 0} (disk : Disk) (f : Files → A × Files)
      → ((fs : Files) → Untouched k fs (f fs).1)
      → Keeps (Untouched k) (statement disk.engine f)
  statement-Untouched disk =
      Keeps-statement (Untouched k) (λ fs. refl) (λ fs gs hs p q. p ∙ q) disk.engine

  touch-Untouched : (disk : Disk) → Keeps (Untouched k) (touch disk)
  unfolding touch
  touch-Untouched disk = statement-Untouched disk _ λ fs. refl

  torn-Untouched :
      (l : Location) (o : Option Text) (fs : Files)
      → same_location l k ≡ false
      → Untouched k fs (torn_file l o fs)
  torn-Untouched l none fs h = refl
  torn-Untouched l (some c) fs h = sym (find_file-set_other k l c fs h)

  write_content-Untouched :
      (disk : Disk) (l : Location) (c : Text)
      → same_location l k ≡ false
      → Keeps (Untouched k) (write_content disk l c)
  unfolding write_content
  write_content-Untouched disk l c h = record {
    holds = λ d. elim (Bool-cases (disk.engine.fails d.tick)) [
      | inl e ↦ rw e (torn-Untouched l (disk.torn d.tick) d.tables h)
      | inr e ↦ rw e (sym (find_file-set_other k l c d.tables h))
    ];
  }

  write_file0600-Untouched :
      (disk : Disk) (l : Location) (c : Text)
      → same_location l k ≡ false
      → Keeps (Untouched k) (touch disk >> write_file0600 disk l c)
  unfolding write_file0600
  write_file0600-Untouched disk l c h = then-Untouched _ _ (touch-Untouched disk) λ _.
      then-Untouched _ _ (touch-Untouched disk)
        λ _. then-Untouched _ _ (write_content-Untouched disk l c h) λ _. touch-Untouched disk

-- The methods that write, each with the file that it is for.
pub data Write : Type 0 where
  saves : PolicyPushPayload → Write
  deletes : Text → Write
  saves_pending : List PendingTaskResult → Write
  clears_pending : Write

unfoldable pub target : Env → Write → Location
target env (saves p) = policy_path env p.policy_id
target env (deletes i) = policy_path env i
target env (saves_pending rs) = pending_results
target env clears_pending = pending_results

unfoldable pub after : Env → Json → Write → Db Files → Db Files
after env json (saves p) d = (save_policy env p d).1
after env json (deletes i) d = (delete_policy env i d).1
after env json (saves_pending rs) d = (save_pending_results env.disk json rs d).1
after env json clears_pending d = (clear_pending_results env.disk d).1

-- Whatever steps fail, and whatever a failed write leaves: saving or deleting a policy, and saving or
-- clearing the pending results, changes no file but its own.
pub one_file_changes :
    (env : Env) (json : Json) (w : Write) (k : Location) (d : Db Files)
    → same_location (target env w) k ≡ false
    → find_file k d.tables ≡ find_file k (after env json w d).tables
unfolding target after save_policy delete_policy save_pending_results clear_pending_results
    remove_file
one_file_changes env json (saves p) k d h =
    (write_file0600-Untouched k env.disk (policy_path env p.policy_id) _ h).holds d
one_file_changes env json (deletes i) k d h =
    (statement-Untouched k env.disk _
        λ fs. sym (find_file-delete_other k (policy_path env i) fs h)).holds
      d
one_file_changes env json (saves_pending rs) k d h =
    (write_file0600-Untouched k env.disk pending_results _ h).holds d
one_file_changes env json clears_pending k d h =
    (statement-Untouched k env.disk _
        λ fs. sym (find_file-delete_other k pending_results fs h)).holds
      d

-- Every step succeeds.
abbrev pub Healthy : Disk → Type 0
Healthy disk = (n : ℕ) → disk.engine.fails n ≡ false

saved-tables :
    (env : Env) (p : PolicyPushPayload) (d : Db Files)
    → Healthy env.disk
    → (save_policy env p d).1.tables
      ≡ set_file (policy_path env p.policy_id) (env.encode p) d.tables
unfolding save_policy write_file0600 touch write_content statement
saved-tables env p d h =
    rw (h d.tick, h (suc d.tick), h (suc (suc d.tick)), h (suc (suc (suc d.tick)))) refl

deleted-tables :
    (env : Env) (i : Text) (d : Db Files)
    → Healthy env.disk
    → (delete_policy env i d).1.tables ≡ delete_file (policy_path env i) d.tables
unfolding delete_policy remove_file statement
deleted-tables env i d h = rw (h d.tick) refl

loaded_some :
    (env : Env) (i : Text) (c : Text) (p : PolicyPushPayload) (d : Db Files)
    → Healthy env.disk
    → find_file (policy_path env i) d.tables ≡ some c
    → env.decode c ≡ some p
    → (load_policy_by_id env i d).0 ≡ ok p
unfolding load_policy_by_id load_policy_file read_file statement
loaded_some env i c p d h f e = rw (h d.tick, f, e) refl

loaded_none :
    (env : Env) (i : Text) (d : Db Files)
    → Healthy env.disk
    → find_file (policy_path env i) d.tables ≡ none
    → (load_policy_by_id env i d).0 ≡ err not_found
unfolding load_policy_by_id load_policy_file read_file statement
loaded_none env i d h f = rw (h d.tick, f) refl

-- Where every step succeeds and decoding a policy's encoding gives the policy: a policy that is saved
-- is loaded by its identifier as it was, whatever was there before, and is not there any more once
-- it is deleted.
pub saved_policy_is_loaded :
    (env : Env) (p : PolicyPushPayload) (d : Db Files)
    → Healthy env.disk
    → env.decode (env.encode p) ≡ some p
    → ((load_policy_by_id env p.policy_id (save_policy env p d).1).0 ≡ ok p)
      × ((load_policy_by_id env p.policy_id
            (delete_policy env p.policy_id (save_policy env p d).1).1).0
          ≡ err not_found)
saved_policy_is_loaded env p d h e =
    let l = policy_path env p.policy_id in
    let d' = (save_policy env p d).1 in
    (
      loaded_some env p.policy_id (env.encode p) p d' h
          (ap (find_file l) (saved-tables env p d h) ∙ find_file-set l (env.encode p) d.tables) e,
      loaded_none env p.policy_id (delete_policy env p.policy_id d').1 h
          (ap (find_file l) (deleted-tables env p.policy_id d' h) ∙ find_file-delete l d'.tables),
    )
