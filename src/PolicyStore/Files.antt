-- ===== src/PolicyStore/Files.antt =====
-- The files of internal/agent/policy/store.go: `writeFile0600`, `os.ReadFile`, `os.Remove`. A file is
-- named by what it is for, not by its path. A step may fail by the engine; a write that fails
-- may leave anything in its file, and nothing in any other.
use vault_fleet.Prelude.{
  ℕ, suc, Bool, true, false, Option, none, some, List, [], ◌∷◌, Text, text_eq, if◌then◌else◌,
}
use vault_fleet.Engine.{Engine, ok, err, not_found, db_error, M, pure, fail, ◌>>=◌, ◌>>◌, statement}

-- `policy.json`, the files of the directory `policies`, and `pending_results.json`.
pub data Location : Type 0 where
  legacy_policy : Location
  stored_policy : Text → Location
  pending_results : Location

unfoldable pub same_location : Location → Location → Bool
same_location legacy_policy legacy_policy = true
same_location (stored_policy a) (stored_policy b) = text_eq a b
same_location pending_results pending_results = true
same_location _ _ = false

pub record File : Type 0 where
  pub location : Location
  pub content : Text

abbrev pub Files : Type 0
Files = List File

unfoldable pub find_file : Location → Files → Option Text
unfolding same_location
find_file l [] = none
find_file l (f ∷ fs) = if same_location f.location l then some f.content else find_file l fs

unfoldable pub delete_file : Location → Files → Files
unfolding same_location
delete_file l [] = []
delete_file l (f ∷ fs) =
    if same_location f.location l then delete_file l fs else f ∷ delete_file l fs

unfoldable pub set_file : Location → Text → Files → Files
unfolding delete_file
set_file l content fs = record { location = l; content = content } ∷ delete_file l fs

-- `torn` is what a failed write leaves, if it changes the file.
pub record Disk : Type 0 where
  pub engine : Engine
  pub torn : ℕ → Option Text

abbrev pub torn_file : Location → Option Text → Files → Files
torn_file l none fs = fs
torn_file l (some content) fs = set_file l content fs

-- `os.WriteFile`.
unfoldable pub write_content : Disk → Location → Text → M Files (Unit {0})
unfolding set_file
write_content disk l content d =
    if disk.engine.fails d.tick
    then (
      err db_error,
      record { tables = torn_file l (disk.torn d.tick) d.tables; tick = suc d.tick },
    )
    else (ok tt, record { tables = set_file l content d.tables; tick = suc d.tick })

-- `os.MkdirAll` and `os.Chmod`, which change no content.
unfoldable pub touch : Disk → M Files (Unit {0})
touch disk = statement disk.engine λ fs. (tt, fs)

unfoldable pub write_file0600 : Disk → Location → Text → M Files (Unit {0})
unfolding touch write_content
write_file0600 disk l content = do touch disk; write_content disk l content; touch disk

abbrev pub found_content : Option Text → M Files Text
found_content none = fail not_found
found_content (some content) = pure content

-- `os.ReadFile`; a file that is missing is `os.ErrNotExist`.
unfoldable pub read_file : Disk → Location → M Files Text
unfolding find_file
read_file disk l = do found ← statement disk.engine λ fs. (find_file l fs, fs); found_content found

-- `os.Remove`, where a missing file is no error.
unfoldable pub remove_file : Disk → Location → M Files (Unit {0})
unfolding delete_file
remove_file disk l = statement disk.engine λ fs. (tt, delete_file l fs)
