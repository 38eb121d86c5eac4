-- ===== src/ArtifactNaming/Context.antt =====
-- What a backup's context says: `dockerValues`, `databaseValues`, `inferSourceType`,
-- `inferContextName` and `normalizeArchiveFormat` of internal/artifactnaming/naming.go, and the parts
-- of pkg/protocol/message.go that they read.
use vault_fleet.Prelude.{
  ℕ, Bool, true, false, not, ◌&&◌, ◌||◌, Option, none, some, List, [], ◌∷◌, ◌++◌, ltb, length, Text,
  codes, text_eq, to_lower, trim_space, is_empty, if◌then◌else◌,
}
use vault_fleet.ArtifactNaming.Sanitize.{first_non_empty}

pub data BackupSourceType : Type 0 where
  path docker_container database : BackupSourceType
  other : Text → BackupSourceType

pub record DockerContainerBackupSource : Type 0 where
  pub container_id : Text
  pub name : Text
  pub compose_project : Text
  pub compose_service : Text

pub record DatabaseBackupSource : Type 0 where
  pub engine : Text
  pub database : Text
  pub all_databases : Bool
  pub docker_container : Option DockerContainerBackupSource

pub record BackupSource : Type 0 where
  pub type : BackupSourceType
  pub path : Text
  pub docker_container : Option DockerContainerBackupSource
  pub database : Option DatabaseBackupSource

-- `DockerResolvedSource`, with the fields of its `Compose`.
pub record DockerResolvedSource : Type 0 where
  pub container_id : Text
  pub name : Text
  pub project : Text
  pub service : Text

pub record DatabaseDumpMetadata : Type 0 where
  pub engine : Text
  pub database : Text
  pub all_databases : Bool

-- `docker` and `database` hold the lists of their metadata. A time of 0 is the zero time.
pub record Context : Type 0 where
  pub agent_id : Text
  pub agent_name : Text
  pub policy_id : Text
  pub policy_name : Text
  pub context_name : Text
  pub archive_format : Text
  pub now : ℕ
  pub sources : List BackupSource
  pub docker : Option (List DockerResolvedSource)
  pub database : Option (List DatabaseDumpMetadata)

pub record DockerContextValues : Type 0 where
  pub container_name : Text
  pub compose_project : Text
  pub compose_service : Text

abbrev pub source_values : DockerContainerBackupSource → DockerContextValues
source_values s = record {
  container_name = first_non_empty (s.name ∷ s.container_id ∷ []);
  compose_project = s.compose_project;
  compose_service = s.compose_service;
}

abbrev pub resolved_values : DockerResolvedSource → DockerContextValues
resolved_values s = record {
  container_name = first_non_empty (s.name ∷ s.container_id ∷ []);
  compose_project = s.project;
  compose_service = s.service;
}

abbrev pub docker_of : BackupSource → BackupSourceType → Option DockerContainerBackupSource
docker_of s docker_container = s.docker_container
docker_of s _ = none

abbrev pub database_container : Option DatabaseBackupSource → Option DockerContainerBackupSource
database_container none = none
database_container (some d) = d.docker_container

abbrev pub database_docker_of : BackupSource → BackupSourceType → Option DockerContainerBackupSource
database_docker_of s database = database_container s.database
database_docker_of s _ = none

-- The first source that has a container, by a way to find it.
unfoldable pub first_container :
    (BackupSource → Option DockerContainerBackupSource)
    → List BackupSource
    → Option DockerContainerBackupSource
first_container find [] = none
first_container find (s ∷ ss) =
    let rest = first_container find ss in elim (find s) [ none ↦ rest | some c ↦ some c ]

abbrev pub no_docker_values : DockerContextValues
no_docker_values = record { container_name = []; compose_project = []; compose_service = [] }

abbrev pub values_or_none : Option DockerContainerBackupSource → DockerContextValues
values_or_none none = no_docker_values
values_or_none (some c) = source_values c

abbrev pub resolved_or :
    DockerContextValues → Option (List DockerResolvedSource) → DockerContextValues
resolved_or rest none = rest
resolved_or rest (some []) = rest
resolved_or rest (some (s ∷ ss)) = resolved_values s

abbrev pub container_or :
    DockerContextValues → Option DockerContainerBackupSource → DockerContextValues
container_or rest none = rest
container_or rest (some c) = source_values c

unfoldable pub docker_values : Context → DockerContextValues
unfolding first_container
docker_values ctx =
    container_or
      (resolved_or (values_or_none (first_container (λ s. database_docker_of s s.type) ctx.sources))
        ctx.docker)
      (first_container (λ s. docker_of s s.type) ctx.sources)

abbrev pub database_of : BackupSource → BackupSourceType → Option DatabaseBackupSource
database_of s database = s.database
database_of s _ = none

unfoldable pub first_database : List BackupSource → Option DatabaseBackupSource
first_database [] = none
first_database (s ∷ ss) =
    let rest = first_database ss in elim (database_of s s.type) [ none ↦ rest | some d ↦ some d ]

abbrev pub dump_values : Option (List DatabaseDumpMetadata) → Text × Text
dump_values none = ([], [])
dump_values (some []) = ([], [])
dump_values (some (d ∷ ds)) =
    let name = trim_space d.database in
    (
      d.engine,
      if d.all_databases || (is_empty name && ltb 1 (length (d ∷ ds)))
          then codes "all-databases"
          else name,
    )

abbrev pub database_or_dump :
    Option (List DatabaseDumpMetadata) → Option DatabaseBackupSource → Text × Text
database_or_dump dumps none = dump_values dumps
database_or_dump dumps (some d) =
    (d.engine, if d.all_databases then codes "all-databases" else trim_space d.database)

-- The engine and the name of the database.
unfoldable pub database_values : Context → Text × Text
unfolding first_database
database_values ctx = database_or_dump ctx.database (first_database ctx.sources)

pub data SourceType : Type 0 where
  of_path of_docker of_database of_mixed : SourceType

abbrev pub source_type_text : SourceType → Text
source_type_text of_path = codes "path"
source_type_text of_docker = codes "docker"
source_type_text of_database = codes "database"
source_type_text of_mixed = codes "mixed"

-- The set `seen`.
pub record Seen : Type 0 where
  pub path : Bool
  pub docker : Bool
  pub database : Bool

abbrev pub saw : BackupSourceType → Seen → Seen
saw path s = record s { path = true }
saw docker_container s = record s { docker = true }
saw database s = record s { database = true }
saw (other t) s = s

unfoldable pub seen_in : List BackupSource → Seen
seen_in [] = record { path = false; docker = false; database = false }
seen_in (s ∷ ss) = saw s.type (seen_in ss)

abbrev pub has_some {ℓ} : {A : Type ℓ} → Option (List A) → Bool
has_some none = false
has_some (some xs) = not (is_empty xs)

abbrev pub seen_or_resolved :
    Seen → Option (List DockerResolvedSource) → Option (List DatabaseDumpMetadata) → Seen
seen_or_resolved s containers dumps =
    if s.path || s.docker || s.database
    then s
    else record { path = false; docker = has_some containers; database = has_some dumps }

abbrev pub only_type : Bool → Bool → Bool → SourceType
only_type true false false = of_path
only_type false true false = of_docker
only_type false false true = of_database
only_type false false false = of_path
only_type _ _ _ = of_mixed

unfoldable pub infer_source_type :
    List BackupSource
    → Option (List DockerResolvedSource)
    → Option (List DatabaseDumpMetadata)
    → SourceType
unfolding seen_in
infer_source_type sources containers dumps =
    let seen = seen_or_resolved (seen_in sources) containers dumps in
    only_type seen.path seen.docker seen.database

-- The name of the only source's path; `base` is `filepath.Base(filepath.Clean(path))`.
abbrev pub path_name : (Text → Text) → List BackupSource → Option Text
path_name base [] = none
path_name base (s ∷ []) =
    let p = trim_space s.path in
    if is_empty p || text_eq (base p) (codes ".") || text_eq (base p) (codes "/")
    then none
    else some (base p)
path_name base (s ∷ t ∷ ss) = none

abbrev pub docker_name : DockerContextValues → Option Text
docker_name d =
    if not (is_empty d.compose_project)
    then some d.compose_project
    else if not (is_empty d.container_name)
    then some d.container_name
    else none

abbrev pub database_label : Text × Text → Option Text
database_label d =
    if not (is_empty d.0) && not (is_empty d.1)
    then some (d.0 ++ codes "-" ++ d.1)
    else if not (is_empty d.0)
    then some (d.0 ++ codes "-database")
    else none

abbrev pub name_for : (Text → Text) → Context → SourceType → Option Text
name_for base ctx of_docker = docker_name (docker_values ctx)
name_for base ctx of_database = database_label (database_values ctx)
name_for base ctx of_path = path_name base ctx.sources
name_for base ctx of_mixed = none

abbrev pub name_or : Context → Option Text → Text
name_or ctx none =
    first_non_empty (ctx.policy_name ∷ ctx.policy_id ∷ ctx.agent_name ∷ ctx.agent_id ∷ [])
name_or ctx (some name) = name

unfoldable pub infer_context_name : (Text → Text) → Context → SourceType → Text
unfolding first_non_empty docker_values database_values
infer_context_name base ctx type = name_or ctx (name_for base ctx type)

unfoldable pub normalize_archive_format : Text → Text
normalize_archive_format format =
    if text_eq (to_lower (trim_space format)) (codes "zip") then codes "zip" else codes "tar.gz"
