-- ===== src/Ingestion/Upload/Files.antt =====
-- The resolution and the order of uploaded files:
-- backend/src/domain/ingestion/services/bulk_synthetic_upload_specs.py, `resolve_and_order_files` of
-- backend/src/domain/ingestion/services/bulk_synthetic_ingestion_service.py and the stages of
-- backend/src/domain/ingestion/model/bulk_synthetic_upload_stage.py.
use fifa_world_cup_ai_agent.Prelude.{
  ℕ, suc, String, ◌<>◌, Option, none, some, List, [], ◌∷◌, if◌then◌else◌, str_eq, leb,
}

pub record ResolvedFile : Type 0 where
  pub filename : String
  pub table_name : String
  pub csv_bytes : List ℕ

pub record RejectedFile : Type 0 where
  pub filename : String
  pub reason : String

pub record BatchResolution : Type 0 where
  pub accepted : List ResolvedFile
  pub rejected : List RejectedFile

abbrev pub filename_to_table : List (String × String)
filename_to_table =
    ("teams.csv", "team")
    ∷ ("venues.csv", "venue")
    ∷ ("tournament_stages.csv", "tournament_stage")
    ∷ ("referees.csv", "referee")
    ∷ ("squads_and_players.csv", "player")
    ∷ ("matches.csv", "match")
    ∷ ("match_events.csv", "match_event")
    ∷ ("match_team_stats.csv", "match_team_stat")
    ∷ ("match_lineups.csv", "match_lineup")
    ∷ ("player_stats.csv", "player_stat")
    ∷ []

abbrev pub ingestion_order : List String
ingestion_order =
    "team" ∷ "venue" ∷ "tournament_stage" ∷ "referee" ∷ "player" ∷ "match" ∷ "match_event"
    ∷ "match_team_stat" ∷ "match_lineup" ∷ "player_stat" ∷ []

-- The values of `BulkSyntheticUploadStage`.
abbrev pub upload_stages : List String
upload_stages =
    "team" ∷ "venue" ∷ "tournament_stage" ∷ "referee" ∷ "player" ∷ "match" ∷ "match_event"
    ∷ "match_team_stat" ∷ "match_lineup" ∷ "player_stat" ∷ []

-- The value of the stage of that name; `none` is the `ValueError`.
abbrev pub stage_in : List String → String → Option String
stage_in [] name = none
stage_in (stage ∷ stages) name = if str_eq stage name then some stage else stage_in stages name

unfoldable pub stage_of : String → Option String
stage_of name = stage_in upload_stages name

abbrev pub table_in : List (String × String) → String → Option String
table_in [] filename = none
table_in ((name, table) ∷ names) filename =
    if str_eq name filename then some table else table_in names filename

unfoldable pub resolve_table_name : String → Option String
resolve_table_name filename = table_in filename_to_table filename

abbrev pub position_in : ℕ → List String → String → Option ℕ
position_in i [] name = none
position_in i (table ∷ tables) name =
    if str_eq table name then some i else position_in (suc i) tables name

-- `none` is the `ValueError` of a table outside the order.
unfoldable pub ingestion_order_index : String → Option ℕ
ingestion_order_index table = position_in 0 ingestion_order table

abbrev pub accept : String → List ℕ → Option String → BatchResolution → BatchResolution
accept filename csv_bytes (some table) rest = record rest {
  accepted =
      record { filename = filename; table_name = table; csv_bytes = csv_bytes } ∷ rest.accepted;
}
accept filename csv_bytes none rest = record rest {
  rejected =
      record {
        filename = filename;
        reason =
            "unrecognized filename '" <> filename
            <> "': does not match any known synthetic dataset table";
      }
      ∷ rest.rejected;
}

-- The loop over the uploads, before the sort.
unfoldable pub resolve_files : List (String × List ℕ) → BatchResolution
resolve_files [] = record { accepted = []; rejected = [] }
resolve_files ((filename, csv_bytes) ∷ files) =
    accept filename csv_bytes (resolve_table_name filename) (resolve_files files)

abbrev pub join_key :
    ResolvedFile → Option ℕ → Option (List (ℕ × ResolvedFile)) → Option (List (ℕ × ResolvedFile))
join_key f (some i) (some rest) = some ((i, f) ∷ rest)
join_key f _ _ = none

-- The keys that the sort asks for.
unfoldable pub with_keys : List ResolvedFile → Option (List (ℕ × ResolvedFile))
with_keys [] = some []
with_keys (f ∷ fs) = join_key f (ingestion_order_index f.table_name) (with_keys fs)

-- A stable sort by the key: a file goes before the first one of no lower key.
unfoldable pub insert_file : ℕ × ResolvedFile → List (ℕ × ResolvedFile) → List (ℕ × ResolvedFile)
insert_file f [] = f ∷ []
insert_file f (g ∷ gs) = let rest = insert_file f gs in if leb f.0 g.0 then f ∷ g ∷ gs else g ∷ rest

unfoldable pub sort_files : List (ℕ × ResolvedFile) → List (ℕ × ResolvedFile)
unfolding insert_file
sort_files [] = []
sort_files (f ∷ fs) = insert_file f (sort_files fs)

abbrev pub without_keys : List (ℕ × ResolvedFile) → List ResolvedFile
without_keys [] = []
without_keys ((i, f) ∷ fs) = f ∷ without_keys fs

abbrev pub ordered : BatchResolution → Option (List (ℕ × ResolvedFile)) → Option BatchResolution
ordered resolution none = none
ordered resolution (some keyed) =
    some (record resolution { accepted = without_keys (sort_files keyed) })

-- `none` is an exception of the sort's key.
unfoldable pub resolve_and_order_files : List (String × List ℕ) → Option BatchResolution
unfolding resolve_files with_keys sort_files
resolve_and_order_files files =
    ordered (resolve_files files) (with_keys (resolve_files files).accepted)
