-- ===== src/Migration/Config/Backups.antt =====
-- migration/config/backup.go: the import of the backup schedules. The client of the API is a parameter; a watch is the list of the events that
-- arrive before its timeout.
pub mod Deletion
use ces_importer.Base.{
  String, ◌<>◌, ◌==◌, Bool, true, false, Option, none, some, List, [], ◌∷◌, Error, plain, wrap,
  Result, ok, err, if◌then◌else◌,
}
use ces_importer.Migration.Types.{BackupSchedule}

-- An object is a backup schedule with its name, or of another type.
pub data Object : Type 0 where
  schedule : String → Object
  other : Object

pub record Event : Type 0 where
  pub is_deleted : Bool
  pub object : Object

-- `backupScheduleClient`, and `errors.IsNotFound`
pub record BackupScheduleClient (W : Type 0) : Type 0 where
  pub create : BackupSchedule → String → W → Option Error × W
  pub watch : String → W → Result (List Event) × W
  pub delete : String → W → Option Error × W
  pub is_not_found : Error → Bool

-- Whether an event ends the wait.
unfoldable pub ends_wait : String → Event → Bool
ends_wait schedule_name event = elim event.object [
  | other ↦ false
  | schedule name ↦ if name == schedule_name then event.is_deleted else false
]

-- The loop of `delete`.
unfoldable pub wait_deleted : String → List Event → Option Error
wait_deleted schedule_name [] =
    some
      (plain ("timeout while waiting for backup schedule '" <> schedule_name <> "' to be deleted"))
wait_deleted schedule_name (event ∷ events) =
    let rest = wait_deleted schedule_name events in
    if ends_wait schedule_name event then none else rest

abbrev velero_backup_provider : String
velero_backup_provider = "velero"

module _ {W : Type 0} (bsi : BackupScheduleClient W) where
  unfoldable pub delete_schedule : String → W → Option Error × W
  delete_schedule schedule_name w =
      let (watcher, w1) = bsi.watch schedule_name w in
      let (failure, w2) = bsi.delete schedule_name w1 in
      elim watcher [
        | err e ↦ (
          some (wrap ("failed to watch backup schedule resource '" <> schedule_name <> "'") e),
          w1,
        )
        | ok events ↦ elim failure [
          | none ↦ (wait_deleted schedule_name events, w2)
          | some e ↦ if bsi.is_not_found e then (none, w2) else (
            some (wrap ("failed to delete backup schedule resource'" <> schedule_name <> "'") e),
            w2,
          )
        ]
      ]

  unfoldable pub import_backup_schedules : List BackupSchedule → W → Option Error × W
  import_backup_schedules [] w = (none, w)
  import_backup_schedules (s ∷ config) w =
      let (failure, w1) = delete_schedule s.name w in
      elim failure [
        | some e ↦ elim (bsi.is_not_found e) [
          | true ↦ (none, w1)
          | false ↦ import_backup_schedules config w1
        ]
        | none ↦
            let (not_created, w2) = bsi.create s velero_backup_provider w1 in
            elim not_created [
              | some e ↦ (some (wrap ("failed to create backup schedule '" <> s.name <> "'") e), w2)
              | none ↦ import_backup_schedules config w2
            ]
      ]
