-- ===== src/Migration/Config/Backups/Deletion.antt =====
-- What becomes of the backup schedules.
use ces_importer.Base.{
  String, ◌≡◌, true, none, some, List, [], ◌∷◌, Error, ok, arith, Option-cases, Result-cases,
  Bool-cases, inl, inr,
}
use ces_importer.Migration.Types.{BackupSchedule}
use ces_importer.Migration.Config.Backups.{
  Event, BackupScheduleClient, ends_wait, wait_deleted, delete_schedule, import_backup_schedules,
  velero_backup_provider,
}

-- Some event says that the schedule was deleted.
pub data SawDeletion (name : String) : List Event → Type 0 where
  here : (e : Event) (es : List Event) → ends_wait name e ≡ true → SawDeletion name (e ∷ es)
  there : (e : Event) (es : List Event) → SawDeletion name es → SawDeletion name (e ∷ es)

wait_deleted-SawDeletion :
    (name : String) (es : List Event) → wait_deleted name es ≡ none → SawDeletion name es
unfolding wait_deleted
wait_deleted-SawDeletion name [] h = ground arith
wait_deleted-SawDeletion name (e ∷ es) h = elim (Bool-cases (ends_wait name e)) [
  | inl p ↦ here e es p
  | inr p ↦ there e es (wait_deleted-SawDeletion name es (ground (arith, p, h)))
]

module _ {W : Type 0} (bsi : BackupScheduleClient W) where
  -- The old schedule is gone: the API has none, or its deletion was seen by a watch that was begun before.
  pub data Gone (name : String) (w : W) : Type 0 where
    missing :
        (e : Error)
        → (bsi.delete name (bsi.watch name w).1).0 ≡ some e
        → bsi.is_not_found e ≡ true
        → Gone name w
    deleted :
        (es : List Event)
        → (bsi.watch name w).0 ≡ ok es
        → (bsi.delete name (bsi.watch name w).1).0 ≡ none
        → SawDeletion name es
        → Gone name w

  delete_schedule-Gone :
      (name : String) (w : W) → (delete_schedule bsi name w).0 ≡ none → Gone name w
  unfolding delete_schedule
  delete_schedule-Gone name w h = elim (Result-cases (bsi.watch name w).0) [
    | inr (e, p) ↦ ground (arith, p, h)
    | inl (es, p) ↦ elim (Option-cases (bsi.delete name (bsi.watch name w).1).0) [
      | inl q ↦ deleted es p q (wait_deleted-SawDeletion name es (ground (arith, p, q, h)))
      | inr (e, q) ↦ elim (Bool-cases (bsi.is_not_found e)) [
        | inl r ↦ missing e q r
        | inr r ↦ ground (arith, p, q, r, h)
      ]
    ]
  ]

  -- How an import without an error goes, from one world to the next: a schedule is created where the old one is gone, and is left out, with a warning, where it could not
  -- be deleted. An error of the deletion that says that nothing was found ends the import.
  pub data Imported : List BackupSchedule → W → Type 0 where
    done : (w : W) → Imported [] w
    created :
        (s : BackupSchedule) (config : List BackupSchedule) (w : W)
        → Gone s.name w
        → (bsi.create s velero_backup_provider (delete_schedule bsi s.name w).1).0 ≡ none
        → Imported config (bsi.create s velero_backup_provider (delete_schedule bsi s.name w).1).1
        → Imported (s ∷ config) w
    left_out :
        (s : BackupSchedule) (config : List BackupSchedule) (w : W) (e : Error)
        → (delete_schedule bsi s.name w).0 ≡ some e
        → Imported config (delete_schedule bsi s.name w).1
        → Imported (s ∷ config) w
    unavailable :
        (s : BackupSchedule) (config : List BackupSchedule) (w : W) (e : Error)
        → (delete_schedule bsi s.name w).0 ≡ some e
        → bsi.is_not_found e ≡ true
        → Imported (s ∷ config) w

  -- If the import of the backup schedules returns no error, each of them, up to one whose deletion says that nothing was found, was created after
  -- the old one of its name was gone, which a watch begun before has seen unless there was none, or was left out because the old one could not be deleted.
  pub import_backup_schedules-Imported :
      (config : List BackupSchedule) (w : W)
      → (import_backup_schedules bsi config w).0 ≡ none
      → Imported config w
  unfolding import_backup_schedules
  import_backup_schedules-Imported [] w h = done w
  import_backup_schedules-Imported (s ∷ config) w h =
      elim (Option-cases (delete_schedule bsi s.name w).0) [
        | inr (e, p) ↦ elim (Bool-cases (bsi.is_not_found e)) [
          | inl q ↦ unavailable s config w e p q
          | inr q ↦ left_out s config w e p (
              import_backup_schedules-Imported config (delete_schedule bsi s.name w).1
                (ground (arith, p, q, h)))
        ]
        | inl p ↦
            let create = bsi.create s velero_backup_provider (delete_schedule bsi s.name w).1 in
            elim (Option-cases create.0) [
              | inr (e, q) ↦ ground (arith, p, q, h)
              | inl q ↦
                  created s config w (delete_schedule-Gone s.name w p) q
                    (import_backup_schedules-Imported config create.1 (ground (arith, p, q, h)))
            ]
      ]
