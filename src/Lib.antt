-- ===== src/Lib.antt =====
-- ces-importer, a program that copies the data and the configuration of one Cloudogu EcoSystem (the exporter)
-- into another one (the importer).
--
-- The program's parts. In the importer's cluster a scheduler (migration/run.go) starts migrations: delta
-- migrations by cron, manual ones when a labelled config map is added (migration/manual), and one final
-- migration at a timestamp (migration/timestamp.go). Each is a run of the runner (migration/runner.go): it
-- checks the export mode, compares the two systems (systeminfo/validator.go), stops the blueprints and the
-- dogus (api/importer), resizes volumes (systeminfo/dogu_volume_resizer.go), in a final migration closes the
-- exporter, and runs a job (migration/jobService.go, jobProvider.go, pvc.go). The job's program
-- (cmd/import-job/executer.go) copies the dogus' data with rsync (migration/sync), copies the configuration, and
-- changes the fqdn and the certificate (migration/fqdn/service.go).
--
-- The files, each with the code that it models; operations have the names of the Go functions in snake_case.
--   Base and its children: tests, lists, Go's errors (errors.Join, wrapped errors) and maps.
--   Migration/Types, Context, ExportMode, Timestamp: the files of package migration of the same names.
--   Migration/Runner: migration/runner.go. Calls return, fail or panic and are recorded. Order: the order of the calls.
--     Cleanup, Result: the deferred clean-up and the result of a run. Chain: the calls that have returned when the job starts.
--     Outcome: how a migration ends whose job was started.
--   Migration/Schedule: migration/run.go. Start: what is started. Threads: the threads that share the
--     flag migrationRunning, as a step relation. Timestamp/Waiting: how long the final migration waits.
--   Migration/Manual: migration/manual/manual.go. Laws: which requests are served.
--   Migration/Job/Volumes, Provider, Service: pvc.go and the volumes of jobProvider.go, the job of jobProvider.go,
--     jobService.go. Volumes/Mounting, Provider/Trigger, Service/Watching hold what is shown of them.
--   Migration/Fqdn: migration/fqdn/service.go. Rollback: failed changes. Request: the requested change.
--     Cluster: the interfaces of migration/fqdn/interface.go and their laws. Managers: fqdn.go and certificate.go. Managers/Views:
--     what is live and what is saved. Frame: what the managers leave alone. Written, Contract: what they write. Refinement: that
--     they are changers as the change of the fqdn wants them.
--   Migration/Sync: migration/sync/rsync.go. Copies: what a copy without an error has done. Errors: which
--     errors its result holds.
--   Migration/Config: migration/config/importer.go. Config/Global: migration/config/global.go. Global/Merge: what an
--     import of the global configuration keeps and what it takes over. Config/Dogus and Dogus/Restored: the
--     same for migration/config/dogu.go. Config/Backups and Backups/Deletion: migration/config/backup.go. Config/Wiring: the
--     importer that NewConfigImporter makes of the three.
--   Migration/Executer: cmd/import-job/executer.go.
--   SystemInfo/Names, Validator: systeminfo/validator.go. Resizer: systeminfo/dogu_volume_resizer.go. Provider:
--     systeminfo/provider.go.
--   Importer/Blueprints, Importer/Dogus: api/importer/blueprintClient.go and doguClient.go.
--   Exporter/Client: the requests of api/exporter/client.go, and in Client/Answers when they are answered. Tls: the options of
--     client.go and NewServiceFromConfig of service.go. Data: exporter.go and configuration.go. Maintenance: maintenance.go.
--     Services: exportmode.go, exportdogu.go, systeminfo.go, configuration.go and health.go.
--   Mail/Smtp: mail/tlsSender.go, with Plan and Sessions for the order of the commands. Mail/Report, Sender: mail/mailer.go, with
--     Sender/Readable for attachments that cannot be read.
--   Configuration/Types, Reading, Secrets, Validate: configuration/types.go; coordinator.go and job.go; ValidateSecrets of
--     coordinator.go; validate.go. Reading/Agreement, Secrets/Present, Validate/Unrestricted hold what is shown of them.
--   Logging: logging/logger.go. Written: where the importer logs to.
--   Importer/Clients: api/importer/clients.go.
--   Programs/Preflight, Importer, Job: cmd/ces-importer/preflight.go and main.go, and cmd/import-job/main.go. Job/Completed:
--     what an import job has done that exits with 0.
--   Programs/Migrator: the migrator that createMigrator of cmd/ces-importer/main.go makes of the components above. Cleared: what it
--     has made sure of when the import job starts. Completed: what it has done when a migration ends with no error.
--   Programs/Executer: the import job that NewImportExecuter of cmd/import-job/executer.go makes of the copy, the import and the
--     change of the fqdn. Kept: what it leaves alone.
--     Delta: the importer and its job together. The files Frame of Exporter/Services, Migration/Sync and Migration/Config, and
--     Config/Global/Kept, say so of its parts.
--   Tests: concrete inputs.
--
-- How code becomes a model. A call of another system (Kubernetes, the exporter, rsync, the mail server, a clock) is
-- a function on a world, a field of a record that is a parameter; what a theorem needs of it is a record of laws, which an
-- example in Tests fulfils. A Go function that returns an error yields an Option Error or a Result, with the new
-- world. Log messages are left out. Goroutines that touch the shared flag are threads of a step relation; the goroutine that
-- streams a job's logs, and those that resize volumes, take effect where their starter waits for them.
--
-- Bounds and fuel. The poll for a dogu's pods takes its rounds as fuel; 151 are enough for the timeout of 300 seconds with
-- an interval of 2. The poll of the final migration takes rounds of a minute, and it is shown how many are needed.
-- The wait for a claim has its 60 retries from the source. All other loops follow a list. Sizes and counts are
-- natural numbers, since the source only compares them.
--
-- How often client-go retries is left open: a retried call is some number of tries, of which the last counts. A watch is the list of
-- the events that arrive before its timeout.
--
-- Not modelled: the libraries that the program calls (HTTP, JSON, YAML, the tags of the validator, MIME, SMTP, SSH, Kubernetes), which
-- are parameters; the path of the custom certificates for mail that CreateSender sets; the signal handling and the shutdown of
-- cmd/ces-importer/main.go; cron.
pub mod Tests
pub mod Base
pub mod Configuration
pub mod Exporter
pub mod Importer
pub mod Mail
pub mod Logging
pub mod Migration
pub mod Programs
pub mod SystemInfo
