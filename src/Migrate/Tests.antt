-- ===== src/Migrate/Tests.antt =====
-- Two migrations, one of which was applied before.
use gotra.Prelude.{Str, true, false, Option, none, List, [], ◌∷◌, ◌++◌, codes, ◌≡◌, refl}
use gotra.Errors.{Outcome, ok}
use gotra.Migrate.{Entry, Database, Answers, sorted_migration_files, up}
use gotra.Migrate.Applied.{Progress, up-Progress, up_twice}

abbrev never : Str → Option gotra.Errors.GoError
never s = none

abbrev works : Answers
works = record { read = λ s. ok s; begin_error = never; record_error = never; commit_error = never }

abbrev log_of : Str → List Str → Outcome (List Str)
log_of sql log = ok (log ++ sql ∷ [])

abbrev files : List Entry
files =
    record { name = codes "0002_b.sql"; is_dir = false }
    ∷ record { name = codes "embed.go"; is_dir = false }
    ∷ record { name = codes "0001_a.sql"; is_dir = false }
    ∷ []

abbrev old : Database (List Str)
old = record { state = codes "0001_a.sql" ∷ []; versions = codes "0001_a.sql" ∷ [] }

abbrev upgraded : Database (List Str)
upgraded = record {
  state = codes "0001_a.sql" ∷ codes "0002_b.sql" ∷ [];
  versions = codes "0001_a.sql" ∷ codes "0002_b.sql" ∷ [];
}

up_runs : up log_of works none files old ≡ (ok tt, upgraded)
unfolding up gotra.Migrate.apply_all gotra.Migrate.apply sorted_migration_files
    gotra.Migrate.is_migration gotra.Migrate.last_bytes gotra.Prelude.Sorting.sort_by
    gotra.Prelude.Sorting.insert_by gotra.Prelude.Sorting.str_leb gotra.Prelude.str_eq
up_runs = refl

up-Progress_example :
    Progress log_of works old.versions
      (sorted_migration_files files)
      old
      (up log_of works none files old)
up-Progress_example = up-Progress log_of works none files old

up_twice_example : up log_of works none files upgraded ≡ (ok tt, upgraded)
up_twice_example = up_twice log_of works files old {db' = upgraded} up_runs
