-- ===== src/Migrate.antt =====
-- services/internal/migrate/migrate.go. The database has a state `D`, which the SQL of a file
-- changes as the argument `exec` says, and the table schema_migrations; `answers` is what the
-- driver and the embedded file system answer besides.
pub mod Applied
mod Tests
use gotra.Prelude.{
  ℕ, String, Str, Bool, true, false, ◌&&◌, not, Option, none, some, List, [], ◌∷◌, ◌++◌, codes,
  str_eq, any, select, ltb, length, if◌then◌else◌,
}
use gotra.Prelude.Sorting.{sort_by}
use gotra.Errors.{GoError, Outcome, ok, err, panic}
use gotra.Errors.Sequence.{◌>>=◌, ◌>>◌}

-- An entry of the embedded directory.
pub record Entry : Type 0 where
  pub name : Str
  pub is_dir : Bool

-- The last `n` bytes of a text.
unfoldable pub last_bytes : ℕ → Str → Str
last_bytes n [] = []
last_bytes n (c ∷ s) = let rest = last_bytes n s in if ltb (length s) n then c ∷ s else rest

unfoldable pub is_migration : Entry → Bool
unfolding last_bytes
is_migration e =
    not e.is_dir && (ltb 4 (length e.name) && str_eq (last_bytes 4 e.name) (codes ".sql"))

abbrev names_of : List Entry → List Str
names_of [] = []
names_of (e ∷ es) = e.name ∷ names_of es

abbrev pub same_name : Str → Str
same_name s = s

-- sortedMigrationFiles, from what ReadDir returns.
unfoldable pub sorted_migration_files : List Entry → List Str
unfolding is_migration sort_by
sorted_migration_files entries = sort_by same_name (names_of (select is_migration entries))

-- The rows of schema_migrations, and the rest of the database.
pub record Database (D : Type 0) : Type 0 where
  pub state : D
  pub versions : List Str

-- The error, if there is one, of each call about a file: ReadFile, Begin, INSERT, and Commit.
pub record Answers : Type 0 where
  pub read : Str → Outcome Str
  pub begin_error : Str → Option GoError
  pub record_error : Str → Option GoError
  pub commit_error : Str → Option GoError

abbrev pub is_applied : Str → List Str → Bool
is_applied name versions = any (str_eq name) versions

abbrev pub failing : Option GoError → String → Outcome (Unit {0})
failing none op = ok tt
failing (some e) op = err (GoError.wrapped op e)

module _ {D : Type 0} (exec : Str → D → Outcome D) (answers : Answers) where
  -- The body of the loop for a pending file. The transaction puts the new state and the new version
  -- in place together, or nothing.
  unfoldable pub apply : Str → Database D → Outcome (Database D)
  apply name db = do
    sql ← answers.read name
    failing (answers.begin_error name) "begin tx"
    state ← exec sql db.state
    failing (answers.record_error name) "record"
    failing (answers.commit_error name) "commit"
    ok (record { state = state; versions = db.versions ++ name ∷ [] })

  -- What the loop does after a file: it stops with the error, and the database stays.
  unfoldable pub apply_all : List Str → List Str → Database D → Outcome (Unit {0}) × Database D
  apply_all applied [] db = (ok tt, db)
  apply_all applied (name ∷ names) db =
      if is_applied name applied then apply_all applied names db else elim (apply name db) [
        | ok db' ↦ apply_all applied names db'
        | err e ↦ (err e, db)
        | panic ↦ (panic, db)
      ]

  -- Up, where `setup` is the error of the statements before the loop and of ReadDir.
  unfoldable pub up : Option GoError → List Entry → Database D → Outcome (Unit {0}) × Database D
  unfolding apply_all sorted_migration_files
  up (some e) entries db = (err e, db)
  up none entries db = apply_all db.versions (sorted_migration_files entries) db
