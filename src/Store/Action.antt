-- ===== src/Store/Action.antt =====
-- A call of a service: it reads and writes the database, the clock and the random source, and
-- returns a value, returns an error, or panics. A transaction works on a copy of the tables that
-- Commit puts in place; without a Commit the copy is dropped, as by the deferred Rollback.
pub mod Laws
use gotra.Prelude.{
  ℕ, suc, ◌+◌, Str, Bool, true, false, Option, none, some, List, [], ◌∷◌, ◌++◌, if◌then◌else◌,
}
use gotra.Errors.{Code, GoError, AppPtr, Outcome, ok, err, panic}
use gotra.Store.{Db}

-- What the services take from elsewhere.
pub record Env : Type 0 where
  -- the driver's error at each statement, if it has one
  pub fault : ℕ → Option ℕ
  -- gen_random_uuid() at each statement
  pub new_id : ℕ → ℕ
  -- crypto/rand.Read at each call, for a number of bytes
  pub random : ℕ → ℕ → Option (List ℕ)
  -- crypto/sha256
  pub sha256 : Str → List ℕ
  -- argon2.IDKey
  pub id_key : Str → List ℕ → ℕ → ℕ → ℕ → ℕ → List ℕ
  -- uuid.UUID.String
  pub uuid_string : ℕ → Str
  -- uuid.NewString from its 16 random bytes
  pub new_uuid : List ℕ → Str
  -- jwt: the signed token for a user, a workspace, a role and an expiry time
  pub sign : ℕ → ℕ → Str → ℕ → Option Str
  -- encoding/json and JSONB: the headers that Unmarshal reads back from what Marshal has written
  pub json_headers : List (Str × List Str) → List (Str × List Str)
  -- cfg.AccessTokenTTL and cfg.RefreshTokenTTL, in seconds
  pub access_ttl : ℕ
  pub refresh_ttl : ℕ

pub data Mail : Type 0 where
  verification reset : Str → Str → Mail

pub record World : Type 0 where
  pub committed : Db
  pub pending : Db
  pub now : ℕ
  pub statements : ℕ
  pub draws : ℕ
  pub outbox : List Mail

-- The pool or the open transaction.
pub data Querier : Type 0 where
  pool tx : Querier

abbrev pub M : Type 0 → Type 0
M A = World → Outcome A × World

abbrev pub pure : {A : Type 0} → A → M A
pure a w = (ok a, w)

abbrev pub raise : {A : Type 0} → GoError → M A
raise e w = (err e, w)

abbrev pub lift : {A : Type 0} → Outcome A → M A
lift r w = (r, w)

abbrev pub continue : {A B : Type 0} → Outcome A → (A → M B) → M B
continue (ok a) f w = f a w
continue (err e) f w = (err e, w)
continue panic f w = (panic, w)

infixl 5 ◌>>=◌ ◌>>◌
abbrev pub ◌>>=◌ : {A B : Type 0} → M A → (A → M B) → M B
◌>>=◌ m f w = let (r, w') = m w in continue r f w'

abbrev pub ◌>>◌ : {A B : Type 0} → M A → M B → M B
m >> k = m >>= λ _. k

-- The error that a call returned, as a value: `v, err := f()`.
pub data Attempt (A : Type 0) : Type 0 where
  got : A → Attempt A
  failed : GoError → Attempt A

abbrev pub attempted : {A : Type 0} → Outcome A → Outcome (Attempt A)
attempted (ok a) = ok (got a)
attempted (err e) = ok (failed e)
attempted panic = panic

abbrev pub attempt : {A : Type 0} → M A → M (Attempt A)
attempt m w = let (r, w') = m w in (attempted r, w')

-- `_ = f()`
abbrev pub ignore : {A : Type 0} → M A → M (Unit {0})
ignore m w = let (r, w') = attempt m w in continue r (λ _. pure tt) w'

-- `return err`, with `err` of the interface type `error`; a nil pointer in it is no nil.
abbrev pub return_error : GoError → M (Unit {0})
return_error GoError.nil = pure tt
return_error e = raise e

-- `return p`, with `p` a `*AppError`, from a function whose result is of type `error`.
abbrev pub return_ptr : AppPtr → M (Unit {0})
return_ptr p = raise (GoError.holds p)

-- What the driver reports of a statement.
pub data Row (A : Type 0) : Type 0 where
  row : A → Row A
  no_rows : Row A
  broken : ℕ → Row A

-- The driver's error as a value of type `error`, of a statement that returns no row.
abbrev pub driver_error : {A : Type 0} → Row A → GoError
driver_error (row a) = GoError.nil
driver_error no_rows = GoError.nil
driver_error (broken n) = GoError.library n

-- unique_violation
abbrev pub unique_violation : ℕ
unique_violation = 23505

-- foreign_key_violation
abbrev pub foreign_key_violation : ℕ
foreign_key_violation = 23503

-- A row that an INSERT returns if the rows that it refers to are there.
abbrev pub referring : {A : Type 0} → Bool → Row A → Row A
referring there r = if there then r else broken foreign_key_violation

unfoldable pub tables : Querier → World → Db
tables pool w = w.committed
tables tx w = w.pending

unfoldable pub write : Querier → Db → World → World
write pool d w = record w { committed = d }
write tx d w = record w { pending = d }

abbrev settle : {A : Type 0} → Querier → Row (A × Db) → M (Row A)
settle q (row (a, d)) w = (ok (row a), write q d w)
settle q no_rows w = (ok no_rows, w)
settle q (broken n) w = (ok (broken n), w)

abbrev sent : {A : Type 0} → Querier → Option ℕ → Row (A × Db) → M (Row A)
sent q (some n) r w = (ok (broken n), w)
sent q none r w = settle q r w

module _ (env : Env) where
  -- One statement: the driver's fault, or what `f` makes of a new identifier, the time and the
  -- tables.
  unfoldable pub statement : {A : Type 0} → Querier → (ℕ → ℕ → Db → Row (A × Db)) → M (Row A)
  unfolding tables write
  statement q f w =
      sent q (env.fault w.statements) (f (env.new_id w.statements) w.now (tables q w))
        (record w { statements = suc w.statements })

  -- rand.Read
  unfoldable pub random_bytes : ℕ → M (Option (List ℕ))
  random_bytes n w = (ok (env.random w.draws n), record w { draws = suc w.draws })

  unfoldable pub begin : M (Unit {0})
  begin w = elim (env.fault w.statements) [
    | some n ↦ (err (GoError.library n), record w { statements = suc w.statements })
    | none ↦ (ok tt, record w { statements = suc w.statements; pending = w.committed })
  ]

  unfoldable pub commit : M (Unit {0})
  commit w = elim (env.fault w.statements) [
    | some n ↦ (err (GoError.library n), record w { statements = suc w.statements })
    | none ↦ (ok tt, record w { statements = suc w.statements; committed = w.pending })
  ]

abbrev pub current_time : M ℕ
current_time w = (ok w.now, w)

unfoldable pub post : Mail → M (Unit {0})
post m w = (ok tt, record w { outbox = w.outbox ++ m ∷ [] })

-- A statement that reads the first row that passes a test.
abbrev pub found : {A : Type 0} → Db → Option A → Row (A × Db)
found d none = no_rows
found d (some a) = row (a, d)

-- A row that was asked for, its absence as an error, and a fault as it is.
unfoldable pub row_or : {A : Type 0} → GoError → Row A → M A
row_or missing (row a) = pure a
row_or missing no_rows = raise missing
row_or missing (broken n) = raise (GoError.library n)
