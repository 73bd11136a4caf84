-- ===== src/Store/Action/Laws.antt =====
-- What a statement does to the world, in one equation for each kind of statement.
use gotra.Prelude.{ℕ, suc, ◌≡◌, refl, ap, Option, none, some, arith}
use gotra.Errors.{Outcome, ok, err, panic}
use gotra.Store.{Db}
use gotra.Store.Action.{
  Env, World, M, Querier, pool, Row, row, no_rows, broken, statement, found, ◌>>=◌, continue,
  Attempt, attempted,
}

-- The world after one more statement.
abbrev pub spent : World → World
spent w = record w { statements = suc w.statements }

-- What the driver reports of a SELECT that finds `o`.
abbrev pub answer : {A : Type 0} → Option ℕ → Option A → Row A
answer (some n) o = broken n
answer none none = no_rows
answer none (some a) = row a

-- A SELECT reads the committed tables and changes none.
pub statement-found :
    {A : Type 0} (env : Env) (f : ℕ → Db → Option A) (w : World)
    → statement env pool (λ id now d. found d (f now d)) w
      ≡ (ok (answer (env.fault w.statements) (f w.now w.committed)), spent w)
unfolding statement
statement-found env f w = ground arith

-- The driver's fault at a statement leaves the tables alone.
pub statement-fault :
    {A : Type 0} (env : Env) (q : Querier) (f : ℕ → ℕ → Db → Row (A × Db)) (w : World) (n : ℕ)
    → env.fault w.statements ≡ some n
    → statement env q f w ≡ (ok (broken n), spent w)
unfolding statement
statement-fault env q f w n e = rw e refl

-- The first step of a chain, once its result is known.
pub bind_at :
    {A B : Type 0} (f : A → M B) {p q : Outcome A × World}
    → p ≡ q
    → continue p.0 f p.1 ≡ continue q.0 f q.1
bind_at f e = ap (λ x. continue x.0 f x.1) e

pub attempt_at :
    {A : Type 0} {p q : Outcome A × World}
    → p ≡ q
    → ◌≡◌ {A = Outcome (Attempt A) × World} (attempted p.0, p.1) (attempted q.0, q.1)
attempt_at e = ap (λ x. (attempted x.0, x.1)) e

continue_ok :
    {A B : Type 0} (r : Outcome A) (f : A → M B) (w : World) {b : B} {w' : World}
    → continue r f w ≡ (ok b, w')
    → (a : A) × (r ≡ ok a) × (f a w ≡ (ok b, w'))
continue_ok (ok a) f w h = (a, refl, h)
continue_ok (err e) f w h = cc
continue_ok panic f w h = cc

-- A chain that returns has returned from its first step.
pub bind_ok :
    {A B : Type 0} (m : M A) (f : A → M B) (w : World) {b : B} {w'' : World}
    → (m >>= f) w ≡ (ok b, w'')
    → (a : A) × (w' : World) × (m w ≡ (ok a, w')) × (f a w' ≡ (ok b, w''))
bind_ok m f w h =
    let (a, e, k) = continue_ok (m w).0 f (m w).1 h in (a, (m w).1, ap (λ r. (r, (m w).1)) e, k)
