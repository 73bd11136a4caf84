-- ===== src/Migrate/Applied.antt =====
-- Which files a run applies, and that a second run applies none.
use gotra.Prelude.{
  ◌≡◌, refl, ap, sym, subst, ◌∙◌, Str, true, false, ◌||◌, not, Option, none, some, List, [], ◌∷◌,
  ◌++◌, str_eq_refl, select, All, arith, append_assoc, append-nil, Bool-cases, inl, inr, ◌⊎◌,
}
use gotra.Prelude.Alls.{All-map}
use gotra.Errors.{GoError, Outcome, ok, err, panic}
use gotra.Errors.Sequence.{sequence_ok}
use gotra.Migrate.{
  Entry, Database, Answers, is_applied, apply, apply_all, up, sorted_migration_files, failing,
}

-- The files that a run has to apply, in their order.
unfoldable pub pending : List Str → List Str → List Str
pending applied names = select (λ name. not (is_applied name applied)) names

pending-skip :
    (applied : List Str) (name : Str) (names : List Str)
    → is_applied name applied ≡ true
    → pending applied (name ∷ names) ≡ pending applied names
unfolding pending
pending-skip applied name names e = rw (pending, e) refl

pending-keep :
    (applied : List Str) (name : Str) (names : List Str)
    → is_applied name applied ≡ false
    → pending applied (name ∷ names) ≡ name ∷ pending applied names
unfolding pending
pending-keep applied name names e = rw (pending, e) refl

is_applied-append :
    (name : Str) (xs ys : List Str)
    → is_applied name (xs ++ ys) ≡ (is_applied name xs || is_applied name ys)
is_applied-append name [] ys = refl
is_applied-append name (x ∷ xs) ys = ground (arith, is_applied-append name xs ys)

-- Each name is among the versions before or among the pending ones.
abbrev Covered : List Str → List Str → Str → Type 0
Covered applied todo name = (is_applied name applied || is_applied name todo) ≡ true

pending-Covered : (applied names : List Str) → All (Covered applied (pending applied names)) names
pending-Covered applied [] = tt
pending-Covered applied (name ∷ names) = elim (Bool-cases (is_applied name applied)) [
  | inl e ↦
      subst (λ todo. All (Covered applied todo) (name ∷ names))
        (sym (pending-skip applied name names e)) (ground (arith, e), pending-Covered applied names)
  | inr e ↦
      subst (λ todo. All (Covered applied todo) (name ∷ names))
        (sym (pending-keep applied name names e))
        (
          ground (arith, str_eq_refl name),
          All-map (Covered applied (pending applied names))
              (Covered applied (name ∷ pending applied names)) names (λ x h. ground (arith, h))
              (pending-Covered applied names),
        )
]

pending-empty :
    (applied names : List Str)
    → All (λ name. is_applied name applied ≡ true) names
    → pending applied names ≡ []
unfolding pending
pending-empty applied [] h = refl
pending-empty applied (name ∷ names) (h, hs) =
    pending-skip applied name names h ∙ pending-empty applied names hs

-- Once the pending names are recorded, none is pending.
pending-again : (applied names : List Str) → pending (applied ++ pending applied names) names ≡ []
pending-again applied names = pending-empty (applied ++ pending applied names) names (
    All-map (Covered applied (pending applied names)) _ names
      (λ x h. is_applied-append x applied (pending applied names) ∙ h)
      (pending-Covered applied names))

module _ {D : Type 0} (exec : Str → D → Outcome D) (answers : Answers) where
  -- A database after some files, each of which was read and run without an error.
  pub data After : List Str → Database D → Database D → Type 0 where
    none_left : {db : Database D} → After [] db db
    applied_file :
        {name sql : Str} {names : List Str} {state : D} {db db1 db' : Database D}
        → answers.read name ≡ ok sql
        → exec sql db.state ≡ ok state
        → db1 ≡ record { state = state; versions = db.versions ++ name ∷ [] }
        → After names db1 db'
        → After (name ∷ names) db db'

  apply_ok :
      (name : Str) (db : Database D) {db' : Database D}
      → apply exec answers name db ≡ ok db'
      → (sql : Str) × (state : D) × (answers.read name ≡ ok sql)
        × (exec sql db.state ≡ ok state)
        × (db' ≡ record { state = state; versions = db.versions ++ name ∷ [] })
  unfolding apply
  apply_ok name db h =
      let (sql, read, h1) = sequence_ok (answers.read name) _ h in
      let (x, begun, h2) = sequence_ok (failing (answers.begin_error name) "begin tx") _ h1 in
      let (state, ran, h3) = sequence_ok (exec sql db.state) _ h2 in
      let (y, recorded, h4) = sequence_ok (failing (answers.record_error name) "record") _ h3 in
      let (z, committed, h5) = sequence_ok (failing (answers.commit_error name) "commit") _ h4 in
      (sql, state, read, ran, cc)

  Outcome-cases :
      {A : Type 0} (o : Outcome A)
      → ((a : A) × (o ≡ ok a)) ⊎ (((e : GoError) × (o ≡ err e)) ⊎ (o ≡ panic))
  Outcome-cases (ok a) = inl (a, refl)
  Outcome-cases (err e) = inr (inl (e, refl))
  Outcome-cases panic = inr (inr refl)

  -- The outcome of a run over `names`, where the versions in `applied` were recorded before: it is
  -- as after the first files that were pending, and after all of them where the run returns nil.
  pub record Progress (applied names : List Str) (db : Database D)
      (result : Outcome (Unit {0}) × Database D) : Type 0 where
    pub done : List Str
    pub left : List Str
    pub split : pending applied names ≡ done ++ left
    pub after : After done db result.1
    pub finished : result.0 ≡ ok tt → left ≡ []

  stopped-Progress :
      (applied names : List Str) (db : Database D) (o : Outcome (Unit {0}))
      → (o ≡ ok tt → ⊥)
      → Progress applied names db (o, db)
  stopped-Progress applied names db o never = record {
    done = [];
    left = pending applied names;
    split = refl;
    after = none_left;
    finished = λ h. absurd (never h);
  }

  apply_all-Progress :
      (applied names : List Str) (db : Database D)
      → Progress applied names db (apply_all exec answers applied names db)
  unfolding pending apply_all
  apply_all-Progress applied [] db = record {
    done = [];
    left = [];
    split = refl;
    after = none_left;
    finished = λ h. refl;
  }
  apply_all-Progress applied (name ∷ names) db = elim (Bool-cases (is_applied name applied)) [
    | inl e ↦
        let p = apply_all-Progress applied names db in
        rw (apply_all, e)
          (record {
            done = p.done;
            left = p.left;
            split = pending-skip applied name names e ∙ p.split;
            after = p.after;
            finished = p.finished;
          })
    | inr e ↦ elim (Outcome-cases (apply exec answers name db)) [
      | inl (db', h) ↦
          let p = apply_all-Progress applied names db' in
          let (sql, state, read, ran, same) = apply_ok name db h in
          rw (apply_all, e, h)
            (record {
              done = name ∷ p.done;
              left = p.left;
              split = pending-keep applied name names e ∙ ap {B = List Str} (λ r. name ∷ r) p.split;
              after = applied_file read ran same p.after;
              finished = p.finished;
            })
      | inr (inl (g, h)) ↦
          rw (apply_all, e, h) (stopped-Progress applied (name ∷ names) db (err g) (λ k. cc))
      | inr (inr h) ↦
          rw (apply_all, e, h) (stopped-Progress applied (name ∷ names) db panic (λ k. cc))
    ]
  ]

  -- Whatever fails, Up leaves the database as after the first of the pending files in their order,
  -- each read and run without an error and recorded once; and where it returns nil, these are all
  -- the migration files that were not recorded before.
  pub up-Progress :
      (setup : Option GoError) (entries : List Entry) (db : Database D)
      → Progress db.versions (sorted_migration_files entries) db (up exec answers setup entries db)
  unfolding up
  up-Progress none entries db = apply_all-Progress db.versions (sorted_migration_files entries) db
  up-Progress (some e) entries db =
      stopped-Progress db.versions (sorted_migration_files entries) db (err e) (λ k. cc)

  After-versions :
      {xs : List Str} {db db' : Database D} → After xs db db' → db'.versions ≡ db.versions ++ xs
  After-versions {db = db} none_left = sym (append-nil db.versions)
  After-versions {db = db} (applied_file {name = name} {names = names} read ran same a) =
      After-versions a
      ∙ ap (λ (x : Database D). x.versions ++ names) same
      ∙ append_assoc db.versions (name ∷ []) names

  -- The loop over files that are all recorded does nothing.
  apply_all-recorded :
      (applied names : List Str) (db : Database D)
      → pending applied names ≡ []
      → apply_all exec answers applied names db ≡ (ok tt, db)
  unfolding apply_all
  apply_all-recorded applied [] db h = refl
  apply_all-recorded applied (name ∷ names) db h = elim (Bool-cases (is_applied name applied)) [
    | inl e ↦
        rw (apply_all, e)
          (apply_all-recorded applied names db (sym (pending-skip applied name names e) ∙ h))
    | inr e ↦ cc (pending-keep applied name names e)
  ]

  -- Where Up has returned nil, a second Up with the same files, whose statements before the loop
  -- run, returns nil and changes nothing.
  pub up_twice :
      (entries : List Entry) (db : Database D) {db' : Database D}
      → up exec answers none entries db ≡ (ok tt, db')
      → up exec answers none entries db' ≡ (ok tt, db')
  unfolding up
  up_twice entries db {db'} h =
      let p = up-Progress none entries db in
      let names = sorted_migration_files entries in
      let all_done : pending db.versions names ≡ p.done =
        p.split
        ∙ ap {B = List Str} (λ r. p.done ++ r) (p.finished (ap (λ r. r.0) h))
        ∙ append-nil p.done in
      let versions : db'.versions ≡ db.versions ++ pending db.versions names =
        sym (ap {B = List Str} (λ r. r.1.versions) h)
        ∙ After-versions p.after
        ∙ ap {B = List Str} (λ r. db.versions ++ r) (sym all_done) in
      apply_all-recorded db'.versions names db' (rw versions (pending-again db.versions names))
