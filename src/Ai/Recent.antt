-- ===== src/Ai/Recent.antt =====
-- A failure that ForRecentFailures counts is a captured response.
use gotra.Prelude.{
  ℕ, ℤ, pos, negsuc, zero, suc, ◌<◌, ◌≡◌, ◌∙◌, sym, ap, refl, Str, Bool, true, false, ◌&&◌, ◌||◌,
  Option, none, some, List, [], ◌∷◌, ◌++◌, ◌==◌, leb, any, select, take, map, arith, Bool-cases,
  Option-cases, inl, inr,
}
use gotra.Errors.{Outcome, ok, err, panic}
use gotra.Store.{Db, Request, Response}
use gotra.Store.Action.{Env, World}
use gotra.Store.Action.Laws.{bind_ok}
use gotra.Tunnels.{member_of}
use gotra.Requests.{Summary, summary_of, summaries_of, joined, listed, limit_or_default}
use gotra.Requests.Repository.{list_for_project}
use gotra.Requests.Captures.{list_for_project-ok}
use gotra.Ai.Context.{failed_status, collect_failures, for_recent_failures}

-- A status of 400 or more.
abbrev pub is_failure : ℤ → Bool
is_failure (negsuc n) = false
is_failure (pos n) = leb 400 n

abbrev fails : Summary → Bool
fails it = elim it.status [ none ↦ false | some status ↦ is_failure status ]

-- The request has a response with a status of 400 or more.
abbrev pub has_failed : List Response → Request → Bool
has_failed answers r =
    any (λ (x : Response). x.request_id == r.id && is_failure x.status_code) answers

-- The project has a captured request whose response has a status of 400 or more.
abbrev pub HasFailure : ℕ → Db → Type 0
HasFailure project_id d =
    any (λ (r : Request). r.project_id == project_id && has_failed d.responses r) d.requests ≡ true

failed_status-fails :
    (decimal : ℤ → Str) (clock_time : ℕ → Str) (it : Summary)
    → fails it ≡ false
    → failed_status decimal clock_time it.status ≡ none
unfolding failed_status
failed_status-fails decimal clock_time it h = status_fails it.status h
  where
    status_fails :
        (o : Option ℤ)
        → elim o [ none ↦ false | some status ↦ is_failure status ] ≡ false
        → failed_status decimal clock_time o ≡ none
    status_fails none h = refl
    status_fails (some (negsuc n)) h = refl
    status_fails (some (pos n)) h = ground (arith, h)

collect_failures-none :
    (decimal : ℤ → Str) (clock_time : ℕ → Str) (items : List Summary) (block : Str) (count : ℕ)
    → any fails items ≡ false
    → collect_failures decimal clock_time items block count ≡ (block, count)
unfolding collect_failures
collect_failures-none decimal clock_time [] block count h = refl
collect_failures-none decimal clock_time (it ∷ items) block count h =
    let quiet : fails it ≡ false = ground arith in
    let rest = collect_failures-none decimal clock_time items block count (ground arith) in
    rw (collect_failures, failed_status-fails decimal clock_time it quiet) rest

any-append :
    {A : Type 0} (p : A → Bool) (xs ys : List A) → any p (xs ++ ys) ≡ (any p xs || any p ys)
any-append p [] ys = refl
any-append p (x ∷ xs) ys = ground (arith, any-append p xs ys)

any-take :
    {A : Type 0} (p : A → Bool) (n : ℕ) (xs : List A) → any p (take n xs) ≡ true → any p xs ≡ true
any-take p zero xs h = cc
any-take p (suc n) [] h = cc
any-take p (suc n) (x ∷ xs) h = ground (arith, any-take p n xs)

any-select :
    {A : Type 0} (p q : A → Bool) (xs : List A)
    → any p (select q xs) ≡ any (λ (x : A). q x && p x) xs
any-select p q [] = refl
any-select p q (x ∷ xs) = ground (arith, any-select p q xs)

any-answers :
    (r : Request) (xs : List Response)
    → any fails (map (λ y. summary_of r (some y)) xs)
      ≡ any (λ (x : Response). is_failure x.status_code) xs
unfolding summary_of
any-answers r [] = refl
any-answers r (x ∷ xs) = ground (arith, any-answers r xs)

any-summaries :
    (r : Request) (xs : List Response)
    → any fails (summaries_of r xs) ≡ any (λ (x : Response). is_failure x.status_code) xs
unfolding summaries_of summary_of
any-summaries r [] = refl
any-summaries r (x ∷ xs) = any-answers r (x ∷ xs)

any-joined :
    (answers : List Response) (rs : List Request) (acc : List Summary)
    → any fails (joined answers rs acc) ≡ (any (has_failed answers) rs || any fails acc)
unfolding joined
any-joined answers [] acc = refl
any-joined answers (r ∷ rs) acc =
    let mine = λ (x : Response). x.request_id == r.id in
    ground (
      arith,
      any-joined answers rs (summaries_of r (select mine answers) ++ acc),
      any-append fails (summaries_of r (select mine answers)) acc,
      any-summaries r (select mine answers),
      any-select (λ (x : Response). is_failure x.status_code) mine answers,
    )

listed-HasFailure :
    (user_id project_id limit : ℕ) (d : Db)
    → any fails (listed user_id project_id limit d) ≡ true
    → HasFailure project_id d
unfolding listed
listed-HasFailure user_id project_id limit d h =
    elim (Option-cases (member_of user_id project_id d)) [
      | inl e ↦ cc (rw (listed, e) at h)
      | inr (m, e) ↦
          let mine = λ (r : Request). r.project_id == project_id in
          let k = any-take fails limit _ (rw (listed, e) at h) in
          ground (
            arith,
            k,
            any-joined d.responses (select mine d.requests) [],
            any-select (has_failed d.responses) mine d.requests,
          )
    ]

abbrev counted_in : Outcome (Str × ℕ) → ℕ
counted_in (ok r) = r.1
counted_in (err e) = 0
counted_in panic = 0

counts :
    (decimal : ℤ → Str) (clock_time : ℕ → Str) (items : List Summary) (block : Str)
    → any fails items ≡ false
    → (collect_failures decimal clock_time items block 0).1 ≡ 0
counts decimal clock_time items block h =
    ap {A = Str × ℕ} (λ x. x.1) (collect_failures-none decimal clock_time items block 0 h)

not_positive : (n : ℕ) → n ≡ 0 → ¬ (0 < n)
not_positive n h k = omega arith

-- Where ForRecentFailures counts a failure, the project has one.
pub for_recent_failures-HasFailure :
    (decimal : ℤ → Str) (clock_time : ℕ → Str) (env : Env) (user_id project_id : ℕ) (w : World)
    {block : Str} {count : ℕ} {w' : World}
    → for_recent_failures decimal clock_time env user_id project_id w ≡ (ok (block, count), w')
    → 0 < count
    → HasFailure project_id w.committed
unfolding for_recent_failures
for_recent_failures-HasFailure decimal clock_time env user_id project_id w {block} {count} h
      positive =
    let (items, w1, e, k) = bind_ok (list_for_project env user_id project_id (pos 100)) _ w h in
    let same = list_for_project-ok env user_id project_id (pos 100) w {items = items} {w' = w1} e in
    elim (Bool-cases (any fails items)) [
      | inl f ↦
          listed-HasFailure user_id project_id (limit_or_default (pos 100)) w.committed
            (rw same at f)
      | inr f ↦
          let counted = ap (λ r. counted_in r.0) k in
          absurd (not_positive count (sym counted ∙ counts decimal clock_time items _ f) positive)
    ]
