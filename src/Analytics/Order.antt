-- ===== src/Analytics/Order.antt =====
-- What of the recorded events reaches the table, and in which order.
use mathlib.Core.List.{map-append, Sublistᴰ}
use mathlib.Core.List.Sublistᴰ.{slnil, cons, cons-cons}
use gotra.Prelude.{
  Bool, true, false, List, [], ◌∷◌, ◌++◌, map, length, select, leb, ◌≡◌, refl, ◌∙◌, sym, ap, some,
  arith, append_assoc, append-nil, Bool-cases, inl, inr, ◌⊎◌,
}
use gotra.Analytics.{
  Event, EventRow, Store, Opening, Attempt, Runs, open_store, disabled, record_event, offer, flush,
  inserts, receive, finish, close, accept, row_of, opened, recorded, received, ticked, finished,
  closed, flush_size,
}

Sublist-empty {ℓ} : {A : Type ℓ} (ys : List A) → Sublistᴰ [] ys
Sublist-empty [] = slnil
Sublist-empty (y ∷ ys) = cons (Sublist-empty ys)

Sublist-append {ℓ} :
    {A : Type ℓ} {xs ys xs' ys' : List A}
    → Sublistᴰ xs ys
    → Sublistᴰ xs' ys'
    → Sublistᴰ (xs ++ xs') (ys ++ ys')
Sublist-append slnil k = k
Sublist-append (cons h) k = cons (Sublist-append h k)
Sublist-append (cons-cons e h) k = cons-cons e (Sublist-append h k)

Sublist-select {ℓ} : {A : Type ℓ} (p : A → Bool) (xs : List A) → Sublistᴰ (select p xs) xs
Sublist-select p [] = slnil
Sublist-select p (x ∷ xs) = elim (Bool-cases (p x)) [
  | inl e ↦ rw e (cons-cons refl (Sublist-select p xs))
  | inr e ↦ rw e (cons (Sublist-select p xs))
]

List-cases {ℓ} : {A : Type ℓ} (xs : List A) → (xs ≡ []) ⊎ ((x : A) × (ys : List A) × (xs ≡ x ∷ ys))
List-cases [] = inl refl
List-cases (x ∷ xs) = inr (x, xs, refl)

select-all {ℓ} :
    {A : Type ℓ} (p : A → Bool) (xs : List A) → ((x : A) → p x ≡ true) → select p xs ≡ xs
select-all p [] h = refl
select-all p (x ∷ xs) h = rw (h x, select-all p xs h) refl

flush_cases :
    (a : Attempt) (s : Store)
    → (flush a s ≡ s)
      ⊎ (flush a s ≡ record s { buf = []; inserted = s.inserted ++ inserts a s.buf })
unfolding flush
flush_cases a s = ground arith

record_event_cases :
    (e : Event) (s : Store) (log : List Event)
    → ((record_event e s ≡ s) × (accept e s log ≡ log))
      ⊎ ((record_event e s ≡ record s { ch = s.ch ++ e ∷ [] }) × (accept e s log ≡ log ++ e ∷ []))
unfolding record_event accept offer
record_event_cases e s log = ground arith

close_lem :
    (s : Store) {s' : Store}
    → close s ≡ some s'
    → (s' ≡ s) ⊎ (s' ≡ record s { done = true; connected = false })
unfolding close
close_lem s h = ground arith

-- How the rows inserted so far relate to the rows of the events that left the buffer, for a
-- relation that every flush with an answer in `May` keeps.
module _ (May : Attempt → Type 0) (R : List EventRow → List EventRow → Type 0) (base : R [] [])
    (extend : (ins rows : List EventRow) (a : Attempt) (batch : List Event)
      → May a
      → R ins rows
      → R (ins ++ inserts a batch) (rows ++ map row_of batch)) where
  record Tracked (log : List Event) (s : Store) : Type 0 where
    pub taken : List Event
    pub split : log ≡ taken ++ (s.buf ++ s.ch)
    pub related : R s.inserted (map row_of taken)

  flush-Tracked :
      {log : List Event} (a : Attempt) (s : Store) → May a → Tracked log s → Tracked log (flush a s)
  flush-Tracked a s may t = elim (flush_cases a s) [
    | inl e ↦ rw e t
    | inr e ↦ rw e (record {
      taken = t.taken ++ s.buf;
      split = t.split ∙ sym (append_assoc t.taken s.buf s.ch);
      related =
          rw (map-append row_of t.taken s.buf)
            (extend s.inserted (map row_of t.taken) a s.buf may t.related);
    })
  ]

  -- One event moves from the channel to the buffer.
  buffered-Tracked :
      {log ch : List Event} (e : Event) (s : Store)
      → s.ch ≡ e ∷ ch
      → Tracked log s
      → Tracked log (record s { buf = s.buf ++ e ∷ []; ch = ch })
  buffered-Tracked {ch = ch} e s h t = record {
    taken = t.taken;
    split = t.split ∙ simp (h, append_assoc s.buf (e ∷ []) ch) refl;
    related = t.related;
  }

  recorded-Tracked :
      {log : List Event} (e : Event) (s : Store)
      → Tracked log s
      → Tracked (accept e s log) (record_event e s)
  recorded-Tracked {log = log} e s t = elim (record_event_cases e s log) [
    | inl (h, k) ↦ rw (h, k) t
    | inr (h, k) ↦
        rw (h, k)
          (record {
            taken = t.taken;
            split = rw t.split (
                append_assoc t.taken (s.buf ++ s.ch) (e ∷ [])
                ∙ ap (λ r. t.taken ++ r) (append_assoc s.buf s.ch (e ∷ [])));
            related = t.related;
          })
  ]

  received-Tracked :
      {log ch : List Event} (a : Attempt) (e : Event) (s : Store)
      → May a
      → s.ch ≡ e ∷ ch
      → Tracked log s
      → Tracked log (receive a e (record s { ch = ch }))
  unfolding receive
  received-Tracked a e s may h t =
      let b = buffered-Tracked e s h t in
      elim (Bool-cases (leb flush_size (length (s.buf ++ e ∷ [])))) [
        | inl k ↦ simp k (flush-Tracked a _ may b)
        | inr k ↦ simp k b
      ]

  Tracked-Runs : {log : List Event} {s : Store} → Runs May log s → Tracked log s
  unfolding open_store disabled finish
  Tracked-Runs (opened Opening.opens) = record { taken = []; split = refl; related = base }
  Tracked-Runs (opened o) = record { taken = []; split = refl; related = base }
  Tracked-Runs (recorded {s = s} e r) = recorded-Tracked e s (Tracked-Runs r)
  Tracked-Runs (received {s = s} a e may l h r) = received-Tracked a e s may h (Tracked-Runs r)
  Tracked-Runs (ticked {s = s} a may l r) = flush-Tracked a s may (Tracked-Runs r)
  Tracked-Runs (finished {s = s} a may l d r) =
      let t = flush-Tracked a s may (Tracked-Runs r) in
      record { taken = t.taken; split = t.split; related = t.related }
  Tracked-Runs (closed {s = s} h r) =
      let t = Tracked-Runs r in
      elim (close_lem s h) [
        | inl e ↦ rw e t
        | inr e ↦ rw e (record { taken = t.taken; split = t.split; related = t.related })
      ]

inserts-Sublist : (a : Attempt) (batch : List Event) → Sublistᴰ (inserts a batch) (map row_of batch)
unfolding inserts
inserts-Sublist a batch = elim (Bool-cases a.prepared) [
  | inr h ↦ rw h (Sublist-empty _)
  | inl h ↦ elim (Bool-cases a.sent) [
    | inr k ↦ rw (h, k) (Sublist-empty _)
    | inl k ↦ rw (h, k) (Sublist-select a.appended (map row_of batch))
  ]
]

abbrev pub AnyAnswer : Attempt → Type 0
AnyAnswer a = Unit

-- Whatever the driver answers, the rows inserted are rows of events put into the channel, each at
-- most once and in the order of Record.
pub inserted-Sublist :
    {log : List Event} {s : Store} → Runs AnyAnswer log s → Sublistᴰ s.inserted (map row_of log)
inserted-Sublist {log} {s} r =
    let t =
      Tracked-Runs AnyAnswer Sublistᴰ slnil
        (λ ins rows a batch may h. Sublist-append h (inserts-Sublist a batch)) r in
    rw (t.split, map-append row_of t.taken (s.buf ++ s.ch))
      (rw⁻¹ (append-nil s.inserted) (Sublist-append t.related (Sublist-empty _)))

-- The driver has no error to report.
pub record Works (a : Attempt) : Type 0 where
  pub prepares : a.prepared ≡ true
  pub appends : (r : EventRow) → a.appended r ≡ true
  pub sends : a.sent ≡ true

inserts-Works : (a : Attempt) (batch : List Event) → Works a → inserts a batch ≡ map row_of batch
unfolding inserts
inserts-Works a batch w =
    simp (w.prepares, w.sends, select-all a.appended (map row_of batch) w.appends) refl

-- While the driver reports no error, no event that was put into the channel is lost or repeated:
-- the rows inserted, then the buffer, then the channel are those events in the order of Record.
pub inserted_complete :
    {log : List Event} {s : Store}
    → Runs Works log s
    → s.inserted ++ map row_of (s.buf ++ s.ch) ≡ map row_of log
inserted_complete {log} {s} r =
    let t =
      Tracked-Runs Works (λ ins rows. ins ≡ rows) refl
        (λ ins rows a batch w h. rw (h, inserts-Works a batch w) refl) r in
    rw (t.split, map-append row_of t.taken (s.buf ++ s.ch), t.related) refl
