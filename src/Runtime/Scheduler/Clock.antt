-- ===== src/Runtime/Scheduler/Clock.antt =====
-- The DAILY and the WEEKLY entries in a tick of the scheduler.
use mathlib.Core.List.{Memᴰ, append-nil}
use xenopus.Prelude.{
  ℕ, ◌<◌, ◌≡◌, refl, sym, ◌∙◌, subst, false, ◌⊎◌, List, [], ◌∷◌, ◌++◌, arith, leb, ok, err, All,
  All-append, inl, inr, length, Bool-cases, Option-cases, Result-cases, String, Result,
}
use xenopus.Persistence.Tasks.{TaskStore, TaskRecord, TaskError}
use xenopus.Runtime.Scheduler.Entries.{ScheduleKind, daily, weekly, next_due_time}
use xenopus.Runtime.Scheduler.{
  after_create, EntryState, FireResult, Loop, Scheduler, correlation_of, enqueue, fired_state,
  is_fireable, visit, visit_all, tick,
}
use xenopus.Runtime.Scheduler.Due.{next_due_time-later}

abbrev pub OnClock : EntryState → Type 0
OnClock e = (e.entry.kind ≡ daily) ⊎ (e.entry.kind ≡ weekly)

kind_cases : (k : ScheduleKind) → ((k ≡ daily) ⊎ (k ≡ weekly)) ⊎ (¬ ((k ≡ daily) ⊎ (k ≡ weekly)))
kind_cases daily = inl (inl refl)
kind_cases weekly = inl (inr refl)
kind_cases _ = inr (λ h. elim h [ inl e ↦ cc | inr e ↦ cc ])

not_fireable :
    (s : EntryState) (due cooldown now : ℕ) → now < due → is_fireable s due cooldown now ≡ false
unfolding is_fireable
not_fireable s due cooldown now h = ground arith

-- The body of the loop fires the entry, which is then on no clock, or fires nothing.
abbrev Fires : EntryState → Loop → Loop → Type 0
Fires e l l' =
    (l'.fired ≡ l.fired)
    ⊎ ((¬ OnClock e)
        × ((r : FireResult) × (r.schedule_id ≡ e.entry.schedule_id)
            × (l'.fired ≡ l.fired ++ r ∷ [])))

-- The body leaves a state for the entry, and the same one for an entry on the clock.
abbrev Visited : EntryState → Loop → Loop → Type 0
Visited e l l' =
    (e' : EntryState) × (l'.done ≡ l.done ++ e' ∷ []) × (OnClock e → e' ≡ e) × Fires e l l'

after_create-Visited :
    (e : EntryState) (now : ℕ) (l l' : Loop) (made : Result TaskError TaskRecord)
    (store : TaskStore)
    → (¬ OnClock e)
    → after_create e now l made store ≡ ok l'
    → Visited e l l'
after_create-Visited e now l l' (err x) store free h = cc
after_create-Visited e now l l' (ok task) store free h = (
  fired_state e now,
  ground arith,
  λ k. absurd (free k),
  inr (
    free,
    (
      record {
        schedule_id = e.entry.schedule_id;
        task_id = task.task_id;
        correlation_id = correlation_of e;
      },
      refl,
      ground arith,
    ),
  ),
)

visit-Visited :
    (fresh : ℕ → String) (cooldown now : ℕ) (e : EntryState) (l l' : Loop)
    → visit fresh cooldown now e l ≡ ok l'
    → Visited e l l'
unfolding visit
visit-Visited fresh cooldown now e l l' h = elim (Bool-cases e.entry.enabled) [
  | inr off ↦ (e, ground arith, λ k. refl, inl (ground arith))
  | inl on ↦ elim (Option-cases (next_due_time e.entry now)) [
    | inl bad ↦ absurd (ground arith)
    | inr (due, at_due) ↦ elim (Bool-cases (is_fireable e due cooldown now)) [
      | inr unfit ↦ (e, ground arith, λ k. refl, inl (ground arith))
      | inl fit ↦
          let made = enqueue (fresh (length l.fired)) e now l.store in
          after_create-Visited e now l l' made.0 made.1
            (λ clock.
              cc (
                fit,
                not_fireable e due cooldown now (next_due_time-later e.entry now clock at_due),
              ))
            (ground arith)
    ]
  ]
]

-- A result is one of an entry that is neither DAILY nor WEEKLY.
abbrev pub FiredFrom : List EntryState → FireResult → Type 0
FiredFrom entries r =
    (e : EntryState) × Memᴰ e entries × (r.schedule_id ≡ e.entry.schedule_id) × (¬ OnClock e)

-- The entry is on the clock, or its results have the property.
abbrev Allows : (FireResult → Type 0) → EntryState → Type 0
Allows P e = ¬ OnClock e → (r : FireResult) → r.schedule_id ≡ e.entry.schedule_id → P r

Visited-All :
    (P : FireResult → Type 0) (e : EntryState) (l l' : Loop)
    → Visited e l l'
    → Allows P e
    → All P l.fired
    → All P l'.fired
Visited-All P e l l' (e', done, kept, inl same) allows h = rw same h
Visited-All P e l l' (e', done, kept, inr (free, (r, id, fired))) allows h =
    rw fired (All-append P l.fired (r ∷ []) h (allows free r id, tt))

-- The state of one entry takes the entry's place.
Memᴰ-replaced :
    (d e e' : EntryState) (xs es : List EntryState)
    → (d ≡ e → d ≡ e')
    → Memᴰ d (xs ++ e ∷ es)
    → Memᴰ d ((xs ++ e' ∷ []) ++ es)
Memᴰ-replaced d e e' [] es f (Memᴰ.head p) = Memᴰ.head (f p)
Memᴰ-replaced d e e' [] es f (Memᴰ.tail m) = Memᴰ.tail m
Memᴰ-replaced d e e' (x ∷ xs) es f (Memᴰ.head p) = Memᴰ.head p
Memᴰ-replaced d e e' (x ∷ xs) es f (Memᴰ.tail m) = Memᴰ.tail (Memᴰ-replaced d e e' xs es f m)

-- What the loop leaves of the entries from `es` on
abbrev Swept : (FireResult → Type 0) → List EntryState → Loop → Loop → Type 0
Swept P es l l' =
    (All P l.fired → All P l'.fired)
    × ((d : EntryState) → OnClock d → Memᴰ d (l.done ++ es) → Memᴰ d l'.done)

Swept-cons :
    (P : FireResult → Type 0) (e : EntryState) (es : List EntryState) (l m l' : Loop)
    → Allows P e
    → Visited e l m
    → Swept P es m l'
    → Swept P (e ∷ es) l l'
Swept-cons P e es l m l' allows (e', left, kept, fires) (fired, done) = (
  λ h. fired (Visited-All P e l m (e', left, kept, fires) allows h),
  λ d clock h. done d clock (
      rw left
        (Memᴰ-replaced d e e' l.done es (λ same. same ∙ sym (kept (subst OnClock same clock))) h)),
)

module _ (fresh : ℕ → String) (cooldown most now : ℕ) (P : FireResult → Type 0) where
  visit_all-Swept :
      (es : List EntryState) (l l' : Loop)
      → All (Allows P) es
      → visit_all fresh cooldown most now es l ≡ ok l'
      → Swept P es l l'
  unfolding visit_all
  visit_all-Swept [] l l' allows h =
      let fired : l'.fired ≡ l.fired = ground arith in
      let done : l'.done ≡ l.done = ground arith in
      (λ k. rw fired k, λ d clock k. rw done (rw append-nil at k))
  visit_all-Swept (e ∷ es) l l' allows h = elim (Bool-cases (leb most (length l.fired))) [
    | inl full ↦
        let fired : l'.fired ≡ l.fired = ground arith in
        let done : l'.done ≡ l.done ++ e ∷ es = ground arith in
        (λ k. rw fired k, λ d clock k. rw done k)
    | inr room ↦ elim (Result-cases (visit fresh cooldown now e l)) [
      | inl (m, same) ↦
          Swept-cons P e es l m l' allows.0 (visit-Visited fresh cooldown now e l m same)
            (visit_all-Swept es m l' allows.1 (ground arith))
      | inr (x, bad) ↦ absurd (ground arith)
    ]
  ]

all_allowed :
    (entries es : List EntryState)
    → ((e : EntryState) → Memᴰ e es → Memᴰ e entries)
    → All (Allows (FiredFrom entries)) es
all_allowed entries [] h = tt
all_allowed entries (e ∷ es) h = (
  λ free r id. (e, h e (Memᴰ.head refl), id, free),
  all_allowed entries es (λ d m. h d (Memᴰ.tail m)),
)

-- A tick never fires a DAILY or a WEEKLY entry. Whatever the entries are, and whenever the tick is
-- made, when it returns, each of its results is one of an entry of another kind, and every DAILY and
-- WEEKLY entry is still there as it was.
pub tick-clock_entries :
    (fresh : ℕ → String) (failures : List String) (now : ℕ) (s : Scheduler)
    (fired : List FireResult) (after : Scheduler)
    → tick fresh failures now s ≡ ok (fired, after)
    → All (FiredFrom s.entries) fired
      × ((e : EntryState) → OnClock e → Memᴰ e s.entries → Memᴰ e after.entries)
unfolding tick
tick-clock_entries fresh failures now s fired after h =
    let start : Loop = record { fired = []; done = []; store = s.store; journal = s.journal } in
    let all = visit_all fresh s.cooldown s.max_per_tick now s.entries start in
    elim (Result-cases all) [
      | inl (l, same) ↦
          let (kept, stay) =
            visit_all-Swept fresh s.cooldown s.max_per_tick now (FiredFrom s.entries) s.entries
              start l (all_allowed s.entries s.entries (λ e m. m)) same in
          let results : fired ≡ l.fired = ground arith in
          let entries : after.entries ≡ l.done = ground arith in
          (rw results (kept tt), λ e clock m. rw entries (stay e clock m))
      | inr (x, bad) ↦ absurd (ground arith)
    ]
