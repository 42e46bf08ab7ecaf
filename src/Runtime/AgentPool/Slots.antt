-- ===== src/Runtime/AgentPool/Slots.antt =====
-- The pool under interleaved calls of `acquire` and `release`.
use xenopus.Prelude.{
  ℕ, ◌+◌, ◌≤◌, ◌<◌, ◌≡◌, refl, ap, ◌∙◌, none, List, [], ◌∷◌, ◌++◌, String, ok, arith, Option-cases,
  inl, inr, length, length-append,
}
use xenopus.Prelude.Dict.{lookup, length-remove, length-insert}
use xenopus.Runtime.AgentPool.{
  PoolLimits, AgentPool, Request, live_count, new, check, admit, register, release, take_slot,
  give_slot,
}

-- A pool, with the calls of `acquire` whose checks are behind them: those that wait for a slot, and
-- those that the semaphore has given one and whose coroutines have not gone on yet.
pub record System : Type 0 where
  pub pool : AgentPool
  pub waiting : List Request
  pub granted : List Request

-- One step of the event loop: an arrival that takes a slot or waits, a free slot that is handed to
-- one of those who wait, a call that goes on with its slot, a cancellation before or behind the
-- hand-over, and a release. A call may arrive at any time, a free slot may go to any of those who
-- wait or to an arrival, and `release` may leave it free for a while: every order that
-- asyncio.Semaphore takes is among these. Run ids are fresh.
pub data Step : System → System → Type 0 where
  enter :
      (p : AgentPool) (ws gs : List Request) (r : Request) (run_id : String) (now : ℕ)
      → check r p ≡ ok tt
      → 0 < p.slots
      → lookup run_id p.live ≡ none
      → Step
          (record { pool = p; waiting = ws; granted = gs })
          (record { pool = admit run_id now r p; waiting = ws; granted = gs })
  wait :
      (p : AgentPool) (ws gs : List Request) (r : Request)
      → check r p ≡ ok tt
      → Step
          (record { pool = p; waiting = ws; granted = gs })
          (record { pool = p; waiting = ws ++ r ∷ []; granted = gs })
  hand_over :
      (p : AgentPool) (us vs gs : List Request) (r : Request)
      → 0 < p.slots
      → Step
          (record { pool = p; waiting = us ++ r ∷ vs; granted = gs })
          (record { pool = take_slot p; waiting = us ++ vs; granted = gs ++ r ∷ [] })
  resume :
      (p : AgentPool) (ws us vs : List Request) (r : Request) (run_id : String) (now : ℕ)
      → lookup run_id p.live ≡ none
      → Step
          (record { pool = p; waiting = ws; granted = us ++ r ∷ vs })
          (record { pool = register run_id now r p; waiting = ws; granted = us ++ vs })
  cancel_waiting :
      (p : AgentPool) (us vs gs : List Request) (r : Request)
      → Step
          (record { pool = p; waiting = us ++ r ∷ vs; granted = gs })
          (record { pool = p; waiting = us ++ vs; granted = gs })
  cancel_granted :
      (p : AgentPool) (ws us vs : List Request) (r : Request)
      → Step
          (record { pool = p; waiting = ws; granted = us ++ r ∷ vs })
          (record { pool = give_slot p; waiting = ws; granted = us ++ vs })
  leave :
      (p : AgentPool) (ws gs : List Request) (run_id : String)
      → Step
          (record { pool = p; waiting = ws; granted = gs })
          (record { pool = release run_id p; waiting = ws; granted = gs })

pub data Reach (s : System) : System → Type 0 where
  here : Reach s s
  next : {t u : System} → Reach s t → Step t u → Reach s u

-- Every slot is free, on its way to a call, or held by one live run.
abbrev pub Balanced : System → Type 0
Balanced s = live_count s.pool + length s.granted + s.pool.slots ≡ s.pool.limits.max_concurrent

length-without :
    (us vs : List Request) (r : Request) → length (us ++ r ∷ vs) ≡ length (us ++ vs) + 1
length-without us vs r = omega (arith, length-append {0} us (r ∷ vs), length-append {0} us vs)

register-balance :
    (run_id : String) (now : ℕ) (r : Request) (p : AgentPool)
    → lookup run_id p.live ≡ none
    → (live_count (register run_id now r p) ≡ live_count p + 1)
      × ((register run_id now r p).slots ≡ p.slots)
unfolding register
register-balance run_id now r p fresh = (omega (arith, length-insert run_id _ p.live fresh), refl)

release-balance :
    (run_id : String) (p : AgentPool)
    → live_count (release run_id p) + (release run_id p).slots ≡ live_count p + p.slots
unfolding release
release-balance run_id p = elim (Option-cases (lookup run_id p.live)) [
  | inl absent ↦ ground arith
  | inr (entry, found) ↦ ground (arith, length-remove run_id p.live {v = entry})
]

-- The bounds of a pool never change.
Step-limits : {s t : System} → Step s t → t.pool.limits ≡ s.pool.limits
unfolding admit release
Step-limits (enter p ws gs r i now c f h) = refl
Step-limits (wait p ws gs r c) = refl
Step-limits (hand_over p us vs gs r f) = refl
Step-limits (resume p ws us vs r i now h) = refl
Step-limits (cancel_waiting p us vs gs r) = refl
Step-limits (cancel_granted p ws us vs r) = refl
Step-limits (leave p ws gs i) = ground arith

Step-Balanced : {s t : System} → Step s t → Balanced s → Balanced t
unfolding admit give_slot
Step-Balanced (enter p ws gs r i now c f h) b =
    omega (arith, register-balance i now r (take_slot p) h)
Step-Balanced (wait p ws gs r c) b = b
Step-Balanced (hand_over p us vs gs r f) b = omega (arith, length-append {0} gs (r ∷ []))
Step-Balanced (resume p ws us vs r i now h) b =
    omega (arith, register-balance i now r p h, length-without us vs r)
Step-Balanced (cancel_waiting p us vs gs r) b = b
Step-Balanced (cancel_granted p ws us vs r) b = omega (arith, length-without us vs r)
Step-Balanced (leave p ws gs i) b = omega (
  arith,
  release-balance i p,
  ap (λ (l : PoolLimits). l.max_concurrent) (Step-limits (leave p ws gs i)),
)

Reach-Balanced :
    {s t : System} → Balanced s → Reach s t → Balanced t × (t.pool.limits ≡ s.pool.limits)
Reach-Balanced b here = (b, refl)
Reach-Balanced b (next r st) =
    let (b', l) = Reach-Balanced b r in (Step-Balanced st b', Step-limits st ∙ l)

abbrev pub start : PoolLimits → System
start limits = record { pool = new limits; waiting = []; granted = [] }

-- However calls of `acquire` arrive, wait, get their slots, go on and are cancelled, and calls of
-- `release` interleave with them, at most `max_concurrent` runs are live. The live runs, the slots on
-- their way to a call and the free ones add up to `max_concurrent`.
pub live_count-le_max :
    (limits : PoolLimits) {t : System}
    → Reach (start limits) t
    → (live_count t.pool ≤ limits.max_concurrent)
      × (live_count t.pool + length t.granted + t.pool.slots ≡ limits.max_concurrent)
unfolding new
live_count-le_max limits r =
    let (b, l) = Reach-Balanced {s = start limits} (omega arith) r in
    let e = ap (λ (x : PoolLimits). x.max_concurrent) l in (omega arith, omega arith)
