-- ===== src/Runtime/AgentPool/Totals.antt =====
-- The bound on the session's total of runs: it holds for calls of `acquire` that do not wait, and it
-- does not hold for those that do, since they are checked before they wait.
use xenopus.Prelude.{
  ℕ, zero, suc, ◌+◌, ◌≤◌, ◌≡◌, refl, none, List, [], ◌∷◌, ◌++◌, String, ok, arith, length,
  length-append,
}
use xenopus.Prelude.Dict.{Dict, lookup, insert, remove-insert, lookup-insert_self}
use xenopus.Runtime.AgentPool.{
  AgentPool, RunEntry, Request, healthy, check, admit, release, take_slot,
}
use xenopus.Runtime.AgentPool.Slots.{System, wait, hand_over, resume, leave, Reach, here, next}

-- A call that passes its checks and takes a slot at once keeps the session within `max_total`, and
-- its depth is within the pool's bound and the profile's.
pub admit-le_total :
    (run_id : String) (now : ℕ) (r : Request) (p : AgentPool)
    → check r p ≡ ok tt
    → ((admit run_id now r p).total_spawned ≤ p.limits.max_total)
      × (r.depth ≤ p.limits.max_depth)
      × (r.depth ≤ r.profile_max_depth)
unfolding check admit
admit-le_total run_id now r p h = ground arith

Reach-trans : {s t u : System} → Reach s t → Reach t u → Reach s u
Reach-trans r here = r
Reach-trans r (next q st) = next (Reach-trans r q) st

-- `n` equal calls that wait.
abbrev queue : Request → ℕ → List Request
queue r zero = []
queue r (suc n) = queue r n ++ r ∷ []

length-queue : (r : Request) (n : ℕ) → length (queue r n) ≡ n
length-queue r zero = refl
length-queue r (suc n) = omega (arith, length-append {0} (queue r n), length-queue r n)

Reach-queue :
    (p : AgentPool) (r : Request)
    → check r p ≡ ok tt
    → (n : ℕ)
    → Reach
        (record { pool = p; waiting = []; granted = [] })
        (record { pool = p; waiting = queue r n; granted = [] })
Reach-queue p r c zero = here
Reach-queue p r c (suc n) = next (Reach-queue p r c n) (wait p (queue r n) [] r c)

-- A full pool in which `a` is live, beside the runs of `rest`.
pub record Holds (a : String) (rest : Dict RunEntry) (p : AgentPool) : Type 0 where
  pub entry : RunEntry
  pub live : p.live ≡ insert a entry rest
  pub absent : lookup a rest ≡ none
  pub full : p.slots ≡ 0

module _ (a : String) (rest : Dict RunEntry) where
  after_leave : (p : AgentPool) → Holds a rest p → release a p ≡ record p { slots = 1; live = rest }
  unfolding release
  after_leave p h = ground (
    arith,
    lookup-insert_self a h.entry rest,
    remove-insert a h.entry rest h.absent,
    h.live,
    h.full,
  )

  abbrev refilled : Request → AgentPool → AgentPool
  refilled w p = admit a 0 w (release a p)

  refilled-Holds :
      (w : Request) (p : AgentPool)
      → Holds a rest p
      → Holds a rest (refilled w p) × ((refilled w p).total_spawned ≡ p.total_spawned + 1)
  unfolding admit
  refilled-Holds w p h = rw (after_leave p h) (
    record {
      entry = record {
        handle = record {
          run_id = a;
          task_id = w.task_id;
          depth = w.depth;
          started_at = 0;
          last_heartbeat = 0;
        };
        health = healthy;
        last_heartbeat_dt = 0;
      };
      live = refl;
      absent = h.absent;
      full = refl;
    },
    refl,
  )

  drain :
      (ws : List Request) (p : AgentPool)
      → Holds a rest p
      → (t : System) × Reach (record { pool = p; waiting = ws; granted = [] }) t
        × (t.pool.total_spawned ≡ p.total_spawned + length ws)
  unfolding admit
  drain [] p h = (record { pool = p; waiting = []; granted = [] }, here, omega arith)
  drain (w ∷ ws) p h =
      let left = after_leave p h in
      let (held, more) = refilled-Holds w p h in
      let (t, way, total) = drain ws (refilled w p) held in
      (
        t,
        Reach-trans
            (next
              (next (next here (leave p (w ∷ ws) [] a))
                (hand_over (release a p) [] ws [] w (rw left (omega arith))))
              (resume (take_slot (release a p)) ws [] [] w a 0 (rw left (h.absent))))
            way,
        omega (arith, more, total),
      )

-- From a full pool that still passes the checks, `n` calls that wait bring the session's total up by
-- `n` once their turn comes, for every `n`: `max_total` does not bound it.
pub total_spawned-unbounded :
    (a : String) (rest : Dict RunEntry) (p : AgentPool) (r : Request)
    → Holds a rest p
    → check r p ≡ ok tt
    → (n : ℕ)
    → (t : System) × Reach (record { pool = p; waiting = []; granted = [] }) t
      × (t.pool.total_spawned ≡ p.total_spawned + n)
total_spawned-unbounded a rest p r h c n =
    let (t, way, total) = drain a rest (queue r n) p h in
    (t, Reach-trans (Reach-queue p r c n) way, omega (arith, total, length-queue r n))
