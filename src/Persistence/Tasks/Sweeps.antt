-- ===== src/Persistence/Tasks/Sweeps.antt =====
-- What the kill switch's `cancel_all` leaves alone.
use xenopus.Prelude.{ℕ, ◌≡◌, refl, false, List, [], ◌∷◌, ok, All, take}
use xenopus.Persistence.Tasks.{
  TaskRecord, TaskStore, is_live, newest_first, list_tasks, default_limit, cancel_each, cancel_all,
}

cancel_each-none_live :
    (now : ℕ) (rs : List TaskRecord) (s : TaskStore)
    → All (λ r. is_live r.state ≡ false) rs
    → cancel_each now rs s ≡ (ok [], s)
unfolding cancel_each
cancel_each-none_live now [] s h = refl
cancel_each-none_live now (r ∷ rs) s h = rw (h.0, cancel_each) (cancel_each-none_live now rs s h.1)

-- When none of the tasks that the listing shows is live, nothing is cancelled and nothing changes,
-- however many live tasks stand behind the hundred newest.
pub cancel_all-none_listed :
    (now : ℕ) (s : TaskStore)
    → All (λ r. is_live r.state ≡ false) (take default_limit (newest_first s.rows))
    → cancel_all now s ≡ (ok [], s)
unfolding cancel_all list_tasks
cancel_all-none_listed now s h = cancel_each-none_live now (take 100 (newest_first s.rows)) s h
