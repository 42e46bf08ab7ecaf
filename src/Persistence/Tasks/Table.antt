-- ===== src/Persistence/Tasks/Table.antt =====
-- The rows of the table: looking one up, updating one, and listing them.
use mathlib.Core.List.{Memᴰ}
use xenopus.Prelude.{
  ℕ, zero, suc, take, ◌≤◌, ◌≡◌, ◌≢◌, refl, sym, ap, ◌∙◌, Option, none, some, List, [], ◌∷◌, String,
  str_eq, str_eq_iff, arith, length, leb, All, Bool-cases, inl, inr, if◌then◌else◌,
}
use xenopus.Persistence.Tasks.{
  TaskState, TaskRecord, find_row, update_rows, insert_newest, newest_first,
}

-- The row that an update leaves for `r`.
abbrev pub updated : TaskState → ℕ → ℕ → TaskRecord → TaskRecord
updated state attempt now r = record r { state = state; attempt = attempt; updated_at = now }

abbrev pub update_found : TaskState → ℕ → ℕ → Option TaskRecord → Option TaskRecord
update_found state attempt now none = none
update_found state attempt now (some r) = some (updated state attempt now r)

pub find_row-update_rows :
    (k j : String) (state : TaskState) (attempt now : ℕ) (rows : List TaskRecord)
    → find_row k (update_rows j state attempt now rows)
      ≡ (if str_eq j k then update_found state attempt now (find_row k rows) else find_row k rows)
unfolding find_row update_rows
find_row-update_rows k j state attempt now [] = ground arith
find_row-update_rows k j state attempt now (r ∷ rs) = ground (
  arith,
  str_eq_iff r.task_id k,
  str_eq_iff r.task_id j,
  str_eq_iff j k,
  find_row-update_rows k j state attempt now rs,
)

pub find_row-task_id :
    (k : String) (rows : List TaskRecord) {r : TaskRecord}
    → find_row k rows ≡ some r
    → r.task_id ≡ k
unfolding find_row
find_row-task_id k [] h = cc
find_row-task_id k (q ∷ qs) {r} h =
    ground (arith, str_eq_iff q.task_id k, find_row-task_id k qs {r = r})

-- No two rows have one id: the table's primary key.
abbrev pub Distinct : List TaskRecord → Type 0
Distinct [] = Unit
Distinct (r ∷ rs) = All (λ q. q.task_id ≢ r.task_id) rs × Distinct rs

pub find_row-Memᴰ :
    (k : String) (rows : List TaskRecord) (r : TaskRecord) → find_row k rows ≡ some r → Memᴰ r rows
unfolding find_row
find_row-Memᴰ k [] r h = cc
find_row-Memᴰ k (q ∷ qs) r h = elim (Bool-cases (str_eq q.task_id k)) [
  | inl e ↦ Memᴰ.head (ground (arith, rw e at h))
  | inr e ↦ Memᴰ.tail (find_row-Memᴰ k qs r (rw e at h))
]

All-insert_newest {κ} :
    (P : TaskRecord → Type κ) (r : TaskRecord) (rows : List TaskRecord)
    → P r
    → All P rows
    → All P (insert_newest r rows)
unfolding insert_newest
All-insert_newest P r [] h k = (h, tt)
All-insert_newest P r (q ∷ qs) h k = elim (Bool-cases (leb r.updated_at q.updated_at)) [
  | inl e ↦ rw e (k.0, All-insert_newest P r qs h k.1)
  | inr e ↦ rw e (h, k)
]

pub All-newest_first {κ} :
    (P : TaskRecord → Type κ) (rows : List TaskRecord) → All P rows → All P (newest_first rows)
unfolding newest_first
All-newest_first P [] h = tt
All-newest_first P (r ∷ rs) h =
    All-insert_newest P r (newest_first rs) h.0 (All-newest_first P rs h.1)

Distinct-insert_newest :
    (r : TaskRecord) (rows : List TaskRecord)
    → All (λ q. q.task_id ≢ r.task_id) rows
    → Distinct rows
    → Distinct (insert_newest r rows)
unfolding insert_newest
Distinct-insert_newest r [] h d = (tt, tt)
Distinct-insert_newest r (q ∷ qs) h d = elim (Bool-cases (leb r.updated_at q.updated_at)) [
  | inl e ↦ rw e (
    All-insert_newest (λ p. p.task_id ≢ q.task_id) r qs (λ p. h.0 (sym p)) d.0,
    Distinct-insert_newest r qs h.1 d.1,
  )
  | inr e ↦ rw e (h, d)
]

pub Distinct-newest_first : (rows : List TaskRecord) → Distinct rows → Distinct (newest_first rows)
unfolding newest_first
Distinct-newest_first [] d = tt
Distinct-newest_first (r ∷ rs) d =
    Distinct-insert_newest r (newest_first rs) (All-newest_first _ rs d.0)
      (Distinct-newest_first rs d.1)

Memᴰ-insert_newest_self : (r : TaskRecord) (rows : List TaskRecord) → Memᴰ r (insert_newest r rows)
unfolding insert_newest
Memᴰ-insert_newest_self r [] = Memᴰ.head refl
Memᴰ-insert_newest_self r (q ∷ qs) = elim (Bool-cases (leb r.updated_at q.updated_at)) [
  | inl e ↦ rw e (Memᴰ.tail (Memᴰ-insert_newest_self r qs))
  | inr e ↦ rw e (Memᴰ.head refl)
]

Memᴰ-insert_newest :
    (r : TaskRecord) (rows : List TaskRecord) {p : TaskRecord}
    → Memᴰ p rows
    → Memᴰ p (insert_newest r rows)
unfolding insert_newest
Memᴰ-insert_newest r [] m = elim m [ ]
Memᴰ-insert_newest r (q ∷ qs) (Memᴰ.head e) = elim (Bool-cases (leb r.updated_at q.updated_at)) [
  | inl c ↦ rw c (Memᴰ.head e)
  | inr c ↦ rw c (Memᴰ.tail (Memᴰ.head e))
]
Memᴰ-insert_newest r (q ∷ qs) (Memᴰ.tail m) = elim (Bool-cases (leb r.updated_at q.updated_at)) [
  | inl c ↦ rw c (Memᴰ.tail (Memᴰ-insert_newest r qs m))
  | inr c ↦ rw c (Memᴰ.tail (Memᴰ.tail m))
]

pub Memᴰ-newest_first :
    (rows : List TaskRecord) {p : TaskRecord} → Memᴰ p rows → Memᴰ p (newest_first rows)
unfolding newest_first
Memᴰ-newest_first [] m = elim m [ ]
Memᴰ-newest_first (r ∷ rs) (Memᴰ.head e) = rw e (Memᴰ-insert_newest_self r (newest_first rs))
Memᴰ-newest_first (r ∷ rs) (Memᴰ.tail m) =
    Memᴰ-insert_newest r (newest_first rs) (Memᴰ-newest_first rs m)

length-insert_newest :
    (r : TaskRecord) (rows : List TaskRecord) → length (insert_newest r rows) ≡ suc (length rows)
unfolding insert_newest
length-insert_newest r [] = refl
length-insert_newest r (q ∷ qs) = ground (arith, length-insert_newest r qs)

pub length-newest_first : (rows : List TaskRecord) → length (newest_first rows) ≡ length rows
unfolding newest_first
length-newest_first [] = refl
length-newest_first (r ∷ rs) =
    length-insert_newest r (newest_first rs) ∙ ap suc (length-newest_first rs)

pub take-all : (n : ℕ) (rs : List TaskRecord) → length rs ≤ n → take n rs ≡ rs
take-all zero [] h = refl
take-all zero (r ∷ rs) h = absurd (omega arith)
take-all (suc n) [] h = refl
take-all (suc n) (r ∷ rs) h = rw (take-all n rs (omega arith))

stored-cons :
    (r : TaskRecord) (rs qs : List TaskRecord)
    → All (λ q. q.task_id ≢ r.task_id) qs
    → All (λ q. find_row q.task_id rs ≡ some q) qs
    → All (λ q. find_row q.task_id (r ∷ rs) ≡ some q) qs
unfolding find_row
stored-cons r rs [] h k = tt
stored-cons r rs (q ∷ qs) h k =
    (ground (arith, h.0, k.0, str_eq_iff r.task_id q.task_id), stored-cons r rs qs h.1 k.1)

-- Under its id each row of a table with distinct ids is found.
pub stored_self :
    (rs : List TaskRecord) → Distinct rs → All (λ q. find_row q.task_id rs ≡ some q) rs
unfolding find_row
stored_self [] d = tt
stored_self (r ∷ rs) d =
    (ground (arith, str_eq_iff r.task_id r.task_id), stored-cons r rs rs d.0 (stored_self rs d.1))
