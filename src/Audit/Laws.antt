-- ===== src/Audit/Laws.antt =====
-- Theorems on the audit log and its table.
use qq_group_ops.Base.{
  [], ℕ, ◌+◌, ◌-◌, ◌≡◌, refl, sym, ◌∙◌, ap, Bool, true, List, ◌∷◌, ◌++◌, arith, length, filter,
  count, length-filter, count-le-length, nat_eq, ◌==◌, Bool-cases, inl, inr,
}
use qq_group_ops.Audit.{
  AuditRecord, AuditWrite, AuditLog, append_row, delete_older, append, recent, prune_older_than,
  run_write, run_writes,
}

module _ {ℓ} {A : Type ℓ} (p : A → Bool) where
  -- A list of which every element passes is its own filter.
  pub filter_all : (xs : List A) → count p xs ≡ length xs → filter p xs ≡ xs
  unfolding filter count
  filter_all [] h = refl
  filter_all (x ∷ xs) h = ground (arith, filter_all xs, count-le-length p xs)

run_writes-append :
    (ws : List AuditWrite) (w : AuditWrite) (rows : List AuditRecord)
    → run_writes (ws ++ w ∷ []) rows ≡ run_write w (run_writes ws rows)
unfolding run_writes
run_writes-append [] w rows = refl
run_writes-append (v ∷ ws) w rows = run_writes-append ws w (run_write v rows)

-- The table with all queued writes done holds the records in memory, in their order.
abbrev pub Mirrors : AuditLog → List AuditRecord → Type 0
Mirrors log rows = run_writes log.queue rows ≡ log.records

-- For a persistent log: if the table, with the queued writes done, holds its records in their
-- order, it does so after a record is appended.
pub append-Mirrors :
    (r : AuditRecord) (log : AuditLog) (rows : List AuditRecord)
    → log.persistent ≡ true
    → Mirrors log rows
    → Mirrors (append r log) rows
unfolding append run_write
append-Mirrors r log rows p m =
    rw p (run_writes-append log.queue (append_row r) rows ∙ ap (λ l. l ++ r ∷ []) m)

-- For a persistent log whose table, with the queued writes done, holds its records: pruning keeps
-- exactly the records from the cutoff on, tells how many go, and the table holds those kept, also
-- when no write is queued since nothing goes.
pub prune_older_than_lem :
    (cutoff : ℕ) (log : AuditLog) (rows : List AuditRecord)
    → log.persistent ≡ true
    → Mirrors log rows
    → ((prune_older_than cutoff log).1.records ≡ filter (recent cutoff) log.records)
      × ((prune_older_than cutoff log).0 + length (prune_older_than cutoff log).1.records
          ≡ length log.records)
      × Mirrors (prune_older_than cutoff log).1 rows
unfolding prune_older_than run_write nat_eq
prune_older_than_lem cutoff log rows p m =
    let n = length-filter (recent cutoff) log.records in
    let b = count-le-length (recent cutoff) log.records in
    elim (Bool-cases (length log.records - length (filter (recent cutoff) log.records) == 0)) [
      | inl e ↦ rw e (sym (filter_all (recent cutoff) log.records (ground arith)), ground arith, m)
      | inr e ↦
          rw (e, p)
            (
              refl,
              omega arith,
              run_writes-append log.queue (delete_older cutoff) rows
                  ∙ ap (filter (recent cutoff)) m,
            )
    ]
