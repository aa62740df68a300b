-- ===== src/Punishments/Pruning.antt =====
-- Theorems on the loop that prunes the records, src/services/punishments.ts.
use qq_group_ops.Base.{
  ◌⊎◌, [], ◌≡◌, refl, ◌∙◌, ap, String, Bool, true, false, ◌&&◌, Option, none, some, List, ◌∷◌,
  arith, string_eq, nat_eq, ◌==◌, if◌then◌else◌, Bool-cases, inl, inr, ℕ, suc, ltb, count, any, ◌+◌,
}
use qq_group_ops.Punishments.{delete_older, enqueue, Punishments, PunishmentRecord}
use qq_group_ops.Base.Dict.{
  count-values-pos, Dict, lookup, erase, values, NodupKeys, lookup-erase, erase-NodupKeys,
}
use qq_group_ops.Core.RowTable.{IsKeyed, erase-IsKeyed, any-values, passes}
use qq_group_ops.Punishments.Retention.{prune_loop, prune_older_than}
use qq_group_ops.Punishments.Change.{IsValid, id_of}

-- The loop of the pruning takes the entries away that are older than the cutoff.
lookup-prune_loop :
    (cutoff : ℕ) (rs : List PunishmentRecord) (removed : ℕ) (d : Dict String PunishmentRecord)
    (k : String)
    → lookup k (prune_loop cutoff rs removed d).1
      ≡ (if any (λ r. ltb r.created_at cutoff && k == r.record_id) rs then none else lookup k d)
unfolding prune_loop any
lookup-prune_loop cutoff [] removed d k = refl
lookup-prune_loop cutoff (r ∷ rs) removed d k = ground (
  arith,
  lookup-prune_loop cutoff rs (if ltb r.created_at cutoff then suc removed else removed)
      (if ltb r.created_at cutoff then erase r.record_id d else d) k,
  lookup-erase k r.record_id d,
)

prune_loop-count :
    (cutoff : ℕ) (rs : List PunishmentRecord) (removed : ℕ) (d : Dict String PunishmentRecord)
    → (prune_loop cutoff rs removed d).0 ≡ removed + count (λ r. ltb r.created_at cutoff) rs
unfolding prune_loop count
prune_loop-count cutoff [] removed d = omega arith
prune_loop-count cutoff (r ∷ rs) removed d = ground (
  arith,
  prune_loop-count cutoff rs (if ltb r.created_at cutoff then suc removed else removed)
      (if ltb r.created_at cutoff then erase r.record_id d else d),
)

keeps-erase :
    (b : Bool) (id : String) (d : Dict String PunishmentRecord)
    → NodupKeys d × IsKeyed id_of d
    → NodupKeys (if b then erase id d else d) × IsKeyed id_of (if b then erase id d else d)
keeps-erase true id d (u, keyed) = (erase-NodupKeys id d u, erase-IsKeyed id_of id d keyed)
keeps-erase false id d h = h

prune_loop-keeps :
    (cutoff : ℕ) (rs : List PunishmentRecord) (removed : ℕ) (d : Dict String PunishmentRecord)
    → NodupKeys d × IsKeyed id_of d
    → NodupKeys (prune_loop cutoff rs removed d).1
      × IsKeyed id_of (prune_loop cutoff rs removed d).1
unfolding prune_loop
prune_loop-keeps cutoff [] removed d h = h
prune_loop-keeps cutoff (r ∷ rs) removed d h =
    prune_loop-keeps cutoff rs (if ltb r.created_at cutoff then suc removed else removed)
      (if ltb r.created_at cutoff then erase r.record_id d else d)
      (keeps-erase (ltb r.created_at cutoff) r.record_id d h)

-- The entry after a pruning.
abbrev pub kept? : ℕ → Option PunishmentRecord → Option PunishmentRecord
kept? cutoff none = none
kept? cutoff (some r) = if ltb r.created_at cutoff then none else some r

passes-kept :
    (cutoff : ℕ) (o : Option PunishmentRecord)
    → (if passes (λ r. ltb r.created_at cutoff) o then none else o) ≡ kept? cutoff o
passes-kept cutoff none = refl
passes-kept cutoff (some r) = refl

pub prune-IsValid :
    (cutoff : ℕ) (s : Punishments) → IsValid s → IsValid (prune_older_than cutoff s).1
unfolding prune_older_than
prune-IsValid cutoff s v =
    let (u, keyed) = prune_loop-keeps cutoff (values s.records) 0 s.records (v.nodup, v.keyed) in
    elim (Bool-cases (ltb 0 (prune_loop cutoff (values s.records) 0 s.records).0)) [
      | inl y ↦ rw y (record { keyed = keyed; nodup = u })
      | inr n ↦ rw n (record { keyed = keyed; nodup = u })
    ]

pub lookup-prune :
    (cutoff : ℕ) (s : Punishments) (k : String)
    → IsValid s
    → lookup k (prune_older_than cutoff s).1.records ≡ kept? cutoff (lookup k s.records)
unfolding prune_older_than
lookup-prune cutoff s k v =
    let e =
      lookup-prune_loop cutoff (values s.records) 0 s.records k
      ∙ ap (λ (b : Bool). if b then none else lookup k s.records)
          (any-values id_of (λ r. ltb r.created_at cutoff) k s.records v.nodup v.keyed)
      ∙ passes-kept cutoff (lookup k s.records) in
    ground (arith, e)

nothing_old :
    (cutoff : ℕ) (o : Option PunishmentRecord)
    → ((r : PunishmentRecord) → o ≡ some r → ltb r.created_at cutoff ≡ false)
    → kept? cutoff o ≡ o
nothing_old cutoff none h = refl
nothing_old cutoff (some r) h = rw (h r refl) refl

-- Whether the pruning queues a write, and that nothing is old when it does not.
pub prune-queue :
    (cutoff : ℕ) (s : Punishments)
    → IsValid s
    → ((prune_older_than cutoff s).1
        ≡ enqueue
            (delete_older cutoff)
            (record s { records = (prune_older_than cutoff s).1.records }))
      ⊎ (((prune_older_than cutoff s).1
            ≡ record s { records = (prune_older_than cutoff s).1.records })
          × ((k : String) → kept? cutoff (lookup k s.records) ≡ lookup k s.records))
unfolding prune_older_than
prune-queue cutoff s v =
    elim (Bool-cases (ltb 0 (prune_loop cutoff (values s.records) 0 s.records).0)) [
      | inl y ↦ inl (rw y refl)
      | inr n ↦ inr (
        rw n refl,
        λ k. nothing_old cutoff (lookup k s.records) (λ r f. ground (
          arith,
          n,
          prune_loop-count cutoff (values s.records) 0 s.records,
          count-values-pos (λ q. ltb q.created_at cutoff) s.records k r f,
        )),
      )
    ]
