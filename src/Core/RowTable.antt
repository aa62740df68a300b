-- ===== src/Core/RowTable.antt =====
-- A table with a primary key in which every queued write acts on each row by itself, and its
-- reading at a restart.
use qq_group_ops.Base.{
  ◌&&◌, false, any, Bool, [], ◌≡◌, refl, ◌∙◌, ap, Option, none, some, List, ◌∷◌, ◌++◌, arith, Eq,
  ◌==◌,
}
use qq_group_ops.Base.Dict.{
  values, lookup-erase, erase, Dict, lookup, insert, NodupKeys, lookup-insert,
}

module _ {K V W : Type 0} (effect : W → K → Option V → Option V) where
  -- The rows after the queued writes, all of which succeed.
  unfoldable pub run_writes : List W → (K → Option V) → K → Option V
  run_writes [] table k = table k
  run_writes (w ∷ ws) table k = run_writes ws (λ j. effect w j (table j)) k

  pub run_writes-concat :
      (ws : List W) (w : W) (table : K → Option V) (k : K)
      → run_writes (ws ++ w ∷ []) table k ≡ effect w k (run_writes ws table k)
  unfolding run_writes
  run_writes-concat [] w table k = refl
  run_writes-concat (v ∷ ws) w table k = run_writes-concat ws w (λ j. effect v j (table j)) k

  module _ ⦃e : Eq K⦄ (table : K → Option V) where
    -- The table, with the queued writes done, is the map in memory.
    abbrev pub Mirrors : Dict K V → List W → Type 0
    Mirrors memory queue = (k : K) → run_writes queue table k ≡ lookup k memory

    -- One more write that does to each row what is done to the entry in memory.
    pub write-Mirrors :
        (w : W) (memory memory' : Dict K V) (queue : List W)
        → ((k : K) → effect w k (lookup k memory) ≡ lookup k memory')
        → Mirrors memory queue
        → Mirrors memory' (queue ++ w ∷ [])
    write-Mirrors w memory memory' queue same m k =
        run_writes-concat queue w table k ∙ ap (effect w k) (m k) ∙ same k

module _ {K V : Type 0} ⦃e : Eq K⦄ (key : V → K) where
  -- The loop of a `load`: `map.set(key(row), row)` for each row.
  unfoldable pub set_all : List V → Dict K V → Dict K V
  set_all [] d = d
  set_all (v ∷ vs) d = set_all vs (insert (key v) v d)

  abbrev pub keyed : List V → Dict K V
  keyed [] = []
  keyed (v ∷ vs) = (key v, v) ∷ keyed vs

  -- The rows that a query of the whole table returns, in some order.
  pub record Lists (rows : List V) (table : K → Option V) : Type 0 where
    pub distinct : NodupKeys (keyed rows)
    pub complete : (k : K) → lookup k (keyed rows) ≡ table k

  abbrev or_else : Option V → Option V → Option V
  or_else none b = b
  or_else (some v) b = some v

  or_else-none : (a : Option V) → or_else a none ≡ a
  or_else-none none = refl
  or_else-none (some v) = refl

  lookup-set_all :
      (vs : List V) (d : Dict K V) (k : K)
      → NodupKeys (keyed vs)
      → lookup k (set_all vs d) ≡ or_else (lookup k (keyed vs)) (lookup k d)
  unfolding set_all lookup
  lookup-set_all [] d k u = refl
  lookup-set_all (v ∷ vs) d k (fresh, u) =
      ground (arith, fresh, lookup-set_all vs (insert (key v) v d) k u, lookup-insert k (key v) v d)

  -- A service that reads a table holds the rows of the table.
  pub lookup-set_all_rows :
      (rows : List V) (table : K → Option V) (k : K)
      → Lists rows table
      → lookup k (set_all rows []) ≡ table k
  unfolding lookup
  lookup-set_all_rows rows table k l =
      lookup-set_all rows [] k l.distinct ∙ or_else-none _ ∙ l.complete k

abbrev pub passes {ℓ} : {V : Type ℓ} → (V → Bool) → Option V → Bool
passes p none = false
passes p (some v) = p v

-- A map whose entries stand under their own keys.
module _ {K V : Type 0} ⦃e : Eq K⦄ (key : V → K) where
  abbrev pub IsKeyed : Dict K V → Type 0
  IsKeyed d = (k : K) (v : V) → lookup k d ≡ some v → key v ≡ k

  pub insert-IsKeyed : (v : V) (d : Dict K V) → IsKeyed d → IsKeyed (insert (key v) v d)
  insert-IsKeyed v d keyed k x f = ground (arith, lookup-insert k (key v) v d, keyed k x, f)

  pub erase-IsKeyed : (j : K) (d : Dict K V) → IsKeyed d → IsKeyed (erase j d)
  erase-IsKeyed j d keyed k x f = ground (arith, lookup-erase k j d, keyed k x, f)

  pub IsKeyed-tail :
      (j : K) (w : V) (d : Dict K V) → lookup j d ≡ none → IsKeyed ((j, w) ∷ d) → IsKeyed d
  unfolding lookup
  IsKeyed-tail j w d fresh keyed k v f = ground (arith, keyed k v, fresh, f)

  -- Some value passes a test and has a key exactly when the entry under the key passes.
  pub any-values :
      (p : V → Bool) (k : K) (d : Dict K V)
      → NodupKeys d
      → IsKeyed d
      → any (λ v. p v && k == key v) (values d) ≡ passes p (lookup k d)
  unfolding any values lookup
  any-values p k [] u keyed = refl
  any-values p k ((j, w) ∷ d) (fresh, u) keyed =
      ground (arith, any-values p k d u (IsKeyed-tail j w d fresh keyed), keyed j w, fresh)
