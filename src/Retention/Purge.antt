-- ===== src/Retention/Purge.antt =====
-- A purge removes all the facts of a failed snapshot, in every table, and nothing else.
use partha.Prelude.{
  ℕ, ◌+◌, ◌≡◌, refl, sym, ◌∙◌, Bool, true, false, ◌&&◌, ◌||◌, List, [], ◌∷◌, ◌==◌, arith,
  if◌then◌else◌, inl, inr, Bool-cases,
}
use partha.Table.{find}
use partha.Database.{
  FactTable, derivation, evidence, assertion, diagnostic, edge, observation, node, Fact,
  snapshot_key, Database,
}
use partha.Session.{Session, ok, pure, gets, ◌>>=◌, statement, commit}
use partha.Retention.{
  fact_tables, same_table, delete_facts, delete_all, delete_snapshot_facts, state_is_failed,
  purge_snapshot_facts,
}

-- The facts that a guard spares, and how many it does not.
abbrev pub spared : (Fact → Bool) → List Fact → List Fact
spared p [] = []
spared p (f ∷ facts) = let rest = spared p facts in if p f then rest else f ∷ rest

abbrev pub removed : (Fact → Bool) → List Fact → ℕ
removed p [] = 0
removed p (f ∷ facts) = (if p f then 1 else 0) + removed p facts

abbrev split : (Fact → Bool) → List Fact → ℕ × List Fact
split p facts = (removed p facts, spared p facts)

abbrev pub of_snapshot : ℕ → Fact → Bool
of_snapshot id f = f.snapshot_id == id

abbrev listed : List FactTable → FactTable → Bool
listed [] t = false
listed (u ∷ ts) t = same_table t u || listed ts t

delete_facts_lem :
    (t : FactTable) (id : ℕ) (facts : List Fact)
    → delete_facts t id facts ≡ split (λ f. same_table f.table t && f.snapshot_id == id) facts
unfolding delete_facts
delete_facts_lem t id [] = refl
delete_facts_lem t id (f ∷ facts) = ground (arith, delete_facts_lem t id facts)

-- Two guards, one after the other.
spared-spared :
    (p q r : Fact → Bool)
    → ((f : Fact) → r f ≡ (p f || q f))
    → (facts : List Fact) → spared q (spared p facts) ≡ spared r facts
spared-spared p q r either [] = refl
spared-spared p q r either (f ∷ facts) = ground (arith, either f, spared-spared p q r either facts)

removed-spared :
    (p q r : Fact → Bool)
    → ((f : Fact) → r f ≡ (p f || q f))
    → (facts : List Fact) → removed p facts + removed q (spared p facts) ≡ removed r facts
removed-spared p q r either [] = refl
removed-spared p q r either (f ∷ facts) =
    ground (arith, either f, removed-spared p q r either facts)

either_table : (a b c : Bool) → ((a || b) && c) ≡ ((a && c) || (b && c))
either_table true true true = refl
either_table true true false = refl
either_table true false true = refl
either_table true false false = refl
either_table false b c = refl

none_listed : (facts : List Fact) → split (λ _. false) facts ≡ (0, facts)
none_listed [] = refl
none_listed (f ∷ facts) = ground (arith, none_listed facts)

delete_all_lem :
    (ts : List FactTable) (id : ℕ) (facts : List Fact)
    → delete_all ts id facts ≡ split (λ f. listed ts f.table && f.snapshot_id == id) facts
unfolding delete_all
delete_all_lem [] id facts = sym (none_listed facts)
delete_all_lem (t ∷ ts) id facts =
    let P = λ (f : Fact). same_table f.table t && f.snapshot_id == id in
    let Q = λ (f : Fact). listed ts f.table && f.snapshot_id == id in
    let R = λ (f : Fact). listed (t ∷ ts) f.table && f.snapshot_id == id in
    let either =
      λ (f : Fact). either_table (same_table f.table t) (listed ts f.table) (f.snapshot_id == id) in
    rw
      (
        delete_facts_lem t id facts,
        delete_all_lem ts id (spared P facts),
        removed-spared P Q R either facts,
        spared-spared P Q R either facts,
      )
      refl

-- Every fact is of one of the tables.
all_tables : (t : FactTable) → listed fact_tables t ≡ true
all_tables derivation = refl
all_tables evidence = refl
all_tables assertion = refl
all_tables diagnostic = refl
all_tables edge = refl
all_tables observation = refl
all_tables node = refl

removed_cong :
    (p q : Fact → Bool)
    → ((f : Fact) → p f ≡ q f)
    → (facts : List Fact) → split p facts ≡ split q facts
removed_cong p q same [] = refl
removed_cong p q same (f ∷ facts) = ground (arith, same f, removed_cong p q same facts)

delete_fact_tables :
    (id : ℕ) (facts : List Fact) → delete_all fact_tables id facts ≡ split (of_snapshot id) facts
delete_fact_tables id facts =
    delete_all_lem fact_tables id facts
    ∙ removed_cong _ (of_snapshot id) (λ f. rw (all_tables f.table) refl) facts

-- The database after a purge of that snapshot.
abbrev pub purged : ℕ → Database → Database
purged id db = record db { facts = spared (of_snapshot id) db.facts }

-- A purge of a failed snapshot removes exactly its facts, whatever their tables, commits, and returns
-- how many they were; of a snapshot that is building, sealed or not there at all it removes nothing,
-- returns 0 and commits nothing.
pub purge_snapshot_facts_lem :
    (id : ℕ) (s : Session)
    → purge_snapshot_facts id s ≡ (
        if state_is_failed (find snapshot_key id s.work.snapshots)
        then (
          ok (removed (of_snapshot id) s.work.facts),
          record s { committed = purged id s.work; work = purged id s.work },
        )
        else (ok 0, s))
unfolding purge_snapshot_facts delete_snapshot_facts gets pure statement commit ◌>>=◌
purge_snapshot_facts_lem id s =
    elim (Bool-cases (state_is_failed (find snapshot_key id s.work.snapshots))) [
      | inl e ↦ rw (e, delete_fact_tables id s.work.facts) refl
      | inr e ↦ rw e refl
    ]
