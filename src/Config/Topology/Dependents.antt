-- ===== src/Config/Topology/Dependents.antt =====
-- The map of dependents holds exactly the reversed dependencies.
use commit_ci_preflight.Prelude.{
  String, Bool, true, false, ◌&&◌, ◌||◌, ◌≡◌, refl, List, [], ◌∷◌, arith, Option, none, some,
  if◌then◌else◌, str_eq, eq_iff, contains, Bool-cases, inl, inr,
}
use commit_ci_preflight.Ordered.Set
use commit_ci_preflight.Ordered.Set.{
  Above, IsSorted, Above-contains, contains-insert, insert-IsSorted,
}
use commit_ci_preflight.Ordered.Map
use commit_ci_preflight.Ordered.Map.{Map, get-insert, get-none}
use commit_ci_preflight.Config.Data.{CheckConfig}
use commit_ci_preflight.Config.Topology.{or_default, add_dependents, collect_dependents}

abbrev pub dependencies : Option CheckConfig → List String
dependencies none = []
dependencies (some check) = check.depends_on

-- The dependencies of the check with a given id, none where there is no such check.
abbrev pub deps : Map CheckConfig → String → List String
deps by_id j = dependencies (Map.get j by_id)

abbrev pub children : Map (List String) → String → List String
children dependents id = or_default (Map.get id dependents)

or_default-if :
    (b : Bool) (xs : List String) (o : Option (List String))
    → or_default (if b then some xs else o) ≡ (if b then xs else or_default o)
or_default-if true xs o = refl
or_default-if false xs o = refl

children-insert :
    (k d : String) (xs : List String) (m : Map (List String))
    → children (Map.insert k xs m) d ≡ (if str_eq k d then xs else children m d)
children-insert k d xs m = rw (get-insert k d xs m) (or_default-if (str_eq k d) xs (Map.get d m))

contains-insert_if :
    (k d i j : String) (m : Map (List String))
    → contains (if str_eq k d then Set.insert i (children m k) else children m d) j
      ≡ (contains (children m d) j || (str_eq k d && str_eq i j))
contains-insert_if k d i j m = elim (Bool-cases (str_eq k d)) [
  | inl same ↦
      let e : k ≡ d = (eq_iff k d).0 same in
      rw (same, contains-insert i j (children m k), e) (ground arith)
  | inr other ↦ rw other (ground arith)
]

pub contains-add_dependents :
    (i : String) (ds : List String) (m : Map (List String)) (d j : String)
    → contains (children (add_dependents i ds m) d) j
      ≡ (contains (children m d) j || (contains ds d && str_eq i j))
unfolding add_dependents
contains-add_dependents i [] m d j = ground arith
contains-add_dependents i (k ∷ ds) m d j = ground (
  arith,
  contains-add_dependents i ds (Map.insert k (Set.insert i (children m k)) m) d j,
  children-insert k d (Set.insert i (children m k)) m,
  contains-insert_if k d i j m,
)

-- Whether some entry has the id `j` and depends on `d`.
any_entry : Map CheckConfig → String → String → Bool
any_entry [] d j = false
any_entry ((i, check) ∷ by_id) d j =
    (contains check.depends_on d && str_eq i j) || any_entry by_id d j

contains-collect :
    (by_id : Map CheckConfig) (m : Map (List String)) (d j : String)
    → contains (children (collect_dependents by_id m) d) j
      ≡ (contains (children m d) j || any_entry by_id d j)
unfolding collect_dependents any_entry
contains-collect [] m d j = ground arith
contains-collect ((i, check) ∷ by_id) m d j = ground (
  arith,
  contains-collect by_id (add_dependents i check.depends_on m) d j,
  contains-add_dependents i check.depends_on m d j,
)

any_entry_absent :
    (by_id : Map CheckConfig) (d j : String)
    → contains (Map.keys by_id) j ≡ false
    → any_entry by_id d j ≡ false
unfolding any_entry
any_entry_absent [] d j h = refl
any_entry_absent ((i, check) ∷ by_id) d j h = ground (arith, any_entry_absent by_id d j)

any_entry-deps :
    (by_id : Map CheckConfig) (d j : String)
    → IsSorted (Map.keys by_id)
    → any_entry by_id d j ≡ contains (deps by_id j) d
unfolding any_entry Map.get
any_entry-deps [] d j h = refl
any_entry-deps ((i, check) ∷ by_id) d j (above, h) = elim (Bool-cases (str_eq i j)) [
  | inl same ↦
      let e : i ≡ j = (eq_iff i j).0 same in
      rw same (
        ground
          (arith, any_entry_absent by_id d j (rw e at (Above-contains i (Map.keys by_id) above))))
  | inr other ↦ rw other (ground (arith, any_entry-deps by_id d j h))
]

-- `j` is among the children of `d` exactly when it is a check that depends on `d`.
pub contains-children :
    (by_id : Map CheckConfig) (d j : String)
    → IsSorted (Map.keys by_id)
    → contains (children (collect_dependents by_id []) d) j ≡ contains (deps by_id j) d
unfolding Map.get
contains-children by_id d j h =
    ground (arith, contains-collect by_id [] d j, any_entry-deps by_id d j h)

abbrev AllSorted : Map (List String) → Type 0
AllSorted m = (d : String) → IsSorted (children m d)

insert-AllSorted :
    (k : String) (xs : List String) (m : Map (List String))
    → IsSorted xs
    → AllSorted m
    → AllSorted (Map.insert k xs m)
insert-AllSorted k xs m h all d = elim (Bool-cases (str_eq k d)) [
  | inl same ↦ rw (children-insert k d xs m) (rw same h)
  | inr other ↦ rw (children-insert k d xs m) (rw other (all d))
]

add_dependents-AllSorted :
    (i : String) (ds : List String) (m : Map (List String))
    → AllSorted m
    → AllSorted (add_dependents i ds m)
unfolding add_dependents
add_dependents-AllSorted i [] m h = h
add_dependents-AllSorted i (k ∷ ds) m h =
    add_dependents-AllSorted i ds (Map.insert k (Set.insert i (children m k)) m) (
      insert-AllSorted k (Set.insert i (children m k)) m (insert-IsSorted i (children m k) (h k)) h)

collect-AllSorted :
    (by_id : Map CheckConfig) (m : Map (List String))
    → AllSorted m
    → AllSorted (collect_dependents by_id m)
unfolding collect_dependents
collect-AllSorted [] m h = h
collect-AllSorted ((i, check) ∷ by_id) m h =
    collect-AllSorted by_id (add_dependents i check.depends_on m)
      (add_dependents-AllSorted i check.depends_on m h)

pub children-IsSorted :
    (by_id : Map CheckConfig) (d : String) → IsSorted (children (collect_dependents by_id []) d)
unfolding Map.get
children-IsSorted by_id d = collect-AllSorted by_id [] (λ e. tt) d
