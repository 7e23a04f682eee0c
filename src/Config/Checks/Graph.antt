-- ===== src/Config/Checks/Graph.antt =====
-- The checks that `normalize_checks` hands to the topological sort form a graph.
use commit_ci_preflight.Prelude.{
  String, true, false, ◌≡◌, sym, ap, refl, List, [], ◌∷◌, arith, some, str_eq, eq_iff, contains,
  Bool-cases, inl, inr,
}
use mathlib.Core.Path.{subst}
use commit_ci_preflight.Outcome.{ok, >>=-eq-ok, >>-eq-ok, reject->>-eq-ok}
use commit_ci_preflight.Ordered.Set.{IsSorted, SameMembers}
use commit_ci_preflight.Ordered.Map
use commit_ci_preflight.Ordered.Map.{Map, get-insert, insert-IsSorted}
use commit_ci_preflight.Config.Data.{CheckConfig}
use commit_ci_preflight.Config.Failure.{duplicate_id}
use commit_ci_preflight.Config.Fields.{unique_sorted, validate_identifier, validate_relative_path}
use commit_ci_preflight.Config.Fields.Accepted.{unique_sorted-IsSorted}
use commit_ci_preflight.Config.Checks.{validate_check, complete_check, admit_check, collect_checks}
use commit_ci_preflight.Config.Topology.{
  validate_depends_on, validate_dependencies_of, validate_dependencies,
}
use commit_ci_preflight.Config.Topology.Dependents.{deps}
use commit_ci_preflight.Config.Topology.Graph.{IsGraph}

complete_check_lem :
    (check completed : CheckConfig) → complete_check check ≡ ok completed → check ≡ completed
unfolding complete_check
complete_check_lem check completed h = ground arith

-- An admitted check is the configured one, with its dependencies and artifacts ascending.
pub record IsAdmitted (check admitted : CheckConfig) : Type 0 where
  pub kept :
      record check { depends_on = admitted.depends_on; artifacts = admitted.artifacts } ≡ admitted
  pub dependencies : IsSorted admitted.depends_on × SameMembers admitted.depends_on check.depends_on
  pub outputs : IsSorted admitted.artifacts × SameMembers admitted.artifacts check.artifacts

pub admit_check_lem :
    (check admitted : CheckConfig) → admit_check check ≡ ok admitted → IsAdmitted check admitted
unfolding admit_check
admit_check_lem check admitted h =
    let (u, valid, h1) = >>=-eq-ok (validate_check check) _ h in
    let (depends_on, e, h2) =
      >>=-eq-ok
        (unique_sorted "check.depends_on" check.depends_on (validate_identifier "check.depends_on"))
        _ h1 in
    let (artifacts, e', h3) =
      >>=-eq-ok
        (unique_sorted "check.artifacts" check.artifacts (validate_relative_path "check.artifacts"))
        _ h2 in
    let kept =
      complete_check_lem (record check { depends_on = depends_on; artifacts = artifacts }) admitted
        h3 in
    subst (IsAdmitted check) kept (record {
      kept = refl;
      dependencies =
          unique_sorted-IsSorted "check.depends_on" check.depends_on depends_on
            (validate_identifier "check.depends_on") e;
      outputs =
          unique_sorted-IsSorted "check.artifacts" check.artifacts artifacts
            (validate_relative_path "check.artifacts") e';
    })

-- The checks collected so far.
record IsCollected (by_id : Map CheckConfig) : Type 0 where
  sorted : IsSorted (Map.keys by_id)
  named : (j : String) (check : CheckConfig) → Map.get j by_id ≡ some check → check.id ≡ j
  deps_sorted : (j : String) → IsSorted (deps by_id j)

insert-IsCollected :
    (by_id : Map CheckConfig) (id : String) (check : CheckConfig)
    → IsCollected by_id
    → check.id ≡ id
    → IsSorted check.depends_on
    → IsCollected (Map.insert id check by_id)
insert-IsCollected by_id id check c own s = record {
  sorted = insert-IsSorted id check by_id c.sorted;
  named = λ j found h.
      let h' = rw (get-insert id j check by_id) at h in
      elim (Bool-cases (str_eq id j)) [
        | inl same ↦ cc (own, (eq_iff id j).0 same, rw same at h')
        | inr other ↦ c.named j found (rw other at h')
      ];
  deps_sorted = λ j. rw (get-insert id j check by_id) (elim (Bool-cases (str_eq id j)) [
    | inl same ↦ rw same s
    | inr other ↦ rw other (c.deps_sorted j)
  ]);
}

collect_checks-IsCollected :
    (checks : List CheckConfig) (acc by_id : Map CheckConfig)
    → IsCollected acc
    → collect_checks acc checks ≡ ok by_id
    → IsCollected by_id
unfolding collect_checks
collect_checks-IsCollected [] acc by_id c h = subst IsCollected (cc) c
collect_checks-IsCollected (check ∷ checks) acc by_id c h =
    let (admitted, e, h1) = >>=-eq-ok (admit_check check) _ h in
    let (new, h2) =
      reject->>-eq-ok (contains (Map.keys acc) check.id) (duplicate_id "check.id" check.id)
        (collect_checks (Map.insert check.id admitted acc) checks) h1 in
    let a = admit_check_lem check admitted e in
    collect_checks-IsCollected checks (Map.insert check.id admitted acc) by_id
      (insert-IsCollected acc check.id admitted c (sym (ap (λ (k : CheckConfig). k.id) a.kept))
        a.dependencies.0)
      h2

validate_depends_on_lem :
    (by_id : Map CheckConfig) (id : String) (depends_on : List String) (d : String)
    → validate_depends_on by_id id depends_on ≡ ok tt
    → contains depends_on d ≡ true
    → (contains (Map.keys by_id) d ≡ true) × (str_eq d id ≡ false)
unfolding validate_depends_on
validate_depends_on_lem by_id id [] d h k = absurd (cc)
validate_depends_on_lem by_id id (x ∷ depends_on) d h k =
    ground
      (arith, validate_depends_on_lem by_id id depends_on d, eq_iff x d, eq_iff x id, eq_iff d id)

validate_dependencies_of_lem :
    (by_id m : Map CheckConfig) (j d : String) (check : CheckConfig)
    → validate_dependencies_of by_id (Map.values m) ≡ ok tt
    → Map.get j m ≡ some check
    → contains check.depends_on d ≡ true
    → (contains (Map.keys by_id) d ≡ true) × (str_eq d check.id ≡ false)
unfolding validate_dependencies_of Map.get
validate_dependencies_of_lem by_id [] j d check h found k = absurd (cc)
validate_dependencies_of_lem by_id ((i, first) ∷ m) j d check h found k =
    let (valid, later) = >>-eq-ok (validate_depends_on by_id first.id first.depends_on) _ h in
    elim (Bool-cases (str_eq i j)) [
      | inl same ↦
          let e : first ≡ check = ground arith in
          subst (λ c. (contains (Map.keys by_id) d ≡ true) × (str_eq d c.id ≡ false)) e
            (validate_depends_on_lem by_id first.id first.depends_on d valid
              (subst (λ c. contains c.depends_on d ≡ true) (sym e) k))
      | inr other ↦ validate_dependencies_of_lem by_id m j d check later (rw other at found) k
    ]

deps_of :
    (by_id : Map CheckConfig) (j d : String)
    → contains (deps by_id j) d ≡ true
    → (check : CheckConfig) × (Map.get j by_id ≡ some check) × (contains check.depends_on d ≡ true)
deps_of by_id j d h = ground arith

-- The checks that are admitted, with dependencies that are accepted, form a graph.
pub collect_checks-IsGraph :
    (checks : List CheckConfig) (by_id : Map CheckConfig)
    → collect_checks [] checks ≡ ok by_id
    → validate_dependencies by_id ≡ ok tt
    → IsGraph by_id
unfolding validate_dependencies Map.get
collect_checks-IsGraph checks by_id h v =
    let c =
      collect_checks-IsCollected checks [] by_id
        (record { sorted = tt; named = λ j check e. absurd (cc); deps_sorted = λ j. tt }) h in
    record {
      sorted = c.sorted;
      named = c.named;
      deps_sorted = c.deps_sorted;
      known = λ j d k.
          let (check, found, needed) = deps_of by_id j d k in
          (validate_dependencies_of_lem by_id by_id j d check v found needed).0;
      no_self = λ j. elim (Bool-cases (contains (deps by_id j) j)) [
        | inr free ↦ free
        | inl self ↦
            let (check, found, needed) = deps_of by_id j j self in
            let apart = (validate_dependencies_of_lem by_id by_id j j check v found needed).1 in
            absurd (ground (arith, apart, c.named j check found, eq_iff j check.id))
      ];
    }
