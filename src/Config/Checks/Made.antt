-- ===== src/Config/Checks/Made.antt =====
-- What the loop of `normalize_checks` (src/config.rs) keeps of each configured check.
use commit_ci_preflight.Prelude.{
  String, true, false, ◌≡◌, refl, sym, List, [], ◌∷◌, some, arith, str_eq, eq_iff, eq_refl,
  contains, Bool-cases, ◌⊎◌, inl, inr,
}
use mathlib.Core.Path.{subst}
use mathlib.Core.List.{Memᴰ}
use commit_ci_preflight.Outcome.{ok, >>=-eq-ok, reject->>-eq-ok}
use commit_ci_preflight.Ordered.Set.{IsSorted, SameMembers}
use commit_ci_preflight.Ordered.Map
use commit_ci_preflight.Ordered.Map.{Map, get-insert, contains-keys-insert}
use commit_ci_preflight.Config.Data.{
  CheckConfig, NormalizedCheck, ArtifactContractConfig, NormalizedArtifactContract,
}
use commit_ci_preflight.Config.Failure.{duplicate_id}
use commit_ci_preflight.Config.Checks.{admit_check, collect_checks}
use commit_ci_preflight.Config.Checks.Graph.{admit_check_lem}
use commit_ci_preflight.Config.Topology.{normalize_check, normalize_contracts}
use commit_ci_preflight.Config.Topology.Graph.{AreDistinct, Normalised}

abbrev pub config_ids : List CheckConfig → List String
config_ids [] = []
config_ids (check ∷ checks) = check.id ∷ config_ids checks

-- The contracts are the configured ones, in their order, with the check that produces them.
abbrev pub HaveContracts :
    String → List ArtifactContractConfig → List NormalizedArtifactContract → Type 0
HaveContracts id [] [] = Unit
HaveContracts id [] (made ∷ more) = ⊥
HaveContracts id (artifact ∷ contracts) [] = ⊥
HaveContracts id (artifact ∷ contracts) (made ∷ more) =
    (made.path ≡ artifact.path)
    × (made.kind ≡ artifact.kind)
    × (made.max_bytes ≡ artifact.max_bytes)
    × (made.max_entries ≡ artifact.max_entries)
    × (made.producer_check ≡ id)
    × HaveContracts id contracts more

-- The check says what the configured check says; its dependencies and its artifacts are the
-- configured ones in ascending order.
pub record IsMadeFrom (config : CheckConfig) (check : NormalizedCheck) : Type 0 where
  pub id : check.id ≡ config.id
  pub required : check.required ≡ config.required
  pub argv : check.argv ≡ config.argv
  pub working_directory : check.working_directory ≡ config.working_directory
  pub timeout_seconds : check.timeout_seconds ≡ config.timeout_seconds
  pub depends_on : IsSorted check.depends_on × SameMembers check.depends_on config.depends_on
  pub artifacts : IsSorted check.artifacts × SameMembers check.artifacts config.artifacts
  pub contracts : HaveContracts config.id config.artifact_contracts check.artifact_contracts

-- Each check is made from one of the configured checks.
abbrev pub AreMadeFrom : List CheckConfig → List NormalizedCheck → Type 0
AreMadeFrom configs [] = Unit
AreMadeFrom configs (check ∷ checks) =
    ((config : CheckConfig) × Memᴰ config configs × IsMadeFrom config check)
    × AreMadeFrom configs checks

HaveContracts-normalize :
    (id : String) (contracts : List ArtifactContractConfig)
    → HaveContracts id contracts (normalize_contracts id contracts)
HaveContracts-normalize id [] = tt
HaveContracts-normalize id (artifact ∷ contracts) =
    (refl, refl, refl, refl, refl, HaveContracts-normalize id contracts)

IsMadeFrom-admitted :
    (config admitted : CheckConfig)
    → admit_check config ≡ ok admitted
    → IsMadeFrom config (normalize_check admitted)
IsMadeFrom-admitted config admitted h =
    let a = admit_check_lem config admitted h in
    subst (λ (c : CheckConfig). IsMadeFrom config (normalize_check c)) a.kept
      (record {
        id = refl;
        required = refl;
        argv = refl;
        working_directory = refl;
        timeout_seconds = refl;
        depends_on = a.dependencies;
        artifacts = a.outputs;
        contracts = HaveContracts-normalize config.id config.artifact_contracts;
      })

-- The ids that are collected were not there before, and none comes twice.
pub collect_checks-AreDistinct :
    (checks : List CheckConfig) (acc by_id : Map CheckConfig)
    → collect_checks acc checks ≡ ok by_id
    → AreDistinct (config_ids checks)
      × ((j : String) → contains (config_ids checks) j ≡ true → contains (Map.keys acc) j ≡ false)
unfolding collect_checks
collect_checks-AreDistinct [] acc by_id h = (tt, λ j k. cc)
collect_checks-AreDistinct (check ∷ checks) acc by_id h =
    let (admitted, e, h1) = >>=-eq-ok (admit_check check) _ h in
    let (new, h2) =
      reject->>-eq-ok (contains (Map.keys acc) check.id) (duplicate_id "check.id" check.id)
        (collect_checks (Map.insert check.id admitted acc) checks) h1 in
    let (distinct, apart) =
      collect_checks-AreDistinct checks (Map.insert check.id admitted acc) by_id h2 in
    (
      (
        ground (
          arith,
          apart check.id,
          contains-keys-insert check.id check.id admitted acc,
          eq_refl check.id,
        ),
        distinct,
      ),
      λ j k.
          ground
            (arith, apart j, contains-keys-insert check.id j admitted acc, eq_iff check.id j, new),
    )

-- Each collected check is a configured one that was admitted.
collect_checks-admitted :
    (checks : List CheckConfig) (acc by_id : Map CheckConfig) (j : String) (found : CheckConfig)
    → collect_checks acc checks ≡ ok by_id
    → Map.get j by_id ≡ some found
    → (Map.get j acc ≡ some found)
      ⊎ ((config : CheckConfig) × Memᴰ config checks × (admit_check config ≡ ok found))
unfolding collect_checks
collect_checks-admitted [] acc by_id j found h k = inl (cc)
collect_checks-admitted (check ∷ checks) acc by_id j found h k =
    let (admitted, e, h1) = >>=-eq-ok (admit_check check) _ h in
    let (new, h2) =
      reject->>-eq-ok (contains (Map.keys acc) check.id) (duplicate_id "check.id" check.id)
        (collect_checks (Map.insert check.id admitted acc) checks) h1 in
    elim (collect_checks-admitted checks (Map.insert check.id admitted acc) by_id j found h2 k) [
      | inr (config, m, made) ↦ inr (config, Memᴰ.tail m, made)
      | inl before ↦
          let stored = rw (get-insert check.id j admitted acc) at before in
          elim (Bool-cases (str_eq check.id j)) [
            | inr other ↦ inl (rw other at stored)
            | inl same ↦
                let it : admitted ≡ found = cc (rw same at stored) in
                inr (check, Memᴰ.head refl, rw (← it) e)
          ]
    ]

-- What the sort returns is made from the configured checks.
pub collect_checks-AreMadeFrom :
    (configs : List CheckConfig) (by_id : Map CheckConfig) (checks : List NormalizedCheck)
    → collect_checks [] configs ≡ ok by_id
    → Normalised by_id checks
    → AreMadeFrom configs checks
unfolding Map.get
collect_checks-AreMadeFrom configs by_id [] h n = tt
collect_checks-AreMadeFrom configs by_id (check ∷ checks) h ((stored, found, normal), n) = (
  elim (collect_checks-admitted configs [] by_id check.id stored h found) [
    | inl before ↦ absurd (cc)
    | inr (config, m, made) ↦
        (config, m, subst (IsMadeFrom config) (sym normal) (IsMadeFrom-admitted config stored made))
  ],
  collect_checks-AreMadeFrom configs by_id checks h n,
)
