-- ===== src/Receipt/Common/Laws.antt =====
-- What `ReceiptCommon::validate` establishes about the results of a run.
use commit_ci_preflight.Prelude.{
  String, true, false, is_empty, ◌≡◌, refl, ap, sym, ◌∙◌, List, [], ◌∷◌, ◌++◌, arith, if◌then◌else◌,
  All, any, contains, Bool-cases, inl, inr, ◌↔◌, keep, map, ◌≢◌,
}
use mathlib.Core.List.{Memᴰ, append-nil, append_assoc}
use mathlib.Core.Path.{subst}
use commit_ci_preflight.Outcome.{ok, >>=-eq-ok, >>-eq-ok, reject->>-eq-ok}
use commit_ci_preflight.Ordered.Set
use commit_ci_preflight.Receipt.Status.{
  EvidenceStatus, pass, fail, same_status, is_fail, derive_overall_status,
}
use commit_ci_preflight.Receipt.Failure.{duplicate_check_id, no_checks}
use commit_ci_preflight.Receipt.Data.{CheckEvidence}
use commit_ci_preflight.Receipt.Common.{
  exited_zero, validate_check, required_statuses_from, ReceiptCommon, validate_header,
  validate_results, validate,
}

-- The statuses of the required checks, in order.
abbrev pub required_statuses : List CheckEvidence → List EvidenceStatus
required_statuses checks = map (λ check. check.status) (keep (λ check. check.required) checks)

same_status_eq : (a b : EvidenceStatus) → same_status a b ≡ true → a ≡ b
same_status_eq a b h = ground arith

-- The derived status is FAIL exactly when some status is FAIL, and PASS exactly when all are PASS.
pub derive_overall_status_iff :
    (statuses : List EvidenceStatus)
    → ((derive_overall_status statuses ≡ fail) ↔ (any is_fail statuses ≡ true))
      × ((derive_overall_status statuses ≡ pass) ↔ All (λ status. status ≡ pass) statuses)
unfolding derive_overall_status
derive_overall_status_iff [] = ((λ h. cc, λ h. cc), (λ h. tt, λ h. refl))
derive_overall_status_iff (status ∷ statuses) = ground (arith, derive_overall_status_iff statuses)

keep-append :
    (statuses : List EvidenceStatus) (check : CheckEvidence) (checks : List CheckEvidence)
    → (if check.required then statuses ++ check.status ∷ [] else statuses)
        ++ required_statuses checks
      ≡ statuses ++ required_statuses (check ∷ checks)
keep-append statuses check checks = elim (Bool-cases check.required) [
  | inl yes_ ↦ simp yes_ (append_assoc statuses (check.status ∷ []) (required_statuses checks))
  | inr no_ ↦ simp no_ refl
]

required_statuses_from_lem :
    (check_ids : List String) (statuses : List EvidenceStatus) (checks : List CheckEvidence)
    (out : List EvidenceStatus)
    → required_statuses_from check_ids statuses checks ≡ ok out
    → (out ≡ statuses ++ required_statuses checks)
      × All (λ check. validate_check check ≡ ok tt) checks
unfolding required_statuses_from
required_statuses_from_lem check_ids statuses [] out h =
    (rw (append-nil statuses) (ground arith), tt)
required_statuses_from_lem check_ids statuses (check ∷ checks) out h =
    let (valid, h1) = >>-eq-ok (validate_check check) _ h in
    let (new, h2) =
      reject->>-eq-ok (contains check_ids check.id) (duplicate_check_id check.id)
        (required_statuses_from (Set.insert check.id check_ids)
          (if check.required then statuses ++ check.status ∷ [] else statuses) checks)
        h1 in
    let (same, later) =
      required_statuses_from_lem (Set.insert check.id check_ids)
        (if check.required then statuses ++ check.status ∷ [] else statuses) checks out h2 in
    (same ∙ keep-append statuses check checks, (valid, later))

-- A check that passed ran to its end with exit code 0.
abbrev pub RanClean : CheckEvidence → Type 0
RanClean check =
    (check.status ≡ pass)
    × (exited_zero check.exit_code ≡ true)
    × (check.timed_out ≡ false)
    × (check.cancelled ≡ false)

pub validate_check-RanClean :
    (check : CheckEvidence) → validate_check check ≡ ok tt → check.status ≡ pass → RanClean check
unfolding validate_check
validate_check-RanClean check h p = ground arith

-- In a valid receipt every check is valid, some check is required, and the overall status is the
-- one derived from the statuses of the required checks.
pub validate_lem :
    (common : ReceiptCommon)
    → validate common ≡ ok tt
    → All (λ check. validate_check check ≡ ok tt) common.checks
      × (required_statuses common.checks ≢ [])
      × (common.overall_status ≡ derive_overall_status (required_statuses common.checks))
unfolding validate validate_results
validate_lem common h =
    let (header, h1) = >>-eq-ok (validate_header common) _ h in
    let (some_check, h2) = reject->>-eq-ok (is_empty common.checks) no_checks _ h1 in
    let (statuses, derived, h3) = >>=-eq-ok (required_statuses_from [] [] common.checks) _ h2 in
    let (same, valid) = required_statuses_from_lem [] [] common.checks statuses derived in
    (
      valid,
      λ e. ground (arith, same, e, h3),
      ground
          (arith, h3, same, same_status_eq common.overall_status (derive_overall_status statuses)),
    )

All-Memᴰ {ℓ κ} : {A : Type ℓ} (P : A → Type κ) {a : A} (xs : List A) → All P xs → Memᴰ a xs → P a
All-Memᴰ P [] h m = elim m [ ]
All-Memᴰ P (x ∷ xs) (p, h) (Memᴰ.head e) = subst P (sym e) p
All-Memᴰ P (x ∷ xs) (p, h) (Memᴰ.tail m) = All-Memᴰ P xs h m

required_pass :
    (checks : List CheckEvidence) (check : CheckEvidence)
    → All (λ status. status ≡ pass) (required_statuses checks)
    → Memᴰ check checks
    → check.required ≡ true
    → check.status ≡ pass
required_pass [] check h m r = elim m [ ]
required_pass (first ∷ checks) check h (Memᴰ.head e) r =
    let needed : first.required ≡ true = ap (λ (c : CheckEvidence). c.required) (sym e) ∙ r in
    ap (λ (c : CheckEvidence). c.status) e ∙ (simp needed at h).0
required_pass (first ∷ checks) check h (Memᴰ.tail m) r = elim (Bool-cases first.required) [
  | inl needed ↦ required_pass checks check (simp needed at h).1 m r
  | inr optional ↦ required_pass checks check (simp optional at h) m r
]

-- In a valid receipt with overall status PASS every required check passed, exited with code 0, and
-- was neither timed out nor cancelled.
pub validate_pass-RanClean :
    (common : ReceiptCommon) (check : CheckEvidence)
    → validate common ≡ ok tt
    → common.overall_status ≡ pass
    → Memᴰ check common.checks
    → check.required ≡ true
    → RanClean check
validate_pass-RanClean common check h p m r =
    let (valid, present, derived) = validate_lem common h in
    let all_pass =
      (derive_overall_status_iff (required_statuses common.checks)).1.0 (sym derived ∙ p) in
    validate_check-RanClean check (All-Memᴰ (λ c. validate_check c ≡ ok tt) common.checks valid m)
      (required_pass common.checks check all_pass m r)
