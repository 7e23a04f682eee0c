-- ===== src/Verify/Evaluate/Meets.antt =====
-- What it means that a receipt meets a policy of src/verify.rs.
use commit_ci_preflight.Prelude.{
  ℤ, ◌≤ℤ◌, ◌-ℤ◌, String, false, ◌≡◌, List, [], ◌∷◌, Option, none, some, contains, ◌⊎◌,
}
use commit_ci_preflight.Ordered.Set.{SameMembers}
use commit_ci_preflight.Receipt.Status.{pass}
use commit_ci_preflight.Receipt.Data.{CheckEvidence, PlatformEvidence}
use commit_ci_preflight.Verify.Policy.{AcceptedPlatformV1, VerificationPolicyV1}
use commit_ci_preflight.Verify.Utc.{parse_utc_seconds}
use commit_ci_preflight.Verify.Evaluate.{ReceiptPolicyView, required_ids, as_i64}

-- The platform is one of those that the policy lists.
abbrev pub IsListed : PlatformEvidence → List AcceptedPlatformV1 → Type 0
IsListed platform [] = ⊥
IsListed platform (accepted ∷ more) =
    ((accepted.host_os ≡ platform.host_os)
      × (accepted.host_arch ≡ platform.host_arch)
      × (accepted.runtime_kind ≡ platform.runtime_kind))
    ⊎ IsListed platform more

-- Every check that the policy requires has passed.
abbrev pub HavePassed : List String → List CheckEvidence → Type 0
HavePassed required [] = Unit
HavePassed required (check ∷ checks) =
    ((contains required check.id ≡ false) ⊎ (check.status ≡ pass)) × HavePassed required checks

-- The receipt is at most `max_age` seconds old at `now`, and not from after it.
abbrev pub IsFresh : Option ℤ → ℤ → ℤ → Type 0
IsFresh none max_age now = ⊥
IsFresh (some finished) max_age now = (finished ≤ℤ now) × (now -ℤ finished ≤ℤ max_age)

-- The receipt meets the policy.
pub record Meets (receipt : ReceiptPolicyView) (policy : VerificationPolicyV1) (commit : String)
    (now : ℤ) : Type 0 where
  pub repository : receipt.repository.repository ≡ policy.project
  pub commit_sha : receipt.repository.commit_sha ≡ commit
  pub clean : receipt.repository.dirty ≡ false
  pub configuration : receipt.configuration_digest ≡ policy.configuration_digest
  pub image : receipt.platform.image_reference ≡ policy.image_reference
  pub platform : IsListed receipt.platform policy.platforms
  pub overall : receipt.overall_status ≡ pass
  pub required : SameMembers (required_ids receipt.checks) policy.required_checks
  pub results : HavePassed policy.required_checks receipt.checks
  pub fresh :
      IsFresh (parse_utc_seconds receipt.run.finished_at_utc) (as_i64 policy.max_age_seconds) now
