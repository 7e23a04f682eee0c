-- ===== src/Receipt/Status.antt =====
-- `EvidenceStatus` and `derive_overall_status` of src/receipt.rs.
use commit_ci_preflight.Prelude.{Bool, true, false, List, if◌then◌else◌, any}

pub data EvidenceStatus : Type 0 where
  pass fail pending not_run : EvidenceStatus

pub EvidenceStatus-discrete : Discrete EvidenceStatus
EvidenceStatus-discrete = hlevel

abbrev pub is_pass : EvidenceStatus → Bool
is_pass pass = true
is_pass _ = false

abbrev pub is_fail : EvidenceStatus → Bool
is_fail fail = true
is_fail _ = false

-- `matches!(status, Pending | NotRun)`.
abbrev pub is_incomplete : EvidenceStatus → Bool
is_incomplete pending = true
is_incomplete not_run = true
is_incomplete _ = false

-- `==` of the derived `PartialEq`.
abbrev pub same_status : EvidenceStatus → EvidenceStatus → Bool
same_status pass pass = true
same_status fail fail = true
same_status pending pending = true
same_status not_run not_run = true
same_status _ _ = false

unfoldable pub derive_overall_status : List EvidenceStatus → EvidenceStatus
derive_overall_status statuses =
    if any is_fail statuses then fail else if any is_incomplete statuses then pending else pass
