-- ===== src/Tests/Samples.antt =====
-- A receipt of one check, the policy that accepts it, and stand-ins for the crates that serialise,
-- hash and parse.
use commit_ci_preflight.Prelude.{
  ℕ, pos, String, true, false, ◌==◌, List, [], ◌∷◌, none, some, length, if◌then◌else◌,
}
use commit_ci_preflight.Canonical.Json.{Value, text, object, field, end}
use commit_ci_preflight.Canonical.Digest.{Serialize, Codec}
use commit_ci_preflight.Ordered.Map.{Map}
use commit_ci_preflight.Config.Data.{
  docker_compatible, regular_file, NormalizedRuntime, ExecutionPlanV1, ExecutionPlanEnvelopeV1,
  CheckConfig, ConfigV1, NormalizedCheck, StorageConfig, NormalizedStorage,
}
use commit_ci_preflight.Config.Topology.{normalize_check}
use commit_ci_preflight.Receipt.Status.{pass}
use commit_ci_preflight.Receipt.Data.{
  git_object, ReceiptV1, ReceiptEnvelopeV1, ReceiptV2, ReceiptEnvelopeV2, CheckEvidence,
}
use commit_ci_preflight.Verify.Policy.{VerificationPolicyV1, VerificationPolicyV1_1}
use commit_ci_preflight.Verify.Report.{
  VerificationReportV1, VerificationStatus, VerificationDecision,
}
use commit_ci_preflight.Verify.Document.{Decoder}
use commit_ci_preflight.Verify.Load.{Host, regular}

abbrev pub zeros : String
zeros = "sha256:0000000000000000000000000000000000000000000000000000000000000000"

abbrev pub image : String
image = "ghcr.io/acme/ci@sha256:0000000000000000000000000000000000000000000000000000000000000000"

abbrev pub commit : String
commit = "0123456789abcdef0123456789abcdef01234567"

abbrev pub unit_tests : CheckEvidence
unit_tests = record {
  id = "unit";
  required = true;
  argv = "cargo" ∷ "test" ∷ [];
  working_directory = ".";
  status = pass;
  exit_code = some (pos 0);
  duration_ms = 1_200;
  timed_out = false;
  cancelled = false;
  output_digest = some zeros;
  incomplete_reason = none;
}

abbrev pub receipt : ReceiptV1
receipt = record {
  schema_version = "1.0";
  producer = record { name = "commit-ci-preflight"; version = "0.1.0" };
  repository = record { repository = "acme/widget"; commit_sha = commit; dirty = false };
  run = record {
    run_id = "run-1";
    generation = 1;
    started_at_utc = "2026-01-01T00:00:00Z";
    finished_at_utc = "2026-01-01T00:01:00Z";
  };
  platform = record {
    host_os = "linux";
    host_arch = "x86_64";
    runtime_kind = "docker";
    runtime_version = "27";
    image_reference = image;
    image_digest = zeros;
  };
  configuration_digest = zeros;
  checks = unit_tests ∷ [];
  overall_status = pass;
  incomplete_reason = none;
  redaction_policy_version = "1";
}

abbrev pub envelope : ReceiptEnvelopeV1
envelope = record { receipt_id = zeros; receipt = receipt }

abbrev pub policy : VerificationPolicyV1
policy = record {
  schema_version = "1.0";
  project = "acme/widget";
  configuration_digest = zeros;
  required_checks = "unit" ∷ [];
  image_reference = image;
  max_age_seconds = 3_600;
  platforms = record { host_os = "linux"; host_arch = "x86_64"; runtime_kind = "docker" } ∷ [];
}

abbrev pub codec : Codec
codec = record {
  to_vec = λ value. some (123 ∷ 125 ∷ []);
  sha256 = λ bytes.
      0 ∷ 0 ∷ 0 ∷ 0 ∷ 0 ∷ 0 ∷ 0 ∷ 0 ∷ 0 ∷ 0 ∷ 0 ∷ 0 ∷ 0 ∷ 0 ∷ 0 ∷ 0 ∷ 0 ∷ 0 ∷ 0 ∷ 0 ∷ 0 ∷ 0 ∷ 0 ∷ 0
      ∷ 0 ∷ 0 ∷ 0 ∷ 0 ∷ 0 ∷ 0 ∷ 0 ∷ 0 ∷ [];
}

abbrev pub document : Value
document = object (
    field "receipt" (object (field "schema_version" (text "1.0") end))
      (field "receipt_id" (text zeros) end))

abbrev pub decoder : Decoder
decoder = record {
  value = λ bytes. if length bytes == 0 then none else some document;
  receipt_v1 = λ bytes. if length bytes == 0 then none else some envelope;
  receipt_v2 = λ bytes. none;
}

abbrev pub plan_values : Serialize ExecutionPlanV1
plan_values = record { to_value = λ plan. some (text plan.project) }

abbrev pub receipt_v1_values : Serialize ReceiptV1
receipt_v1_values = record { to_value = λ receipt. some (text receipt.run.run_id) }

abbrev pub receipt_v2_values : Serialize ReceiptV2
receipt_v2_values = record { to_value = λ receipt. some (text receipt.run.run_id) }

abbrev pub bytes : List ℕ
bytes = 123 ∷ 125 ∷ []

-- What `verify_receipt_document` makes of these, ten minutes later.
abbrev pub report : VerificationReportV1
report = record {
  schema_version = "1.0";
  assurance_scope = "integrity_and_repository_policy_only";
  evaluated_at_utc = "2026-01-01T00:10:00Z";
  expected_commit = commit;
  receipt_id = some zeros;
  integrity_status = VerificationStatus.pass;
  policy_status = VerificationStatus.pass;
  decision = VerificationDecision.pass;
  findings = [];
}

abbrev pub runtime : NormalizedRuntime
runtime = record {
  kind = docker_compatible;
  image = image;
  cpu_count = 2;
  memory_mib = 2_048;
  pids_limit = 256;
  network = false;
  pull_policy = none;
  swap_mode = none;
}

abbrev pub plan : ExecutionPlanV1
plan = record {
  schema_version = "1.0";
  project = "acme/widget";
  runtime = runtime;
  receipt = record { output = "receipt.json"; freshness_seconds = 3_600 };
  environment = record { inherit = []; fixed = []; runtime_internal = []; remote_secret_only = [] };
  caches = [];
  storage = none;
  checks =
      record {
        id = "unit";
        required = true;
        argv = "cargo" ∷ "test" ∷ [];
        working_directory = ".";
        timeout_seconds = 600;
        depends_on = [];
        artifacts = [];
        artifact_contracts = [];
      }
      ∷ [];
}

abbrev pub receipt_v2 : ReceiptV2
receipt_v2 = record {
  schema_version = "2.0";
  producer = receipt.producer;
  repository = receipt.repository;
  run = receipt.run;
  source_snapshot = record {
    schema_version = "1.0";
    strategy = git_object;
    manifest_digest = zeros;
    entry_count = 12;
  };
  platform = receipt.platform;
  configuration_digest = zeros;
  execution_plan = plan;
  runtime_capability_evidence = none;
  artifact_manifest = [];
  checks = receipt.checks;
  overall_status = pass;
  incomplete_reason = none;
  redaction_policy_version = "1";
}

abbrev pub envelope_v2 : ReceiptEnvelopeV2
envelope_v2 = record { receipt_id = zeros; receipt = receipt_v2 }

-- A check that depends on others.
abbrev pub check_after : String → List String → CheckConfig
check_after id depends_on = record {
  id = id;
  required = true;
  argv = "cargo" ∷ id ∷ [];
  working_directory = ".";
  timeout_seconds = 600;
  depends_on = depends_on;
  artifacts = [];
  artifact_contracts = [];
}

abbrev pub pipeline : List CheckConfig
pipeline = check_after "test" ("build" ∷ []) ∷ check_after "build" [] ∷ []

abbrev pub pipeline_by_id : Map CheckConfig
pipeline_by_id =
    ("build", check_after "build" []) ∷ ("test", check_after "test" ("build" ∷ [])) ∷ []

abbrev pub pipeline_plan : List NormalizedCheck
pipeline_plan =
    normalize_check (check_after "build" [])
    ∷ normalize_check (check_after "test" ("build" ∷ []))
    ∷ []

abbrev pub loop : List CheckConfig
loop = check_after "test" ("build" ∷ []) ∷ check_after "build" ("test" ∷ []) ∷ []

abbrev pub document_v2 : Value
document_v2 = object (field "receipt" (object (field "schema_version" (text "2.0") end)) end)

abbrev pub decoder_v2 : Decoder
decoder_v2 = record {
  value = λ bytes. if length bytes == 0 then none else some document_v2;
  receipt_v1 = λ bytes. none;
  receipt_v2 = λ bytes. if length bytes == 0 then none else some envelope_v2;
}

abbrev pub trusted_policy : VerificationPolicyV1_1
trusted_policy = record {
  schema_version = "1.1";
  project = policy.project;
  configuration_digest = zeros;
  required_checks = policy.required_checks;
  image_reference = policy.image_reference;
  max_age_seconds = policy.max_age_seconds;
  platforms = policy.platforms;
  trusted_config = "preflight.toml";
  source_snapshot_strategy = git_object;
  supported_producers = record { name = "commit-ci-preflight"; version = "0.1.0" } ∷ [];
  revoked_producers = record { name = "commit-ci-preflight"; version = "0.0.9" } ∷ [];
}

abbrev pub trusted_plan : ExecutionPlanEnvelopeV1
trusted_plan = record { plan_digest = zeros; plan = plan; fixed_environment = [] }

abbrev pub trusted_report : VerificationReportV1
trusted_report = record report { assurance_scope = "integrity_and_trusted_plan_policy" }

abbrev pub storage : StorageConfig
storage = record {
  min_free_bytes = 1_000;
  receipt_journal_reserve_bytes = 4_096;
  max_cache_growth_bytes = 500;
}

abbrev pub contracted : List NormalizedCheck
contracted =
    record {
      id = "build";
      required = true;
      argv = "cargo" ∷ [];
      working_directory = ".";
      timeout_seconds = 600;
      depends_on = [];
      artifacts = "target/app" ∷ "target/doc" ∷ [];
      artifact_contracts =
          record {
            path = "target/app";
            kind = regular_file;
            max_bytes = 200;
            max_entries = 1;
            producer_check = "build";
          }
          ∷ [];
    }
    ∷ []

abbrev pub storage_plan : NormalizedStorage
storage_plan = record {
  min_free_bytes = 1_000;
  receipt_journal_reserve_bytes = 4_096;
  max_cache_growth_bytes = 500;
  max_artifact_bytes = 200;
}

abbrev pub text_values : Serialize String
text_values = record { to_value = λ s. some (text s) }

abbrev pub envelope_values : Serialize ExecutionPlanEnvelopeV1
envelope_values = record { to_value = λ sealed. some (text sealed.plan_digest) }

abbrev pub config : ConfigV1
config = record {
  schema_version = "1.0";
  project = "acme/widget";
  runtime = record {
    kind = docker_compatible;
    image = image;
    cpu_count = 2;
    memory_mib = 2_048;
    pids_limit = 256;
    network = false;
    pull_policy = none;
    swap_mode = none;
  };
  receipt = record { output = "receipt.json"; freshness_seconds = 3_600 };
  environment = record { allow = []; fixed = []; runtime_internal = []; remote_secret_only = [] };
  caches = [];
  storage = none;
  checks = pipeline;
}

abbrev pub config_plan : ExecutionPlanEnvelopeV1
config_plan = record {
  plan_digest = zeros;
  plan = record {
    schema_version = "1.0";
    project = "acme/widget";
    runtime = runtime;
    receipt = record { output = "receipt.json"; freshness_seconds = 3_600 };
    environment = record {
      inherit = [];
      fixed = [];
      runtime_internal = [];
      remote_secret_only = [];
    };
    caches = [];
    storage = none;
    checks = pipeline_plan;
  };
  fixed_environment = [];
}

-- A checkout with a policy of version 1.1 beside its configuration.
abbrev pub trusted_host : Host (Unit {0})
trusted_host = record {
  metadata_len = λ path. some 100;
  read = λ path. some (65 ∷ []);
  symlink_metadata = λ path. some regular;
  parent = λ path. some "ci";
  join = λ directory name. name;
  from_utf8 = λ bytes. some "A";
  schema_version = λ source. some (some "1.1");
  policy_v1 = λ source. none;
  policy_v1_1 = λ source. some trusted_policy;
  policy_v2 = λ source. none;
  config = λ source. some config;
}

abbrev pub rootless_host : Host (Unit {0})
rootless_host = record trusted_host { parent = λ path. none }
