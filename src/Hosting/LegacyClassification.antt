-- ===== src/Hosting/LegacyClassification.antt =====
-- apps/api/src/hosting/legacy-classification.ts: which old projects can be attached to a service. An
-- identifier is a number, and the numbers have the order of the identifiers.
pub mod Laws
use i_code_host_pro.Prelude.{
  ℕ, suc, ◌+◌, ◌≡◌, Bool, true, false, not, ◌||◌, Option, none, some, List, [], ◌∷◌, any, filter,
  length, leb, ltb, ◌==◌, if◌then◌else◌, map,
}

pub data LegacyClassificationKind : Type 0 where
  exact legacy_shared ambiguous orphan : LegacyClassificationKind

pub data LegacyClassificationReason : Type 0 where
  single_deterministic_lineage shared_project_under_legacy_model : LegacyClassificationReason
  multiple_candidate_authorities ownership_mismatch : LegacyClassificationReason
  no_business_authority : LegacyClassificationReason

pub data DeploymentModuleKind : Type 0 where
  shared_project per_client_project : DeploymentModuleKind

pub record Deployment : Type 0 where
  pub id : ℕ
  pub user_id : ℕ
  pub order_id : Option ℕ

pub record LegacyProjectFacts : Type 0 where
  pub project_id : ℕ
  pub user_id : ℕ
  pub module_kind : Option DeploymentModuleKind
  pub deployments : List Deployment

-- `proposedHostingServiceId` is always null and is left out.
pub record LegacyClassification : Type 0 where
  pub project_id : ℕ
  pub kind : LegacyClassificationKind
  pub reason : LegacyClassificationReason
  pub candidate_order_ids : List ℕ
  pub requires_administrative_resolution : Bool

pub record Counts : Type 0 where
  pub exact_count : ℕ
  pub legacy_shared_count : ℕ
  pub ambiguous_count : ℕ
  pub orphan_count : ℕ

pub record LegacyClassificationReport : Type 0 where
  pub projects : List LegacyClassification
  pub counts : Counts
  pub requires_administrative_resolution : ℕ

-- `[...new Set(xs)]`, given the members so far.
unfoldable pub distinct : List ℕ → List ℕ → List ℕ
distinct seen [] = []
distinct seen (x ∷ xs) =
    let rest = distinct seen xs in
    let rest' = distinct (x ∷ seen) xs in if any (λ y. y == x) seen then rest else x ∷ rest'

-- `sort()`
unfoldable pub insert_sorted : ℕ → List ℕ → List ℕ
insert_sorted x [] = x ∷ []
insert_sorted x (y ∷ ys) = let rest = insert_sorted x ys in if leb x y then x ∷ y ∷ ys else y ∷ rest

unfoldable pub sort : List ℕ → List ℕ
sort [] = []
sort (x ∷ xs) = insert_sorted x (sort xs)

unfoldable pub order_ids : List Deployment → List ℕ
order_ids [] = []
order_ids (d ∷ ds) = elim d.order_id [ none ↦ order_ids ds | some o ↦ o ∷ order_ids ds ]

abbrev pub is_shared : Option DeploymentModuleKind → Bool
is_shared (some shared_project) = true
is_shared _ = false

-- `owners.length === 0 || owners[0] !== facts.userId`
unfoldable pub owner_differs : List ℕ → ℕ → Bool
owner_differs [] user_id = true
owner_differs (o ∷ os) user_id = not (o == user_id)

-- The rules, in the order of the source.
unfoldable pub decide :
    List ℕ → List ℕ → LegacyProjectFacts → LegacyClassificationKind × LegacyClassificationReason
decide candidates owners facts =
    if length candidates == 0
    then (orphan, no_business_authority)
    else if ltb 1 (length candidates)
    then (ambiguous, multiple_candidate_authorities)
    else if ltb 1 (length owners) || is_shared facts.module_kind
    then (legacy_shared, shared_project_under_legacy_model)
    else if owner_differs owners facts.user_id
    then (ambiguous, ownership_mismatch)
    else (exact, single_deterministic_lineage)

abbrev pub is_exact : LegacyClassificationKind → Bool
is_exact exact = true
is_exact _ = false

unfoldable pub classify_legacy_project : LegacyProjectFacts → LegacyClassification
classify_legacy_project facts =
    let candidates = sort (distinct [] (order_ids facts.deployments)) in
    let owners = distinct [] (map (λ d. d.user_id) facts.deployments) in
    let (kind, reason) = decide candidates owners facts in
    record {
      project_id = facts.project_id;
      kind = kind;
      reason = reason;
      candidate_order_ids = candidates;
      requires_administrative_resolution = not (is_exact kind);
    }

abbrev pub empty_counts : Counts
empty_counts = record {
  exact_count = 0;
  legacy_shared_count = 0;
  ambiguous_count = 0;
  orphan_count = 0;
}

unfoldable pub count : LegacyClassificationKind → Counts → Counts
count exact c = record c { exact_count = c.exact_count + 1 }
count legacy_shared c = record c { legacy_shared_count = c.legacy_shared_count + 1 }
count ambiguous c = record c { ambiguous_count = c.ambiguous_count + 1 }
count orphan c = record c { orphan_count = c.orphan_count + 1 }

-- The loop over the classified projects.
unfoldable pub count_all : List LegacyClassification → Counts → Counts
count_all [] c = c
count_all (e ∷ es) c = count_all es (count e.kind c)

unfoldable pub build_legacy_classification_report :
    List LegacyProjectFacts → LegacyClassificationReport
build_legacy_classification_report projects =
    let classified = map classify_legacy_project projects in
    record {
      projects = classified;
      counts = count_all classified empty_counts;
      requires_administrative_resolution =
          length (filter (λ e. e.requires_administrative_resolution) classified);
    }
