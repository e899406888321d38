-- ===== src/Hosting/Tests.antt =====
-- apps/api/src/hosting: the theorems applied at concrete projects.
use i_code_host_pro.Prelude.{ℕ, ◌≡◌, refl, none, some, [], ◌∷◌}
use i_code_host_pro.Hosting.LegacyClassification.{
  exact, per_client_project, Deployment, LegacyProjectFacts, classify_legacy_project, decide,
  distinct, sort, insert_sorted, order_ids, owner_differs,
}
use i_code_host_pro.Hosting.LegacyClassification.Laws.{IsExact, classify_legacy_project-IsExact}

abbrev deployment : Deployment
deployment = record { id = 1; user_id = 7; order_id = some 40 }

-- One owner and one order; the other deployment has no order.
abbrev sole : LegacyProjectFacts
sole = record {
  project_id = 3;
  user_id = 7;
  module_kind = some per_client_project;
  deployments = deployment ∷ record deployment { id = 2; order_id = none } ∷ [];
}

-- Two orders.
abbrev mixed : LegacyProjectFacts
mixed = record sole { deployments = deployment ∷ record deployment { order_id = some 12 } ∷ [] }

sole-kind : (classify_legacy_project sole).kind ≡ exact
unfolding classify_legacy_project decide distinct sort insert_sorted order_ids owner_differs
sole-kind = refl

mixed-orders : (classify_legacy_project mixed).candidate_order_ids ≡ 12 ∷ 40 ∷ []
unfolding classify_legacy_project distinct sort insert_sorted order_ids
mixed-orders = refl

classify_legacy_project-IsExact_example :
    (order : ℕ) × ((classify_legacy_project sole).candidate_order_ids ≡ order ∷ [])
    × IsExact sole order
classify_legacy_project-IsExact_example = classify_legacy_project-IsExact sole sole-kind
