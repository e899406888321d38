-- ===== src/Hosting/LegacyClassification/Laws.antt =====
-- apps/api/src/hosting/legacy-classification.ts: an exact project has one owner and one order, and the
-- report counts each project once.
use i_code_host_pro.Prelude.{
  ℕ, suc, ◌+◌, ◌≡◌, ◌≢◌, ◌⊎◌, inl, inr, refl, sym, ap, ◌∙◌, subst, true, false, not, none, some,
  List, [], ◌∷◌, any, filter, length, ◌==◌, ==_iff, if◌then◌else◌, map, arith, All, Option-cases,
  opt_eq,
}
use i_code_host_pro.Hosting.LegacyClassification.{
  exact, shared_project, LegacyClassificationKind, Deployment, LegacyProjectFacts,
  LegacyClassification, Counts, distinct, insert_sorted, sort, order_ids, is_shared, owner_differs,
  decide, is_exact, classify_legacy_project, empty_counts, count, count_all,
  build_legacy_classification_report,
}

-- All deployments have the project's owner, those with an order have the one order, some deployment
-- has it, and the project was not made by the shared module.
pub record IsExact (facts : LegacyProjectFacts) (order : ℕ) : Type 0 where
  pub owned : All (λ d. d.user_id ≡ facts.user_id) facts.deployments
  pub ordered : All (λ d. (d.order_id ≡ none) ⊎ (d.order_id ≡ some order)) facts.deployments
  pub delivered : any (λ d. opt_eq d.order_id (some order)) facts.deployments ≡ true
  pub separate : facts.module_kind ≢ some shared_project

length-insert_sorted : (x : ℕ) (xs : List ℕ) → length (insert_sorted x xs) ≡ suc (length xs)
unfolding insert_sorted
length-insert_sorted x [] = refl
length-insert_sorted x (y ∷ ys) = ground (arith, length-insert_sorted x ys)

length-sort : (xs : List ℕ) → length (sort xs) ≡ length xs
unfolding sort
length-sort [] = refl
length-sort (x ∷ xs) = length-insert_sorted x (sort xs) ∙ ap suc (length-sort xs)

distinct_nil :
    (seen xs : List ℕ) → distinct seen xs ≡ [] → All (λ x. any (λ y. y == x) seen ≡ true) xs
unfolding distinct
distinct_nil seen [] h = tt
distinct_nil seen (x ∷ xs) h = ground (arith, distinct_nil seen xs)

All-same :
    (a : ℕ) (xs : List ℕ) → All (λ x. any (λ y. y == x) (a ∷ []) ≡ true) xs → All (λ x. x ≡ a) xs
All-same a [] h = tt
All-same a (x ∷ xs) (h, rest) = (ground arith, All-same a xs rest)

-- A list with one distinct member has only that member.
distinct_one :
    (xs : List ℕ)
    → length (distinct [] xs) ≡ 1
    → (a : ℕ) × (rest : List ℕ) × (xs ≡ a ∷ rest) × (distinct [] xs ≡ a ∷ []) × All (λ x. x ≡ a) xs
unfolding distinct
distinct_one [] h = absurd (omega arith)
distinct_one (x ∷ xs) h =
    let e : distinct (x ∷ []) xs ≡ [] = nil (distinct (x ∷ []) xs) (omega arith) in
    (x, xs, refl, ap (λ l. x ∷ l) e, (refl, All-same x xs (distinct_nil (x ∷ []) xs e)))
  where
    nil : (l : List ℕ) → length l ≡ 0 → l ≡ []
    nil [] k = refl
    nil (y ∷ ys) k = absurd (omega arith)

All-order_ids :
    (order : ℕ) (ds : List Deployment)
    → All (λ x. x ≡ order) (order_ids ds)
    → All (λ d. (d.order_id ≡ none) ⊎ (d.order_id ≡ some order)) ds
unfolding order_ids
All-order_ids order [] h = tt
All-order_ids order (d ∷ ds) h = elim (Option-cases d.order_id) [
  | inl absent ↦ (inl absent, All-order_ids order ds (rw (absent, order_ids) at h))
  | inr (o, e) ↦
      let both : All (λ x. x ≡ order) (o ∷ order_ids ds) = rw (e, order_ids) at h in
      (inr (e ∙ ap some both.0), All-order_ids order ds both.1)
]

order_ids_cons :
    (order : ℕ) (rest : List ℕ) (ds : List Deployment)
    → order_ids ds ≡ order ∷ rest
    → any (λ d. opt_eq d.order_id (some order)) ds ≡ true
unfolding order_ids
order_ids_cons order rest [] h = absurd (cc)
order_ids_cons order rest (d ∷ ds) h = ground (arith, order_ids_cons order rest ds)

All-map :
    (user : ℕ) (ds : List Deployment)
    → All (λ x. x ≡ user) (map (λ d. d.user_id) ds)
    → All (λ d. d.user_id ≡ user) ds
All-map user [] h = tt
All-map user (d ∷ ds) (h, rest) = (h, All-map user ds rest)

-- What the rules found of a project that they call exact.
decide_exact :
    (candidates owners : List ℕ) (facts : LegacyProjectFacts)
    → (decide candidates owners facts).0 ≡ exact
    → (length candidates ≡ 1)
      × (length owners ≡ 1)
      × (owner_differs owners facts.user_id ≡ false)
      × (is_shared facts.module_kind ≡ false)
unfolding decide owner_differs
decide_exact candidates [] facts h = absurd (ground arith)
decide_exact candidates (o ∷ os) facts h = (ground arith, ground arith, ground arith, ground arith)

-- A project that is classified as exact has one candidate order, which is the order of every
-- deployment that has one and of at least one; its owner is the owner of every deployment; and it was
-- not made by the shared module.
pub classify_legacy_project-IsExact :
    (facts : LegacyProjectFacts)
    → (classify_legacy_project facts).kind ≡ exact
    → (order : ℕ) × ((classify_legacy_project facts).candidate_order_ids ≡ order ∷ [])
      × IsExact facts order
unfolding classify_legacy_project owner_differs
classify_legacy_project-IsExact facts h =
    let ids = order_ids facts.deployments in
    let users = map (λ d. d.user_id) facts.deployments in
    let (one, single, same, apart) =
      decide_exact (sort (distinct [] ids)) (distinct [] users) facts h in
    let (order, rest, e, only, all) =
      distinct_one ids (sym (length-sort (distinct [] ids)) ∙ one) in
    let (user, rest', f, only', all') = distinct_one users single in
    let owner : user ≡ facts.user_id = (==_iff user facts.user_id).0 (ground (arith, only')) in
    (
      order,
      (unfold sort insert_sorted in ap sort only),
      record {
        owned =
            All-map facts.user_id facts.deployments
              (subst (λ u. All (λ x. x ≡ u) users) owner all');
        ordered = All-order_ids order facts.deployments all;
        delivered = order_ids_cons order rest facts.deployments e;
        separate = λ k. ground arith;
      },
    )

abbrev total : Counts → ℕ
total c = c.exact_count + c.legacy_shared_count + c.ambiguous_count + c.orphan_count

total-count : (k : LegacyClassificationKind) (c : Counts) → total (count k c) ≡ suc (total c)
unfolding count
total-count k c = ground arith

exact_count_step :
    (k : LegacyClassificationKind) (c : Counts)
    → (count k c).exact_count + (if not (is_exact k) then 1 else 0) ≡ suc c.exact_count
unfolding count
exact_count_step k c = ground arith

abbrev pending : List LegacyClassification → ℕ
pending es = length (filter (λ e. e.requires_administrative_resolution) es)

abbrev IsFlagged : LegacyClassification → Type 0
IsFlagged e = e.requires_administrative_resolution ≡ not (is_exact e.kind)

count_all_lem :
    (es : List LegacyClassification) (c : Counts)
    → All IsFlagged es
    → let c' = count_all es c in
      (total c' ≡ total c + length es) × (c'.exact_count + pending es ≡ c.exact_count + length es)
unfolding count_all
count_all_lem [] c h = (omega arith, omega arith)
count_all_lem (e ∷ es) c (flag, rest) =
    let (all, exacts) = count_all_lem es (count e.kind c) rest in
    let step = total-count e.kind c in
    let step' = exact_count_step e.kind c in
    (omega (arith, all, step), ground (arith, exacts, step', flag))

classified-All :
    (projects : List LegacyProjectFacts) → All IsFlagged (map classify_legacy_project projects)
unfolding classify_legacy_project
classified-All [] = tt
classified-All (p ∷ ps) = (refl, classified-All ps)

length-map_classify :
    (projects : List LegacyProjectFacts)
    → length (map classify_legacy_project projects) ≡ length projects
length-map_classify [] = refl
length-map_classify (p ∷ ps) = ap suc (length-map_classify ps)

-- The report counts every project under exactly one kind, and those that need a resolution are those
-- that are not exact.
build_legacy_classification_report_counts :
    (projects : List LegacyProjectFacts)
    → let report = build_legacy_classification_report projects in
      let counts = report.counts in
      (counts.exact_count + counts.legacy_shared_count + counts.ambiguous_count
          + counts.orphan_count
        ≡ length projects)
      × (counts.exact_count + report.requires_administrative_resolution ≡ length projects)
unfolding build_legacy_classification_report
build_legacy_classification_report_counts projects =
    let (all, exacts) =
      count_all_lem (map classify_legacy_project projects) empty_counts (classified-All projects) in
    let same = length-map_classify projects in
    (omega (arith, all, same), omega (arith, exacts, same))
