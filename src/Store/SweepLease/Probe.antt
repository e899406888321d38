-- ===== src/Store/SweepLease/Probe.antt =====
-- apps/api/src/store/sweep-guards.ts: what the probe of the schema answers.
use i_code_host_pro.Prelude.{
  ◌≡◌, ◌↔◌, refl, true, Option, some, List, [], ◌∷◌, arith, All, Option-cases, inl, inr,
}
use i_code_host_pro.Prelude.Text.{Text}
use i_code_host_pro.Store.SweepLease.{
  SweepSchemaRequirement, contains, has_columns, sweep_schema_prereqs_ok,
}

-- The catalogue answers for the table with at least one column, and has each column needed.
abbrev pub IsMet : (Text → Option (List Text)) → SweepSchemaRequirement → Type 0
IsMet columns_of req =
    (r : Text) × (rs : List Text) × (columns_of req.table ≡ some (r ∷ rs))
    × All (λ c. contains c (r ∷ rs) ≡ true) req.columns

has_columns-All :
    (rows cs : List Text) → has_columns rows cs ≡ true → All (λ c. contains c rows ≡ true) cs
unfolding has_columns
has_columns-All rows [] h = tt
has_columns-All rows (c ∷ cs) h = ground (arith, has_columns-All rows cs)

All-has_columns :
    (rows cs : List Text) → All (λ c. contains c rows ≡ true) cs → has_columns rows cs ≡ true
unfolding has_columns
All-has_columns rows [] h = refl
All-has_columns rows (c ∷ cs) h = ground (arith, All-has_columns rows cs)

passes :
    (columns_of : Text → Option (List Text)) (reqs : List SweepSchemaRequirement)
    → sweep_schema_prereqs_ok columns_of reqs ≡ true
    → All (IsMet columns_of) reqs
unfolding sweep_schema_prereqs_ok
passes columns_of [] h = tt
passes columns_of (req ∷ reqs) h = elim (Option-cases (columns_of req.table)) [
  | inl fails ↦ absurd (ground arith)
  | inr (rows, e) ↦ at_rows (passes columns_of reqs) rows e
]
  where
    at_rows :
        (sweep_schema_prereqs_ok columns_of reqs ≡ true → All (IsMet columns_of) reqs)
        → (rows : List Text) → columns_of req.table ≡ some rows
        → All (IsMet columns_of) (req ∷ reqs)
    at_rows tail [] e = absurd (ground arith)
    at_rows tail (r ∷ rs) e =
        ((r, rs, e, has_columns-All (r ∷ rs) req.columns (ground arith)), tail (ground arith))

met_passes :
    (columns_of : Text → Option (List Text)) (reqs : List SweepSchemaRequirement)
    → All (IsMet columns_of) reqs
    → sweep_schema_prereqs_ok columns_of reqs ≡ true
unfolding sweep_schema_prereqs_ok
met_passes columns_of [] h = refl
met_passes columns_of (req ∷ reqs) ((r, rs, e, all), rest) =
    ground (arith, All-has_columns (r ∷ rs) req.columns all, met_passes columns_of reqs rest)

-- The probe passes exactly when the catalogue can be read and has every table and column needed.
sweep_schema_prereqs_ok_iff :
    (columns_of : Text → Option (List Text)) (reqs : List SweepSchemaRequirement)
    → (sweep_schema_prereqs_ok columns_of reqs ≡ true) ↔ All (IsMet columns_of) reqs
sweep_schema_prereqs_ok_iff columns_of reqs = (passes columns_of reqs, met_passes columns_of reqs)
