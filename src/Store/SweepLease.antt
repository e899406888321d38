-- ===== src/Store/SweepLease.antt =====
-- apps/api/src/store/sweep-guards.ts: the lease that lets one process at a time make a periodic
-- pass, and the probe of the schema before it.
pub mod Exclusion
pub mod Probe
use i_code_host_pro.Prelude.{
  ℕ, ◌+◌, ◌≡◌, Bool, true, false, Option, none, some, List, [], ◌∷◌, ltb, ◌==◌, if◌then◌else◌, ◌&&◌,
  is_some, find, any, not, ◌||◌,
}
use i_code_host_pro.Prelude.Text.{Text, codes, text_eq}

abbrev pub sweep_lease_ttl_ms : ℕ
sweep_lease_ttl_ms = 180000

-- A row of `SweepLease`. Names, holders' tokens and instants are numbers.
pub record Lease : Type 0 where
  pub name : ℕ
  pub holder : ℕ
  pub expires_at : ℕ

unfoldable pub find_lease : ℕ → List Lease → Option Lease
find_lease name = find (λ l. l.name == name)

-- The statements that a process sends, each atomic in the database.
pub data Statement : Type 0 where
  -- name, token, now
  steal create : ℕ → ℕ → ℕ → Statement
  -- name, holder
  release : ℕ → ℕ → Statement

abbrev pub leased : ℕ → ℕ → ℕ → Lease
leased name token now = record {
  name = name;
  holder = token;
  expires_at = now + sweep_lease_ttl_ms;
}

-- `updateMany` where the lease has expired; the flag says that the count is 1.
unfoldable pub exec_steal : ℕ → ℕ → ℕ → List Lease → List Lease × Bool
exec_steal name token now [] = ([], false)
exec_steal name token now (l ∷ ls) =
    let (rest, done) = exec_steal name token now ls in
    if l.name == name
    then if ltb l.expires_at now then (leased name token now ∷ ls, true) else (l ∷ ls, false)
    else (l ∷ rest, done)

-- `create`: refused if the name has a row.
unfoldable pub exec_create : ℕ → ℕ → ℕ → List Lease → List Lease × Bool
exec_create name token now ls =
    if is_some (find_lease name ls) then (ls, false) else (leased name token now ∷ ls, true)

-- `updateMany` by name and holder: the lease expires at the epoch.
unfoldable pub exec_release : ℕ → ℕ → List Lease → List Lease
exec_release name holder [] = []
exec_release name holder (l ∷ ls) =
    if l.name == name && l.holder == holder
    then record l { expires_at = 0 } ∷ ls
    else l ∷ exec_release name holder ls

unfoldable pub exec : Statement → List Lease → List Lease × Bool
exec (steal name token now) ls = exec_steal name token now ls
exec (create name token now) ls = exec_create name token now ls
exec (release name holder) ls = (exec_release name holder ls, true)

-- Which of the three queries of an acquisition the database fails to answer.
pub record Faults : Type 0 where
  pub steal_fails : Bool
  pub find_fails : Bool
  pub create_fails : Bool

-- `acquireSweepLease`; `others` and `others'` are what other processes send between its statements.
unfoldable pub acquire_sweep_lease :
    Faults
    → (List Lease → List Lease)
    → (List Lease → List Lease)
    → ℕ
    → ℕ
    → ℕ
    → List Lease
    → List Lease × Option ℕ
acquire_sweep_lease faults others others' name token now ls =
    if faults.steal_fails
    then (ls, none)
    else let (ls₁, stolen) = exec (steal name token now) ls in
      if stolen
      then (ls₁, some token)
      else let ls₂ = others ls₁ in
        if faults.find_fails || is_some (find_lease name ls₂)
        then (ls₂, none)
        else let ls₃ = others' ls₂ in
          if faults.create_fails
          then (ls₃, none)
          else let (ls₄, made) = exec (create name token now) ls₃ in
            (ls₄, if made then some token else none)

-- `releaseSweepLease`; a failure is passed over.
unfoldable pub release_sweep_lease : Bool → ℕ → ℕ → List Lease → List Lease
release_sweep_lease fails name holder ls = if fails then ls else (exec (release name holder) ls).0

-- A table and the columns that a pass needs of it.
pub record SweepSchemaRequirement : Type 0 where
  pub table : Text
  pub columns : List Text

abbrev pub order_lifecycle_schema : List SweepSchemaRequirement
order_lifecycle_schema =
    record {
      table = codes "Order";
      columns = codes "status" ∷ codes "createdAt" ∷ codes "renewsOrderId" ∷ [];
    }
    ∷ record { table = codes "Invoice"; columns = codes "status" ∷ codes "orderId" ∷ [] }
    ∷ record { table = codes "OrderStatusHistory"; columns = [] }
    ∷ []

abbrev pub renewal_schema : List SweepSchemaRequirement
renewal_schema =
    record {
      table = codes "Order";
      columns =
          codes "status"
          ∷ codes "autoRenew"
          ∷ codes "renewalConsentAt"
          ∷ codes "renewsOrderId"
          ∷ codes "nextBillingDate"
          ∷ [];
    }
    ∷ record {
      table = codes "Invoice";
      columns =
          codes "status"
          ∷ codes "dueDate"
          ∷ codes "dunningRemindedAt"
          ∷ codes "subscriptionId"
          ∷ codes "orderId"
          ∷ [];
    }
    ∷ record { table = codes "InvoiceLine"; columns = [] }
    ∷ record {
      table = codes "Subscription";
      columns = codes "status" ∷ codes "orderId" ∷ codes "productId" ∷ [];
    }
    ∷ record { table = codes "OrderStatusHistory"; columns = [] }
    ∷ record {
      table = codes "BillingSetting";
      columns = codes "dunningReminderDays" ∷ codes "dunningGraceDays" ∷ [];
    }
    ∷ []

abbrev pub contains : Text → List Text → Bool
contains c = any (λ r. text_eq r c)

unfoldable pub has_columns : List Text → List Text → Bool
has_columns rows [] = true
has_columns rows (c ∷ cs) = contains c rows && has_columns rows cs

-- `sweepSchemaPrereqsOk`; `columns_of` is the catalogue, and `none` a query that fails.
unfoldable pub sweep_schema_prereqs_ok :
    (Text → Option (List Text)) → List SweepSchemaRequirement → Bool
sweep_schema_prereqs_ok columns_of [] = true
sweep_schema_prereqs_ok columns_of (req ∷ reqs) = elim (columns_of req.table) [
  | none ↦ false
  | some rows ↦ elim rows [
    | [] ↦ false
    | r ∷ rs ↦ has_columns (r ∷ rs) req.columns && sweep_schema_prereqs_ok columns_of reqs
  ]
]
