-- ===== src/Checkout/Pack.antt =====
-- apps/api/src/store/checkout.service.ts (`loadC3Catalog`, `buildC3Intent`) and
-- apps/api/src/hosting/hosting-services.service.ts (`assertSnapshotsValid`, `snapshotsFromPack`):
-- what an order of a hosting pack freezes of the catalogue.
use i_code_host_pro.Prelude.{
  ℕ, Bool, true, false, not, ◌||◌, Option, none, some, List, find, if◌then◌else◌, ◌==◌,
}
use i_code_host_pro.Prelude.Int.{ℤ, pos, ltb_ℤ}
use i_code_host_pro.Prelude.Text.{Text, trim, is_empty}
use i_code_host_pro.Checkout.Types.{
  Order, Json, json_string, json_boolean, Float, finite, not_finite, HostingPack, C3CatalogProduct,
  Intent, HostingServiceSnapshots,
}

unfoldable pub load_c3_catalog : ℕ → List C3CatalogProduct → Option C3CatalogProduct
load_c3_catalog product_id = find (λ p. p.id == product_id)

-- `str`: a string that is not blank, as it stands.
unfoldable pub str : Option Json → Option Text
str (some (json_string s)) = if is_empty (trim s) then none else some s
str _ = none

unfoldable pub boolean : Option Json → Option Bool
boolean (some (json_boolean b)) = some b
boolean _ = none

-- The product of the call is the order's own product, pack and billing cycle.
unfoldable pub build_c3_intent : Order → C3CatalogProduct → Intent
build_c3_intent order product =
    let params = product.module_params in
    record {
      product_id = order.product_id;
      pack_id = order.pack_id;
      provision_module_id = product.provision_module_id;
      billing_cycle = order.billing_cycle;
      currency = order.currency;
      amount_ttc_cents = order.amount_ttc_cents;
      requested_subdomain = order.requested_subdomain;
      requested_domain_id = order.requested_domain_id;
      repo_url = str params.repo_url;
      branch = str params.branch;
      build_pack = str params.build_pack;
      app_name = str params.app_name;
      publish_directory = str params.publish_directory;
      is_static = boolean params.is_static;
    }

abbrev pub is_negative : Option ℤ → Bool
is_negative none = false
is_negative (some n) = ltb_ℤ n (pos 0)

abbrev pub is_bad_float : Float → Bool
is_bad_float (finite m e) = ltb_ℤ m (pos 0)
is_bad_float not_finite = true

-- Whether `assertSnapshotsValid` passes; an integer column holds an integer.
unfoldable pub assert_snapshots_valid : HostingServiceSnapshots → Bool
assert_snapshots_valid s = not (
    ltb_ℤ s.ram_mb_snapshot (pos 0)
    || is_bad_float s.cpu_cores_snapshot
    || is_negative s.max_apps_snapshot
    || is_negative s.storage_limit_gb_snapshot)

-- `snapshotsFromPack`, or `none` where it throws.
unfoldable pub snapshots_from_pack : HostingPack → Option Text → Option HostingServiceSnapshots
snapshots_from_pack pack product_name =
    let snapshots : HostingServiceSnapshots = record {
      max_apps_snapshot = pack.max_apps;
      ram_mb_snapshot = pack.ram_mb;
      cpu_cores_snapshot = pack.cpu_cores;
      storage_limit_gb_snapshot = pack.storage_limit;
      pack_name_snapshot = some pack.name;
      product_name_snapshot = product_name;
    } in
    if assert_snapshots_valid snapshots then some snapshots else none
