-- ===== src/Store/RenewalChain.antt =====
-- apps/api/src/store/renewal-chain-barrier.ts: `renewalChainRootId`, the walk from an order to the
-- order with no parent, whose id is the key of the lock that renewals and revocations share.
pub mod Laws
pub mod Faults
use i_code_host_pro.Prelude.{
  ℕ, zero, suc, ◌≡◌, Bool, true, false, Option, none, some, List, [], ◌∷◌, any, find, length, leb,
  ◌==◌, if◌then◌else◌,
}

-- A row of `Order`: its id and `renewsOrderId`.
pub record Order : Type 0 where
  pub id : ℕ
  pub renews_order_id : Option ℕ

-- The refusals of the walk, with the order at which it stood; `out_of_fuel` is not one of the
-- source's, and `renewal_chain_root_id-ne-out_of_fuel` shows that it does not occur.
pub data Walk : Type 0 where
  root : ℕ → Walk
  cycle missing too_deep : ℕ → Walk
  out_of_fuel : Walk

abbrev pub renewal_chain_max_depth : ℕ
renewal_chain_max_depth = 1000

unfoldable pub find_order : ℕ → List Order → Option Order
find_order id = find (λ o. o.id == id)

unfoldable pub has : ℕ → List ℕ → Bool
has id visited = any (λ v. v == id) visited

-- What one turn reads of the order at the cursor.
pub data Row : Type 0 where
  absent last : Row
  parent : ℕ → Row

unfoldable pub read : List Order → ℕ → Row
read orders cursor = elim (find_order cursor orders) [
  | none ↦ absent
  | some o ↦ elim o.renews_order_id [ none ↦ last | some p ↦ parent p ]
]

-- The loop, with the orders visited so far; `limit` is RENEWAL_CHAIN_MAX_DEPTH.
unfoldable pub walk : ℕ → ℕ → List Order → List ℕ → ℕ → Walk
walk zero limit orders visited cursor = out_of_fuel
walk (suc fuel) limit orders visited cursor =
    let rest = λ (p : ℕ). walk fuel limit orders (cursor ∷ visited) p in
    if has cursor visited
    then cycle cursor
    else if leb limit (length visited)
    then too_deep cursor
    else elim (read orders cursor) [
      | absent ↦ missing cursor
      | last ↦ root cursor
      | parent p ↦ rest p
    ]

unfoldable pub renewal_chain_root_id : List Order → ℕ → Walk
renewal_chain_root_id orders start =
    walk (suc renewal_chain_max_depth) renewal_chain_max_depth orders [] start
