-- ===== src/Store/RenewalChain/Laws.antt =====
-- apps/api/src/store/renewal-chain-barrier.ts: the walk finds the one root of a chain, from every
-- order of it, and each refusal is a fault of the chain.
use i_code_host_pro.Prelude.{
  ℕ, zero, suc, ◌+◌, ◌≤◌, ◌<◌, ◌≡◌, ◌≢◌, refl, sym, List, [], ◌∷◌, length, arith, subst, ◌∙◌,
}
use i_code_host_pro.Store.RenewalChain.{
  Order, root, out_of_fuel, Row, absent, last, parent, read, walk, renewal_chain_root_id,
}

-- `b` is reached from `a` by following the parent pointer.
pub data Reach (orders : List Order) : ℕ → ℕ → Type 0 where
  here : {a : ℕ} → Reach orders a a
  up : {a p b : ℕ} → read orders a ≡ parent p → Reach orders p b → Reach orders a b

pub data IsRow (r : Row) : Type 0 where
  is_absent : r ≡ absent → IsRow r
  is_last : r ≡ last → IsRow r
  is_parent : (p : ℕ) → r ≡ parent p → IsRow r

pub Row-cases : (r : Row) → IsRow r
Row-cases absent = is_absent refl
Row-cases last = is_last refl
Row-cases (parent p) = is_parent p refl

-- The walk ends within its fuel: each turn adds one order to those visited, and the limit is on
-- their number.
walk-ne-out_of_fuel :
    (fuel limit : ℕ) (orders : List Order) (visited : List ℕ) (cursor : ℕ)
    → length visited ≤ limit
    → limit < fuel + length visited
    → walk fuel limit orders visited cursor ≢ out_of_fuel
unfolding walk
walk-ne-out_of_fuel zero limit orders visited cursor few h = absurd (omega arith)
walk-ne-out_of_fuel (suc fuel) limit orders visited cursor few h =
    elim (Row-cases (read orders cursor)) [
      | is_absent e ↦ ground arith
      | is_last e ↦ ground arith
      | is_parent p e ↦ ground (arith, walk-ne-out_of_fuel fuel limit orders (cursor ∷ visited) p)
    ]

-- With fuel for one turn more than the limit on the depth, the walk never runs out of fuel: it ends
-- with a root or with one of the source's refusals, on any orders.
pub renewal_chain_root_id-ne-out_of_fuel :
    (orders : List Order) (start : ℕ) → renewal_chain_root_id orders start ≢ out_of_fuel
unfolding renewal_chain_root_id
renewal_chain_root_id-ne-out_of_fuel orders start =
    walk-ne-out_of_fuel 1001 1000 orders [] start (omega arith) (omega arith)

walk-root :
    (fuel limit : ℕ) (orders : List Order) (visited : List ℕ) (cursor r : ℕ)
    → walk fuel limit orders visited cursor ≡ root r
    → Reach orders cursor r × (read orders r ≡ last)
unfolding walk
walk-root zero limit orders visited cursor r h = absurd (cc)
walk-root (suc fuel) limit orders visited cursor r h = elim (Row-cases (read orders cursor)) [
  | is_absent e ↦ absurd (ground arith)
  | is_last e ↦
      let same : cursor ≡ r = ground arith in
      (subst (Reach orders cursor) same here, subst (λ k. read orders k ≡ last) same e)
  | is_parent p e ↦
      let (reach, at_root) = walk-root fuel limit orders (cursor ∷ visited) p r (ground arith) in
      (up e reach, at_root)
]

pub parent_injective : (p q : ℕ) → parent p ≡ parent q → p ≡ q
parent_injective p q h = cc

-- Two orders that end their chains, reached from the same order, are one.
Reach-last_unique :
    (orders : List Order) {a r s : ℕ}
    → Reach orders a r
    → Reach orders a s
    → read orders r ≡ last
    → read orders s ≡ last
    → r ≡ s
Reach-last_unique orders here here e f = refl
Reach-last_unique orders here (up n q) e f = absurd (cc)
Reach-last_unique orders (up n p) here e f = absurd (cc)
Reach-last_unique orders (up {p = x} n p) (up {p = y} {b = z} m q) e f =
    Reach-last_unique orders p (subst (λ k. Reach orders k z) (parent_injective y x (sym m ∙ n)) q)
      e f

pub Reach-trans :
    (orders : List Order) {a b c : ℕ} → Reach orders a b → Reach orders b c → Reach orders a c
Reach-trans orders here q = q
Reach-trans orders (up n p) q = up n (Reach-trans orders p q)

-- The walk from any order of a chain gives the same root: if it gives a root from an order and from
-- one that is reached from it by parent pointers, the two roots are equal, the root has no parent,
-- and it is reached from the first order.
pub renewal_chain_root_id_unique :
    (orders : List Order) (start middle r s : ℕ)
    → Reach orders start middle
    → renewal_chain_root_id orders start ≡ root r
    → renewal_chain_root_id orders middle ≡ root s
    → (r ≡ s) × Reach orders start r × (read orders r ≡ last)
unfolding renewal_chain_root_id
renewal_chain_root_id_unique orders start middle r s way h k =
    let (reach, ends) = walk-root 1001 1000 orders [] start r h in
    let (reach', ends') = walk-root 1001 1000 orders [] middle s k in
    (Reach-last_unique orders reach (Reach-trans orders way reach') ends ends', reach, ends)
