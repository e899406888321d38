-- ===== src/Store/RenewalChain/Faults.antt =====
-- apps/api/src/store/renewal-chain-barrier.ts: a chain that ends within the limit gives its root, and
-- each refusal names an order at fault.
use i_code_host_pro.Prelude.{
  ℕ, zero, suc, ◌+◌, ◌<◌, ◌≡◌, sym, subst, ◌∙◌, true, false, List, [], ◌∷◌, length, ◌==◌, ==_iff,
  arith, Bool-cases, inl, inr, All,
}
use i_code_host_pro.Store.RenewalChain.{
  Order, root, cycle, missing, has, absent, last, parent, read, walk, renewal_chain_root_id,
}
use i_code_host_pro.Store.RenewalChain.Laws.{
  Reach, here, up, Row-cases, is_absent, is_last, is_parent, parent_injective, Reach-trans,
}

module _ (orders : List Order) where
  -- The order leads back to itself.
  pub record IsOnCycle (c : ℕ) : Type 0 where
    pub next : ℕ
    pub step : read orders c ≡ parent next
    pub back : Reach orders next c

  IsOnCycle-next : {c q : ℕ} → IsOnCycle c → read orders c ≡ parent q → IsOnCycle q
  IsOnCycle-next {c} {q} w e =
      go q e (subst (λ k. Reach orders k c) (parent_injective w.next q (sym w.step ∙ e)) w.back)
    where
      go : (k : ℕ) → read orders c ≡ parent k → Reach orders k c → IsOnCycle k
      go k f here = record { next = k; step = f; back = here }
      go k f (up {p = x} m way) = record {
        next = x;
        step = m;
        back = Reach-trans orders way (up f here);
      }

  -- A cycle does not lead to an order with no parent.
  IsOnCycle-last : {c r : ℕ} → Reach orders c r → IsOnCycle c → read orders r ≡ last → ⊥
  IsOnCycle-last here w e = cc (w.step)
  IsOnCycle-last (up n way) w e = IsOnCycle-last way (IsOnCycle-next w n) e

  -- Every order visited leads to the cursor.
  abbrev LeadTo : ℕ → ℕ → Type 0
  LeadTo cursor v = (p : ℕ) × (read orders v ≡ parent p) × Reach orders p cursor

  LeadTo-step :
      (cursor p : ℕ) (visited : List ℕ)
      → read orders cursor ≡ parent p
      → All (LeadTo cursor) visited
      → All (LeadTo p) visited
  LeadTo-step cursor p [] e h = tt
  LeadTo-step cursor p (v ∷ vs) e ((q, f, way), rest) =
      ((q, f, Reach-trans orders way (up e here)), LeadTo-step cursor p vs e rest)

  has-IsOnCycle :
      (cursor : ℕ) (visited : List ℕ)
      → has cursor visited ≡ true
      → All (LeadTo cursor) visited
      → IsOnCycle cursor
  unfolding has
  has-IsOnCycle cursor [] h l = absurd (cc)
  has-IsOnCycle cursor (v ∷ vs) h ((q, f, way), rest) = elim (Bool-cases (v == cursor)) [
    | inl same ↦ record {
      next = q;
      step = subst (λ k. read orders k ≡ parent q) ((==_iff v cursor).0 same) f;
      back = way;
    }
    | inr differs ↦ has-IsOnCycle cursor vs (ground arith) rest
  ]

  not_visited :
      (cursor : ℕ) (visited : List ℕ) {r : ℕ}
      → Reach orders cursor r
      → read orders r ≡ last
      → All (LeadTo cursor) visited
      → has cursor visited ≡ false
  not_visited cursor visited way e l = elim (Bool-cases (has cursor visited)) [
    | inl seen ↦ absurd (IsOnCycle-last way (has-IsOnCycle cursor visited seen l) e)
    | inr fresh ↦ fresh
  ]

  unfoldable pub steps : {a b : ℕ} → Reach orders a b → ℕ
  steps here = 0
  steps (up n way) = suc (steps way)

  walk_complete :
      (fuel limit : ℕ) (visited : List ℕ) {cursor r : ℕ} (way : Reach orders cursor r)
      → read orders r ≡ last
      → All (LeadTo cursor) visited
      → steps way + length visited < limit
      → steps way < fuel
      → walk fuel limit orders visited cursor ≡ root r
  unfolding walk steps
  walk_complete zero limit visited way e l few h = absurd (omega arith)
  walk_complete (suc fuel) limit visited {cursor} here e l few h =
      let fresh : has cursor visited ≡ false = not_visited cursor visited here e l in ground arith
  walk_complete (suc fuel) limit visited {cursor} (up {p = p} n way) e l few h =
      let fresh : has cursor visited ≡ false = not_visited cursor visited (up n way) e l in
      ground (
        arith,
        walk_complete fuel limit (cursor ∷ visited) way e
            ((p, n, here), LeadTo-step cursor p visited n l),
      )

  -- An order from which parent pointers lead, in fewer than 1000 steps, to an order with no parent
  -- has that order as its root.
  renewal_chain_root_id_complete :
      {start r : ℕ} (way : Reach orders start r)
      → read orders r ≡ last
      → steps way < 1000
      → renewal_chain_root_id orders start ≡ root r
  unfolding renewal_chain_root_id
  renewal_chain_root_id_complete way e short =
      walk_complete 1001 1000 [] way e tt (omega arith) (omega arith)

  walk-cycle :
      (fuel limit : ℕ) (visited : List ℕ) (cursor c : ℕ)
      → All (LeadTo cursor) visited
      → walk fuel limit orders visited cursor ≡ cycle c
      → Reach orders cursor c × IsOnCycle c
  unfolding walk
  walk-cycle zero limit visited cursor c l h = absurd (cc)
  walk-cycle (suc fuel) limit visited cursor c l h = elim (Bool-cases (has cursor visited)) [
    | inl seen ↦
        let same : cursor ≡ c = ground arith in
        (
          subst (Reach orders cursor) same here,
          subst IsOnCycle same (has-IsOnCycle cursor visited seen l),
        )
    | inr fresh ↦ elim (Row-cases (read orders cursor)) [
      | is_absent e ↦ absurd (ground arith)
      | is_last e ↦ absurd (ground arith)
      | is_parent p e ↦
          let (way, on) =
            walk-cycle fuel limit (cursor ∷ visited) p c
              ((p, e, here), LeadTo-step cursor p visited e l) (ground arith) in
          (up e way, on)
    ]
  ]

  walk-missing :
      (fuel limit : ℕ) (visited : List ℕ) (cursor m : ℕ)
      → walk fuel limit orders visited cursor ≡ missing m
      → Reach orders cursor m × (read orders m ≡ absent)
  unfolding walk
  walk-missing zero limit visited cursor m h = absurd (cc)
  walk-missing (suc fuel) limit visited cursor m h = elim (Row-cases (read orders cursor)) [
    | is_absent e ↦
        let same : cursor ≡ m = ground arith in
        (subst (Reach orders cursor) same here, subst (λ k. read orders k ≡ absent) same e)
    | is_last e ↦ absurd (ground arith)
    | is_parent p e ↦
        let (way, gone) = walk-missing fuel limit (cursor ∷ visited) p m (ground arith) in
        (up e way, gone)
  ]

  -- The walk refuses a cycle only at an order that is reached and leads back to itself.
  pub renewal_chain_root_id-cycle :
      (start c : ℕ)
      → renewal_chain_root_id orders start ≡ cycle c
      → Reach orders start c × IsOnCycle c
  unfolding renewal_chain_root_id
  renewal_chain_root_id-cycle start c h = walk-cycle 1001 1000 [] start c tt h

  -- The walk refuses a missing reference only at an id that is reached and has no row.
  pub renewal_chain_root_id-missing :
      (start m : ℕ)
      → renewal_chain_root_id orders start ≡ missing m
      → Reach orders start m × (read orders m ≡ absent)
  unfolding renewal_chain_root_id
  renewal_chain_root_id-missing start m h = walk-missing 1001 1000 [] start m h
