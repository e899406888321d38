-- ===== src/Payments/CardPayments/Events/Laws.antt =====
-- apps/api/src/payments/card-payments.service.ts: none of the other events takes the status of a
-- payment back.
use i_code_host_pro.Prelude.{
  ℕ, ◌≡◌, refl, subst, Bool, true, false, Option, none, some, List, arith, Option-cases, inl, inr,
  if◌then◌else◌, any,
}
use i_code_host_pro.Prelude.Int.{ℤ, max_zero}
use i_code_host_pro.Prelude.Text.{Text}
use i_code_host_pro.Payments.RefundAccounting.{
  CardPayment, Tables, find_payment, dispute, is_internal_ref, sync_refunded_cents,
}
use i_code_host_pro.Checkout.Types.{Database}
use i_code_host_pro.Payments.CardPayments.Events.{
  FailureInput, mark_expired, mark_failed, mark_failure_notice, mark_processing,
  apply_charge_refunded, record_refund_observation, apply_dispute, resolve_intervention,
  update_by_id, flag_outside, mark_disputed, find_at_provider, flag_intervention,
  upsert_observation, resolve_payment, close_intervention,
}
use i_code_host_pro.Payments.CardPayments.Advance.{
  status_rank, RowAdvance, IsAdvance, IsAdvance-refl, IsAdvance-trans, update_where-IsAdvance,
  update_by_id-IsAdvance, sync_refunded_cents-IsAdvance,
}

mark_disputed_cards :
    (now : ℕ) (id : Option ℕ) (db : Database) → (mark_disputed now id db).cards ≡ db.cards
mark_disputed_cards now none db = refl
mark_disputed_cards now (some id) db = refl

same_rank :
    (p p' : CardPayment)
    → p'.id ≡ p.id
    → p'.reference ≡ p.reference
    → p'.amount_cents ≡ p.amount_cents
    → p'.status ≡ p.status
    → RowAdvance p p'
same_rank p p' id reference amount status = record {
  id = id;
  reference = reference;
  amount = amount;
  rank = rw status (omega arith);
}

flag_outside-IsAdvance :
    (ours : Bool) (id : ℕ) (t : Tables) → IsAdvance t.payments (flag_outside ours id t).payments
flag_outside-IsAdvance true id t = IsAdvance-refl t.payments
flag_outside-IsAdvance false id t =
    update_by_id-IsAdvance id _ t (λ p. same_rank p _ refl refl refl refl)

module _ (db : Database) where
  pub mark_expired-IsAdvance :
      (session_ref provider_code : ℕ)
      → IsAdvance db.cards.payments (mark_expired session_ref provider_code db).0.cards.payments
  unfolding mark_expired status_rank
  mark_expired-IsAdvance session_ref provider_code = update_where-IsAdvance _ _ db (λ p found.
      record { id = refl; reference = refl; amount = refl; rank = ground (arith, found) })

  pub mark_failed-IsAdvance :
      (input : FailureInput) → IsAdvance db.cards.payments (mark_failed input db).cards.payments
  unfolding mark_failed status_rank
  mark_failed-IsAdvance input = update_where-IsAdvance _ _ db (λ p found. record {
    id = refl;
    reference = refl;
    amount = refl;
    rank = ground (arith, found);
  })

  pub mark_failure_notice-IsAdvance :
      (payment_ref provider_code : ℕ) (code message : Option Text)
      → IsAdvance db.cards.payments
          (mark_failure_notice payment_ref provider_code code message db).cards.payments
  unfolding mark_failure_notice
  mark_failure_notice-IsAdvance payment_ref provider_code code message =
      update_where-IsAdvance _ _ db (λ p found. same_rank p _ refl refl refl refl)

  pub mark_processing-IsAdvance :
      (session_ref payment_ref : Option ℕ) (provider_code : ℕ)
      → IsAdvance db.cards.payments
          (mark_processing session_ref payment_ref provider_code db).cards.payments
  unfolding mark_processing status_rank
  mark_processing-IsAdvance session_ref payment_ref provider_code =
      update_where-IsAdvance _ _ db (λ p found. record {
        id = refl;
        reference = refl;
        amount = refl;
        rank = ground (arith, found);
      })

  pub apply_charge_refunded-IsAdvance :
      (now payment_ref provider_code : ℕ) (amount : ℤ) (ids : List ℕ)
      → IsAdvance db.cards.payments
          (apply_charge_refunded now payment_ref provider_code amount ids db).cards.payments
  unfolding apply_charge_refunded
  apply_charge_refunded-IsAdvance now payment_ref provider_code amount ids =
      elim (Option-cases (find_at_provider payment_ref provider_code db.cards.payments)) [
        | inl missing ↦ rw (missing, apply_charge_refunded) (IsAdvance-refl db.cards.payments)
        | inr (row, found) ↦
            let ours = any (λ r. is_internal_ref row.id db.cards.refunds r) ids in
            let synced = (sync_refunded_cents row.id (some (max_zero amount)) db.cards).0 in
            rw
              (
                found,
                apply_charge_refunded,
                mark_disputed_cards now (if ours then none else row.wallet_transaction_id)
                    (record db { cards = flag_outside ours row.id synced }),
              )
              (IsAdvance-trans _ _ _
                (sync_refunded_cents-IsAdvance row.id (some (max_zero amount)) db.cards)
                (flag_outside-IsAdvance ours row.id synced))
      ]

  pub record_refund_observation-IsAdvance :
      (now payment_ref provider_code ref : ℕ) (amount : Option ℤ)
      → IsAdvance db.cards.payments
          (record_refund_observation now payment_ref provider_code ref amount db).cards.payments
  unfolding record_refund_observation
  record_refund_observation-IsAdvance now payment_ref provider_code ref amount =
      elim (Option-cases (find_at_provider payment_ref provider_code db.cards.payments)) [
        | inl missing ↦ rw (missing, record_refund_observation) (IsAdvance-refl db.cards.payments)
        | inr (row, found) ↦
            let observed : Tables = record db.cards {
              observations = upsert_observation row.id ref amount db.cards.observations;
            } in
            let ours = is_internal_ref row.id db.cards.refunds ref in
            let flagged = flag_outside ours row.id observed in
            rw
              (
                found,
                record_refund_observation,
                mark_disputed_cards now row.wallet_transaction_id
                    (record db { cards = (sync_refunded_cents row.id none flagged).0 }),
              )
              (IsAdvance-trans _ _ _ (flag_outside-IsAdvance ours row.id observed)
                (sync_refunded_cents-IsAdvance row.id none flagged))
      ]

  pub apply_dispute-IsAdvance :
      (now payment_ref provider_code : ℕ) (closed : Bool)
      → IsAdvance db.cards.payments
          (apply_dispute now payment_ref provider_code closed db).cards.payments
  unfolding apply_dispute
  apply_dispute-IsAdvance now payment_ref provider_code closed =
      elim (Option-cases (find_at_provider payment_ref provider_code db.cards.payments)) [
        | inl missing ↦ rw (missing, apply_dispute) (IsAdvance-refl db.cards.payments)
        | inr (row, found) ↦
            let f = λ (p : CardPayment). record (flag_intervention (dispute closed) p) {
              disputed_at = some now;
            } in
            rw
              (
                found,
                apply_dispute,
                mark_disputed_cards now row.wallet_transaction_id
                    (record db { cards = update_by_id row.id f db.cards }),
              )
              (update_by_id-IsAdvance row.id f db.cards (λ p. same_rank p _ refl refl refl refl))
      ]

  pub resolve_intervention-IsAdvance :
      (id : ℕ) (note : Text) (db' : Database)
      → resolve_intervention id note db ≡ some db'
      → IsAdvance db.cards.payments db'.cards.payments
  unfolding resolve_intervention close_intervention
  resolve_intervention-IsAdvance id note db' h =
      let written : close_intervention id note db ≡ db' =
        elim (Option-cases (find_payment id db.cards.payments)) [
          | inl missing ↦ absurd (ground arith)
          | inr (p, found) ↦ ground arith
        ] in
      subst (λ d. IsAdvance db.cards.payments d.cards.payments) written
        (update_by_id-IsAdvance id (resolve_payment note) db.cards
          (λ p. same_rank p _ refl refl refl refl))
