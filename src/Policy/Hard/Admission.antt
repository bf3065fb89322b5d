-- ===== src/Policy/Hard/Admission.antt =====
-- Which candidates the eleven rules of sampark/policy/hard/ let through to the allocator.
use sampark.Base.{
  ℕ, ◌<◌, ◌≡◌, refl, inl, inr, true, false, ◌&&◌, none, some, ok, contains, any, string_eq, ltb,
  arith, >>=-eq-ok, [], Bool-cases,
}
use sampark.Contracts.{ReasonCode}
use sampark.Allocator.Candidate.{Candidate}
use sampark.Budget.Windows.{is_quiet_hours}
use sampark.Policy.Verdict.{admissible, PolicyContext}
use sampark.Policy.Hard.{
  HardFilterResult, Interlock, opt_out, consent_scope, dlt_template, is_registered, is_disputed,
  evaluate_interlock, quiet_hours_rule, contact_cap, hard_rules, evaluate_all, dispute_open,
  rto_flag, refund_in_flight, fraud_review, mandate_cancellation, active_grant_in_window,
}
use sampark.Policy.Hard.Chain.{Passes, run_rules-Passes, run_rules_admits}

-- The conditions, in the order in which the chain tests them.
pub record IsAdmissible (c : Candidate) (ctx : PolicyContext) : Type 0 where
  pub not_opted_out :
      contains c.request.requested_channel (ctx.ledger.optouts c.customer_id) ≡ false
  pub registered : is_registered c.request.intent c.request.requested_channel ≡ true
  pub undisputed :
      (ltb 0 c.request.requested_max_incentive_bps
        && any is_disputed (ctx.ledger.risk_items c.customer_id))
      ≡ false
  pub unclaimed : ctx.ledger.active_claim c.customer_id c.window_id ≡ false
  pub awake : is_quiet_hours c.proposed_send_after ≡ false
  pub under_caps :
      (n : ℕ × ℕ) × (ctx.ledger.contact_counts c.customer_id ctx.decision_at ≡ ok n)
      × (n.0 < 1)
      × (n.1 < 2)

module _ (c : Candidate) (ctx : PolicyContext) where
  opt_out-Passes :
      Passes c ctx opt_out
      → contains c.request.requested_channel (ctx.ledger.optouts c.customer_id) ≡ false
  unfolding opt_out
  opt_out-Passes (inl e) = ground arith
  opt_out-Passes (inr (reason, e)) = ground arith

  dlt_template-Passes :
      Passes c ctx dlt_template → is_registered c.request.intent c.request.requested_channel ≡ true
  unfolding dlt_template
  dlt_template-Passes (inl e) = ground arith
  dlt_template-Passes (inr (reason, e)) = ground arith

  dispute_open-Passes :
      Passes c ctx (evaluate_interlock dispute_open)
      → (ltb 0 c.request.requested_max_incentive_bps
          && any is_disputed (ctx.ledger.risk_items c.customer_id))
        ≡ false
  unfolding evaluate_interlock
  dispute_open-Passes (inl e) = ground arith
  dispute_open-Passes (inr (reason, e)) = ground arith

  active_grant-Passes :
      Passes c ctx (evaluate_interlock active_grant_in_window)
      → ctx.ledger.active_claim c.customer_id c.window_id ≡ false
  unfolding evaluate_interlock
  active_grant-Passes (inl e) = ground arith
  active_grant-Passes (inr (reason, e)) = ground arith

  quiet_hours-Passes : Passes c ctx quiet_hours_rule → is_quiet_hours c.proposed_send_after ≡ false
  unfolding quiet_hours_rule
  quiet_hours-Passes (inl e) = ground arith
  quiet_hours-Passes (inr (reason, e)) = ground arith

  contact_cap-Passes :
      Passes c ctx contact_cap
      → (n : ℕ × ℕ) × (ctx.ledger.contact_counts c.customer_id ctx.decision_at ≡ ok n)
        × (n.0 < 1)
        × (n.1 < 2)
  unfolding contact_cap
  contact_cap-Passes (inl e) =
      let (n, counted, rest) =
        >>=-eq-ok (ctx.ledger.contact_counts c.customer_id ctx.decision_at) _ e in
      (n, counted, ground arith, ground arith)
  contact_cap-Passes (inr (reason, e)) =
      let (n, counted, rest) =
        >>=-eq-ok (ctx.ledger.contact_counts c.customer_id ctx.decision_at) _ e in
      (n, counted, ground arith, ground arith)

  -- A candidate that the hard filter admits has not opted out of the channel, uses a registered
  -- template, asks no incentive for a customer with a disputed item, has no active claim on its
  -- window, is not sent in quiet hours and is under both contact caps.
  pub evaluate_all_sound :
      (res : HardFilterResult)
      → evaluate_all c ctx ≡ ok res
      → res.verdict ≡ admissible
      → IsAdmissible c ctx
  unfolding evaluate_all
  evaluate_all_sound res e a =
      let p = run_rules-Passes c ctx hard_rules [] res e a in
      record {
        not_opted_out = opt_out-Passes p.0;
        registered = dlt_template-Passes p.1.1.0;
        undisputed = dispute_open-Passes p.1.1.1.0;
        unclaimed = active_grant-Passes p.1.1.1.1.1.1.1.1.0;
        awake = quiet_hours-Passes p.1.1.1.1.1.1.1.1.1.0;
        under_caps = contact_cap-Passes p.1.1.1.1.1.1.1.1.1.1.0;
      }

  gap-Passes :
      (i : Interlock) (reason : ReasonCode)
      → i.condition c ctx ≡ none
      → i.unavailable_reason_code ≡ some reason
      → Passes c ctx (evaluate_interlock i)
  unfolding evaluate_interlock
  gap-Passes i reason e r = elim (Bool-cases (i.applies_to c)) [
    | inl applies ↦ inr (reason, ground arith)
    | inr irrelevant ↦ inl (ground arith)
  ]

  opt_out-Passes' :
      contains c.request.requested_channel (ctx.ledger.optouts c.customer_id) ≡ false
      → Passes c ctx opt_out
  unfolding opt_out
  opt_out-Passes' e = inl (ground arith)

  dlt_template-Passes' :
      is_registered c.request.intent c.request.requested_channel ≡ true → Passes c ctx dlt_template
  unfolding dlt_template
  dlt_template-Passes' e = inl (ground arith)

  dispute_open-Passes' :
      (ltb 0 c.request.requested_max_incentive_bps
          && any is_disputed (ctx.ledger.risk_items c.customer_id))
        ≡ false
      → Passes c ctx (evaluate_interlock dispute_open)
  unfolding evaluate_interlock
  dispute_open-Passes' e = inl (ground arith)

  active_grant-Passes' :
      ctx.ledger.active_claim c.customer_id c.window_id ≡ false
      → Passes c ctx (evaluate_interlock active_grant_in_window)
  unfolding evaluate_interlock
  active_grant-Passes' e = inl (ground arith)

  quiet_hours-Passes' : is_quiet_hours c.proposed_send_after ≡ false → Passes c ctx quiet_hours_rule
  unfolding quiet_hours_rule
  quiet_hours-Passes' e = inl (ground arith)

  contact_cap-Passes' :
      (n : ℕ × ℕ)
      → ctx.ledger.contact_counts c.customer_id ctx.decision_at ≡ ok n
      → n.0 < 1
      → n.1 < 2
      → Passes c ctx contact_cap
  unfolding contact_cap
  contact_cap-Passes' n e day week = inl (ground arith)

  -- The hard filter admits every candidate that has not opted out of the channel, uses a registered
  -- template, asks no incentive for a customer with a disputed item, has no active claim on its
  -- window, is not sent in quiet hours and is under both contact caps.
  pub evaluate_all_complete :
      IsAdmissible c ctx
      → (res : HardFilterResult) × (evaluate_all c ctx ≡ ok res) × (res.verdict ≡ admissible)
  unfolding evaluate_all consent_scope
  evaluate_all_complete h =
      let (n, counted, day, week) = h.under_caps in
      run_rules_admits c ctx hard_rules [] (
        opt_out-Passes' h.not_opted_out,
        (
          inr (_, refl),
          (
            dlt_template-Passes' h.registered,
            (
              dispute_open-Passes' h.undisputed,
              (
                gap-Passes rto_flag _ refl refl,
                (
                  gap-Passes refund_in_flight _ refl refl,
                  (
                    gap-Passes fraud_review _ refl refl,
                    (
                      gap-Passes mandate_cancellation _ refl refl,
                      (
                        active_grant-Passes' h.unclaimed,
                        (quiet_hours-Passes' h.awake, (contact_cap-Passes' n counted day week, tt)),
                      ),
                    ),
                  ),
                ),
              ),
            ),
          ),
        ),
      )
