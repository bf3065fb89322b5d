-- ===== src/Allocator/Outcomes/Aging.antt =====
-- The deferral limit of sampark/allocator/outcomes.py (`deferred_or_denied`, MAX_DEFERRAL_WINDOWS):
-- how often a candidate can be put off, whatever the reasons.
use sampark.Base.{
  ◌+◌, ◌≤◌, ◌<◌, ◌≡◌, refl, ◌∙◌, ◌⊎◌, inl, inr, List, [], ◌∷◌, Option, none, some, arith, length,
  ◌||◌, ◌==◌, ℕ, leb, contains, true, false, Bool-cases, nat_eq, ==_iff,
}
use sampark.Contracts.{Instant, ReasonCode, deferral_exhausted}
use sampark.Allocator.Candidate.{Candidate, aged, rescheduled}
use sampark.Allocator.Scoring.{ScoreBreakdown}
use sampark.Allocator.Outcomes.{
  AllocationOutcome, deferred, denied, denial, max_deferral_windows, deferred_or_denied,
}
use sampark.Budget.Windows.{window_id_for}
use sampark.Budget.Ledger.{Ledger, mark_terminally_denied}

-- What a deferral leaves of a candidate: an older one, in the window of its next instant.
pub record IsPutOff (c r : Candidate) (at : Instant) : Type 0 where
  pub older : r.windows_deferred ≡ c.windows_deferred + 1
  pub limited : r.windows_deferred < 7
  pub moved : r.window_id ≡ window_id_for at
  pub sent : r.proposed_send_after ≡ at
  pub same_request : r.request ≡ c.request
  pub same_item : r.risk_item ≡ c.risk_item
  pub same_customer : r.customer_id ≡ c.customer_id
  pub same_ceiling : r.requested_incentive_ceiling_paise ≡ c.requested_incentive_ceiling_paise

module _ (F : Type 0) (c : Candidate) (reason : ReasonCode) (at : Instant) (l : Ledger)
    (gaps : List ReasonCode) (score : Option (ScoreBreakdown F)) where
  rescheduled-IsPutOff :
      leb max_deferral_windows (c.windows_deferred + 1) ≡ false
      → IsPutOff c (rescheduled (aged c) (window_id_for at) at) at
  unfolding aged rescheduled
  rescheduled-IsPutOff young = record {
    older = refl;
    limited = ground arith;
    moved = refl;
    sent = refl;
    same_request = refl;
    same_item = refl;
    same_customer = refl;
    same_ceiling = refl;
  }

  -- The two cases with the ledger each leaves, as the window's invariants use them.
  pub deferred_or_denied_split :
      ((c.windows_deferred < 6)
        × ((deferred_or_denied F c reason at l gaps score).0.outcome_kind ≡ deferred)
        × ((deferred_or_denied F c reason at l gaps score).0.reason_code ≡ some reason)
        × ((deferred_or_denied F c reason at l gaps score).1 ≡ l)
        × (r : Candidate) × ((deferred_or_denied F c reason at l gaps score).0.rescheduled_candidate
            ≡ some r)
        × IsPutOff c r at)
      ⊎ ((6 ≤ c.windows_deferred)
          × ((deferred_or_denied F c reason at l gaps score).0
              ≡ denial F c deferral_exhausted gaps score)
          × ((deferred_or_denied F c reason at l gaps score).1
              ≡ mark_terminally_denied l c.risk_item.risk_id)
          × (contains c.risk_item.risk_id
                (deferred_or_denied F c reason at l gaps score).1.terminally_denied_risk_ids
              ≡ true))
  unfolding deferred_or_denied mark_terminally_denied
  deferred_or_denied_split = elim (Bool-cases (leb max_deferral_windows (c.windows_deferred + 1))) [
    | inl old ↦
        let marked = ==_iff c.risk_item.risk_id c.risk_item.risk_id in
        inr (ground arith, rw old refl, rw old refl, rw old (ground (arith, marked)))
    | inr young ↦
        let r = rescheduled (aged c) (window_id_for at) at in
        inl (
          ground arith,
          rw young refl,
          rw young refl,
          rw young refl,
          r,
          rw young refl,
          rescheduled-IsPutOff young,
        )
  ]

  -- What every outcome that puts a candidate off or denies it carries over.
  pub record IsUngranted (out : AllocationOutcome F) : Type 0 where
    pub its_candidate : out.candidate ≡ c
    pub no_grant : out.grant ≡ none
    pub no_incentive : out.effective_incentive_bps ≡ none
    pub its_gaps : out.fact_unavailable_reason_codes ≡ gaps
    pub its_score : out.score ≡ score

  deferred_or_denied-IsUngranted : IsUngranted (deferred_or_denied F c reason at l gaps score).0
  unfolding deferred_or_denied denial
  deferred_or_denied-IsUngranted =
      elim (Bool-cases (leb max_deferral_windows (c.windows_deferred + 1))) [
        | inl old ↦ rw old (record {
          its_candidate = refl;
          no_grant = refl;
          no_incentive = refl;
          its_gaps = refl;
          its_score = refl;
        })
        | inr young ↦ rw young (record {
          its_candidate = refl;
          no_grant = refl;
          no_incentive = refl;
          its_gaps = refl;
          its_score = refl;
        })
      ]

  -- The outcome is always about the candidate given, without a grant or an incentive. A candidate is
  -- either deferred, with the reason and the instant given and the ledger unchanged, and rescheduled
  -- to the window of that instant, one deferral older and still below seven; or, from its sixth
  -- deferral on, denied for good: for an exhausted deferral, with no next instant and nothing to
  -- reschedule, and in the ledger the risk item alone is newly marked as terminally denied.
  pub deferred_or_denied_cases :
      let (out, l') = deferred_or_denied F c reason at l gaps score in
      IsUngranted out
      × (((c.windows_deferred < 6)
            × (out.outcome_kind ≡ deferred)
            × (out.reason_code ≡ some reason)
            × (out.next_eligible_at ≡ some at)
            × (l' ≡ l)
            × (r : Candidate) × (out.rescheduled_candidate ≡ some r)
            × IsPutOff c r at)
          ⊎ ((6 ≤ c.windows_deferred)
              × (out.outcome_kind ≡ denied)
              × (out.reason_code ≡ some deferral_exhausted)
              × (out.next_eligible_at ≡ none)
              × (out.rescheduled_candidate ≡ none)
              × (l' ≡ record l { terminally_denied_risk_ids = l'.terminally_denied_risk_ids })
              × ((k : ℕ)
                  → contains k l'.terminally_denied_risk_ids
                    ≡ ((c.risk_item.risk_id == k) || contains k l.terminally_denied_risk_ids))))
  unfolding deferred_or_denied denial mark_terminally_denied
  deferred_or_denied_cases =
      let common = deferred_or_denied-IsUngranted in
      elim (Bool-cases (leb max_deferral_windows (c.windows_deferred + 1))) [
        | inl old ↦ (
          common,
          inr (
            ground arith,
            rw old refl,
            rw old refl,
            rw old refl,
            rw old refl,
            rw old refl,
            λ k. rw old refl,
          ),
        )
        | inr young ↦
            let r = rescheduled (aged c) (window_id_for at) at in
            (
              common,
              inl (
                ground arith,
                rw young refl,
                rw young refl,
                rw young refl,
                rw young refl,
                r,
                rw young refl,
                rescheduled-IsPutOff young,
              ),
            )
      ]

-- The candidate that is left after being put off for each of the reasons in turn, if any is left.
unfoldable pub put_off_for :
    (F : Type 0) → Candidate → List (ReasonCode × Instant) → Ledger → Option Candidate
unfolding deferred_or_denied
put_off_for F c [] l = some c
put_off_for F c ((reason, at) ∷ rs) l =
    let (outcome, after) = deferred_or_denied F c reason at l [] none in
    elim outcome.rescheduled_candidate [ some r ↦ put_off_for F r rs after | none ↦ none ]

put_off_for_old :
    (F : Type 0) (c : Candidate) (reason : ReasonCode) (at : Instant)
    (rs : List (ReasonCode × Instant)) (l : Ledger)
    → leb 7 (c.windows_deferred + 1) ≡ true
    → put_off_for F c ((reason, at) ∷ rs) l ≡ none
unfolding put_off_for deferred_or_denied denial
put_off_for_old F c reason at rs l h = ground arith

put_off_for_young :
    (F : Type 0) (c : Candidate) (reason : ReasonCode) (at : Instant)
    (rs : List (ReasonCode × Instant)) (l : Ledger)
    → leb 7 (c.windows_deferred + 1) ≡ false
    → put_off_for F c ((reason, at) ∷ rs) l
      ≡ put_off_for F (rescheduled (aged c) (window_id_for at) at) rs l
unfolding put_off_for deferred_or_denied
put_off_for_young F c reason at rs l h = ground arith

-- A candidate that has been put off at most six times, and is put off for a list of reasons, is
-- either gone, its deferrals and the reasons being seven or more together, or still there, with its
-- deferrals and the reasons at most six together.
pub put_off_for_bounded :
    (F : Type 0) (c : Candidate) (rs : List (ReasonCode × Instant)) (l : Ledger)
    → c.windows_deferred ≤ 6
    → ((put_off_for F c rs l ≡ none) × (7 ≤ c.windows_deferred + length rs))
      ⊎ ((r : Candidate) × (put_off_for F c rs l ≡ some r)
          × (r.windows_deferred ≡ c.windows_deferred + length rs)
          × (r.windows_deferred ≤ 6))
unfolding put_off_for aged rescheduled
put_off_for_bounded F c [] l h = inr (c, refl, omega arith, h)
put_off_for_bounded F c ((reason, at) ∷ rs) l h =
    elim (Bool-cases (leb 7 (c.windows_deferred + 1))) [
      | inl old ↦ inl (put_off_for_old F c reason at rs l old, ground arith)
      | inr young ↦
          let r = rescheduled (aged c) (window_id_for at) at in
          let same = put_off_for_young F c reason at rs l young in
          elim (put_off_for_bounded F r rs l (ground arith)) [
            | inl gone ↦ inl (same ∙ gone.0, omega (arith, gone.1))
            | inr left ↦ inr (left.0, same ∙ left.1, omega (arith, left.2), left.3)
          ]
    ]
