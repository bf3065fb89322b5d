-- ===== src/Mediation/Lifecycle/Effects.antt =====
-- The effects of a transition of sampark/mediation/lifecycle.py on the records, claims and pools.
use sampark.Base.{
  ℕ, ◌≡◌, refl, ap, ◌∙◌, ◌⊎◌, true, false, some, Result, ok, err, illegal_transition, arith, nat_eq,
  ◌==◌, if◌then◌else◌, Option, none, ◌&&◌, [], length, pair_eq,
}
use sampark.Base.Int.{ℤ, pos, ◌+ℤ◌, ◌-ℤ◌, int_laws}
use sampark.Base.Dict.{lookup, lookup_or, lookup-insert}
use sampark.Contracts.{Instant, Date, Grant, GrantState, executing, confirmed, rolled_back, expired}
use sampark.Budget.Contact.{is_terminal, is_releasing, state_eq}
use sampark.Budget.Ledger.{PoolRecord, ClaimRecord, GrantRecord, Ledger}
use sampark.Budget.Pools.{release, settle}
use sampark.Budget.Pools.View.{
  merchant_view, customer_view, merchant_view-change_pools, customer_view-change_pools,
}
use sampark.Budget.Claims.{set_grant_state, move_claim}
use sampark.Budget.Claims.Search.{
  claim_for_grant, move_found, claim_for_grant-move_claims, length-move_claims,
}
use sampark.Budget.Consistency.{SameGrants-change_pools}
use sampark.Mediation.Lifecycle.{is_legal, execute, confirm, end_unspent, rollback, expire}
use sampark.Mediation.Lifecycle.Moves.{
  Holds, moved, closed, execute_lem, confirm_lem, confirm_result, end_unspent_lem,
}

-- The claim after the grant has moved to a state: `freed_at` says when its slot was given back.
abbrev pub claim_moved :
    GrantState → (Option Instant → Option Instant) → Option ClaimRecord → Option ClaimRecord
claim_moved to freed_at none = none
claim_moved to freed_at (some claim) =
    some (record claim { state = to; released_at = freed_at claim.released_at })

-- The pool without the reservation of a ceiling, and with an amount more spent.
abbrev pub charged : ℕ → ℤ → PoolRecord → PoolRecord
charged ceiling spend pool = record pool {
  reserved_paise = pool.reserved_paise -ℤ pos ceiling;
  spent_paise = pool.spent_paise +ℤ spend;
}

-- The grant `r` has moved to a state and every other record and every reference is as before. The
-- claim that is found for the grant has moved too, the claims found for other grants are as before,
-- and no window has more or fewer claims. Of all pools, the merchant's and the customer's in the
-- grant's window have lost its reservation and spent `spend` more.
pub record Closes (l l' : Ledger) (g : ℕ) (r : GrantRecord) (to : GrantState)
    (freed_at : Option Instant → Option Instant) (spend : ℤ) : Type 0 where
  pub records :
      (k : ℕ)
      → lookup k l'.grants_by_request_id ≡ (
          if r.request_id == k
          then some (record r { grant = record r.grant { state = to } })
          else lookup k l.grants_by_request_id)
  pub references : l'.grants_by_grant_id ≡ l.grants_by_grant_id
  pub claims :
      (k : ℕ)
      → claim_for_grant k l'.claims ≡ (
          if g == k
          then claim_moved to freed_at (claim_for_grant k l.claims)
          else claim_for_grant k l.claims)
  pub slots :
      (key : ℕ × ℕ) → length (lookup_or [] key l'.claims) ≡ length (lookup_or [] key l.claims)
  pub merchant :
      (w : Date)
      → merchant_view l' w ≡ (
          if r.window_id == w
          then charged r.grant.incentive_ceiling_paise spend (merchant_view l w)
          else merchant_view l w)
  pub customer :
      (c : ℕ) (w : Date)
      → customer_view l' c w ≡ (
          if (r.customer_id == c) && (r.window_id == w)
          then charged r.grant.incentive_ceiling_paise spend (customer_view l c w)
          else customer_view l c w)

move_found-claim_moved :
    (g : ℕ) (to : GrantState) (at : Instant) (freed_at : Option Instant → Option Instant)
    (found : Option ClaimRecord)
    → ((before : Option Instant) → (if is_releasing to then some at else before) ≡ freed_at before)
    → move_found g to at found ≡ claim_moved to freed_at found
unfolding move_claim
move_found-claim_moved g to at freed_at none h = refl
move_found-claim_moved g to at freed_at (some c) h = rw (h c.released_at) refl

release-charged : (ceiling : ℕ) (p : PoolRecord) → release ceiling p ≡ charged ceiling (pos 0) p
unfolding release
release-charged ceiling p =
    let plain : p.spent_paise +ℤ pos 0 ≡ p.spent_paise = omega int_laws in rw plain refl

settle-charged :
    (ceiling : ℕ) (spend : ℤ) (p : PoolRecord) → settle ceiling spend p ≡ charged ceiling spend p
unfolding settle
settle-charged ceiling spend p = refl

module _ (l : Ledger) (g : ℕ) (r : GrantRecord) (h : Holds l g r) where
  closed-Closes :
      (to : GrantState) (at : Instant) (f : PoolRecord → PoolRecord)
      (freed_at : Option Instant → Option Instant) (spend : ℤ)
      → ((before : Option Instant)
          → (if is_releasing to then some at else before) ≡ freed_at before)
      → ((p : PoolRecord) → f p ≡ charged r.grant.incentive_ceiling_paise spend p)
      → Closes l (closed l g r to at f) g r to freed_at spend
  unfolding closed moved set_grant_state merchant_view customer_view
  closed-Closes to at f freed_at spend frees charges =
      let m = moved l g r to at in
      let same = SameGrants-change_pools m r.customer_id r.window_id f in
      record {
        records = λ k.
            rw same.same_records
              (lookup-insert k r.request_id (set_grant_state to r) l.grants_by_request_id);
        references = same.same_refs;
        claims = λ k.
            rw
              (
                same.same_claims,
                claim_for_grant-move_claims g to at k l.claims,
                move_found-claim_moved g to at freed_at (claim_for_grant k l.claims) frees,
              )
              refl;
        slots = λ key. rw same.same_claims (length-move_claims g to at key l.claims);
        merchant = λ w.
            merchant_view-change_pools m r.customer_id r.window_id f w
            ∙ rw (charges (merchant_view l w)) refl;
        customer = λ c w.
            customer_view-change_pools m r.customer_id r.window_id f c w
            ∙ rw (charges (customer_view l c w)) refl;
      }

  -- Rolling back or expiring a grant that the ledger holds and that may so end returns the grant in
  -- its new state. In the two pools that it drew on it takes its whole ceiling off what is reserved,
  -- and it changes nothing else in any pool. The claim found for the grant, if there is one, gets the
  -- new state and that time as its release; no other record changes, no claim found for another
  -- grant, and no number of claims.
  pub end_unspent-Closes :
      (to : GrantState) (at : Instant)
      → is_releasing to ≡ true
      → is_legal r.grant.state to ≡ true
      → (l' : Ledger) × (end_unspent to l g at ≡ ok (record r.grant { state = to }, l'))
        × Closes l l' g r to (λ before. some at) (pos 0)
  unfolding set_grant_state
  end_unspent-Closes to at releasing legal = (
    closed l g r to at (release r.grant.incentive_ceiling_paise),
    end_unspent_lem l g r h to at ∙ rw (moving r.grant.state to legal, legal) refl,
    closed-Closes to at (release r.grant.incentive_ceiling_paise) (λ before. some at) (pos 0)
        (λ before. rw releasing refl) (release-charged r.grant.incentive_ceiling_paise),
  )
    where
      moving : (from to : GrantState) → is_legal from to ≡ true → state_eq from to ≡ false
      moving from to legal = ground arith

  -- Confirming an executing grant that the ledger holds returns the confirmed grant. In the two
  -- pools that it drew on it takes the whole ceiling off what is reserved and adds the actual spend
  -- to what is spent, and it changes nothing else in any pool. The claim found for the grant, if
  -- there is one, is confirmed with its release time as before; no other record changes, no claim
  -- found for another grant, and no number of claims.
  pub confirm-Closes :
      (at : Instant) (spend : ℤ)
      → r.grant.state ≡ executing
      → (l' : Ledger) × (confirm l g at spend ≡ ok (record r.grant { state = confirmed }, l'))
        × Closes l l' g r confirmed (λ before. before) spend
  unfolding set_grant_state
  confirm-Closes at spend e = (
    closed l g r confirmed at (settle r.grant.incentive_ceiling_paise spend),
    confirm_lem l g r h at spend ∙ ap (confirm_result l g r h at spend) e,
    closed-Closes confirmed at (settle r.grant.incentive_ceiling_paise spend) (λ before. before)
        spend (λ before. refl) (settle-charged r.grant.incentive_ceiling_paise spend),
  )

  -- What a call may do to a finished grant: return it and leave the ledger alone, or refuse.
  abbrev pub IsFrozen : Result (Grant × Ledger) → Type 0
  IsFrozen res = (res ≡ ok (r.grant, l)) ⊎ (res ≡ err illegal_transition)

  -- A confirmed, rolled-back or expired grant never changes again: each of the four calls returns
  -- it unchanged or is refused as an illegal transition.
  pub terminal-IsFrozen :
      (at : Instant) (spend : ℤ)
      → is_terminal r.grant.state ≡ true
      → IsFrozen (execute l g at)
        × IsFrozen (confirm l g at spend)
        × IsFrozen (rollback l g at)
        × IsFrozen (expire l g at)
  unfolding rollback expire
  terminal-IsFrozen at spend done = ground (
    arith,
    execute_lem l g r h at,
    confirm_lem l g r h at spend,
    end_unspent_lem l g r h rolled_back at,
    end_unspent_lem l g r h expired at,
  )
