-- ===== src/Mediation/Lifecycle/Moves.antt =====
-- The lifecycle calls of sampark/mediation/lifecycle.py on a consistent ledger, branch by branch.
use sampark.Base.{
  ℕ, ◌≡◌, Bool, true, false, none, some, Result, ok, err, illegal_transition, arith, nat_eq,
  Option-cases, inl, inr,
}
use sampark.Base.Int.{ℤ}
use sampark.Base.Dict.{lookup, insert, lookup-insert_self, All-lookup}
use sampark.Contracts.{Instant, Grant, GrantState, reserved, executing, confirmed}
use sampark.Budget.Contact.{state_eq}
use sampark.Budget.Ledger.{PoolRecord, GrantRecord, Ledger, get_grant_by_grant_id}
use sampark.Budget.Pools.{change_pools, release, settle, release_margin, settle_margin}
use sampark.Budget.Claims.{set_grant_state, move_claims}
use sampark.Budget.Consistency.{IsConsistent, IsPresent}
use sampark.Mediation.Lifecycle.{is_legal, require_grant, transition, execute, confirm, end_unspent}

-- The ledger holds the grant's record `r`, under its request id.
pub record Holds (l : Ledger) (grant_id : ℕ) (r : GrantRecord) : Type 0 where
  pub referred : lookup grant_id l.grants_by_grant_id ≡ some r.request_id
  pub stored : lookup r.request_id l.grants_by_request_id ≡ some r

-- The ledger after the grant's state, and its claim's, have moved.
unfoldable pub moved : Ledger → ℕ → GrantRecord → GrantState → Instant → Ledger
moved l grant_id r to at = record l {
  grants_by_request_id = insert r.request_id (set_grant_state to r) l.grants_by_request_id;
  claims = move_claims grant_id to at l.claims;
}

-- The ledger after that and a change of the two pools that the grant drew on.
unfoldable pub closed :
    Ledger → ℕ → GrantRecord → GrantState → Instant → (PoolRecord → PoolRecord) → Ledger
closed l grant_id r to at f = change_pools (moved l grant_id r to at) r.customer_id r.window_id f

pub get_grant_by_grant_id-Holds :
    (l : Ledger) (g : ℕ) (r : GrantRecord)
    → IsConsistent l
    → get_grant_by_grant_id l g ≡ some r
    → Holds l g r
unfolding get_grant_by_grant_id
get_grant_by_grant_id-Holds l g r v e = elim (Option-cases (lookup g l.grants_by_grant_id)) [
  | inl missing ↦ ground arith
  | inr (k, found) ↦
      let stored : lookup k l.grants_by_request_id ≡ some r = ground arith in
      let same : r.request_id ≡ k = v.links.keyed k r stored in
      record { referred = ground arith; stored = ground arith }
]

pub Holds-get :
    (l : Ledger) (g : ℕ) (r : GrantRecord) → Holds l g r → get_grant_by_grant_id l g ≡ some r
unfolding get_grant_by_grant_id
Holds-get l g r h = ground (arith, h.referred, h.stored)

-- A reference never dangles.
pub get_grant_by_grant_id-none :
    (l : Ledger) (g : ℕ)
    → IsConsistent l
    → get_grant_by_grant_id l g ≡ none
    → lookup g l.grants_by_grant_id ≡ none
unfolding get_grant_by_grant_id
get_grant_by_grant_id-none l g v e = elim (Option-cases (lookup g l.grants_by_grant_id)) [
  | inl missing ↦ missing
  | inr (k, found) ↦
      let (r, stored) =
        All-lookup (IsPresent l.grants_by_request_id) g k l.grants_by_grant_id v.links.linked
          found in
      ground arith
]

module _ (l : Ledger) (g : ℕ) (r : GrantRecord) (h : Holds l g r) where
  pub require_grant-Holds : require_grant l g ≡ ok r
  unfolding require_grant get_grant_by_grant_id
  require_grant-Holds = ground (arith, h.referred, h.stored)

  pub transition_legal :
      (to : GrantState) (at : Instant)
      → is_legal r.grant.state to ≡ true
      → transition l g to at ≡ ok ((set_grant_state to r).grant, moved l g r to at)
  unfolding transition moved
  transition_legal to at legal = ground (arith, h.referred, h.stored)

  pub transition_illegal :
      (to : GrantState) (at : Instant)
      → is_legal r.grant.state to ≡ false
      → transition l g to at ≡ err illegal_transition
  unfolding transition
  transition_illegal to at illegal = ground (arith, h.referred, h.stored)

  -- `execute` starts a reserved grant, leaves an executing one alone and refuses any other.
  abbrev pub execute_result : Instant → GrantState → Result (Grant × Ledger)
  execute_result at reserved = ok ((set_grant_state executing r).grant, moved l g r executing at)
  execute_result at executing = ok (r.grant, l)
  execute_result at _ = err illegal_transition

  pub execute_lem : (at : Instant) → execute l g at ≡ execute_result at r.grant.state
  unfolding execute
  execute_lem at =
      ground
        (arith, require_grant-Holds, transition_legal executing at, transition_illegal executing at)

  -- `confirm` settles an executing grant, leaves a confirmed one alone and refuses any other.
  abbrev pub confirm_result : Instant → ℤ → GrantState → Result (Grant × Ledger)
  confirm_result at spend executing = ok (
    (set_grant_state confirmed r).grant,
    closed l g r confirmed at (settle r.grant.incentive_ceiling_paise spend),
  )
  confirm_result at spend confirmed = ok (r.grant, l)
  confirm_result at spend _ = err illegal_transition

  pub confirm_lem :
      (at : Instant) (spend : ℤ) → confirm l g at spend ≡ confirm_result at spend r.grant.state
  unfolding confirm settle_margin moved closed set_grant_state
  confirm_lem at spend = ground (
    arith,
    require_grant-Holds,
    transition_legal confirmed at,
    transition_illegal confirmed at,
    lookup-insert_self r.request_id (set_grant_state confirmed r) l.grants_by_request_id,
  )

  -- `rollback` and `expire` end a grant that may move to their state, leave one that is already in
  -- it alone and refuse any other.
  abbrev pub end_result : GrantState → Instant → Bool → Bool → Result (Grant × Ledger)
  end_result to at true legal = ok (r.grant, l)
  end_result to at false true =
      ok
        ((set_grant_state to r).grant, closed l g r to at (release r.grant.incentive_ceiling_paise))
  end_result to at false false = err illegal_transition

  pub end_unspent_lem :
      (to : GrantState) (at : Instant)
      → end_unspent to l g at
        ≡ end_result to at (state_eq r.grant.state to) (is_legal r.grant.state to)
  unfolding end_unspent release_margin moved closed set_grant_state
  end_unspent_lem to at = ground (
    arith,
    require_grant-Holds,
    transition_legal to at,
    transition_illegal to at,
    lookup-insert_self r.request_id (set_grant_state to r) l.grants_by_request_id,
  )
