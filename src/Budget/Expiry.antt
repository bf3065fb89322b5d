-- ===== src/Budget/Expiry.antt =====
-- sampark/budget/expiry.py: the reserved grants that are past their expiry.
use sampark.Base.{ℕ, Bool, ◌&&◌, List, map, Result, ok, select, ltb, nat_eq, ◌>>=◌}
use sampark.Base.Dict.{values}
use sampark.Contracts.{Instant, reserved}
use sampark.Budget.Contact.{state_eq}
use sampark.Budget.Ledger.{GrantRecord, Ledger, resolve}

abbrev pub is_overdue : Instant → GrantRecord → Bool
is_overdue now r = state_eq r.grant.state reserved && ltb r.grant.expires_at now

unfoldable pub find_expired_grant_ids : Ledger → Instant → Result (List ℕ)
unfolding values resolve
find_expired_grant_ids l now = do
  records ← resolve l.grants_by_request_id (values l.grants_by_grant_id)
  ok (map (λ r. r.grant.grant_id) (select (is_overdue now) records))
