-- ===== src/Budget/Contact.antt =====
-- sampark/budget/contact.py: which grant states hold a contact slot, and the contact cache.
use sampark.Base.{ℕ, ◌+◌, Bool, true, false}
use sampark.Contracts.{GrantState, reserved, executing, confirmed, rolled_back, expired, Instant}

-- Membership in CAPACITY_CONSUMING_STATES.
abbrev pub consumes_capacity : GrantState → Bool
consumes_capacity reserved = true
consumes_capacity executing = true
consumes_capacity confirmed = true
consumes_capacity rolled_back = false
consumes_capacity expired = false

-- Membership in TERMINAL_STATES.
abbrev pub is_terminal : GrantState → Bool
is_terminal reserved = false
is_terminal executing = false
is_terminal confirmed = true
is_terminal rolled_back = true
is_terminal expired = true

-- Membership in RELEASING_STATES.
abbrev pub is_releasing : GrantState → Bool
is_releasing reserved = false
is_releasing executing = false
is_releasing confirmed = false
is_releasing rolled_back = true
is_releasing expired = true

pub record ContactCacheUpdate : Type 0 where
  pub contacts_24h : ℕ
  pub contacts_7d : ℕ
  pub last_contact_at : Instant

unfoldable pub next_contact_cache : ℕ → ℕ → Instant → ContactCacheUpdate
next_contact_cache freshly_recomputed_c24 freshly_recomputed_c7 send_after = record {
  contacts_24h = freshly_recomputed_c24 + 1;
  contacts_7d = freshly_recomputed_c7 + 1;
  last_contact_at = send_after;
}

-- `a is b` on grant states.
abbrev pub state_eq : GrantState → GrantState → Bool
state_eq reserved reserved = true
state_eq executing executing = true
state_eq confirmed confirmed = true
state_eq rolled_back rolled_back = true
state_eq expired expired = true
state_eq _ _ = false
