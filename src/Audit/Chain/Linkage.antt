-- ===== src/Audit/Chain/Linkage.antt =====
-- The linkage of the log (sampark/audit/chain.py: `verify_chain` and `append`).
use sampark.Base.{
  ok_injective, ok_second, some_injective, ℕ, ◌≡◌, refl, sym, ap, subst, ◌∙◌, inl, inr, true, not,
  List, [], ◌∷◌, ◌++◌, All, none, some, Result, ok, value_error, chain_fork, raise_if, any, length,
  arith, ◌==◌, ==_iff, >>=-eq-ok, Option-cases,
}
use sampark.Audit.Chain.{
  AuditEvent, HashScheme, AuditStore, AppendResult, require_migration, last, probe, head,
  VerificationReport, Walk, prev_hash_after, insert_event, append, visit, walk, begin, report_of,
  verify_chain,
}

module _ {P : Type 0} (h : HashScheme P) where
  -- Every event carries the hash of the event before it, the first one `p`.
  abbrev IsChain : ℕ → List (AuditEvent P) → Type 0
  IsChain p [] = Unit
  IsChain p (e ∷ es) = (e.prev_hash ≡ p) × IsChain (h.hash_event e) es

  abbrev end : ℕ → List (AuditEvent P) → ℕ
  end p [] = p
  end p (e ∷ es) = end (h.hash_event e) es

  linked-IsChain :
      (w : Walk) (es : List (AuditEvent P))
      → (walk h w es).linkage_ok ≡ true
      → (w.linkage_ok ≡ true) × IsChain w.expected_prev es
  unfolding walk visit
  linked-IsChain w [] e = (e, tt)
  linked-IsChain w (x ∷ xs) e =
      let (before, after) = linked-IsChain (visit h w x) xs e in
      ground (arith, ==_iff x.prev_hash w.expected_prev)

  IsChain-linked :
      (w : Walk) (es : List (AuditEvent P))
      → w.linkage_ok ≡ true
      → IsChain w.expected_prev es
      → (walk h w es).linkage_ok ≡ true
  unfolding walk visit
  IsChain-linked w [] ok_before c = ok_before
  IsChain-linked w (x ∷ xs) ok_before c =
      IsChain-linked (visit h w x) xs (ground (arith, ==_iff x.prev_hash w.expected_prev)) c.1

  walk-end :
      (w : Walk) (es : List (AuditEvent P)) → (walk h w es).expected_prev ≡ end w.expected_prev es
  unfolding walk visit
  walk-end w [] = refl
  walk-end w (x ∷ xs) = walk-end (visit h w x) xs

  walk-last :
      (w : Walk) (es : List (AuditEvent P))
      → w.last_hash ≡ some w.expected_prev
      → (walk h w es).last_hash ≡ some (walk h w es).expected_prev
  unfolding walk visit
  walk-last w [] e = e
  walk-last w (x ∷ xs) e = walk-last (visit h w x) xs refl

  -- No event of the one list has the hash of another event of the other.
  abbrev pub IsCollisionFree : List (AuditEvent P) → List (AuditEvent P) → Type 0
  IsCollisionFree xs ys =
      All
        (λ (x : AuditEvent P).
          All (λ (y : AuditEvent P). h.hash_event x ≡ h.hash_event y → x ≡ y) ys)
        xs

  drop_right :
      (y : AuditEvent P) (xs ys : List (AuditEvent P))
      → IsCollisionFree xs (y ∷ ys)
      → IsCollisionFree xs ys
  drop_right y [] ys free = tt
  drop_right y (x ∷ xs) ys free = (free.0.1, drop_right y xs ys free.1)

  IsChain-unique :
      (p q : ℕ) (xs ys : List (AuditEvent P))
      → IsCollisionFree xs ys
      → length xs ≡ length ys
      → IsChain p xs
      → IsChain q ys
      → end p xs ≡ end q ys
      → (p ≡ q) × (xs ≡ ys)
  IsChain-unique p q [] [] free n c d e = (e, refl)
  IsChain-unique p q [] (y ∷ ys) free n c d e = absurd (omega arith)
  IsChain-unique p q (x ∷ xs) [] free n c d e = absurd (omega arith)
  IsChain-unique p q (x ∷ xs) (y ∷ ys) free n c d e =
      let (hashes, tails) =
        IsChain-unique (h.hash_event x) (h.hash_event y) xs ys (drop_right y xs ys free.1)
          (omega (arith, n)) c.1 d.1 e in
      let heads : x ≡ y = free.0.0 hashes in
      (sym c.0 ∙ ap (λ (z : AuditEvent P). z.prev_hash) heads ∙ d.0, cc)

  IsChain-append :
      (p : ℕ) (es : List (AuditEvent P)) (e : AuditEvent P)
      → IsChain p es
      → e.prev_hash ≡ end p es
      → IsChain p (es ++ e ∷ [])
  IsChain-append p [] e c same = (same, tt)
  IsChain-append p (x ∷ xs) e c same = (c.0, IsChain-append (h.hash_event x) xs e c.1 same)

  last-end :
      (p : ℕ) (x : AuditEvent P) (xs : List (AuditEvent P))
      → (z : AuditEvent P) × (last (x ∷ xs) ≡ some z) × (end p (x ∷ xs) ≡ h.hash_event z)
  last-end p x [] = (x, refl, refl)
  last-end p x (y ∷ ys) = last-end (h.hash_event x) y ys

  prev_hash_after-end :
      (es : List (AuditEvent P)) → prev_hash_after h (last es) ≡ end h.genesis_hash es
  unfolding prev_hash_after
  prev_hash_after-end [] = refl
  prev_hash_after-end (x ∷ xs) =
      let (z, found, same) = last-end h.genesis_hash x xs in rw found (sym same)

  genesis-IsChain :
      (w : Walk) (es : List (AuditEvent P))
      → w.genesis_ok ≡ true
      → ((w.index ≡ 0) → w.expected_prev ≡ h.genesis_hash)
      → IsChain w.expected_prev es
      → (walk h w es).genesis_ok ≡ true
  unfolding walk visit
  genesis-IsChain w [] g start c = g
  genesis-IsChain w (x ∷ xs) g start c =
      genesis-IsChain (visit h w x) xs
        (ground (arith, ==_iff x.prev_hash h.genesis_hash, ==_iff w.index 0, start))
        (λ zero. absurd (omega (arith, zero))) c.1

  -- A report of no broken link.
  abbrev pub IsIntact : Result VerificationReport → Type 0
  IsIntact res =
      (r : VerificationReport) × (res ≡ ok r)
      × (r.linkage_ok ≡ true)
      × (r.genesis_ok ≡ true)
      × (r.first_divergence ≡ none)

  divergence-IsChain :
      (w : Walk) (es : List (AuditEvent P))
      → w.first_divergence ≡ none
      → IsChain w.expected_prev es
      → (walk h w es).first_divergence ≡ none
  unfolding walk visit
  divergence-IsChain w [] d c = d
  divergence-IsChain w (x ∷ xs) d c =
      divergence-IsChain (visit h w x) xs (ground (arith, ==_iff x.prev_hash w.expected_prev)) c.1

  chain-IsIntact :
      (db : AuditStore P)
      → db.has_seq_column ≡ true
      → IsChain h.genesis_hash db.audit_events
      → IsIntact (verify_chain h db)
  unfolding verify_chain report_of
  chain-IsIntact db seq c = (
    report_of h db,
    rw seq refl,
    IsChain-linked (begin h) db.audit_events refl c,
    genesis-IsChain (begin h) db.audit_events refl (λ zero. refl) c,
    divergence-IsChain (begin h) db.audit_events refl c,
  )

  report_of-eq :
      (db : AuditStore P) (r : VerificationReport)
      → verify_chain h db ≡ ok r
      → (db.has_seq_column ≡ true) × (r ≡ report_of h db)
  unfolding verify_chain
  report_of-eq db r e = ground arith

  report-IsChain :
      (db : AuditStore P) (r : VerificationReport)
      → verify_chain h db ≡ ok r
      → r.linkage_ok ≡ true
      → IsChain h.genesis_hash db.audit_events
  unfolding report_of
  report-IsChain db r e linked =
      let (seq, same) = report_of-eq db r e in
      (linked-IsChain (begin h) db.audit_events
        (ap (λ (q : VerificationReport). q.linkage_ok) (sym same) ∙ linked)).1

  insert_event-IsChain :
      (db db' : AuditStore P) (event : AuditEvent P) (res : AppendResult P)
      → IsChain h.genesis_hash db.audit_events
      → insert_event h db event ≡ ok (res, db')
      → (db'.has_seq_column ≡ true) × IsChain h.genesis_hash db'.audit_events
  unfolding insert_event head
  insert_event-IsChain db db' event res c e =
      let (found, at_head, more) = >>=-eq-ok (head db) _ e in
      let (u, migrated, same) = >>=-eq-ok (require_migration db) _ at_head in
      let (v, unforked, done) =
        >>=-eq-ok
          (raise_if (any (λ f. f.prev_hash == prev_hash_after h found) db.audit_events) chain_fork)
          _ more in
      let final = record event { prev_hash = prev_hash_after h found } in
      let at_end : prev_hash_after h found ≡ end h.genesis_hash db.audit_events =
        ap (prev_hash_after h) (ok_injective (sym same)) ∙ prev_hash_after-end db.audit_events in
      let longer = IsChain-append h.genesis_hash db.audit_events final c at_end in
      subst
        (λ (d : AuditStore P). (d.has_seq_column ≡ true) × IsChain h.genesis_hash d.audit_events)
        (ok_second _ res _ db' done) (ground arith, longer)

  append-IsChain :
      (db db' : AuditStore P) (event : AuditEvent P) (res : AppendResult P)
      → IsChain h.genesis_hash db.audit_events
      → append h db event ≡ ok (res, db')
      → (db'.has_seq_column ≡ true) × IsChain h.genesis_hash db'.audit_events
  unfolding append
  append-IsChain db db' event res c e =
      let (u, pending, more) =
        >>=-eq-ok (raise_if (not (event.prev_hash == h.pending_prev_hash)) value_error) _ e in
      let (v, migrated, rest) = >>=-eq-ok (require_migration db) _ more in
      elim (Option-cases (probe event.event_id db.audit_events)) [
        | inl fresh ↦ insert_event-IsChain db db' event res c (ground arith)
        | inr (old, known) ↦
            let same : db ≡ db' = ground arith in
            subst
              (λ (d : AuditStore P).
                (d.has_seq_column ≡ true) × IsChain h.genesis_hash d.audit_events)
              same (ground arith, c)
      ]

  -- A log that verifies without a broken link still does after an append that returns.
  pub append-IsIntact :
      (db db' : AuditStore P) (event : AuditEvent P) (res : AppendResult P)
      → IsIntact (verify_chain h db)
      → append h db event ≡ ok (res, db')
      → IsIntact (verify_chain h db')
  append-IsIntact db db' event res (r, e, linked, genesis, undiverged) a =
      let (seq, c) = append-IsChain db db' event res (report-IsChain db r e linked) a in
      chain-IsIntact db' seq c

  walk_unique :
      (xs ys : List (AuditEvent P))
      → IsCollisionFree xs ys
      → length xs ≡ length ys
      → IsChain h.genesis_hash xs
      → IsChain h.genesis_hash ys
      → (walk h (begin h) xs).last_hash ≡ (walk h (begin h) ys).last_hash
      → xs ≡ ys
  unfolding walk visit
  walk_unique [] [] free n c d e = refl
  walk_unique [] (y ∷ ys) free n c d e = absurd (omega arith)
  walk_unique (x ∷ xs) [] free n c d e = absurd (omega arith)
  walk_unique (x ∷ xs) (y ∷ ys) free n c d e =
      let w = visit h (begin h) x in
      let v = visit h (begin h) y in
      let ends : some (end h.genesis_hash (x ∷ xs)) ≡ some (end h.genesis_hash (y ∷ ys)) =
        ap some (sym (walk-end w xs))
        ∙ sym (walk-last w xs refl)
        ∙ e
        ∙ walk-last v ys refl
        ∙ ap some (walk-end v ys) in
      (IsChain-unique h.genesis_hash h.genesis_hash (x ∷ xs) (y ∷ ys) free n c d
        (some_injective ends)).1

  -- If two logs verify without a broken link, hold equally many events and end in the same hash, and
  -- no two of their events collide, then they are the same log.
  pub verify_chain_unique :
      (db db' : AuditStore P) (r r' : VerificationReport)
      → IsCollisionFree db.audit_events db'.audit_events
      → verify_chain h db ≡ ok r
      → verify_chain h db' ≡ ok r'
      → r.linkage_ok ≡ true
      → r'.linkage_ok ≡ true
      → r.event_count ≡ r'.event_count
      → r.head_hash ≡ r'.head_hash
      → db.audit_events ≡ db'.audit_events
  unfolding report_of
  verify_chain_unique db db' r r' free e e' linked linked' counts heads =
      let (_, same) = report_of-eq db r e in
      let (_, same') = report_of-eq db' r' e' in
      walk_unique db.audit_events db'.audit_events free
        (sym (ap (λ (q : VerificationReport). q.event_count) same)
          ∙ counts
          ∙ ap (λ (q : VerificationReport). q.event_count) same')
        (report-IsChain db r e linked) (report-IsChain db' r' e' linked')
        (sym (ap (λ (q : VerificationReport). q.head_hash) same)
          ∙ heads
          ∙ ap (λ (q : VerificationReport). q.head_hash) same')
