-- ===== src/Identity/Resolution/Classes.antt =====
-- Which signals the union-find of sampark/identity/resolution.py puts together.
use sampark.Base.{
  ℕ, ◌≡◌, ◌↔◌, refl, sym, ap, subst, ◌∙◌, List, [], ◌∷◌, Option, none, some, ok, nat_eq, arith,
}
use sampark.Base.Dict.{lookup, lookup_or}
use sampark.Identity.Roots.{root_of_top}
use sampark.Identity.UnionFind.{Parents}
use sampark.Identity.UnionFind.Find.{root, parent, IsSound, find_finds}
use sampark.Identity.UnionFind.Union.{IsEquivalence, union_unites}
use sampark.Identity.Resolution.{ContactSignal, Names, join_key, join_signal, join_signals}

pub data In : ContactSignal → List ContactSignal → Type 0 where
  here : {s : ContactSignal} {ss : List ContactSignal} → In s (s ∷ ss)
  there : {s t : ContactSignal} {ss : List ContactSignal} → In s ss → In s (t ∷ ss)

-- The nodes that signals tie together: a signal and its phone, a signal and its address, and whatever
-- follows.
pub data Linked (names : Names) (signals : List ContactSignal) : ℕ → ℕ → Type 0 where
  by_phone :
      (s : ContactSignal) (hash : ℕ)
      → In s signals
      → s.phone_hash ≡ some hash
      → Linked names signals (names.signal_node s.signal_id) (names.phone_node hash)
  by_email :
      (s : ContactSignal) (hash : ℕ)
      → In s signals
      → s.email_hash ≡ some hash
      → Linked names signals (names.signal_node s.signal_id) (names.email_node hash)
  itself : (a : ℕ) → Linked names signals a a
  back : (a b : ℕ) → Linked names signals a b → Linked names signals b a
  via : (a b c : ℕ) → Linked names signals a b → Linked names signals b c → Linked names signals a c

Linked-IsEquivalence :
    (names : Names) (signals : List ContactSignal) → IsEquivalence (Linked names signals)
Linked-IsEquivalence names signals = record {
  reflexive = itself;
  symmetric = back;
  transitive = via;
}

-- A step joins only what a relation allows, and takes no class apart.
record IsCoarser (R : ℕ → ℕ → Type 0) (d d' : Parents) : Type 0 where
  sound : IsSound d'
  coarser : (j k : ℕ) → root d j ≡ root d k → root d' j ≡ root d' k
  within : ((k : ℕ) → R (root d k) k) → (k : ℕ) → R (root d' k) k

IsCoarser-trans :
    (R : ℕ → ℕ → Type 0) (d d' d'' : Parents)
    → IsCoarser R d d'
    → IsCoarser R d' d''
    → IsCoarser R d d''
IsCoarser-trans R d d' d'' a b = record {
  sound = b.sound;
  coarser = λ j k h. b.coarser j k (a.coarser j k h);
  within = λ h. b.within (a.within h);
}

module _ (names : Names) (R : ℕ → ℕ → Type 0) (eq : IsEquivalence R) where
  join_key-IsCoarser :
      (d : Parents) (node : ℕ) (name : ℕ → ℕ) (hash : Option ℕ)
      → IsSound d
      → ((h : ℕ) → hash ≡ some h → R node (name h))
      → (d' : Parents) × (join_key names d node name hash ≡ ok d')
        × IsCoarser R d d'
        × ((h : ℕ) → hash ≡ some h → root d' node ≡ root d' (name h))
  unfolding join_key
  join_key-IsCoarser d node name none s allowed = (
    d,
    refl,
    record { sound = s; coarser = λ j k h. h; within = λ h. h },
    λ h e. absurd (ground arith),
  )
  join_key-IsCoarser d node name (some hash) s allowed =
      let (d', went, u) = union_unites d node (name hash) s in
      (
        d',
        went,
        record { sound = u.sound; coarser = u.coarser; within = u.finest R eq (allowed hash refl) },
        λ h e. u.together ∙ ap (λ x. root d' (name x)) (ground arith),
      )

  -- What the signals say is allowed.
  abbrev Allows : List ContactSignal → Type 0
  Allows signals =
      ((s : ContactSignal) (h : ℕ)
        → In s signals
        → s.phone_hash ≡ some h
        → R (names.signal_node s.signal_id) (names.phone_node h))
      × ((s : ContactSignal) (h : ℕ)
          → In s signals
          → s.email_hash ≡ some h
          → R (names.signal_node s.signal_id) (names.email_node h))

  -- A signal's node has the roots of its phone and of its address.
  abbrev IsJoined : Parents → ContactSignal → Type 0
  IsJoined d s =
      ((h : ℕ)
        → s.phone_hash ≡ some h
        → root d (names.signal_node s.signal_id) ≡ root d (names.phone_node h))
      × ((h : ℕ)
          → s.email_hash ≡ some h
          → root d (names.signal_node s.signal_id) ≡ root d (names.email_node h))

  join_signal-IsCoarser :
      (d : Parents) (s : ContactSignal) (signals : List ContactSignal)
      → IsSound d
      → Allows (s ∷ signals)
      → (d' : Parents) × (join_signal names d s ≡ ok d') × IsCoarser R d d' × IsJoined d' s
  unfolding join_signal
  join_signal-IsCoarser d s signals sound allowed =
      let node = names.signal_node s.signal_id in
      let (d1, found, still, _) = find_finds d node sound in
      let (d2, joined, second, phones) =
        join_key-IsCoarser d1 node names.phone_node s.phone_hash still.sound
          (λ h e. allowed.0 s h here e) in
      let (d3, done, third, emails) =
        join_key-IsCoarser d2 node names.email_node s.email_hash second.sound
          (λ h e. allowed.1 s h here e) in
      let first : IsCoarser R d d1 = record {
        sound = still.sound;
        coarser = λ j k h. still.roots j ∙ h ∙ sym (still.roots k);
        within = λ h k. subst (λ r. R r k) (sym (still.roots k)) (h k);
      } in
      (
        d3,
        rw found (rw joined done),
        IsCoarser-trans R d d2 d3 (IsCoarser-trans R d d1 d2 first second) third,
        (λ h e. third.coarser node (names.phone_node h) (phones h e), emails),
      )

  none_joined : (d : Parents) (s : ContactSignal) → In s [] → IsJoined d s
  none_joined d s i = elim i [ ]

  both :
      (d d' : Parents) (t : ContactSignal) (signals : List ContactSignal)
      → IsCoarser R d d'
      → IsJoined d t
      → ((s : ContactSignal) → In s signals → IsJoined d' s)
      → (s : ContactSignal) → In s (t ∷ signals)
      → IsJoined d' s
  both d d' t signals c now later s here = (
    λ h e. c.coarser (names.signal_node s.signal_id) (names.phone_node h) (now.0 h e),
    λ h e. c.coarser (names.signal_node s.signal_id) (names.email_node h) (now.1 h e),
  )
  both d d' t signals c now later s (there i) = later s i

  join_signals-IsCoarser :
      (signals : List ContactSignal) (d : Parents)
      → IsSound d
      → Allows signals
      → (d' : Parents) × (join_signals names d signals ≡ ok d')
        × IsCoarser R d d'
        × ((s : ContactSignal) → In s signals → IsJoined d' s)
  unfolding join_signals
  join_signals-IsCoarser [] d sound allowed =
      (d, refl, record { sound = sound; coarser = λ j k h. h; within = λ h. h }, none_joined d)
  join_signals-IsCoarser (s ∷ signals) d sound allowed =
      let (d1, went, first, now) = join_signal-IsCoarser d s signals sound allowed in
      let (d2, done, rest, later) =
        join_signals-IsCoarser signals d1 first.sound
          (λ t h i e. allowed.0 t h (there i) e, λ t h i e. allowed.1 t h (there i) e) in
      (d2, rw went done, IsCoarser-trans R d d1 d2 first rest, both d1 d2 s signals rest now later)

root_of_nothing : (k : ℕ) → root [] k ≡ k
unfolding lookup_or lookup
root_of_nothing k = root_of_top (parent []) k refl

nothing-IsSound : IsSound []
unfolding lookup_or lookup
nothing-IsSound = record { forest = λ k. omega arith; closed = λ k p h. absurd (ground arith) }

linked_roots :
    (names : Names) (signals : List ContactSignal) (d : Parents)
    → ((s : ContactSignal)
        → In s signals
        → IsJoined names (Linked names signals) (Linked-IsEquivalence names signals) d s)
    → (a b : ℕ) → Linked names signals a b
    → root d a ≡ root d b
linked_roots names signals d joined a b (by_phone s hash i e) = (joined s i).0 hash e
linked_roots names signals d joined a b (by_email s hash i e) = (joined s i).1 hash e
linked_roots names signals d joined a b (itself _) = refl
linked_roots names signals d joined a b (back x y l) =
    sym (linked_roots names signals d joined x y l)
linked_roots names signals d joined a b (via x y z l m) =
    linked_roots names signals d joined x y l ∙ linked_roots names signals d joined y z m

-- The first loop of resolve_customer_ids always returns a forest with parents that are known and no
-- larger than their children, in which two nodes have the same root exactly
-- when a chain of shared phone and e-mail hashes links them: no more and no less is put together,
-- whatever the order of the signals and of the names.
pub join_signals_classes :
    (names : Names) (signals : List ContactSignal)
    → (d : Parents) × (join_signals names [] signals ≡ ok d)
      × IsSound d
      × ((a b : ℕ) → (root d a ≡ root d b) ↔ Linked names signals a b)
join_signals_classes names signals =
    let R = Linked names signals in
    let (d, went, c, joined) =
      join_signals-IsCoarser names R (Linked-IsEquivalence names signals) signals [] nothing-IsSound
        (λ s h i e. by_phone s h i e, λ s h i e. by_email s h i e) in
    let near = c.within (λ k. subst (λ r. R r k) (sym (root_of_nothing k)) (itself k)) in
    (
      d,
      went,
      c.sound,
      λ a b. (
        λ same.
            via a (root d a) b (back (root d a) a (near a))
              (subst (λ r. R r b) (sym same) (near b)),
        linked_roots names signals d joined a b,
      ),
    )
