-- ===== src/Alias/Closure.antt =====
-- src/alias.rs: the closure of a key against the reachability of the graph.
use recurse_x.Prelude.{
  ℕ, zero, suc, ◌+◌, ◌≤◌, ◌≡◌, refl, Bool, true, false, Bool-cases, inl, inr, ◌⊎◌, some, List, [],
  ◌∷◌, ◌++◌, leb, length, length-append, arith,
}
use recurse_x.Sets.{has, add}
use recurse_x.Sets.Laws.{length-add}
use recurse_x.Sets.Members.{
  has_later, has_first, has-cases, add_keeps, add_new, add-cases, push_keeps, push_new, push-cases,
}
use recurse_x.Alias.{AliasGraph, depends_on, enqueue, closure_loop, closure}

module _ {K : Type 0} (key_eq before : K → K → Bool) (g : AliasGraph K) where
  -- Alias edges lead from the one to the other.
  pub data Reaches (key : K) : K → Type 0 where
    here : Reaches key key
    step :
        {middle : K} (target : K)
        → Reaches key middle
        → has key_eq target (depends_on key_eq before middle g) ≡ true
        → Reaches key target

module _ {K : Type 0} (key_eq before : K → K → Bool) (sound : (a b : K) → key_eq a b ≡ true → a ≡ b)
    (self : (a : K) → key_eq a a ≡ true) where
  enqueue_known :
      (n : K) (ns seen queue : List K)
      → has key_eq n seen ≡ true
      → enqueue key_eq before (n ∷ ns) (seen, queue) ≡ enqueue key_eq before ns (seen, queue)
  unfolding enqueue
  enqueue_known n ns seen queue h = rw (enqueue, h) refl

  enqueue_fresh :
      (n : K) (ns seen queue : List K)
      → has key_eq n seen ≡ false
      → enqueue key_eq before (n ∷ ns) (seen, queue)
        ≡ enqueue key_eq before ns (add key_eq before n seen, queue ++ n ∷ [])
  unfolding enqueue
  enqueue_fresh n ns seen queue h = rw (enqueue, h) refl

  length-enqueue :
      (ns seen queue : List K)
      → length (enqueue key_eq before ns (seen, queue)).0 + length queue
        ≡ length seen + length (enqueue key_eq before ns (seen, queue)).1
  unfolding enqueue
  length-enqueue [] seen queue = refl
  length-enqueue (n ∷ ns) seen queue = elim (Bool-cases (has key_eq n seen)) [
    | inl known ↦ rw (enqueue_known n ns seen queue known) (length-enqueue ns seen queue)
    | inr fresh ↦
        let size = length-add key_eq before n seen in
        let grown = rw fresh at size in
        let longer = length-append queue (n ∷ []) in
        let ih = length-enqueue ns (add key_eq before n seen) (queue ++ n ∷ []) in
        rw (enqueue_fresh n ns seen queue fresh) (omega arith)
  ]

  module _ (g : AliasGraph K) (key : K) where
    -- What is seen is reached; what is queued is seen; the targets of a seen key are seen, but for those of a
    -- queued key and those of `cur` that are still to be entered.
    record Pending (cur : K) (ns seen queue : List K) : Type 0 where
      reached : (n : K) → has key_eq n seen ≡ true → Reaches key_eq before g key n
      queued : (n : K) → has key_eq n queue ≡ true → has key_eq n seen ≡ true
      todo : (m : K) → has key_eq m ns ≡ true → Reaches key_eq before g key m
      closed :
          (n m : K)
          → has key_eq n seen ≡ true
          → has key_eq m (depends_on key_eq before n g) ≡ true
          → (has key_eq m seen ≡ true)
            ⊎ ((has key_eq n queue ≡ true) ⊎ ((n ≡ cur) × (has key_eq m ns ≡ true)))

    Pending-known :
        (cur n : K) (ns seen queue : List K)
        → has key_eq n seen ≡ true
        → Pending cur (n ∷ ns) seen queue
        → Pending cur ns seen queue
    Pending-known cur n ns seen queue known p = record {
      reached = p.reached;
      queued = p.queued;
      todo = λ m h. p.todo m (has_later key_eq before sound self m n ns h);
      closed = λ i m hi hm. elim (p.closed i m hi hm) [
        | inl there ↦ inl there
        | inr (inl waiting) ↦ inr (inl waiting)
        | inr (inr (i_cur, listed)) ↦ elim (has-cases key_eq before sound self m n ns listed) [
          | inl m_n ↦ inl (rw m_n known)
          | inr later ↦ inr (inr (i_cur, later))
        ]
      ];
    }

    Pending-fresh :
        (cur n : K) (ns seen queue : List K)
        → Pending cur (n ∷ ns) seen queue
        → Pending cur ns (add key_eq before n seen) (queue ++ n ∷ [])
    Pending-fresh cur n ns seen queue p = record {
      reached = λ i h. elim (add-cases key_eq before sound self i n seen h) [
        | inl i_n ↦ rw i_n (p.todo n (has_first key_eq before sound self n ns))
        | inr old ↦ p.reached i old
      ];
      queued = λ i h. elim (push-cases key_eq before sound self i n queue h) [
        | inl i_n ↦ rw i_n (add_new key_eq before sound self n seen)
        | inr old ↦ add_keeps key_eq before sound self i n seen (p.queued i old)
      ];
      todo = λ m h. p.todo m (has_later key_eq before sound self m n ns h);
      closed = λ i m hi hm. elim (add-cases key_eq before sound self i n seen hi) [
        | inl i_n ↦ inr (inl (rw i_n (push_new key_eq before sound self n queue)))
        | inr old ↦ elim (p.closed i m old hm) [
          | inl there ↦ inl (add_keeps key_eq before sound self m n seen there)
          | inr (inl waiting) ↦ inr (inl (push_keeps key_eq before sound self i n queue waiting))
          | inr (inr (i_cur, listed)) ↦ elim (has-cases key_eq before sound self m n ns listed) [
            | inl m_n ↦ inl (rw m_n (add_new key_eq before sound self n seen))
            | inr later ↦ inr (inr (i_cur, later))
          ]
        ]
      ];
    }

    enqueue-Pending :
        (cur : K) (ns seen queue : List K)
        → Pending cur ns seen queue
        → Pending cur []
            (enqueue key_eq before ns (seen, queue)).0
            (enqueue key_eq before ns (seen, queue)).1
    unfolding enqueue
    enqueue-Pending cur [] seen queue p = p
    enqueue-Pending cur (n ∷ ns) seen queue p = elim (Bool-cases (has key_eq n seen)) [
      | inl known ↦
          rw (enqueue_known n ns seen queue known)
            (enqueue-Pending cur ns seen queue (Pending-known cur n ns seen queue known p))
      | inr fresh ↦ rw (enqueue_fresh n ns seen queue fresh) (
          enqueue-Pending cur ns (add key_eq before n seen) (queue ++ n ∷ [])
            (Pending-fresh cur n ns seen queue p))
    ]

    -- A key taken from the queue.
    pop-Pending :
        (old cur : K) (seen queue : List K)
        → Pending old [] seen (cur ∷ queue)
        → Pending cur (depends_on key_eq before cur g) seen queue
    unfolding has
    pop-Pending old cur seen queue p = record {
      reached = p.reached;
      queued = λ i h. p.queued i (has_later key_eq before sound self i cur queue h);
      todo = λ m h.
          step m (p.reached cur (p.queued cur (has_first key_eq before sound self cur queue))) h;
      closed = λ i m hi hm. elim (p.closed i m hi hm) [
        | inl there ↦ inl there
        | inr (inl waiting) ↦ elim (has-cases key_eq before sound self i cur queue waiting) [
          | inl i_cur ↦
              let from_cur : has key_eq m (depends_on key_eq before cur g) ≡ true =
                rw (← i_cur) hm in
              inr (inr (i_cur, from_cur))
          | inr later ↦ inr (inl later)
        ]
        | inr (inr (i_old, nowhere)) ↦ absurd (cc)
      ];
    }

    enqueue_keeps :
        (m : K) (ns seen queue : List K)
        → has key_eq m seen ≡ true
        → has key_eq m (enqueue key_eq before ns (seen, queue)).0 ≡ true
    unfolding enqueue
    enqueue_keeps m [] seen queue h = h
    enqueue_keeps m (n ∷ ns) seen queue h = elim (Bool-cases (has key_eq n seen)) [
      | inl known ↦ rw (enqueue_known n ns seen queue known) (enqueue_keeps m ns seen queue h)
      | inr fresh ↦ rw (enqueue_fresh n ns seen queue fresh) (
          enqueue_keeps m ns (add key_eq before n seen) (queue ++ n ∷ [])
            (add_keeps key_eq before sound self m n seen h))
    ]

    finished-whole :
        (cur : K) (seen : List K)
        → Pending cur [] seen []
        → has key_eq key seen ≡ true
        → (n : K) → Reaches key_eq before g key n
        → has key_eq n seen ≡ true
    unfolding has
    finished-whole cur seen p first n here = first
    finished-whole cur seen p first n (step {middle} target r edge) =
        elim (p.closed middle n (finished-whole cur seen p first middle r) edge) [
          | inl there ↦ there
          | inr (inl waiting) ↦ cc
          | inr (inr (old, nowhere)) ↦ cc
        ]

    -- With fuel for the keys that may still come, the loop returns keys that are reached, `key` among them;
    -- they are `max` at least or all there are.
    closure_loop_lem :
        (fuel max : ℕ) (cur : K) (seen queue : List K)
        → suc max + length queue ≤ fuel + length seen
        → length seen ≤ max + length queue
        → has key_eq key seen ≡ true
        → Pending cur [] seen queue
        → (result : List K) × (closure_loop key_eq before fuel g max seen queue ≡ some result)
          × ((n : K) → has key_eq n result ≡ true → Reaches key_eq before g key n)
          × ((max ≤ length result)
              ⊎ ((n : K) → Reaches key_eq before g key n → has key_eq n result ≡ true))
    unfolding closure_loop
    closure_loop_lem zero max cur seen queue enough few first p = absurd (omega arith)
    closure_loop_lem (suc fuel) max cur seen [] enough few first p =
        (seen, refl, p.reached, inr (finished-whole cur seen p first))
    closure_loop_lem (suc fuel) max cur seen (next ∷ queue) enough few first p =
        elim (Bool-cases (leb max (length seen))) [
          | inl full ↦ (seen, rw full refl, p.reached, inl (ground arith))
          | inr room ↦
              let targets = depends_on key_eq before next g in
              let after = enqueue key_eq before targets (seen, queue) in
              let counts = length-enqueue targets seen queue in
              let grown =
                enqueue-Pending next targets seen queue (pop-Pending cur next seen queue p) in
              rw room (
                closure_loop_lem fuel max next after.0 after.1 (omega arith) (ground arith)
                  (enqueue_keeps key targets seen queue first) grown)
        ]

    -- The closure of a key is always returned: its fuel is enough. It holds only keys that alias edges reach
    -- from the key; and it holds `max` keys at least, or every key that they reach.
    pub closure_lem :
        (max : ℕ)
        → (result : List K) × (closure key_eq before key max g ≡ some result)
          × ((n : K) → has key_eq n result ≡ true → Reaches key_eq before g key n)
          × ((max ≤ length result)
              ⊎ ((n : K) → Reaches key_eq before g key n → has key_eq n result ≡ true))
    unfolding closure has
    closure_lem max =
        closure_loop_lem (max + 1) max key (key ∷ []) (key ∷ []) (omega arith) (omega arith)
          (has_first key_eq before sound self key [])
          record {
            reached = λ n h. elim (has-cases key_eq before sound self n key [] h) [
              | inl same ↦ rw same here
              | inr nowhere ↦ absurd (cc)
            ];
            queued = λ n h. h;
            todo = λ m h. absurd (cc);
            closed = λ i m hi hm. inr (inl hi);
          }
