-- ===== src/Alias/Pruned.antt =====
-- src/alias.rs: what a prune leaves, and the graphs that calls lead to.
use recurse_x.Prelude.{
  ℕ, ◌-◌, ◌*◌, ◌≤◌, ◌≡◌, refl, sym, ap, ◌∙◌, Bool, true, false, Bool-cases, inl, inr, ◌⊎◌, none,
  List, [], ◌∷◌, leb, ◌==◌, if◌then◌else◌, length, arith,
}
use recurse_x.Maps.{get, Distinct}
use recurse_x.Sets.{has, without}
use recurse_x.Sets.Laws.{has-without, length-without-le}
use recurse_x.Alias.{AliasGraph, total, members, link, dead_keys, keep_alive, prune}
use recurse_x.Alias.Mirror.{IsValid}

List-cases : {A : Type 0} (l : List A) → (l ≡ []) ⊎ ((x : A) × (xs : List A) × (l ≡ x ∷ xs))
List-cases [] = inl refl
List-cases (x ∷ xs) = inr (x, xs, refl)

either_end :
    (p q r : Bool)
    → (if p then false else if q then false else r) ≡ (if q then false else if p then false else r)
either_end true true r = refl
either_end true false r = refl
either_end false true r = refl
either_end false false r = refl

module _ {K : Type 0} (key_eq before : K → K → Bool) (sound : (a b : K) → key_eq a b ≡ true → a ≡ b)
    (self : (a : K) → key_eq a a ≡ true) where
  get-keep_alive-none :
      (a : K) (dead : List K) (m : List (K × List K))
      → get key_eq a m ≡ none
      → get key_eq a (keep_alive key_eq before dead m) ≡ none
  unfolding get keep_alive
  get-keep_alive-none a dead [] h = refl
  get-keep_alive-none a dead ((k, s) ∷ m) h = elim (Bool-cases (key_eq a k)) [
    | inl same ↦ let h' = rw same at h in absurd (cc)
    | inr other ↦
        let ih = get-keep_alive-none a dead m (rw other at h) in
        elim (Bool-cases (has key_eq k dead)) [
          | inl gone ↦ rw gone ih
          | inr alive ↦ elim (List-cases (without key_eq dead s)) [
            | inl empty ↦ rw (alive, empty) ih
            | inr (x, xs, left) ↦ rw (alive, left, get, other) ih
          ]
        ]
  ]

  keep_alive-Distinct :
      (dead : List K) (m : List (K × List K))
      → Distinct key_eq m
      → Distinct key_eq (keep_alive key_eq before dead m)
  unfolding keep_alive
  keep_alive-Distinct dead [] d = d
  keep_alive-Distinct dead ((k, s) ∷ m) (fresh, d) =
      let ih = keep_alive-Distinct dead m d in
      elim (Bool-cases (has key_eq k dead)) [
        | inl gone ↦ rw gone ih
        | inr alive ↦ elim (List-cases (without key_eq dead s)) [
          | inl empty ↦ rw (alive, empty) ih
          | inr (x, xs, left) ↦ rw (alive, left) (get-keep_alive-none k dead m fresh, ih)
        ]
      ]

  total-keep_alive :
      (dead : List K) (m : List (K × List K)) → total (keep_alive key_eq before dead m) ≤ total m
  unfolding keep_alive total
  total-keep_alive dead [] = omega arith
  total-keep_alive dead ((k, s) ∷ m) =
      let ih = total-keep_alive dead m in
      let fewer = length-without-le key_eq dead s in
      elim (Bool-cases (has key_eq k dead)) [
        | inl gone ↦ rw gone (omega arith)
        | inr alive ↦ elim (List-cases (without key_eq dead s)) [
          | inl empty ↦ rw (alive, empty) (omega arith)
          | inr (x, xs, left) ↦
              let size = ap (λ (l : List K). length l) left in rw (alive, left, total) (omega arith)
        ]
      ]

  members_here :
      (a k : K) (s : List K) (m : List (K × List K))
      → key_eq a k ≡ true
      → members key_eq before a ((k, s) ∷ m) ≡ s
  unfolding members get
  members_here a k s m h = rw (members, get, h) refl

  members_there :
      (a k : K) (s : List K) (m : List (K × List K))
      → key_eq a k ≡ false
      → members key_eq before a ((k, s) ∷ m) ≡ members key_eq before a m
  unfolding members get
  members_there a k s m h = rw (members, get, h) refl

  members-none :
      (a : K) (m : List (K × List K)) → get key_eq a m ≡ none → members key_eq before a m ≡ []
  unfolding members
  members-none a m h = rw (members, h) refl

  -- The elements of a key afterwards.
  members-keep_alive :
      (a : K) (dead : List K) (m : List (K × List K))
      → Distinct key_eq m
      → members key_eq before a (keep_alive key_eq before dead m)
        ≡ (if has key_eq a dead then [] else without key_eq dead (members key_eq before a m))
  unfolding keep_alive
  members-keep_alive a dead [] d =
      rw (members-none a [] (unfold get in refl)) (unfold without in ground arith)
  members-keep_alive a dead ((k, s) ∷ m) (fresh, d) =
      let ih = members-keep_alive a dead m d in
      let rest = keep_alive key_eq before dead m in
      elim (Bool-cases (key_eq a k)) [
        | inl same ↦
            let e = sound a k same in
            let absent : get key_eq a m ≡ none = rw e fresh in
            let gone_too = members-none a rest (get-keep_alive-none a dead m absent) in
            elim (Bool-cases (has key_eq k dead)) [
              | inl gone ↦
                  let dropped : has key_eq a dead ≡ true = rw e gone in rw (gone, dropped) gone_too
              | inr alive ↦
                  let kept : has key_eq a dead ≡ false = rw e alive in
                  elim (List-cases (without key_eq dead s)) [
                    | inl empty ↦ rw (alive, kept, members_here a k s m same, empty) gone_too
                    | inr (x, xs, left) ↦
                        rw (alive, kept, members_here a k s m same, left)
                          (members_here a k (x ∷ xs) rest same)
                  ]
            ]
        | inr other ↦ rw (members_there a k s m other) (elim (Bool-cases (has key_eq k dead)) [
          | inl gone ↦ rw gone ih
          | inr alive ↦ elim (List-cases (without key_eq dead s)) [
            | inl empty ↦ rw (alive, empty) ih
            | inr (x, xs, left) ↦ rw (alive, left) (members_there a k (x ∷ xs) rest other ∙ ih)
          ]
        ])
      ]

  -- An edge stays where neither of its ends is dead.
  has-keep_alive :
      (a t : K) (dead : List K) (m : List (K × List K))
      → Distinct key_eq m
      → has key_eq t (members key_eq before a (keep_alive key_eq before dead m)) ≡ (
          if has key_eq a dead
          then false
          else if has key_eq t dead
          then false
          else has key_eq t (members key_eq before a m))
  unfolding has
  has-keep_alive a t dead m d =
      rw (members-keep_alive a dead m d) (elim (Bool-cases (has key_eq a dead)) [
        | inl gone ↦ rw gone refl
        | inr alive ↦ rw alive (has-without key_eq before sound t dead (members key_eq before a m))
      ])

  pub prune-IsValid :
      (now min_age_secs : ℕ) (g : AliasGraph K)
      → IsValid key_eq before sound self g
      → IsValid key_eq before sound self (prune key_eq before now min_age_secs g)
  unfolding prune
  prune-IsValid now min_age_secs g v =
      let age = if min_age_secs == 0 then g.config.prune_age_secs else min_age_secs in
      let cutoff = now - age * 1000000000 in
      elim (List-cases (dead_keys key_eq before cutoff g.seen)) [
        | inl none_dead ↦ rw (prune, none_dead) v
        | inr (k, ks, dead) ↦
            let counted = v.counted in
            let capped = v.capped in
            rw (prune, dead)
              record {
                fwd_once = keep_alive-Distinct (k ∷ ks) g.fwd v.fwd_once;
                rev_once = keep_alive-Distinct (k ∷ ks) g.rev v.rev_once;
                mirror = λ a t.
                    has-keep_alive a t (k ∷ ks) g.fwd v.fwd_once
                    ∙ rw (v.mirror a t) (
                        either_end (has key_eq a (k ∷ ks)) (has key_eq t (k ∷ ks))
                          (has key_eq a (members key_eq before t g.rev)))
                    ∙ sym (has-keep_alive t a (k ∷ ks) g.rev v.rev_once);
                counted = refl;
                capped = omega (arith, total-keep_alive (k ∷ ks) g.fwd);
              }
      ]

  -- The configuration stays.
  pub link-config :
      (alias target : K) (now : ℕ) (g : AliasGraph K)
      → (link key_eq before alias target now g).config ≡ g.config
  unfolding link
  link-config alias target now g =
      elim (Bool-cases (has key_eq target (members key_eq before alias g.fwd))) [
        | inl known ↦ rw (link, known) refl
        | inr fresh ↦ elim (Bool-cases (leb g.config.max_edges g.edges)) [
          | inl full ↦ rw (link, fresh, full) refl
          | inr room ↦ rw (link, fresh, room) refl
        ]
      ]

  pub prune-config :
      (now min_age_secs : ℕ) (g : AliasGraph K)
      → (prune key_eq before now min_age_secs g).config ≡ g.config
  unfolding prune
  prune-config now min_age_secs g =
      let age = if min_age_secs == 0 then g.config.prune_age_secs else min_age_secs in
      elim (List-cases (dead_keys key_eq before (now - age * 1000000000) g.seen)) [
        | inl none_dead ↦ rw (prune, none_dead) refl
        | inr (k, ks, dead) ↦ rw (prune, dead) refl
      ]
