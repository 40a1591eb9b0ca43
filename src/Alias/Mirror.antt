-- ===== src/Alias/Mirror.antt =====
-- src/alias.rs: the two directions of the graph mirror each other, the counter counts, and the cap holds.
use recurse_x.Prelude.{
  ℕ, suc, ◌+◌, ◌≤◌, ◌≡◌, refl, sym, ap, ◌∙◌, Bool, true, false, ◌&&◌, Bool-cases, inl, inr, some,
  Option-cases, some-eq, List, [], ◌∷◌, leb, if◌then◌else◌, length, arith,
}
use recurse_x.Maps.{get, replace, place, insert, Distinct}
use recurse_x.Maps.Laws.{get-insert, insert-Distinct, insert-absent, insert-present}
use recurse_x.Sets.{has, add}
use recurse_x.Sets.Laws.{has-add, length-add}
use recurse_x.Alias.{AliasGraph, total, members, insert_edge, link}

either_way : (p q r : Bool) → (if p && q then true else r) ≡ (if q && p then true else r)
either_way true true r = refl
either_way true false r = refl
either_way false true r = refl
either_way false false r = refl

module _ {K : Type 0} (key_eq before : K → K → Bool) (sound : (a b : K) → key_eq a b ≡ true → a ≡ b)
    (self : (a : K) → key_eq a a ≡ true) where
  -- The two maps hold the same edges, each key once; the counter is the number of edges, and within the cap.
  pub record IsValid (g : AliasGraph K) : Type 0 where
    pub fwd_once : Distinct key_eq g.fwd
    pub rev_once : Distinct key_eq g.rev
    pub mirror :
        (a t : K)
        → has key_eq t (members key_eq before a g.fwd)
          ≡ has key_eq a (members key_eq before t g.rev)
    pub counted : g.edges ≡ total g.fwd
    pub capped : g.edges ≤ g.config.max_edges

  members-insert_edge :
      (i from to : K) (m : List (K × List K))
      → members key_eq before i (insert_edge key_eq before from to m) ≡ (
          if key_eq i from
          then add key_eq before to (members key_eq before from m)
          else members key_eq before i m)
  unfolding members insert_edge
  members-insert_edge i from to m =
      let law =
        get-insert key_eq sound self before i from
          (add key_eq before to (members key_eq before from m)) m in
      rw (members, law)
        (elim (Bool-cases (key_eq i from)) [ inl same ↦ rw same refl | inr other ↦ rw other refl ])

  has-insert_edge :
      (i j from to : K) (m : List (K × List K))
      → has key_eq j (members key_eq before i (insert_edge key_eq before from to m))
        ≡ (if key_eq i from && key_eq j to then true else has key_eq j (members key_eq before i m))
  has-insert_edge i j from to m = rw members-insert_edge (elim (Bool-cases (key_eq i from)) [
    | inl same ↦
        rw
          (same, has-add key_eq before sound j to (members key_eq before from m), sound i from same)
          refl
    | inr other ↦ rw other refl
  ])

  total-place :
      (k : K) (s : List K) (m : List (K × List K))
      → total (place key_eq before k s m) ≡ length s + total m
  unfolding total place
  total-place k s [] = refl
  total-place k s ((j, u) ∷ m) = ground (arith, total-place k s m)

  total-replace :
      (k : K) (s old : List K) (m : List (K × List K))
      → get key_eq k m ≡ some old
      → total (replace key_eq k s m) + length old ≡ length s + total m
  unfolding total get replace
  total-replace k s old [] h = absurd (cc)
  total-replace k s old ((j, u) ∷ m) h = elim (Bool-cases (key_eq k j)) [
    | inl same ↦
        let e = ap (λ (l : List K). length l) (some-eq (rw same at h)) in
        rw (same, total) (omega arith)
    | inr other ↦ rw (other, total) (omega (arith, total-replace k s old m (rw other at h)))
  ]

  total-insert_edge :
      (from to : K) (m : List (K × List K))
      → has key_eq to (members key_eq before from m) ≡ false
      → total (insert_edge key_eq before from to m) ≡ suc (total m)
  unfolding members insert_edge
  total-insert_edge from to m h =
      let size = length-add key_eq before to (members key_eq before from m) in
      let grown = rw h at size in
      elim (Option-cases (get key_eq from m)) [
        | inl fresh ↦
            let none_before : members key_eq before from m ≡ [] = rw (members, fresh) refl in
            let e = ap (λ (l : List K). length l) none_before in
            rw
              (
                insert-absent key_eq before from
                    (add key_eq before to (members key_eq before from m)) m fresh,
                total-place,
              )
              (omega arith)
        | inr (s, known) ↦
            let here : members key_eq before from m ≡ s = rw (members, known) refl in
            let e = ap (λ (l : List K). length l) here in
            let law =
              total-replace from (add key_eq before to (members key_eq before from m)) s m known in
            rw
              (insert-present key_eq before from
                (add key_eq before to (members key_eq before from m)) s m known)
              (omega arith)
      ]

  pub link-IsValid :
      (alias target : K) (now : ℕ) (g : AliasGraph K)
      → IsValid g
      → IsValid (link key_eq before alias target now g)
  unfolding link insert_edge
  link-IsValid alias target now g v =
      let marked = record g {
        seen = insert key_eq before target now (insert key_eq before alias now g.seen);
      } in
      let same : IsValid marked = record {
        fwd_once = v.fwd_once;
        rev_once = v.rev_once;
        mirror = v.mirror;
        counted = v.counted;
        capped = v.capped;
      } in
      elim (Bool-cases (has key_eq target (members key_eq before alias g.fwd))) [
        | inl known ↦ rw (link, known) same
        | inr fresh ↦ elim (Bool-cases (leb g.config.max_edges g.edges)) [
          | inl full ↦ rw (link, fresh, full) same
          | inr room ↦
              let counted = v.counted in
              rw (link, fresh, room)
                record {
                  fwd_once =
                      insert-Distinct key_eq sound self before alias
                        (add key_eq before target (members key_eq before alias g.fwd)) g.fwd
                        v.fwd_once;
                  rev_once =
                      insert-Distinct key_eq sound self before target
                        (add key_eq before alias (members key_eq before target g.rev)) g.rev
                        v.rev_once;
                  mirror = λ a t.
                      has-insert_edge a t alias target g.fwd
                      ∙ rw (v.mirror a t) (
                          either_way (key_eq a alias) (key_eq t target)
                            (has key_eq a (members key_eq before t g.rev)))
                      ∙ sym (has-insert_edge t a target alias g.rev);
                  counted = omega (arith, total-insert_edge alias target g.fwd fresh);
                  capped = ground arith;
                }
        ]
      ]
