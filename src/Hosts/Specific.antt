-- ===== src/Hosts/Specific.antt =====
-- src/hosts.rs: the patterns stand in the order of their labels, so that the first match is the most
-- specific one.
use mathlib.Core.Path.{subst}
use recurse_x.Prelude.{
  ℕ, ◌≤◌, ◌≡◌, ◌++◌, some-eq, true, Bool-cases, inl, inr, none, some, List, [], ◌∷◌, leb,
  if◌then◌else◌, All, arith,
}
use recurse_x.Cidr.{IpAddr}
use recurse_x.Error.{ok}
use recurse_x.Pattern
use recurse_x.Pattern.{DomainPattern, any, exact, subtree, wildcard}
use recurse_x.Hosts.{
  HostsTable, new, sort_in, sort_pins, insert, with_patterns, pin_pattern, first_match, lookup,
}
use recurse_x.Name.{Name, name_eq}
use recurse_x.Maps.{get}

ok-eq : {A : Type 0} {a b : A} → ok a ≡ ok b → a ≡ b
ok-eq h = cc

-- No entry has fewer labels than one behind it.
abbrev pub Descending : List (DomainPattern × List IpAddr) → Type 0
Descending [] = Unit
Descending (e ∷ pins) =
    All (λ (f : DomainPattern × List IpAddr). Pattern.label_count f.0 ≤ Pattern.label_count e.0)
      pins
    × Descending pins

All-sort_in :
    (P : DomainPattern × List IpAddr → Type 0) (e : DomainPattern × List IpAddr)
    (pins : List (DomainPattern × List IpAddr))
    → P e
    → All P pins
    → All P (sort_in e pins)
unfolding sort_in
All-sort_in P e [] p a = (p, tt)
All-sort_in P e (f ∷ pins) p (q, a) =
    elim (Bool-cases (leb (Pattern.label_count f.0) (Pattern.label_count e.0))) [
      | inl first ↦ rw first (p, (q, a))
      | inr later ↦ rw later (q, All-sort_in P e pins p a)
    ]

All_below :
    (m n : ℕ) (pins : List (DomainPattern × List IpAddr))
    → m ≤ n
    → All (λ (f : DomainPattern × List IpAddr). Pattern.label_count f.0 ≤ m) pins
    → All (λ (f : DomainPattern × List IpAddr). Pattern.label_count f.0 ≤ n) pins
All_below m n [] h a = tt
All_below m n (f ∷ pins) h (p, a) = (omega arith, All_below m n pins h a)

sort_in-Descending :
    (e : DomainPattern × List IpAddr) (pins : List (DomainPattern × List IpAddr))
    → Descending pins
    → Descending (sort_in e pins)
unfolding sort_in
sort_in-Descending e [] d = (tt, tt)
sort_in-Descending e (f ∷ pins) (below, d) =
    let le = leb (Pattern.label_count f.0) (Pattern.label_count e.0) in
    elim (Bool-cases le) [
      | inl first ↦
          let h : Pattern.label_count f.0 ≤ Pattern.label_count e.0 = ground arith in
          rw first (
            (h, All_below (Pattern.label_count f.0) (Pattern.label_count e.0) pins h below),
            (below, d),
          )
      | inr later ↦
          let h : Pattern.label_count e.0 ≤ Pattern.label_count f.0 = ground arith in
          rw later (
            All-sort_in
                (λ (g : DomainPattern × List IpAddr).
                  Pattern.label_count g.0 ≤ Pattern.label_count f.0)
                e pins h below,
            sort_in-Descending e pins d,
          )
    ]

sort_pins-Descending : (pins : List (DomainPattern × List IpAddr)) → Descending (sort_pins pins)
unfolding sort_pins
sort_pins-Descending [] = tt
sort_pins-Descending (e ∷ pins) = sort_in-Descending e (sort_pins pins) (sort_pins-Descending pins)

-- An insertion sorts anew.
insert-Descending :
    (p : DomainPattern) (addrs : List IpAddr) (t t' : HostsTable)
    → Descending t.pattern_pins
    → insert p addrs t ≡ ok t'
    → Descending t'.pattern_pins
unfolding insert with_patterns
insert-Descending any addrs t t' d h = absurd (cc)
insert-Descending (exact name) addrs t t' d h =
    let same = ok-eq h in subst (λ (u : HostsTable). Descending u.pattern_pins) same d
insert-Descending (subtree name) addrs t t' d h =
    let same = ok-eq h in
    subst (λ (u : HostsTable). Descending u.pattern_pins) same
      (sort_pins-Descending (pin_pattern (subtree name) addrs t.pattern_pins))
insert-Descending (wildcard w) addrs t t' d h =
    let same = ok-eq h in
    subst (λ (u : HostsTable). Descending u.pattern_pins) same
      (sort_pins-Descending (pin_pattern (wildcard w) addrs t.pattern_pins))

-- The tables that insertions lead to.
pub data Built : HostsTable → Type 0 where
  empty : (ttl : ℕ) → Built (new ttl)
  pinned :
      (p : DomainPattern) (addrs : List IpAddr) {t : HostsTable} (t' : HostsTable)
      → Built t
      → insert p addrs t ≡ ok t'
      → Built t'

Built-Descending : {t : HostsTable} → Built t → Descending t.pattern_pins
unfolding new
Built-Descending (empty ttl) = tt
Built-Descending (pinned p addrs {t} t' b h) = insert-Descending p addrs t t' (Built-Descending b) h

-- The labels of a pattern that matches, 0 of one that does not.
abbrev pub matched_labels : Name → DomainPattern → ℕ
matched_labels name p = if Pattern.matches p name then Pattern.label_count p else 0

below-matched :
    (name : Name) (n : ℕ) (pins : List (DomainPattern × List IpAddr))
    → All (λ (f : DomainPattern × List IpAddr). Pattern.label_count f.0 ≤ n) pins
    → All (λ (f : DomainPattern × List IpAddr). matched_labels name f.0 ≤ n) pins
below-matched name n [] a = tt
below-matched name n (f ∷ pins) (p, a) = (ground arith, below-matched name n pins a)

first_match_lem :
    (name : Name) (pins : List (DomainPattern × List IpAddr)) (addrs : List IpAddr)
    → Descending pins
    → first_match name pins ≡ some addrs
    → (p : DomainPattern) × (front : List (DomainPattern × List IpAddr)) × (back : List
        (DomainPattern × List IpAddr))
      × (pins ≡ front ++ (p, addrs) ∷ back)
      × (Pattern.matches p name ≡ true)
      × All
          (λ (f : DomainPattern × List IpAddr). matched_labels name f.0 ≤ Pattern.label_count p)
          pins
unfolding first_match
first_match_lem name [] addrs d h = absurd (cc)
first_match_lem name ((p, slot) ∷ pins) addrs (below, d) h =
    elim (Bool-cases (Pattern.matches p name)) [
      | inl yes_ ↦
          let same : slot ≡ addrs = some-eq (rw yes_ at h) in
          (
            p,
            [],
            pins,
            (λ i. (p, same i) ∷ pins),
            yes_,
            (ground arith, below-matched name (Pattern.label_count p) pins below),
          )
      | inr no_ ↦
          let (q, front, back, split, matching, most) =
            first_match_lem name pins addrs d (rw no_ at h) in
          (
            q,
            (p, slot) ∷ front,
            back,
            (λ i. (p, slot) ∷ split i),
            matching,
            (rw no_ (omega arith), most),
          )
    ]

-- In a table that insertions built, the addresses for a name that is not pinned exactly are those of a
-- pattern that matches it, and no pattern of the table that matches it has more labels.
pub lookup-specific :
    (name : Name) (t : HostsTable) (addrs : List IpAddr)
    → Built t
    → get name_eq name t.exact_pins ≡ none
    → lookup name t ≡ some addrs
    → (p : DomainPattern) × (front : List (DomainPattern × List IpAddr)) × (back : List
        (DomainPattern × List IpAddr))
      × (t.pattern_pins ≡ front ++ (p, addrs) ∷ back)
      × (Pattern.matches p name ≡ true)
      × All
          (λ (f : DomainPattern × List IpAddr). matched_labels name f.0 ≤ Pattern.label_count p)
          t.pattern_pins
unfolding lookup
lookup-specific name t addrs b unpinned h =
    first_match_lem name t.pattern_pins addrs (Built-Descending b) (rw (lookup, unpinned) at h)
