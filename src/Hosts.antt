-- ===== src/Hosts.antt =====
-- src/hosts.rs: the static table of names and addresses. The text of a pattern is parsed before, and an
-- address is its number.
pub mod Specific
mod Tests
use recurse_x.Prelude.{
  ℕ, ◌+◌, ◌&&◌, Bool, true, false, Option, none, some, List, [], ◌∷◌, ◌++◌, leb, ◌==◌,
  if◌then◌else◌, length,
}
use recurse_x.Error.{Result, ok, err, config_error}
use recurse_x.Name.{Name, name_eq, bytes_eq}
use recurse_x.Name.Equal.{name_less}
use recurse_x.Cidr.{IpAddr, addr_v4, addr_v6}
use recurse_x.Maps
use recurse_x.Pattern
use recurse_x.Pattern.{DomainPattern, WildcardPattern, any, exact, subtree, wildcard}

abbrev pub default_hosts_ttl : ℕ
default_hosts_ttl = 60

pub record HostsTable : Type 0 where
  pub ttl : ℕ
  pub exact_pins : List (Name × List IpAddr)
  pub pattern_pins : List (DomainPattern × List IpAddr)

unfoldable pub new : ℕ → HostsTable
new ttl = record { ttl = ttl; exact_pins = []; pattern_pins = [] }

unfoldable pub len : HostsTable → ℕ
len t = length t.exact_pins + length t.pattern_pins

unfoldable pub is_empty : HostsTable → Bool
is_empty t = (length t.exact_pins == 0) && (length t.pattern_pins == 0)

unfoldable pub addr_eq : IpAddr → IpAddr → Bool
addr_eq (addr_v4 a) (addr_v4 b) = a == b
addr_eq (addr_v6 a) (addr_v6 b) = a == b
addr_eq (addr_v4 a) (addr_v6 b) = false
addr_eq (addr_v6 a) (addr_v4 b) = false

unfoldable pub pinned : IpAddr → List IpAddr → Bool
unfolding addr_eq
pinned a [] = false
pinned a (b ∷ slot) = let rest = pinned a slot in if addr_eq a b then true else rest

-- `for a in addrs { if !slot.contains(a) { slot.push(*a) } }`
unfoldable pub pin_all : List IpAddr → List IpAddr → List IpAddr
unfolding pinned
pin_all [] slot = slot
pin_all (a ∷ addrs) slot = pin_all addrs (if pinned a slot then slot else slot ++ a ∷ [])

-- The derived equality of patterns.
unfoldable pub label_eq : Option (List ℕ) → Option (List ℕ) → Bool
label_eq none none = true
label_eq (some a) (some b) = bytes_eq a b
label_eq none (some b) = false
label_eq (some a) none = false

unfoldable pub labels_eq : List (Option (List ℕ)) → List (Option (List ℕ)) → Bool
unfolding label_eq
labels_eq [] [] = true
labels_eq [] (b ∷ bs) = false
labels_eq (a ∷ as_) [] = false
labels_eq (a ∷ as_) (b ∷ bs) = label_eq a b && labels_eq as_ bs

unfoldable pub same_lead : Bool → Bool → Bool
same_lead true b = b
same_lead false true = false
same_lead false false = true

unfoldable pub pattern_eq : DomainPattern → DomainPattern → Bool
unfolding labels_eq same_lead
pattern_eq any any = true
pattern_eq (exact a) (exact b) = name_eq a b
pattern_eq (subtree a) (subtree b) = name_eq a b
pattern_eq (wildcard a) (wildcard b) =
    labels_eq a.labels b.labels && same_lead a.leading_wildcard b.leading_wildcard
pattern_eq _ _ = false

-- The entry of an equal pattern gets the addresses, or a new one stands last.
unfoldable pub pin_pattern :
    DomainPattern
    → List IpAddr
    → List (DomainPattern × List IpAddr)
    → List (DomainPattern × List IpAddr)
unfolding pattern_eq pin_all
pin_pattern p addrs [] = (p, pin_all addrs []) ∷ []
pin_pattern p addrs ((q, slot) ∷ pins) =
    let rest = pin_pattern p addrs pins in
    if pattern_eq q p then (q, pin_all addrs slot) ∷ pins else (q, slot) ∷ rest

-- A stable sort, the largest label count first.
unfoldable pub sort_in :
    DomainPattern × List IpAddr
    → List (DomainPattern × List IpAddr)
    → List (DomainPattern × List IpAddr)
sort_in e [] = e ∷ []
sort_in e (f ∷ pins) =
    let rest = sort_in e pins in
    if leb (Pattern.label_count f.0) (Pattern.label_count e.0) then e ∷ f ∷ pins else f ∷ rest

unfoldable pub sort_pins : List (DomainPattern × List IpAddr) → List (DomainPattern × List IpAddr)
unfolding sort_in
sort_pins [] = []
sort_pins (e ∷ pins) = sort_in e (sort_pins pins)

unfoldable pub slot_of : Name → List (Name × List IpAddr) → List IpAddr
slot_of name pins = elim (Maps.get name_eq name pins) [ none ↦ [] | some slot ↦ slot ]

abbrev pub with_patterns : DomainPattern → List IpAddr → HostsTable → HostsTable
unfolding pin_pattern sort_pins
with_patterns p addrs t = record t { pattern_pins = sort_pins (pin_pattern p addrs t.pattern_pins) }

-- `insert` behind the parsed pattern.
unfoldable pub insert : DomainPattern → List IpAddr → HostsTable → Result HostsTable
unfolding slot_of pin_all with_patterns
insert any addrs t = err (
    config_error
      "a \"*\" entry in `hosts` would answer every name from the static table; list the domains you meant instead")
insert (exact name) addrs t = ok (record t {
  exact_pins =
      Maps.insert name_eq name_less name (pin_all addrs (slot_of name t.exact_pins)) t.exact_pins;
})
insert (subtree name) addrs t = ok (with_patterns (subtree name) addrs t)
insert (wildcard w) addrs t = ok (with_patterns (wildcard w) addrs t)

unfoldable pub first_match : Name → List (DomainPattern × List IpAddr) → Option (List IpAddr)
first_match name [] = none
first_match name ((p, addrs) ∷ pins) =
    let rest = first_match name pins in if Pattern.matches p name then some addrs else rest

unfoldable pub lookup : Name → HostsTable → Option (List IpAddr)
unfolding first_match
lookup name t = elim (Maps.get name_eq name t.exact_pins) [
  | some v ↦ some v
  | none ↦ first_match name t.pattern_pins
]

unfoldable pub contains : Name → HostsTable → Bool
unfolding lookup
contains name t = elim (lookup name t) [ none ↦ false | some v ↦ true ]
