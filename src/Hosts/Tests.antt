-- ===== src/Hosts/Tests.antt =====
-- Runs of the static table, and its theorem at a concrete input.
use recurse_x.Prelude.{◌≤◌, ◌≡◌, ◌++◌, refl, true, none, some, List, [], ◌∷◌, All}
use recurse_x.Error.{ok}
use recurse_x.Name
use recurse_x.Name.{Name, bytes_eq}
use recurse_x.Maps.{get}
use recurse_x.Cidr.{IpAddr, addr_v4}
use recurse_x.Pattern
use recurse_x.Pattern.{DomainPattern, subtree}
use recurse_x.Hosts.{HostsTable, new, insert, lookup}
use recurse_x.Hosts.Specific.{Built, empty, pinned, matched_labels, lookup-specific}

-- `c`, `b.c` and `a.b.c`.
abbrev c : Name
c = record { bytes = 1 ∷ 99 ∷ 0 ∷ [] }

abbrev b : Name
b = record { bytes = 1 ∷ 98 ∷ 1 ∷ 99 ∷ 0 ∷ [] }

abbrev a : Name
a = record { bytes = 1 ∷ 97 ∷ 1 ∷ 98 ∷ 1 ∷ 99 ∷ 0 ∷ [] }

-- The shorter pattern was pinned first.
abbrev table : HostsTable
table = record {
  ttl = 60;
  exact_pins = [];
  pattern_pins = (subtree b, addr_v4 2 ∷ []) ∷ (subtree c, addr_v4 1 ∷ []) ∷ [];
}

abbrev first : HostsTable
first = record { ttl = 60; exact_pins = []; pattern_pins = (subtree c, addr_v4 1 ∷ []) ∷ [] }

first_inserted : insert (subtree c) (addr_v4 1 ∷ []) (new 60) ≡ ok first
unfolding insert new
first_inserted = refl

second_inserted : insert (subtree b) (addr_v4 2 ∷ []) first ≡ ok table
unfolding insert bytes_eq Pattern.label_count Name.label_count Name.labels
second_inserted = refl

table-Built : Built table
table-Built =
    pinned (subtree b) (addr_v4 2 ∷ []) table
      (pinned (subtree c) (addr_v4 1 ∷ []) first (empty 60) first_inserted) second_inserted

found : lookup a table ≡ some (addr_v4 2 ∷ [])
unfolding lookup get Pattern.matches Name.is_subdomain_of bytes_eq
found = refl

unpinned : get Name.name_eq a table.exact_pins ≡ none
unfolding get
unpinned = refl

lookup-specific_example :
    (p : DomainPattern) × (front : List (DomainPattern × List IpAddr)) × (back : List
      (DomainPattern × List IpAddr))
    × (table.pattern_pins ≡ front ++ (p, addr_v4 2 ∷ []) ∷ back)
    × (Pattern.matches p a ≡ true)
    × All
        (λ (f : DomainPattern × List IpAddr). matched_labels a f.0 ≤ Pattern.label_count p)
        table.pattern_pins
lookup-specific_example = lookup-specific a table (addr_v4 2 ∷ []) table-Built unpinned found
