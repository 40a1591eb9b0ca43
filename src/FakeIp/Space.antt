-- ===== src/FakeIp/Space.antt =====
-- src/fakeip.rs: the allocation space of one address family, on integer keys. A map is the list of its
-- entries in the order of their keys. Time stamps are not negative, so that a saturating difference
-- stops at 0.
use recurse_x.Prelude.{
  ℕ, zero, suc, ◌+◌, ◌-◌, ◌*◌, ◌%◌, ◌^◌, min, max, Bool, true, false, not, ◌&&◌, ◌||◌, Option, none,
  some, List, [], ◌∷◌, ltb, leb, ◌==◌, if◌then◌else◌, length,
}
use recurse_x.Error.{Result, ok, err, internal_error}
use recurse_x.Name.{Name, name_eq}
use recurse_x.Name.Equal.{name_less}
use recurse_x.Cidr.{IpAddr, addr_v4, addr_v6}
use recurse_x.Cidr.V4
use recurse_x.Cidr.V4.{Ipv4Cidr}
use recurse_x.Cidr.V6
use recurse_x.Cidr.V6.{Ipv6Cidr}
use recurse_x.Maps
use recurse_x.Bounded.{retain_fresh, evict_for_capacity}

abbrev pub evict_stride : ℕ
evict_stride = 8

abbrev pub max_ttl_secs : ℕ
max_ttl_secs = 7 * 24 * 3600

pub data Family : Type 0 where
  v4 v6 : Family

unfoldable pub bits : Family → ℕ
bits v4 = 32
bits v6 = 128

unfoldable pub addr : Family → ℕ → IpAddr
addr v4 key = addr_v4 (key % 2 ^ 32)
addr v6 key = addr_v6 key

unfoldable pub key : Family → IpAddr → Option ℕ
key v4 (addr_v4 v) = some v
key v6 (addr_v6 v) = some v
key v4 (addr_v6 v) = none
key v6 (addr_v4 v) = none

pub record Entry : Type 0 where
  pub name : Name
  pub created : ℕ
  pub last_access : ℕ

pub record Space : Type 0 where
  pub family : Family
  pub first : ℕ
  pub last : ℕ
  pub next : ℕ
  pub ttl_nanos : ℕ
  pub by_key : List (ℕ × Entry)
  pub by_name : List (Name × ℕ)
  pub max_entries : ℕ
  pub evicted : ℕ

abbrev pub key_get : ℕ → List (ℕ × Entry) → Option Entry
key_get = Maps.get ◌==◌

abbrev pub name_get : Name → List (Name × ℕ) → Option ℕ
name_get = Maps.get name_eq

abbrev pub key_insert : ℕ → Entry → List (ℕ × Entry) → List (ℕ × Entry)
key_insert = Maps.insert ◌==◌ ltb

abbrev pub name_insert : Name → ℕ → List (Name × ℕ) → List (Name × ℕ)
name_insert = Maps.insert name_eq name_less

unfoldable pub new : Family → ℕ → ℕ → ℕ → ℕ → Space
new family first last max_entries ttl_nanos = record {
  family = family;
  first = first;
  last = last;
  next = first;
  ttl_nanos = ttl_nanos;
  by_key = [];
  by_name = [];
  max_entries = max max_entries 1;
  evicted = 0;
}

unfoldable pub space_v4 : Ipv4Cidr → ℕ → ℕ → Space
unfolding new
space_v4 range = new v4 (V4.network range + 1) (V4.broadcast range)

unfoldable pub space_v6 : Ipv6Cidr → ℕ → ℕ → Space
unfolding new
space_v6 range = new v6 ((V6.network range + 1) % 2 ^ 128) (V6.broadcast range)

-- The conversion to a 64-bit `usize` saturates.
unfoldable pub capacity : Space → ℕ
capacity s = min ((s.last - s.first + 1) % 2 ^ 128) (2 ^ 64 - 1)

unfoldable pub entry_cap : Space → ℕ
unfolding capacity
entry_cap s = min s.max_entries (capacity s)

unfoldable pub len : Space → ℕ
len s = length s.by_key

unfoldable pub covers : Space → ℕ → Bool
covers s key = leb (s.first - 1) key && leb key s.last

-- `e.last_access = now`
abbrev pub accessed : ℕ → Entry → Entry
accessed now e = record e { last_access = now }

-- `if let Some(e) = self.by_key.get_mut(&key) { e.last_access = now }`
unfoldable pub touch : ℕ → ℕ → Space → Space
touch key now s = elim (key_get key s.by_key) [
  | none ↦ s
  | some e ↦ record s { by_key = Maps.replace ◌==◌ key (accessed now e) s.by_key }
]

unfoldable pub advance : Space → ℕ × Space
advance s =
    let cur = if ltb s.next s.first || ltb s.last s.next then s.first else s.next in
    (cur, record s { next = if leb s.last cur then s.first else cur + 1 })

unfoldable pub contains_key : ℕ → List (ℕ × Entry) → Bool
contains_key key m = elim (key_get key m) [ none ↦ false | some e ↦ true ]

-- `for _ in 0..limit` with its early return.
unfoldable pub take_loop : ℕ → Space → Option ℕ × Space
unfolding advance contains_key
take_loop zero s = (none, s)
take_loop (suc limit) s =
    let rest = take_loop limit (advance s).1 in
    if contains_key (advance s).0 s.by_key then rest else (some (advance s).0, (advance s).1)

unfoldable pub take_key : Space → Option ℕ × Space
unfolding take_loop
take_key s = take_loop (length s.by_key + 1) s

unfoldable pub index_loop : List (ℕ × Entry) → List (Name × ℕ) → List (Name × ℕ)
index_loop [] index = index
index_loop ((key, e) ∷ m) index = index_loop m (name_insert e.name key index)

unfoldable pub rebuild_name_index : Space → Space
unfolding index_loop
rebuild_name_index s = record s { by_name = index_loop s.by_key [] }

unfoldable pub reclaim : ℕ → Space → Space
unfolding rebuild_name_index
reclaim now s =
    let swept =
      evict_for_capacity ◌==◌ ltb (λ (e : Entry). e.last_access) (now - s.ttl_nanos) evict_stride
        s.by_key in
    let left = record s { by_key = swept.0 } in
    if ltb 0 swept.1
    then rebuild_name_index (record left { evicted = (s.evicted + swept.1) % 2 ^ 64 })
    else left

abbrev pub fresh_entry : Name → ℕ → Entry
fresh_entry name now = record { name = name; created = now; last_access = now }

-- The part of `allocate` behind the lookup of the name and the reclaim.
unfoldable pub allocate_new : Name → ℕ → Space → Result IpAddr × Space
unfolding take_key
allocate_new name now s = elim (take_key s).0 [
  | none ↦ (err (internal_error "fake-ip space reported room but had no free key"), (take_key s).1)
  | some key ↦ (
    ok (addr s.family key),
    record (take_key s).1 {
      by_key = key_insert key (fresh_entry name now) (take_key s).1.by_key;
      by_name = name_insert name key (take_key s).1.by_name;
    },
  )
]

unfoldable pub allocate : Name → ℕ → Space → Result IpAddr × Space
unfolding touch entry_cap reclaim allocate_new
allocate name now s = elim (name_get name s.by_name) [
  | some key ↦ (ok (addr s.family key), touch key now s)
  | none ↦ allocate_new name now (if leb (entry_cap s) (len s) then reclaim now s else s)
]

unfoldable pub lookup : ℕ → ℕ → Space → Option Name × Space
unfolding touch
lookup key now s = elim (key_get key s.by_key) [
  | none ↦ (none, s)
  | some e ↦ (some e.name, touch key now s)
]

unfoldable pub peek : ℕ → Space → Option Name
peek key s = elim (key_get key s.by_key) [ none ↦ none | some e ↦ some e.name ]

-- `&existing.name != name` for the entry at the key, and `mapped != key` for the key of the name.
unfoldable pub other_owner : Name → ℕ → Space → Bool
other_owner name key s = elim (key_get key s.by_key) [
  | none ↦ false
  | some e ↦ not (name_eq e.name name)
]

unfoldable pub other_key : Name → ℕ → Space → Bool
other_key name key s = elim (name_get name s.by_name) [
  | none ↦ false
  | some mapped ↦ not (mapped == key)
]

unfoldable pub restore : Name → ℕ → ℕ → Space → Bool × Space
unfolding covers other_owner other_key
restore name key now s =
    if not (covers s key) || ltb key s.first
    then (false, s)
    else if other_owner name key s
    then (false, s)
    else if other_key name key s
    then (false, s)
    else (
      true,
      record s {
        by_name = name_insert name key s.by_name;
        by_key = key_insert key (fresh_entry name now) s.by_key;
      },
    )

unfoldable pub cleanup_expired : ℕ → Space → ℕ × Space
unfolding rebuild_name_index
cleanup_expired now s =
    let cutoff = now - s.ttl_nanos in
    let before = length s.by_key in
    let kept = record s {
      by_key = retain_fresh ◌==◌ ltb (λ (e : Entry). e.last_access) cutoff s.by_key;
    } in
    let after = length kept.by_key in
    (before - after, if not (after == before) then rebuild_name_index kept else kept)

unfoldable pub release : Name → Space → Option ℕ × Space
release name s = elim (name_get name s.by_name) [
  | none ↦ (none, s)
  | some key ↦ (
    some key,
    record s {
      by_name = Maps.remove name_eq name s.by_name;
      by_key = Maps.remove ◌==◌ key s.by_key;
    },
  )
]

unfoldable pub clear : Space → Space
clear s = record s { by_key = []; by_name = [] }

unfoldable pub ttl_nanos : ℕ → ℕ
ttl_nanos secs = min secs max_ttl_secs * 1000000000
