-- ===== src/FakeIp/Keeps.antt =====
-- src/fakeip.rs: what makes a space right, and that every operation keeps it.
use recurse_x.Prelude.{
  ℕ, ◌+◌, ◌-◌, ◌%◌, ◌^◌, ◌≤◌, ◌<◌, ◌≡◌, refl, sym, true, false, not, ◌||◌, Bool-cases, inl, inr,
  none, Option-cases, List, [], ◌∷◌, ltb, ◌==◌, length, arith,
}
use recurse_x.Name.{Name, name_eq}
use recurse_x.Name.Equal.{name_eq-eq}
use recurse_x.Bounded.{retain_fresh, evict_for_capacity}
use recurse_x.Bounded.Counts.{evict_for_capacity-counts}
use recurse_x.Maps
use recurse_x.Maps.{get}
use recurse_x.Maps.Reverse
use recurse_x.Maps.Sub.{retain_fresh-Sub, evict_for_capacity-Sub, Sub, Sub-full}
use recurse_x.FakeIp.Space.{
  Space, Entry, Family, bits, key_get, name_get, key_insert, name_insert, new, accessed, touch,
  reclaim, index_loop, rebuild_name_index, evict_stride, fresh_entry, lookup, covers, other_owner,
  other_key, restore, cleanup_expired, release, clear,
}
use recurse_x.FakeIp.Agrees.{
  Agree, Agree-key, Agree-replace, Agree-place, Agree-known, Agree-remove, key_eq_refl,
}
use recurse_x.FakeIp.Rebuild.{index_loop-Agree}

-- The two indexes agree on keys of the space, and the keys are addresses of its family.
pub record IsValid (s : Space) : Type 0 where
  pub agree : Agree s.first s.last s.by_key s.by_name
  pub positive : 0 < s.first
  pub room : s.first ≤ s.last
  pub fits : s.last < 2 ^ bits s.family
  pub capped : 0 < s.max_entries

pub new-IsValid :
    (family : Family) (first last max_entries ttl : ℕ)
    → 0 < first
    → first ≤ last
    → last < 2 ^ bits family
    → IsValid (new family first last max_entries ttl)
unfolding new get Maps.Reverse.reversed
new-IsValid family first last max_entries ttl p q r = record {
  agree = record {
    keys_once = tt;
    names_once = tt;
    index = λ n. refl;
    in_range = λ k e h. absurd (cc);
  };
  positive = p;
  room = q;
  fits = r;
  capped = omega arith;
}

-- A change of the indexes, the cursor and the counter.
changed :
    (s : Space) (next : ℕ) (m : List (ℕ × Entry)) (ix : List (Name × ℕ)) (evicted : ℕ)
    → IsValid s
    → Agree s.first s.last m ix
    → IsValid (record s { next = next; by_key = m; by_name = ix; evicted = evicted })
changed s next m ix evicted v a = record {
  agree = a;
  positive = v.positive;
  room = v.room;
  fits = v.fits;
  capped = v.capped;
}

pub touch-IsValid : (key now : ℕ) (s : Space) → IsValid s → IsValid (touch key now s)
unfolding touch
touch-IsValid key now s v = elim (Option-cases (key_get key s.by_key)) [
  | inl absent ↦ rw (touch, absent) v
  | inr (e, there) ↦
      let agree = Agree-replace v.agree key (accessed now e) e there refl in
      rw (touch, there)
        (changed s s.next (Maps.replace ◌==◌ key (accessed now e) s.by_key) s.by_name s.evicted v
          agree)
]

pub lookup-IsValid : (key now : ℕ) (s : Space) → IsValid s → IsValid (lookup key now s).1
unfolding lookup
lookup-IsValid key now s v = elim (Option-cases (key_get key s.by_key)) [
  | inl absent ↦ rw (lookup, absent) v
  | inr (e, there) ↦ rw (lookup, there) (touch-IsValid key now s v)
]

pub release-IsValid : (name : Name) (s : Space) → IsValid s → IsValid (release name s).1
unfolding release
release-IsValid name s v = elim (Option-cases (name_get name s.by_name)) [
  | inl absent ↦ rw (release, absent) v
  | inr (key, there) ↦
      rw (release, there)
        (changed s s.next (Maps.remove ◌==◌ key s.by_key) (Maps.remove name_eq name s.by_name)
          s.evicted v (Agree-remove v.agree name key there))
]

pub clear-IsValid : (s : Space) → IsValid s → IsValid (clear s)
unfolding clear get Maps.Reverse.reversed
clear-IsValid s v =
    changed s s.next [] [] s.evicted v
      record { keys_once = tt; names_once = tt; index = λ n. refl; in_range = λ k e h. absurd (cc) }

-- A sweep with the rebuilt index.
swept-IsValid :
    (s : Space) (kept : List (ℕ × Entry)) (evicted : ℕ)
    → IsValid s
    → Sub kept s.by_key
    → IsValid (rebuild_name_index (record s { by_key = kept; evicted = evicted }))
unfolding rebuild_name_index
swept-IsValid s kept evicted v sub =
    changed s s.next kept (index_loop kept []) evicted v (index_loop-Agree v.agree sub)

pub cleanup_expired-IsValid : (now : ℕ) (s : Space) → IsValid s → IsValid (cleanup_expired now s).1
unfolding cleanup_expired
cleanup_expired-IsValid now s v =
    let stamp = λ (e : Entry). e.last_access in
    let kept = retain_fresh ◌==◌ ltb stamp (now - s.ttl_nanos) s.by_key in
    let sub = retain_fresh-Sub ◌==◌ ltb stamp (now - s.ttl_nanos) s.by_key in
    elim (Bool-cases (length kept == length s.by_key)) [
      | inl all ↦
          let same : kept ≡ s.by_key = Sub-full sub (ground arith) in
          let keeps : IsValid (record s { by_key = kept }) = rw same v in rw all keeps
      | inr fewer ↦ rw fewer (swept-IsValid s kept s.evicted v sub)
    ]

evicts_or_keeps :
    (t stride : ℕ) (m : List (ℕ × Entry))
    → ltb 0 (evict_for_capacity ◌==◌ ltb (λ (e : Entry). e.last_access) t stride m).1 ≡ false
    → (evict_for_capacity ◌==◌ ltb (λ (e : Entry). e.last_access) t stride m).0 ≡ m
unfolding evict_for_capacity
evicts_or_keeps t stride [] h = refl
evicts_or_keeps t stride (e ∷ m) h =
    let (freed, total) =
      evict_for_capacity-counts ◌==◌ ltb (λ (e : Entry). e.last_access) key_eq_refl t stride (e ∷ m)
        (omega arith) in
    absurd (ground arith)

pub reclaim-IsValid : (now : ℕ) (s : Space) → IsValid s → IsValid (reclaim now s)
unfolding reclaim
reclaim-IsValid now s v =
    let stamp = λ (e : Entry). e.last_access in
    let swept = evict_for_capacity ◌==◌ ltb stamp (now - s.ttl_nanos) evict_stride s.by_key in
    let sub = evict_for_capacity-Sub ◌==◌ ltb stamp (now - s.ttl_nanos) evict_stride s.by_key in
    elim (Bool-cases (ltb 0 swept.1)) [
      | inl some_freed ↦
          rw some_freed (swept-IsValid s swept.0 ((s.evicted + swept.1) % 2 ^ 64) v sub)
      | inr none_freed ↦
          let same : swept.0 ≡ s.by_key =
            evicts_or_keeps (now - s.ttl_nanos) evict_stride s.by_key none_freed in
          let keeps : IsValid (record s { by_key = swept.0 }) = rw same v in rw none_freed keeps
    ]

-- Where the name and the key are free, both are entered.
pub entered-IsValid :
    (s : Space) (next key now : ℕ) (name : Name)
    → IsValid s
    → key_get key s.by_key ≡ none
    → name_get name s.by_name ≡ none
    → (s.first ≤ key) × (key ≤ s.last)
    → IsValid (record s {
      next = next;
      by_key = key_insert key (fresh_entry name now) s.by_key;
      by_name = name_insert name key s.by_name;
    })
entered-IsValid s next key now name v free new_name range =
    changed s next (key_insert key (fresh_entry name now) s.by_key) (name_insert name key s.by_name)
      s.evicted v (Agree-place v.agree key (fresh_entry name now) free new_name range)

-- A snapshot's mapping that passes the guards keeps the space right, whether or not it is known.
restored-IsValid :
    (name : Name) (key now : ℕ) (s : Space)
    → IsValid s
    → (s.first ≤ key) × (key ≤ s.last)
    → other_owner name key s ≡ false
    → other_key name key s ≡ false
    → IsValid (record s {
      by_name = name_insert name key s.by_name;
      by_key = key_insert key (fresh_entry name now) s.by_key;
    })
unfolding other_owner other_key
restored-IsValid name key now s v range owner mapped = elim (Option-cases (key_get key s.by_key)) [
  | inr (e, there) ↦
      let same_name : name_eq e.name name ≡ true =
        let owner' = rw (other_owner, there) at owner in ground arith in
      let named : name ≡ e.name = sym (name_eq-eq e.name name same_name) in
      changed s s.next (key_insert key (fresh_entry name now) s.by_key)
        (name_insert name key s.by_name) s.evicted v
        (Agree-known v.agree key (fresh_entry name now) e there named)
  | inl free ↦ elim (Option-cases (name_get name s.by_name)) [
    | inl unknown ↦ entered-IsValid s s.next key now name v free unknown range
    | inr (k, there) ↦
        let mapped' = rw (other_key, there) at mapped in
        let same : k ≡ key = ground arith in
        let (e, here, named) = Agree-key v.agree name k there in
        let here' = rw same at here in absurd (cc)
  ]
]

pub restore-IsValid :
    (name : Name) (key now : ℕ) (s : Space) → IsValid s → IsValid (restore name key now s).1
unfolding restore covers
restore-IsValid name key now s v = elim (Bool-cases (not (covers s key) || ltb key s.first)) [
  | inl outside ↦ rw (restore, outside) v
  | inr inside ↦ elim (Bool-cases (other_owner name key s)) [
    | inl owned ↦ rw (restore, inside, owned) v
    | inr unowned ↦ elim (Bool-cases (other_key name key s)) [
      | inl mapped ↦ rw (restore, inside, unowned, mapped) v
      | inr unmapped ↦
          rw (restore, inside, unowned, unmapped)
            (restored-IsValid name key now s v (ground arith) unowned unmapped)
    ]
  ]
]
