-- ===== src/FakeIp/Allocates.antt =====
-- src/fakeip.rs: an allocation on a right space gives an address, which maps both ways.
use recurse_x.Prelude.{
  ℕ, suc, ◌-◌, ◌^◌, ◌≤◌, ◌<◌, ◌≡◌, refl, sym, ap, ◌∙◌, Bool-cases, inl, inr, none, some,
  Option-cases, List, leb, ltb, ◌==◌, length, arith,
}
use recurse_x.Error.{Result, ok}
use recurse_x.Cidr.{IpAddr}
use recurse_x.Name.{Name, name_eq}
use recurse_x.Name.Equal.{name_eq-eq, name_eq_refl, name_less}
use recurse_x.Bounded.{evict_for_capacity}
use recurse_x.Bounded.Counts.{evict_for_capacity-counts}
use recurse_x.Maps.Laws.{get-insert, get-replace}
use recurse_x.Maps.{replace}
use recurse_x.Maps.Sub.{Sub, get_sub-some, evict_for_capacity-Sub}
use recurse_x.Maps.Counts.{length-le-range}
use recurse_x.FakeIp.Space.{
  Space, Entry, peek, Family, v4, v6, bits, addr, key_get, name_get, key_insert, name_insert, touch,
  take_key, reclaim, rebuild_name_index, evict_stride, fresh_entry, accessed, allocate_new,
  allocate, len, capacity, entry_cap,
}
use recurse_x.FakeIp.Agrees.{Agree-key, Agree-name, key_eq-eq, key_eq_refl}
use recurse_x.FakeIp.Cursor.{take_key-free, take_key-next}
use recurse_x.FakeIp.Keeps.{IsValid, reclaim-IsValid, entered-IsValid, touch-IsValid}

module _ (now : ℕ) (s : Space) where
  swept : List (ℕ × Entry) × ℕ
  swept =
      evict_for_capacity ◌==◌ ltb (λ (e : Entry). e.last_access) (now - s.ttl_nanos) evict_stride
        s.by_key

  -- Nothing but the indexes and the counter change.
  reclaim_lem : reclaim now s ≡ record s {
    by_key = swept.0;
    by_name = (reclaim now s).by_name;
    evicted = (reclaim now s).evicted;
  }
  unfolding swept reclaim rebuild_name_index
  reclaim_lem = elim (Bool-cases (ltb 0 swept.1)) [
    | inl freed ↦ rw freed refl
    | inr kept ↦ rw kept refl
  ]

  swept-Sub : Sub swept.0 s.by_key
  unfolding swept
  swept-Sub =
      evict_for_capacity-Sub ◌==◌ ltb (λ (e : Entry). e.last_access) (now - s.ttl_nanos)
        evict_stride s.by_key

  swept-fewer : 0 < length s.by_key → length swept.0 < length s.by_key
  unfolding swept
  swept-fewer h =
      let (freed, total) =
        evict_for_capacity-counts ◌==◌ ltb (λ (e : Entry). e.last_access) key_eq_refl
          (now - s.ttl_nanos) evict_stride s.by_key h in
      omega arith

bits-le : (f : Family) → 2 ^ bits f ≤ 2 ^ 128
unfolding bits
bits-le v4 = omega arith
bits-le v6 = omega arith

module _ (s : Space) (v : IsValid s) where
  keys_fit : length s.by_key ≤ suc (s.last - s.first)
  keys_fit =
      let r = v.room in
      length-le-range key_eq-eq key_eq_refl (suc (s.last - s.first)) s.first s.by_key
        v.agree.keys_once (λ k e h. let (low, high) = v.agree.in_range k e h in (low, omega arith))

  last-lt : s.last < 2 ^ 128
  last-lt = let f = v.fits in omega (arith, bits-le s.family)

  capacity_lem : (0 < entry_cap s) × (entry_cap s ≤ suc (s.last - s.first))
  unfolding entry_cap capacity
  capacity_lem =
      let l = last-lt in let r = v.room in let c = v.capped in let p = v.positive in omega arith

-- What an allocation gives: a key of the space with its address, entered both ways in a right space.
pub record Given (name : Name) (s : Space) (outcome : Result IpAddr × Space) : Type 0 where
  pub key : ℕ
  pub address : outcome.0 ≡ ok (addr s.family key)
  pub low : s.first ≤ key
  pub high : key ≤ s.last
  pub named : name_get name outcome.1.by_name ≡ some key
  pub owner : peek key outcome.1 ≡ some name
  pub valid : IsValid outcome.1
  pub same_family : outcome.1.family ≡ s.family

pub peek_lem :
    (k : ℕ) (s : Space) (e : Entry) → key_get k s.by_key ≡ some e → peek k s ≡ some e.name
unfolding peek
peek_lem k s e h = rw (peek, h) refl

allocate_new_lem :
    (name : Name) (now : ℕ) (s : Space)
    → IsValid s
    → name_get name s.by_name ≡ none
    → length s.by_key ≤ s.last - s.first
    → Given name s (allocate_new name now s)
unfolding allocate_new
allocate_new_lem name now s v absent room =
    let (k, found, free, low, high) = take_key-free s v.room room in
    let next = (take_key s).1.next in
    let after = record s {
      next = next;
      by_key = key_insert k (fresh_entry name now) s.by_key;
      by_name = name_insert name k s.by_name;
    } in
    let outcome : allocate_new name now s ≡ (ok (addr s.family k), after) =
      rw (allocate_new, found, take_key-next s) refl in
    let named : name_get name after.by_name ≡ some k =
      get-insert name_eq name_eq-eq name_eq_refl name_less name name k s.by_name
      ∙ rw (name_eq_refl name) refl in
    let kept : key_get k after.by_key ≡ some (fresh_entry name now) =
      get-insert ◌==◌ key_eq-eq key_eq_refl ltb k k (fresh_entry name now) s.by_key
      ∙ rw (key_eq_refl k) refl in
    rw outcome record {
      key = k;
      address = refl;
      low = low;
      high = high;
      named = named;
      owner = peek_lem k after (fresh_entry name now) kept;
      valid = entered-IsValid s next k now name v free absent (low, high);
      same_family = refl;
    }

-- A reclaim enters no name.
reclaim-absent :
    (name : Name) (now : ℕ) (s : Space)
    → IsValid s
    → name_get name s.by_name ≡ none
    → name_get name (reclaim now s).by_name ≡ none
reclaim-absent name now s v absent =
    let after = reclaim-IsValid now s v in
    let frame = reclaim_lem now s in
    elim (Option-cases (name_get name (reclaim now s).by_name)) [
      | inl still ↦ still
      | inr (k, entered) ↦
          let (e, there, named) = Agree-key after.agree name k entered in
          let left : key_get k (swept now s).0 ≡ some e =
            (λ i. key_get k (sym frame i).by_key) ∙ there in
          let before = get_sub-some ◌==◌ key_eq-eq k e (swept-Sub now s) v.agree.keys_once left in
          let owned : name_get name s.by_name ≡ some k =
            rw (← named) (Agree-name v.agree k e before) in
          absurd (cc)
    ]

allocate-fresh :
    (name : Name) (now : ℕ) (s : Space)
    → IsValid s
    → name_get name s.by_name ≡ none
    → Given name s (allocate name now s)
unfolding allocate len
allocate-fresh name now s v absent =
    let (some_room, limit) = capacity_lem s v in
    let all = keys_fit s v in
    elim (Bool-cases (leb (entry_cap s) (len s))) [
      | inr open_ ↦
          rw (allocate, absent, open_) (allocate_new_lem name now s v absent (ground arith))
      | inl full ↦
          let fewer = swept-fewer now s (ground arith) in
          let after = reclaim-IsValid now s v in
          let frame = reclaim_lem now s in
          let few : length (reclaim now s).by_key ≤ (reclaim now s).last - (reclaim now s).first =
            rw frame (omega arith) in
          let given =
            allocate_new_lem name now (reclaim now s) after (reclaim-absent name now s v absent)
              few in
          let family : (reclaim now s).family ≡ s.family = λ i. (frame i).family in
          let first : (reclaim now s).first ≡ s.first = λ i. (frame i).first in
          let last : (reclaim now s).last ≡ s.last = λ i. (frame i).last in
          let low = given.low in
          let high = given.high in
          rw (allocate, absent, full)
            record {
              key = given.key;
              address = given.address ∙ (λ i. ok (addr (family i) given.key));
              low = omega arith;
              high = omega arith;
              named = given.named;
              owner = given.owner;
              valid = given.valid;
              same_family = given.same_family ∙ family;
            }
    ]

touch-peek :
    (k now : ℕ) (s : Space) (e : Entry)
    → key_get k s.by_key ≡ some e
    → peek k (touch k now s) ≡ some e.name
unfolding touch
touch-peek k now s e there =
    let law =
      get-replace ◌==◌ key_eq-eq key_eq_refl k k (accessed now e) e s.by_key there
      ∙ rw (key_eq_refl k) refl in
    rw (touch, there)
      (peek_lem k (record s { by_key = replace ◌==◌ k (accessed now e) s.by_key }) (accessed now e)
        law)

-- On a right space an allocation always gives an address: the error is never returned. The key is in the
-- space, the name index holds it for the name, a reverse lookup of it yields the name, and the space is
-- right afterwards.
pub allocate_lem :
    (name : Name) (now : ℕ) (s : Space) → IsValid s → Given name s (allocate name now s)
unfolding allocate touch
allocate_lem name now s v = elim (Option-cases (name_get name s.by_name)) [
  | inl absent ↦ allocate-fresh name now s v absent
  | inr (k, known) ↦
      let (e, there, named) = Agree-key v.agree name k known in
      let (low, high) = v.agree.in_range k e there in
      let after = touch-IsValid k now s v in
      let still : name_get name (touch k now s).by_name ≡ some k = rw (touch, there) known in
      let seen = touch-peek k now s e there ∙ ap some named in
      rw (allocate, known)
        record {
          key = k;
          address = refl;
          low = low;
          high = high;
          named = still;
          owner = seen;
          valid = after;
          same_family = rw (touch, there) refl;
        }
]
