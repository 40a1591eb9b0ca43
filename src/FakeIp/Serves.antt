-- ===== src/FakeIp/Serves.antt =====
-- src/fakeip.rs: the operations of a space keep it right, and in its family.
use recurse_x.Prelude.{
  ℕ, ◌-◌, ◌≡◌, ◌||◌, refl, ◌∙◌, Bool, Bool-cases, true, false, not, Option-cases, inl, inr, ltb,
  ◌==◌, if◌then◌else◌, length,
}
use recurse_x.Name.{Name}
use recurse_x.Bounded.{retain_fresh}
use recurse_x.FakeIp.Space
use recurse_x.FakeIp.Space.{Space, Family, Entry, key_get, name_get, touch}
use recurse_x.FakeIp.Keeps.{
  IsValid, lookup-IsValid, restore-IsValid, cleanup_expired-IsValid, release-IsValid, clear-IsValid,
}
use recurse_x.FakeIp.Allocates.{allocate_lem}

-- A right space of the family.
pub record Serves (family : Family) (s : Space) : Type 0 where
  pub valid : IsValid s
  pub same : s.family ≡ family

pub allocate-Serves :
    (family : Family) (name : Name) (now : ℕ) (s : Space)
    → Serves family s
    → Serves family (Space.allocate name now s).1
allocate-Serves family name now s v =
    let given = allocate_lem name now s v.valid in
    record { valid = given.valid; same = given.same_family ∙ v.same }

touch-family : (key now : ℕ) (s : Space) → (touch key now s).family ≡ s.family
unfolding touch
touch-family key now s = elim (Option-cases (key_get key s.by_key)) [
  | inl absent ↦ rw (touch, absent) refl
  | inr (e, there) ↦ rw (touch, there) refl
]

pub lookup-Serves :
    (family : Family) (key now : ℕ) (s : Space)
    → Serves family s
    → Serves family (Space.lookup key now s).1
unfolding Space.lookup
lookup-Serves family key now s v =
    let same : (Space.lookup key now s).1.family ≡ s.family =
      elim (Option-cases (key_get key s.by_key)) [
        | inl absent ↦ rw (Space.lookup, absent) refl
        | inr (e, there) ↦ rw (Space.lookup, there) (touch-family key now s)
      ] in
    record { valid = lookup-IsValid key now s v.valid; same = same ∙ v.same }

pub restore-Serves :
    (family : Family) (name : Name) (key now : ℕ) (s : Space)
    → Serves family s
    → Serves family (Space.restore name key now s).1
unfolding Space.restore
restore-Serves family name key now s v =
    let same : (Space.restore name key now s).1.family ≡ s.family =
      elim (Bool-cases (not (Space.covers s key) || ltb key s.first)) [
        | inl a ↦ rw (Space.restore, a) refl
        | inr a ↦ elim (Bool-cases (Space.other_owner name key s)) [
          | inl b ↦ rw (Space.restore, a, b) refl
          | inr b ↦ elim (Bool-cases (Space.other_key name key s)) [
            | inl c ↦ rw (Space.restore, a, b, c) refl
            | inr c ↦ rw (Space.restore, a, b, c) refl
          ]
        ]
      ] in
    record { valid = restore-IsValid name key now s v.valid; same = same ∙ v.same }

either_family :
    (b : Bool) (x y : Space) {family : Family}
    → x.family ≡ family
    → y.family ≡ family
    → (if b then x else y).family ≡ family
either_family true x y p q = p
either_family false x y p q = q

pub cleanup_expired-Serves :
    (family : Family) (now : ℕ) (s : Space)
    → Serves family s
    → Serves family (Space.cleanup_expired now s).1
unfolding Space.cleanup_expired Space.rebuild_name_index
cleanup_expired-Serves family now s v =
    let kept : Space = record s {
      by_key = retain_fresh ◌==◌ ltb (λ (e : Entry). e.last_access) (now - s.ttl_nanos) s.by_key;
    } in
    record {
      valid = cleanup_expired-IsValid now s v.valid;
      same =
          either_family (not (length kept.by_key == length s.by_key))
            (Space.rebuild_name_index kept) kept v.same v.same;
    }

pub release-Serves :
    (family : Family) (name : Name) (s : Space)
    → Serves family s
    → Serves family (Space.release name s).1
unfolding Space.release
release-Serves family name s v =
    let same : (Space.release name s).1.family ≡ s.family =
      elim (Option-cases (name_get name s.by_name)) [
        | inl absent ↦ rw (Space.release, absent) refl
        | inr (k, there) ↦ rw (Space.release, there) refl
      ] in
    record { valid = release-IsValid name s v.valid; same = same ∙ v.same }

pub clear-Serves : (family : Family) (s : Space) → Serves family s → Serves family (Space.clear s)
unfolding Space.clear
clear-Serves family s v = record { valid = clear-IsValid s v.valid; same = v.same }
