-- ===== src/FakeIp/Runs.antt =====
-- src/fakeip.rs: any run of the operations of a space, from the space that `Space::new` makes.
use recurse_x.Prelude.{
  ℕ, ◌^◌, ◌≤◌, ◌<◌, ◌≡◌, ◌↔◌, ap, ◌∙◌, some, Option-cases, inl, inr, some-eq, List, [], ◌∷◌,
}
use recurse_x.Name.{Name}
use recurse_x.FakeIp.Space.{
  Space, Family, bits, new, allocate, lookup, restore, cleanup_expired, release, clear, peek,
  name_get, key_get,
}
use recurse_x.FakeIp.Agrees.{Agree-key, Agree-name}
use recurse_x.FakeIp.Keeps.{
  IsValid, new-IsValid, lookup-IsValid, restore-IsValid, cleanup_expired-IsValid, release-IsValid,
  clear-IsValid,
}
use recurse_x.FakeIp.Allocates.{allocate_lem, peek_lem}

-- The methods that take `&mut self`, with their arguments.
pub data Call : Type 0 where
  allocates : Name → ℕ → Call
  looks_up : ℕ → ℕ → Call
  restores : Name → ℕ → ℕ → Call
  cleans_up : ℕ → Call
  releases : Name → Call
  clears : Call

unfoldable pub apply : Call → Space → Space
unfolding allocate lookup restore cleanup_expired release clear
apply (allocates name now) s = (allocate name now s).1
apply (looks_up key now) s = (lookup key now s).1
apply (restores name key now) s = (restore name key now s).1
apply (cleans_up now) s = (cleanup_expired now s).1
apply (releases name) s = (release name s).1
apply clears s = clear s

unfoldable pub run : List Call → Space → Space
unfolding apply
run [] s = s
run (call ∷ calls) s = run calls (apply call s)

apply-IsValid : (call : Call) (s : Space) → IsValid s → IsValid (apply call s)
unfolding apply
apply-IsValid (allocates name now) s v = (allocate_lem name now s v).valid
apply-IsValid (looks_up key now) s v = lookup-IsValid key now s v
apply-IsValid (restores name key now) s v = restore-IsValid name key now s v
apply-IsValid (cleans_up now) s v = cleanup_expired-IsValid now s v
apply-IsValid (releases name) s v = release-IsValid name s v
apply-IsValid clears s v = clear-IsValid s v

pub run-IsValid : (calls : List Call) (s : Space) → IsValid s → IsValid (run calls s)
unfolding run
run-IsValid [] s v = v
run-IsValid (call ∷ calls) s v = run-IsValid calls (apply call s) (apply-IsValid call s v)

peek→ :
    (k : ℕ) (n : Name) (s : Space) → IsValid s → peek k s ≡ some n → name_get n s.by_name ≡ some k
unfolding peek
peek→ k n s v h = elim (Option-cases (key_get k s.by_key)) [
  | inl absent ↦ let h' = rw (peek, absent) at h in absurd (cc)
  | inr (e, there) ↦
      let named : e.name ≡ n = some-eq (rw (peek, there) at h) in
      rw (← named) (Agree-name v.agree k e there)
]

-- After any calls on a new space, its range not empty, above 0 and within the family's width, the name
-- index holds a key for a name exactly where a reverse lookup of the key yields the name.
pub peek-run :
    (family : Family) (first last max_entries ttl : ℕ) (calls : List Call) (n : Name) (k : ℕ)
    → 0 < first
    → first ≤ last
    → last < 2 ^ bits family
    → (name_get n (run calls (new family first last max_entries ttl)).by_name ≡ some k)
      ↔ (peek k (run calls (new family first last max_entries ttl)) ≡ some n)
peek-run family first last max_entries ttl calls n k p q r =
    let s = run calls (new family first last max_entries ttl) in
    let v : IsValid s =
      run-IsValid calls (new family first last max_entries ttl)
        (new-IsValid family first last max_entries ttl p q r) in
    (
      λ h. let (e, there, named) = Agree-key v.agree n k h in peek_lem k s e there ∙ ap some named,
      peek→ k n s v,
    )
