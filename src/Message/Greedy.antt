-- ===== src/Message/Greedy.antt =====
-- src/message.rs: which records `truncate_for_udp` drops.
use recurse_x.Prelude.{
  ℕ, suc, ◌-◌, ◌<◌, ◌≡◌, refl, ap, true, false, Bool-cases, inl, inr, some, List, [], ◌∷◌, ltb, ◌⊎◌,
  ◌≤◌, if◌then◌else◌, length, get_elem?, take, arith,
}
use recurse_x.Error.{Error, Result, ok, err}
use recurse_x.Rdata.{Record}
use recurse_x.Rdata.ToWire.{Sink}
use recurse_x.Rdata.Records as Records
use recurse_x.Message.Sections.{Message}
use recurse_x.Message.Truncate.{Fit, refused, fit_records, fit_next, fit_sections, opt_len}
use recurse_x.Message.Fits.{start}

-- A record that could not be added: it is not written at all, or goes over the budget.
abbrev pub Refuses : ℕ → Record → Sink → Type 0
Refuses budget r s =
    ((e : Error) × (Records.to_wire r s ≡ err e))
    ⊎ ((t : Sink) × (Records.to_wire r s ≡ ok t) × (budget < length t.out))

-- Records that are written one behind the other, from the one sink to the other, and never go over
-- the budget.
pub data Accepted (budget : ℕ) : List Record → Sink → Sink → Type 0 where
  done : (s : Sink) → Accepted budget [] s s
  accept :
      {s s' t : Sink} {r : Record} {records : List Record}
      → Records.to_wire r s ≡ ok s'
      → length s'.out ≤ budget
      → Accepted budget records s' t
      → Accepted budget (r ∷ records) s t

-- The accepted records are written and fit. Where no record was refused, all were accepted; else the
-- first one behind the accepted ones was refused, and rightly.
record Greedy (budget : ℕ) (records : List Record) (s : Sink) (f : Fit) : Type 0 where
  fits : Accepted budget (take f.count records) s f.sink
  all : f.full ≡ false → f.count ≡ length records
  next :
      f.full ≡ true → (r : Record) × (get_elem? records f.count ≡ some r) × Refuses budget r f.sink

Greedy-refused :
    (budget : ℕ) (r : Record) (records : List Record) (s : Sink)
    → Refuses budget r s
    → Greedy budget (r ∷ records) s (refused s)
Greedy-refused budget r records s h = record {
  fits = Accepted.done s;
  all = λ e. cc;
  next = λ e. (r, refl, h);
}

fit_records-Greedy :
    (budget : ℕ) (records : List Record) (s : Sink)
    → Greedy budget records s (fit_records budget records s)
unfolding fit_records
fit_records-Greedy budget [] s = record { fits = Accepted.done s; all = λ e. refl; next = λ e. cc }
fit_records-Greedy budget (r ∷ records) s =
    by_write (λ s'. fit_records-Greedy budget records s') (Records.to_wire r s) refl
  where
    by_write :
        ((s' : Sink) → Greedy budget records s' (fit_records budget records s'))
        → (w : Result Sink) → Records.to_wire r s ≡ w
        → Greedy budget (r ∷ records) s (elim w [
          | err _ ↦ refused s
          | ok s' ↦
              let rest = fit_records budget records s' in
              if ltb budget (length s'.out)
              then refused s
              else record rest { count = suc rest.count }
        ])
    by_write accepted (err e) q = Greedy-refused budget r records s (inl (e, q))
    by_write accepted (ok s') q = elim (Bool-cases (ltb budget (length s'.out))) [
      | inl over ↦ rw over (Greedy-refused budget r records s (inr (s', q, ground arith)))
      | inr inside ↦
          let rest = accepted s' in
          rw inside (record {
            fits = Accepted.accept q (ground arith) rest.fits;
            all = λ e. ap suc (rest.all e);
            next = λ e. rest.next e;
          })
    ]

-- The loop over a section is greedy: the records it accepts are the first ones of the section, which
-- are written one behind the other into the sink it returns and stay within the budget at each step;
-- and either these are all records of the section, or it reports that it is full and the next record,
-- behind this sink, is not written or goes over the budget.
pub fit_records-greedy :
    (budget : ℕ) (records : List Record) (s : Sink)
    → let f = fit_records budget records s in
      Accepted budget (take f.count records) s f.sink
      × (((f.full ≡ false) × (f.count ≡ length records))
          ⊎ ((f.full ≡ true)
              × ((r : Record) × (get_elem? records f.count ≡ some r) × Refuses budget r f.sink)))
fit_records-greedy budget records s =
    let g = fit_records-Greedy budget records s in
    (
      g.fits,
      elim (Bool-cases (fit_records budget records s).full) [
        | inl full ↦ inr (full, g.next full)
        | inr room ↦ inl (room, g.all room)
      ],
    )

module _ (budget : ℕ) (records : List Record) (before : Fit) where
  fit_next_lem :
      (before.full ≡ true → fit_next budget records before ≡ refused before.sink)
      × (before.full ≡ false
          → fit_next budget records before ≡ fit_records budget records before.sink)
  unfolding fit_next
  fit_next_lem = ((λ h. rw h refl), (λ h. rw h refl))

  -- A section that accepts a record, or whose records are all accepted, follows one of that kind.
  fit_next-count : 0 < (fit_next budget records before).count → before.full ≡ false
  fit_next-count h = elim (Bool-cases before.full) [
    | inl full ↦ absurd (omega (arith, ap (λ f. f.count) (fit_next_lem.0 full)))
    | inr more ↦ more
  ]

  fit_next-full : (fit_next budget records before).full ≡ false → before.full ≡ false
  fit_next-full h = elim (Bool-cases before.full) [
    | inl full ↦ cc (ap (λ f. f.full) (fit_next_lem.0 full))
    | inr more ↦ more
  ]

  fit_next-all :
      before.full ≡ false
      → (fit_next budget records before).full ≡ false
      → (fit_next budget records before).count ≡ length records
  fit_next-all more h =
      let same = fit_next_lem.1 more in
      rw same ((fit_records-Greedy budget records before.sink).all (rw same at h))

-- Records are dropped from the end of the message: an authority record stays only where every answer
-- stays, and an additional record only where every answer and every authority record stays.
pub fit_sections-order :
    (m : Message) (limit : ℕ)
    → let (first, second, third) = fit_sections m limit in
      (0 < second.count → first.count ≡ length m.answers)
      × (0 < third.count → (first.count ≡ length m.answers) × (second.count ≡ length m.authorities))
unfolding fit_sections
fit_sections-order m limit =
    let budget = limit - opt_len m.edns in
    let first = fit_records budget m.answers (start m) in
    let second = fit_next budget m.authorities first in
    let all_answers : first.full ≡ false → first.count ≡ length m.answers =
      (fit_records-Greedy budget m.answers (start m)).all in
    (
      (λ h. all_answers (fit_next-count budget m.authorities first h)),
      (λ h.
          let more = fit_next-count budget m.additionals second h in
          let more' = fit_next-full budget m.authorities first more in
          (all_answers more', fit_next-all budget m.authorities first more' more)),
    )
