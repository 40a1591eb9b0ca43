-- ===== src/Name/Text/Parsed.antt =====
-- src/name.rs: what `from_ascii` accepts is a name, and its errors are of the wire kind.
use mathlib.Core.Path.{ap₂}
use mathlib.Core.List.{map-append}
use recurse_x.Prelude.{
  ℕ, zero, suc, ◌+◌, ◌-◌, ◌*◌, ◌%◌, ◌≤◌, ◌<◌, ◌≡◌, refl, sym, ap, ◌∙◌, Bool-cases, inl, inr, not,
  ◌||◌, List, [], ◌∷◌, ◌++◌, map, leb, ltb, ◌==◌, length, length-map, length-append, All,
  All-append, arith, append_assoc, append-nil,
}
use recurse_x.Error.{ErrorKind, Result, ok, err, ◌>>=◌, wire_error}
use recurse_x.Name.{Name, to_lower}
use recurse_x.Name.Labels.{IsLabel, name_of, chain, chain-root, labels_len}
use recurse_x.Name.Text.{
  Draft, Turn, again, done, finish_label, push, decimal_byte, decimal_escape, on_backslash,
  empty_label, on_dot, turn, after_turn, text_loop, finish_last, from_ascii, is_digit,
}

-- The labels read so far, within the bounds.
pub record IsDraft (d : Draft) : Type 0 where
  pub ls : List (List ℕ)
  pub written_eq : d.written ≡ chain ls
  pub valid : All IsLabel ls
  pub total_eq : d.total ≡ labels_len ls
  pub count_eq : d.label_count ≡ length ls
  pub few : length ls ≤ 127
  pub short : labels_len ls ≤ 255

-- A result that is fine where it is a value, and a wire error otherwise.
abbrev pub Fine {ℓ} : {A : Type ℓ} → (A → Type 0) → Result A → Type 0
Fine P (ok a) = P a
Fine P (err e) = e.kind ≡ ErrorKind.wire

chain-snoc : (ls : List (List ℕ)) (l : List ℕ) → chain (ls ++ l ∷ []) ≡ chain ls ++ length l ∷ l
unfolding chain
chain-snoc [] l = ap (◌∷◌ (length l)) (append-nil l)
chain-snoc (k ∷ ls) l =
    ap (◌∷◌ (length k))
      (ap (◌++◌ k) (chain-snoc ls l) ∙ sym (append_assoc k (chain ls) (length l ∷ l)))

labels_len-snoc :
    (ls : List (List ℕ)) (l : List ℕ) → labels_len (ls ++ l ∷ []) ≡ labels_len ls + (1 + length l)
unfolding labels_len
labels_len-snoc [] l = omega arith
labels_len-snoc (k ∷ ls) l = omega (arith, labels_len-snoc ls l)

grown :
    (d : Draft) (h : IsDraft d)
    → length d.current ≤ 63
    → d.written ++ (length d.current % 256) ∷ d.current ≡ chain (h.ls ++ d.current ∷ [])
grown d h fits =
    let narrow : length d.current % 256 ≡ length d.current = omega arith in
    rw (narrow, h.written_eq) (sym (chain-snoc h.ls d.current))

finish_label-Fine : (d : Draft) → IsDraft d → 0 < length d.current → Fine IsDraft (finish_label d)
unfolding finish_label wire_error
finish_label-Fine d h some_bytes = elim (Bool-cases (ltb 63 (length d.current))) [
  | inl long ↦ rw long refl
  | inr fits ↦ elim (Bool-cases (ltb 255 (d.total + (1 + length d.current)))) [
    | inl large ↦ rw (fits, large) refl
    | inr small ↦ elim (Bool-cases (leb 127 d.label_count)) [
      | inl many ↦ rw (fits, small, many) refl
      | inr few ↦
          rw (fits, small, few)
            (record {
              ls = h.ls ++ d.current ∷ [];
              written_eq = grown d h (ground arith);
              valid =
                  All-append IsLabel h.ls (d.current ∷ []) h.valid ((some_bytes, ground arith), tt);
              total_eq = omega (arith, labels_len-snoc h.ls d.current, h.total_eq);
              count_eq = omega (arith, length-append h.ls (d.current ∷ []), h.count_eq);
              few = ground (arith, length-append h.ls (d.current ∷ []), h.count_eq);
              short = ground (arith, labels_len-snoc h.ls d.current, h.total_eq);
            })
    ]
  ]
]

-- A draft whose labels are untouched.
push-IsDraft : (d : Draft) (b : ℕ) → IsDraft d → IsDraft (push d b)
unfolding push
push-IsDraft d b h = record {
  ls = h.ls;
  written_eq = h.written_eq;
  valid = h.valid;
  total_eq = h.total_eq;
  count_eq = h.count_eq;
  few = h.few;
  short = h.short;
}

-- A turn keeps the draft valid and takes a byte of the text.
abbrev IsTurn : ℕ → Turn → Type 0
IsTurn n (again d rest) = IsDraft d × (length rest < n)
IsTurn n (done d) = IsDraft d

decimal_byte-Fine :
    (d : Draft) (d1 d2 d3 : ℕ) (rest : List ℕ) (n : ℕ)
    → IsDraft d
    → length rest < n
    → Fine (IsTurn n) (decimal_byte d d1 d2 d3 rest)
unfolding decimal_byte wire_error
decimal_byte-Fine d d1 d2 d3 rest n h less =
    elim (Bool-cases (not (is_digit d2) || not (is_digit d3))) [
      | inl bad ↦ rw bad refl
      | inr digits ↦
          elim (Bool-cases (ltb 255 ((d1 - b'0') * 100 + (d2 - b'0') * 10 + (d3 - b'0')))) [
            | inl large ↦ rw (digits, large) refl
            | inr small ↦
                rw (digits, small)
                  (
                    push-IsDraft d (((d1 - b'0') * 100 + (d2 - b'0') * 10 + (d3 - b'0')) % 256) h,
                    less,
                  )
          ]
    ]

on_backslash-Fine :
    (d : Draft) (rest : List ℕ)
    → IsDraft d
    → Fine (IsTurn (suc (length rest))) (on_backslash d rest)
unfolding on_backslash decimal_escape wire_error
on_backslash-Fine d [] h = refl
on_backslash-Fine d (e ∷ rest) h = elim (Bool-cases (is_digit e)) [
  | inl digit ↦ rw digit (digits rest)
  | inr other ↦ rw other (push-IsDraft d e h, omega arith)
]
  where
    digits : (more : List ℕ) → Fine (IsTurn (suc (suc (length more)))) (decimal_escape d e more)
    digits [] = refl
    digits (d2 ∷ []) = refl
    digits (d2 ∷ d3 ∷ more) =
        decimal_byte-Fine d e d2 d3 more (suc (suc (length (d2 ∷ d3 ∷ more)))) h (omega arith)

after_label :
    (rest : List ℕ) (r : Result Draft)
    → Fine IsDraft r
    → Fine (IsTurn (suc (length rest))) (r >>= λ d. ok (again d rest))
after_label rest (ok d) h = (h, omega arith)
after_label rest (err e) h = h

on_dot-Fine :
    (d : Draft) (rest : List ℕ) → IsDraft d → Fine (IsTurn (suc (length rest))) (on_dot d rest)
unfolding on_dot
on_dot-Fine d rest h = elim (Bool-cases (length d.current == 0)) [
  | inl empty ↦ rw empty (ended rest)
  | inr some_bytes ↦
      rw some_bytes (after_label rest (finish_label d) (finish_label-Fine d h (ground arith)))
]
  where
    ended : (more : List ℕ) → Fine (IsTurn (suc (length more))) (empty_label d more)
    ended [] = unfold empty_label in h
    ended (b ∷ more) = unfold empty_label wire_error in refl

turn-Fine : (d : Draft) (rest : List ℕ) → IsDraft d → Fine (IsTurn (length rest)) (turn d rest)
unfolding turn
turn-Fine d [] h = h
turn-Fine d (b ∷ rest) h = elim (Bool-cases (b == 0x5c)) [
  | inl backslash ↦ rw backslash (on_backslash-Fine d rest h)
  | inr other ↦ elim (Bool-cases (b == b'.')) [
    | inl dot ↦ rw (other, dot) (on_dot-Fine d rest h)
    | inr plain ↦ rw (other, plain) (push-IsDraft d b h, omega arith)
  ]
]

text_loop-Fine :
    (fuel : ℕ) (d : Draft) (rest : List ℕ)
    → IsDraft d
    → length rest < fuel
    → Fine IsDraft (text_loop fuel d rest)
unfolding text_loop
text_loop-Fine zero d rest h less = absurd (omega arith)
text_loop-Fine (suc fuel) d rest h less =
    next (turn d rest) (λ d' more h' fewer. text_loop-Fine fuel d' more h' (omega arith))
      (turn-Fine d rest h)
  where
    next :
        (r : Result Turn)
        → ((d' : Draft) (more : List ℕ)
            → IsDraft d'
            → length more < length rest
            → Fine IsDraft (text_loop fuel d' more))
        → Fine (IsTurn (length rest)) r
        → Fine IsDraft (r >>= after_turn (text_loop fuel))
    next (ok (again d' more)) loop (h', fewer) = unfold after_turn in loop d' more h' fewer
    next (ok (done d')) loop h' = unfold after_turn in h'
    next (err e) loop kind = kind

-- A name that a text may stand for: its labels, in lower case, within the bounds of the parser.
pub record IsParsed (n : Name) : Type 0 where
  pub ls : List (List ℕ)
  pub name_eq : n ≡ name_of ls
  pub valid : All IsLabel ls
  pub few : length ls ≤ 127
  pub short : labels_len ls ≤ 255

lower_chain :
    (ls : List (List ℕ)) → All IsLabel ls → map to_lower (chain ls) ≡ chain (map (map to_lower) ls)
unfolding chain
lower_chain [] h = refl
lower_chain (l ∷ ls) (hl, h) =
    let size : to_lower (length l) ≡ length (map to_lower l) =
      ground (arith, length-map to_lower l) in
    ap₂ ◌∷◌ size (map-append to_lower l (chain ls) ∙ ap (◌++◌ (map to_lower l)) (lower_chain ls h))

lower_valid : (ls : List (List ℕ)) → All IsLabel ls → All IsLabel (map (map to_lower) ls)
lower_valid [] h = tt
lower_valid (l ∷ ls) (hl, h) =
    let size = length-map to_lower l in ((omega arith, omega arith), lower_valid ls h)

lower_labels_len : (ls : List (List ℕ)) → labels_len (map (map to_lower) ls) ≡ labels_len ls
unfolding labels_len
lower_labels_len [] = refl
lower_labels_len (l ∷ ls) = omega (arith, lower_labels_len ls, length-map to_lower l)

draft-IsParsed :
    (d : Draft) → IsDraft d → IsParsed (record { bytes = map to_lower d.written ++ 0 ∷ [] })
draft-IsParsed d h = record {
  ls = map (map to_lower) h.ls;
  name_eq =
      ap (λ b. record { bytes = b })
        (rw (h.written_eq, lower_chain h.ls h.valid) (chain-root (map (map to_lower) h.ls)));
  valid = lower_valid h.ls h.valid;
  few = omega (arith, length-map (map to_lower) h.ls, h.few);
  short = omega (arith, lower_labels_len h.ls, h.short);
}

finish_last-Fine : (d : Draft) → IsDraft d → Fine IsDraft (finish_last d)
unfolding finish_last
finish_last-Fine d h = elim (Bool-cases (length d.current == 0)) [
  | inl empty ↦ rw empty h
  | inr some_bytes ↦ rw some_bytes (finish_label-Fine d h (ground arith))
]

-- Every text is a name or a wire error: the name has valid labels, at most 127 of them, that take at
-- most 255 bytes without the root's, and the loop does not run out of fuel.
pub from_ascii-IsParsed : (s : List ℕ) → Fine IsParsed (from_ascii s)
unfolding from_ascii
from_ascii-IsParsed s =
    looped (text_loop (length s + 1) empty s)
      (text_loop-Fine (length s + 1) empty s empty-IsDraft (omega arith))
  where
    empty : Draft
    empty = record { written = []; current = []; label_count = 0; total = 0 }

    empty-IsDraft : IsDraft empty
    empty-IsDraft =
        unfold chain labels_len in
        record {
          ls = [];
          written_eq = refl;
          valid = tt;
          total_eq = refl;
          count_eq = refl;
          few = omega arith;
          short = omega arith;
        }

    finished :
        (r : Result Draft)
        → Fine IsDraft r
        → Fine IsParsed (r >>= λ d. ok (record { bytes = map to_lower d.written ++ 0 ∷ [] }))
    finished (ok d) h = draft-IsParsed d h
    finished (err e) h = h

    looped :
        (r : Result Draft)
        → Fine IsDraft r
        → Fine IsParsed (
            r >>= λ d.
            (finish_last d >>= λ d'. ok (record { bytes = map to_lower d'.written ++ 0 ∷ [] })))
    looped (ok d) h = finished (finish_last d) (finish_last-Fine d h)
    looped (err e) h = h
