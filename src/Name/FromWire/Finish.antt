-- ===== src/Name/FromWire/Finish.antt =====
-- The end of `Name::from_wire`: the name is put together from the lengths and the pool of bytes.
use recurse_x.Prelude.{
  ℕ, ◌≡◌, sym, ap, ◌∙◌, List, [], ◌∷◌, ◌++◌, map, append_assoc, append-nil, some, ◌-◌, length,
  length-append, length-map, drop-append_length, take-append_length, arith, if◌then◌else◌, leb,
}
use recurse_x.Error.{ok, err, wire_error}
use recurse_x.Wire.{get_range, get_from}
use recurse_x.Name.{max_labels}
use recurse_x.Name.Labels.{encode, pool, chain, chain-root}
use recurse_x.Name.FromWire.{Scan, reassemble, finish}

take_label :
    (l rest : List ℕ)
    → (get_range (l ++ rest) 0 (length l) ≡ some l) × (get_from (l ++ rest) (length l) ≡ some rest)
unfolding get_range get_from
take_label l rest =
    let whole : length l - 0 ≡ length l = omega arith in
    (
      rw (get_range, whole, take-append_length) (ground (arith, length-append l rest)),
      rw (drop-append_length) (ground (arith, length-append l rest)),
    )

reassemble-chain :
    (ls : List (List ℕ)) (out : List ℕ)
    → reassemble out (pool ls) (map length ls) ≡ ok (out ++ chain ls)
unfolding reassemble pool chain
reassemble-chain [] out = ap ok (sym (append-nil out))
reassemble-chain (l ∷ ls) out =
    rw ((take_label l (pool ls)).0, (take_label l (pool ls)).1)
      (reassemble-chain ls (out ++ length l ∷ l)
        ∙ ap ok (append_assoc out (length l ∷ l) (chain ls)))

-- The name of the labels that the lengths and the pool stand for, unless there are too many.
pub finish_lem :
    (s : Scan) (ls : List (List ℕ))
    → s.lens ≡ map length ls
    → s.label_bytes ≡ pool ls
    → finish s ≡ (
        if leb max_labels (length ls)
        then err (wire_error "too many labels")
        else ok (record { bytes = encode ls }, s.end))
unfolding finish
finish_lem s ls hl hb = rw (hl, hb, length-map, reassemble-chain ls [], chain-root) (ground arith)
