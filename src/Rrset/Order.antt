-- ===== src/Rrset/Order.antt =====
-- src/rrset.rs: the fingerprint does not depend on the order of the records, nor on their TTLs.
use mathlib.Core.List.{Permᴰ}
use recurse_x.Prelude.{
  ℕ, suc, ◌≡◌, refl, sym, ap, ◌∙◌, true, false, Bool-cases, inl, inr, List, [], ◌∷◌, map,
  length-map, ◌==◌, length, arith,
}
use recurse_x.Rrset.{
  RrSet, record_wire_without_ttl, bytes_le, insert_item, sort_items, combine_all, fingerprint,
  same_data,
}

bytes_le_total : (xs ys : List ℕ) → bytes_le xs ys ≡ false → bytes_le ys xs ≡ true
unfolding bytes_le
bytes_le_total [] ys h = cc
bytes_le_total (x ∷ xs) [] h = refl
bytes_le_total (x ∷ xs) (y ∷ ys) h = let more = bytes_le_total xs ys in ground arith

bytes_le_antisym : (xs ys : List ℕ) → bytes_le xs ys ≡ true → bytes_le ys xs ≡ true → xs ≡ ys
unfolding bytes_le
bytes_le_antisym [] [] h k = refl
bytes_le_antisym [] (y ∷ ys) h k = cc
bytes_le_antisym (x ∷ xs) [] h k = cc
bytes_le_antisym (x ∷ xs) (y ∷ ys) h k =
    let (same, first, second) : (x ≡ y) × (bytes_le xs ys ≡ true) × (bytes_le ys xs ≡ true) =
      ground arith in
    λ i. same i ∷ bytes_le_antisym xs ys first second i

bytes_le_trans :
    (xs ys zs : List ℕ) → bytes_le xs ys ≡ true → bytes_le ys zs ≡ true → bytes_le xs zs ≡ true
unfolding bytes_le
bytes_le_trans [] ys zs h k = refl
bytes_le_trans (x ∷ xs) [] zs h k = cc
bytes_le_trans (x ∷ xs) (y ∷ ys) [] h k = cc
bytes_le_trans (x ∷ xs) (y ∷ ys) (z ∷ zs) h k = let more = bytes_le_trans xs ys zs in ground arith

insert_here :
    (a b : List ℕ) (items : List (List ℕ))
    → bytes_le a b ≡ true
    → insert_item a (b ∷ items) ≡ a ∷ b ∷ items
unfolding insert_item
insert_here a b items h = rw h refl

insert_later :
    (a b : List ℕ) (items : List (List ℕ))
    → bytes_le a b ≡ false
    → insert_item a (b ∷ items) ≡ b ∷ insert_item a items
unfolding insert_item
insert_later a b items h = rw h refl

swap_front :
    (a b : List ℕ) (items : List (List ℕ))
    → bytes_le a b ≡ true
    → insert_item b items ≡ b ∷ items
    → insert_item b (a ∷ items) ≡ a ∷ b ∷ items
swap_front a b items h first = elim (Bool-cases (bytes_le b a)) [
  | inl both ↦
      let same = bytes_le_antisym a b h both in
      insert_here b a items both ∙ (λ i. sym same i ∷ same i ∷ items)
  | inr less ↦ insert_later b a items less ∙ ap (λ t. a ∷ t) first
]

insert_nil : (a : List ℕ) → insert_item a [] ≡ a ∷ []
unfolding insert_item
insert_nil a = refl

insert_ordered :
    (a b : List ℕ) (items : List (List ℕ))
    → bytes_le a b ≡ true
    → insert_item a (insert_item b items) ≡ insert_item b (insert_item a items)
insert_ordered a b [] h =
    rw (insert_nil b, insert_nil a)
      (insert_here a b [] h ∙ sym (swap_front a b [] h (insert_nil b)))
insert_ordered a b (c ∷ items) h = elim (Bool-cases (bytes_le b c)) [
  | inl low ↦
      let here = insert_here b c items low in
      let here' = insert_here a c items (bytes_le_trans a b c h low) in
      rw (here, here') (insert_here a b (c ∷ items) h ∙ sym (swap_front a b (c ∷ items) h here))
  | inr high ↦
      let later = insert_later b c items high in
      elim (Bool-cases (bytes_le a c)) [
        | inl low ↦
            let apart : bytes_le b a ≡ false = elim (Bool-cases (bytes_le b a)) [
              | inl both ↦ cc (bytes_le_trans b a c both low)
              | inr less ↦ less
            ] in
            rw (later, insert_here a c items low)
              (insert_here a c (insert_item b items) low
                ∙ sym (insert_later b a (c ∷ items) apart ∙ ap (λ t. a ∷ t) later))
        | inr high' ↦
            rw (later, insert_later a c items high')
              (insert_later a c (insert_item b items) high'
                ∙ ap (λ t. c ∷ t) (insert_ordered a b items h)
                ∙ sym (insert_later b c (insert_item a items) high))
      ]
]

insert_comm :
    (a b : List ℕ) (items : List (List ℕ))
    → insert_item a (insert_item b items) ≡ insert_item b (insert_item a items)
insert_comm a b items = elim (Bool-cases (bytes_le a b)) [
  | inl h ↦ insert_ordered a b items h
  | inr h ↦ sym (insert_ordered b a items (bytes_le_total a b h))
]

sort_items-Perm : (xs ys : List (List ℕ)) → Permᴰ xs ys → sort_items xs ≡ sort_items ys
unfolding sort_items
sort_items-Perm xs ys Permᴰ.nil = refl
sort_items-Perm xs ys (Permᴰ.cons {l₁ = l} {l₂ = m} e p) =
    λ i. insert_item (e i) (sort_items-Perm l m p i)
sort_items-Perm xs ys (Permᴰ.swap {a = a} {b = b} {l = l} e f) =
    insert_comm a b (sort_items l) ∙ (λ i. insert_item (f i) (insert_item (e i) (sort_items l)))
sort_items-Perm xs ys (Permᴰ.trans {l₂ = l} p q) = sort_items-Perm xs l p ∙ sort_items-Perm l ys q

length-Perm : (xs ys : List (List ℕ)) → Permᴰ xs ys → length xs ≡ length ys
length-Perm xs ys Permᴰ.nil = refl
length-Perm xs ys (Permᴰ.cons {l₁ = l} {l₂ = m} e p) = ap suc (length-Perm l m p)
length-Perm xs ys (Permᴰ.swap e f) = refl
length-Perm xs ys (Permᴰ.trans {l₂ = l} p q) = length-Perm xs l p ∙ length-Perm l ys q

-- Two sets have the same data where the wire forms of their records, without the TTLs, are the same up
-- to their order: neither the order of the records nor their TTLs count as a change.
pub same_data-Perm :
    (s t : RrSet)
    → Permᴰ (map record_wire_without_ttl s.records) (map record_wire_without_ttl t.records)
    → same_data s t ≡ true
unfolding same_data fingerprint
same_data-Perm s t p =
    let xs = map record_wire_without_ttl s.records in
    let ys = map record_wire_without_ttl t.records in
    let size : (length s.records == length t.records) ≡ true = ground (
      arith,
      length-Perm xs ys p,
      length-map record_wire_without_ttl s.records,
      length-map record_wire_without_ttl t.records,
    ) in
    let same : combine_all 0xcbf29ce484222325 (sort_items xs)
        ≡ combine_all 0xcbf29ce484222325 (sort_items ys) =
      ap (combine_all 0xcbf29ce484222325) (sort_items-Perm xs ys p) in
    rw size (ground (arith, same))
