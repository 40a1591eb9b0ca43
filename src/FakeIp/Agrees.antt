-- ===== src/FakeIp/Agrees.antt =====
-- src/fakeip.rs: the agreement of the address index with the name index, and the changes to both that
-- keep it.
use recurse_x.Prelude.{
  ℕ, ◌≤◌, ◌≡◌, refl, sym, ◌∙◌, true, Bool-cases, inl, inr, none, some, List, ltb, ◌==◌, arith,
}
use recurse_x.Name.{Name, name_eq}
use recurse_x.Name.Equal.{name_eq-eq, name_eq_refl, name_less}
use recurse_x.Maps.{replace, remove, Distinct}
use recurse_x.Maps.Laws.{
  get-insert, get-remove, get-replace, replace-Distinct, insert-absent, insert-present,
  place-Distinct,
}
use recurse_x.Maps.Sub.{Sub-Distinct, remove-Sub, get_sub-some}
use recurse_x.Maps.Reverse.{
  reversed, reversed-Sub, reversed-replace, get-reversed→, get-reversed←, get-reversed-place,
  reversed-place-Distinct, get-reversed-remove,
}
use recurse_x.FakeIp.Space.{Entry, key_get, name_get, key_insert, name_insert}

pub key_eq-eq : (a b : ℕ) → (a == b) ≡ true → a ≡ b
key_eq-eq a b h = ground arith

pub key_eq_refl : (a : ℕ) → (a == a) ≡ true
key_eq_refl a = ground arith

abbrev pub name_of : Entry → Name
name_of e = e.name

-- The entries read backwards, which the name index stands for.
abbrev pub by_names : List (ℕ × Entry) → List (Name × ℕ)
by_names = reversed name_of

pub record Agree (lo hi : ℕ) (by_key : List (ℕ × Entry)) (by_name : List (Name × ℕ)) : Type 0 where
  pub keys_once : Distinct ◌==◌ by_key
  pub names_once : Distinct name_eq (by_names by_key)
  pub index : (n : Name) → name_get n by_name ≡ name_get n (by_names by_key)
  pub in_range : (k : ℕ) (e : Entry) → key_get k by_key ≡ some e → (lo ≤ k) × (k ≤ hi)

module _ {lo hi : ℕ} {m : List (ℕ × Entry)} {ix : List (Name × ℕ)} (a : Agree lo hi m ix) where
  -- The index holds the key of each entry's name, and nothing else.
  pub Agree-key :
      (n : Name) (k : ℕ)
      → name_get n ix ≡ some k
      → (e : Entry) × (key_get k m ≡ some e) × (e.name ≡ n)
  Agree-key n k h =
      get-reversed→ ◌==◌ name_eq name_of key_eq-eq key_eq_refl name_eq-eq name_eq_refl n k m
        a.keys_once (sym (a.index n) ∙ h)

  pub Agree-name : (k : ℕ) (e : Entry) → key_get k m ≡ some e → name_get e.name ix ≡ some k
  Agree-name k e h =
      a.index e.name
      ∙ get-reversed← ◌==◌ name_eq name_of key_eq-eq key_eq_refl name_eq-eq name_eq_refl k e m
          a.names_once h

  -- A value changed, the name kept.
  pub Agree-replace :
      (k : ℕ) (e old : Entry)
      → key_get k m ≡ some old
      → e.name ≡ old.name
      → Agree lo hi (replace ◌==◌ k e m) ix
  Agree-replace k e old h named =
      let same : by_names (replace ◌==◌ k e m) ≡ by_names m =
        reversed-replace ◌==◌ name_eq name_of key_eq-eq key_eq_refl name_eq-eq name_eq_refl k e old
          m h named a.keys_once in
      record {
        keys_once = replace-Distinct ◌==◌ k e m a.keys_once;
        names_once = rw same a.names_once;
        index = λ n. rw same (a.index n);
        in_range = λ i f g. elim (Bool-cases (i == k)) [
          | inl here ↦ rw (key_eq-eq i k here) (a.in_range k old h)
          | inr there ↦
              let law = get-replace ◌==◌ key_eq-eq key_eq_refl i k e old m h in
              let before : key_get i m ≡ some f = sym (rw there at law) ∙ g in a.in_range i f before
        ];
      }

  -- A new key under a new name.
  pub Agree-place :
      (k : ℕ) (e : Entry)
      → key_get k m ≡ none
      → name_get e.name ix ≡ none
      → (lo ≤ k) × (k ≤ hi)
      → Agree lo hi (key_insert k e m) (name_insert e.name k ix)
  Agree-place k e h new_name range =
      let placed = insert-absent ◌==◌ ltb k e m h in
      let absent : name_get e.name (by_names m) ≡ none = sym (a.index e.name) ∙ new_name in
      record {
        keys_once = rw placed (place-Distinct ◌==◌ key_eq-eq key_eq_refl ltb k e m h a.keys_once);
        names_once = rw placed (
            reversed-place-Distinct ◌==◌ name_eq name_of key_eq-eq key_eq_refl name_eq-eq
              name_eq_refl ltb k e m absent a.names_once);
        index = λ n.
            get-insert name_eq name_eq-eq name_eq_refl name_less n e.name k ix
            ∙ rw
                (
                  placed,
                  a.index n,
                  get-reversed-place ◌==◌ name_eq name_of key_eq-eq key_eq_refl name_eq-eq
                      name_eq_refl ltb n k e m absent,
                )
                refl;
        in_range = λ i f g. elim (Bool-cases (i == k)) [
          | inl here ↦ rw (key_eq-eq i k here) range
          | inr there ↦
              let law = get-insert ◌==◌ key_eq-eq key_eq_refl ltb i k e m in
              let before : key_get i m ≡ some f = sym (rw there at law) ∙ g in a.in_range i f before
        ];
      }

  -- A known key recorded again under its name.
  pub Agree-known :
      (k : ℕ) (e old : Entry)
      → key_get k m ≡ some old
      → e.name ≡ old.name
      → Agree lo hi (key_insert k e m) (name_insert e.name k ix)
  Agree-known k e old h named =
      let replaced = insert-present ◌==◌ ltb k e old m h in
      let next : Agree lo hi (key_insert k e m) ix = rw replaced (Agree-replace k e old h named) in
      let owned : name_get e.name ix ≡ some k = rw named (Agree-name k old h) in
      record {
        keys_once = next.keys_once;
        names_once = next.names_once;
        index = λ n.
            get-insert name_eq name_eq-eq name_eq_refl name_less n e.name k ix
            ∙ (elim (Bool-cases (name_eq n e.name)) [
              | inl same ↦
                  rw same (sym owned ∙ next.index e.name ∙ rw (name_eq-eq n e.name same) refl)
              | inr other ↦ rw other (next.index n)
            ]);
        in_range = next.in_range;
      }

  -- A name forgotten with its key.
  pub Agree-remove :
      (n : Name) (k : ℕ)
      → name_get n ix ≡ some k
      → Agree lo hi (remove ◌==◌ k m) (remove name_eq n ix)
  Agree-remove n k h =
      let sub = remove-Sub ◌==◌ k m in
      let listed : name_get n (by_names m) ≡ some k = sym (a.index n) ∙ h in
      record {
        keys_once = Sub-Distinct ◌==◌ sub a.keys_once;
        names_once = Sub-Distinct name_eq (reversed-Sub name_of sub) a.names_once;
        index = λ i.
            get-remove name_eq name_eq-eq name_eq_refl i n ix
            ∙ rw
                (
                  a.index i,
                  get-reversed-remove ◌==◌ name_eq name_of key_eq-eq key_eq_refl name_eq-eq
                      name_eq_refl i n k m a.keys_once a.names_once listed,
                )
                refl;
        in_range = λ i f g. a.in_range i f (get_sub-some ◌==◌ key_eq-eq i f sub a.keys_once g);
      }
