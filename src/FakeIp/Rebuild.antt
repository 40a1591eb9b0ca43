-- ===== src/FakeIp/Rebuild.antt =====
-- src/fakeip.rs: a rebuilt name index agrees with the entries that a sweep leaves.
use recurse_x.Prelude.{
  ℕ, ◌≡◌, refl, ◌∙◌, Bool-cases, inl, inr, Option, none, some, Option-cases, List, [], ◌∷◌, ◌==◌,
}
use recurse_x.Name.{Name, name_eq}
use recurse_x.Name.Equal.{name_eq-eq, name_eq_refl, name_less}
use recurse_x.Maps.{get, Distinct}
use recurse_x.Maps.Laws.{get-insert}
use recurse_x.Maps.Sub.{Sub, Sub-Distinct, get_sub-some}
use recurse_x.Maps.Reverse.{reversed-Sub, reversed}
use recurse_x.FakeIp.Space.{Entry, name_get, index_loop, name_insert}
use recurse_x.FakeIp.Agrees.{Agree, by_names, name_of, key_eq-eq}

-- A name of the entries goes to its key, any other stays as it was.
abbrev first_of : Option ℕ → Option ℕ → Option ℕ
first_of (some k) other = some k
first_of none other = other

get-index_loop :
    (n : Name) (m : List (ℕ × Entry)) (index : List (Name × ℕ))
    → Distinct name_eq (by_names m)
    → name_get n (index_loop m index) ≡ first_of (name_get n (by_names m)) (name_get n index)
unfolding index_loop reversed get
get-index_loop n [] index d = refl
get-index_loop n ((k, e) ∷ m) index (fresh, d) =
    let law = get-insert name_eq name_eq-eq name_eq_refl name_less n e.name k index in
    let ih = get-index_loop n m (name_insert e.name k index) d in
    elim (Bool-cases (name_eq n e.name)) [
      | inl same ↦
          let gone : name_get n (by_names m) ≡ none = rw (name_eq-eq n e.name same) fresh in
          ih ∙ rw (gone, law, same) refl
      | inr other ↦ ih ∙ rw (law, other) refl
    ]

pub index_loop-Agree :
    {lo hi : ℕ} {m kept : List (ℕ × Entry)} {ix : List (Name × ℕ)}
    → Agree lo hi m ix
    → Sub kept m
    → Agree lo hi kept (index_loop kept [])
unfolding get
index_loop-Agree {kept} a sub =
    let names_once = Sub-Distinct name_eq (reversed-Sub name_of sub) a.names_once in
    record {
      keys_once = Sub-Distinct ◌==◌ sub a.keys_once;
      names_once = names_once;
      index = λ n.
          get-index_loop n kept [] names_once ∙ (elim (Option-cases (name_get n (by_names kept))) [
            | inl absent ↦ rw absent refl
            | inr (k, there) ↦ rw there refl
          ]);
      in_range = λ i f g. a.in_range i f (get_sub-some ◌==◌ key_eq-eq i f sub a.keys_once g);
    }
