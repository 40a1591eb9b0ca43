-- ===== src/Qtype/Displays.antt =====
-- src/qtype.rs: the constants of the codes and their displays agree.
use Prim.Native.String.{String}
use text.Mathlib.Text.{◌==◌ as str_eq}
use text.Mathlib.TextEquality.{eq_iff}
use mathlib.Core.List.{Memᴰ}
use recurse_x.Prelude.{
  ℕ, ◌≡◌, ◌≢◌, ◌∙◌, sym, refl, ap, Bool, true, false, ◌&&◌, ◌||◌, List, [], ◌∷◌, ◌==◌, arith,
}
use recurse_x.Qtype.{Shown, named, numbered}
use recurse_x.Qtype.Codes.{
  class_constants, opcode_constants, rcode_constants, display_class, display_opcode, display_rcode,
}

is_named : String → Shown → Bool
is_named name (named shown) = str_eq shown name
is_named name (numbered prefix v) = false

is_named→eq : (name : String) (s : Shown) → is_named name s ≡ true → s ≡ named name
unfolding is_named
is_named→eq name (named shown) h = ap named (ground (arith, eq_iff shown name))
is_named→eq name (numbered prefix v) h = cc

all_named : (ℕ → Bool) → (ℕ → Shown) → List (String × ℕ) → Bool
all_named skip show [] = true
all_named skip show ((name, code) ∷ rest) =
    (skip code || is_named name (show code)) && all_named skip show rest

all_named-mem :
    (skip : ℕ → Bool) (show : ℕ → Shown) (table : List (String × ℕ)) (name : String) (code : ℕ)
    → all_named skip show table ≡ true
    → Memᴰ (name, code) table
    → skip code ≡ false
    → show code ≡ named name
unfolding all_named
all_named-mem skip show [] name code h m u = elim m [ ]
all_named-mem skip show ((n, c) ∷ rest) name code h (Memᴰ.head e) u =
    let kept : skip c ≡ false = ap skip (sym (ap (λ p. p.1) e)) ∙ u in
    rw (ap (λ p. p.0) e, ap (λ p. p.1) e) (is_named→eq n (show c) (ground arith))
all_named-mem skip show ((n, c) ∷ rest) name code h (Memᴰ.tail m) u =
    all_named-mem skip show rest name code (ground arith) m u

-- Every constant of the classes and opcodes is shown under its own name, and so is every response
-- code but the extended code BADVERS, 16.
pub codes_shown :
    (cl op rc : String) (c o r : ℕ)
    → Memᴰ (cl, c) class_constants
    → Memᴰ (op, o) opcode_constants
    → Memᴰ (rc, r) rcode_constants
    → r ≢ 16
    → (display_class (record { code = c }) ≡ named cl)
      × (display_opcode (record { code = o }) ≡ named op)
      × (display_rcode (record { code = r }) ≡ named rc)
unfolding all_named is_named display_class display_opcode display_rcode
codes_shown cl op rc c o r mc mo mr other = (
  all_named-mem (λ _. false) (λ v. display_class (record { code = v })) class_constants cl c refl mc
      refl,
  all_named-mem (λ _. false) (λ v. display_opcode (record { code = v })) opcode_constants op o refl
      mo refl,
  all_named-mem (λ v. v == 16) (λ v. display_rcode (record { code = v })) rcode_constants rc r refl
      mr (ground arith),
)
