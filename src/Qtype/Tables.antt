-- ===== src/Qtype/Tables.antt =====
-- src/qtype.rs: the constants, the names and the classes of record types agree.
use Prim.Native.String.{String}
use text.Mathlib.Text.{◌==◌ as str_eq}
use text.Mathlib.TextEquality.{eq_iff}
use mathlib.Core.List.{Memᴰ}
use recurse_x.Prelude.{
  ℕ, ◌<◌, ◌≤◌, ◌≡◌, refl, ap, ◌∙◌, sym, Bool, true, false, ◌&&◌, List, [], ◌∷◌, leb, All, arith,
}
use recurse_x.Qtype.{RrType, constants, arms, match_arm, as_str, is_known, named, display}

-- Every entry of the table of constants has its name as text and is a known type, and the types that
-- may be compressed are answers.
constants_agree : List (String × ℕ) → Bool
constants_agree [] = true
constants_agree ((name, code) ∷ rest) =
    str_eq (as_str (record { code = code })) name
    && is_known (record { code = code })
    && constants_agree rest

constants_checked : constants_agree constants ≡ true
unfolding constants_agree as_str match_arm is_known
constants_checked = refl

-- A number above 32769 has no arm.
no_arm :
    (table : List (ℕ × String)) (v : ℕ)
    → All (λ a. a.0 ≤ 32769) table
    → 32769 < v
    → match_arm table "TYPE" v ≡ "TYPE"
unfolding match_arm
no_arm [] v h big = refl
no_arm ((n, name) ∷ rest) v (h, hs) big = ground (arith, no_arm rest v hs big)

as_str_large : (t : RrType) → 32769 < t.code → as_str t ≡ "TYPE"
unfolding as_str
as_str_large t h = no_arm arms t.code (omega arith) h

-- Every type above 32769, the private-use range among them, is shown as the bare text TYPE, so that
-- two different types are shown alike.
pub display_large :
    (t u : RrType)
    → 32769 < t.code
    → 32769 < u.code
    → (display t ≡ named "TYPE") × (display t ≡ display u)
unfolding display
display_large t u ht hu = (bare t ht, bare t ht ∙ sym (bare u hu))
  where
    bare : (v : RrType) → 32769 < v.code → display v ≡ named "TYPE"
    bare v h =
        let big : leb v.code 32769 ≡ false = ground arith in rw (display, big, as_str_large v h)

agree_at :
    (table : List (String × ℕ)) (name : String) (code : ℕ)
    → constants_agree table ≡ true
    → Memᴰ (name, code) table
    → (as_str (record { code = code }) ≡ name) × (is_known (record { code = code }) ≡ true)
unfolding constants_agree
agree_at [] name code h m = elim m [ ]
agree_at ((n, c) ∷ rest) name code h (Memᴰ.head e) =
    let text : as_str (record { code = c }) ≡ n =
      ground (arith, eq_iff (as_str (record { code = c })) n) in
    let known : is_known (record { code = c }) ≡ true = ground arith in
    rw (ap (λ p. p.0) e, ap (λ p. p.1) e) (text, known)
agree_at ((n, c) ∷ rest) name code h (Memᴰ.tail m) = agree_at rest name code (ground arith) m

-- Each constant of the type is shown under its own name, and counts as a known type.
pub constants_shown :
    (name : String) (code : ℕ)
    → Memᴰ (name, code) constants
    → (display (record { code = code }) ≡ named name) × (is_known (record { code = code }) ≡ true)
unfolding display
constants_shown name code m =
    let (text, known) = agree_at constants name code constants_checked m in
    (rw (known, display) (ground (arith, text)), known)
