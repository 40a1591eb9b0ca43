-- ===== src/Rdata/Strings.antt =====
-- src/rdata.rs: character strings, and the loops of TXT and SVCB, written and read back.
use recurse_x.Prelude.{
  ℕ, zero, suc, ◌+◌, ◌%◌, ◌^◌, ◌≤◌, ◌<◌, ◌≡◌, refl, ap, ◌∙◌, true, false, min, List, [], ◌∷◌, ◌++◌,
  append_assoc, leb, ltb, length, length-append, take_of_length-le, All, arith,
}
use recurse_x.Error.{ok, wire_error}
use recurse_x.Wire.{usize_limit, to_be_bytes, capped, get_range}
use recurse_x.Wire.Reads.{length-to_be_bytes}
use recurse_x.Wire.Holds.{Holds, byte_at-Holds}
use recurse_x.Rdata.Fields.{read_char_string, txt_string, txt_loop, svcb_param, svcb_loop}
use recurse_x.Rdata.ToWire.{char_string, strings_wire, param_wire, params_wire}
use recurse_x.Rdata.Readers.{Holds-byte, Holds-word, Holds-behind, read_u16-Holds, counted-Holds}

abbrev pub IsShort : List ℕ → Type 0
IsShort s = length s ≤ 255

pub capped_lem : (s : List ℕ) (limit : ℕ) → length s ≤ limit → capped s limit ≡ s
unfolding capped get_range
capped_lem s limit h = let all = take_of_length-le limit s h in ground arith

pub char_string_lem : (s : List ℕ) → IsShort s → char_string s ≡ length s ∷ s
unfolding char_string
char_string_lem s h =
    let len : min (length s) 255 % 256 ≡ length s = omega arith in rw (len, capped_lem s 255 h) refl

param_wire_lem :
    (key : ℕ) (value : List ℕ)
    → length value ≤ 0xffff
    → param_wire (key, value) ≡ to_be_bytes 2 key ++ (to_be_bytes 2 (length value) ++ value)
unfolding param_wire
param_wire_lem key value h =
    let len : min (length value) 0xffff % 2 ^ 16 ≡ length value = omega arith in
    rw (len, capped_lem value 0xffff h) refl

-- A parameter that can be written: a 16-bit key and a value with a 16-bit length.
abbrev pub IsParam : ℕ × List ℕ → Type 0
IsParam p = (p.0 < 2 ^ 16) × (length p.1 ≤ 0xffff)

module _ (buf : List ℕ) (room : length buf < usize_limit) (end : ℕ) where
  pub read_char_string-Holds :
      (p : ℕ) (s ys : List ℕ)
      → IsShort s
      → p + 1 + length s ≤ end
      → Holds buf p (char_string s ++ ys)
      → read_char_string buf end p ≡ ok (s, p + 1 + length s)
  unfolding read_char_string
  read_char_string-Holds p s ys short inside h =
      let h' : Holds buf p (length s ∷ (s ++ ys)) = rw (char_string_lem s short) at h in
      let fine : leb end p ≡ false = ground arith in
      rw (fine, byte_at-Holds buf p (length s) (s ++ ys) h')
        (counted-Holds buf room end (p + 1) s ys (wire_error "character-string truncated") inside
          (Holds-byte buf p (p + 1) (length s) (s ++ ys) refl h'))

  txt_string-Holds :
      (p : ℕ) (s ys : List ℕ)
      → IsShort s
      → p + 1 + length s ≤ end
      → Holds buf p (char_string s ++ ys)
      → txt_string buf end p ≡ ok (s, p + 1 + length s)
  unfolding txt_string
  txt_string-Holds p s ys short inside h =
      let h' : Holds buf p (length s ∷ (s ++ ys)) = rw (char_string_lem s short) at h in
      rw (byte_at-Holds buf p (length s) (s ++ ys) h') (
        counted-Holds buf room end (p + 1) s ys (wire_error "TXT string truncated") inside
          (Holds-byte buf p (p + 1) (length s) (s ++ ys) refl h'))

  pub txt_loop-Holds :
      (fuel p : ℕ) (strings : List (List ℕ))
      → All IsShort strings
      → Holds buf p (strings_wire strings)
      → p + length (strings_wire strings) ≡ end
      → length (strings_wire strings) < fuel
      → txt_loop buf end fuel p ≡ ok (strings, end)
  unfolding txt_loop strings_wire
  txt_loop-Holds zero p strings short h e enough = absurd (omega arith)
  txt_loop-Holds (suc fuel) p [] short h e enough =
      let over : ltb p end ≡ false = ground arith in
      let here : p ≡ end = omega arith in rw (over, here) refl
  txt_loop-Holds (suc fuel) p (s ∷ strings) (short, shorts) h e enough =
      let wire = strings_wire strings in
      let size : length (char_string s ++ wire) ≡ 1 + length s + length wire =
        rw (char_string_lem s short) (omega (arith, length-append s wire)) in
      let inside : ltb p end ≡ true = ground (arith, size) in
      let head = txt_string-Holds p s wire short (omega (arith, size)) h in
      let place : p + 1 + length s ≡ p + length (char_string s) =
        rw (char_string_lem s short) (omega arith) in
      let more =
        txt_loop-Holds fuel (p + 1 + length s) strings shorts
          (Holds-behind buf p (p + 1 + length s) (char_string s) wire place h) (omega (arith, size))
          (omega (arith, size)) in
      rw (inside, head, more) refl

  svcb_param-Holds :
      (p key : ℕ) (value ys : List ℕ)
      → IsParam (key, value)
      → p + 4 + length value ≤ end
      → Holds buf p (to_be_bytes 2 key ++ (to_be_bytes 2 (length value) ++ (value ++ ys)))
      → svcb_param buf end p ≡ ok ((key, value), p + 4 + length value)
  unfolding svcb_param
  svcb_param-Holds p key value ys (small, short) inside h =
      let fine : ltb end (p + 4) ≡ false = ground arith in
      let h2 =
        Holds-word buf p (p + 2) 2 key (to_be_bytes 2 (length value) ++ (value ++ ys)) refl h in
      let h4 = Holds-word buf (p + 2) (p + 4) 2 (length value) (value ++ ys) (omega arith) h2 in
      let e = wire_error "SVCB param value truncated" in
      rw
        (
          fine,
          read_u16-Holds buf room end p key _ small (omega arith) h,
          read_u16-Holds buf room end (p + 2) (length value) _ (omega arith) (omega arith) h2,
          counted-Holds buf room end (p + 4) value ys e inside h4,
        )
        refl

  pub svcb_loop-Holds :
      (fuel p : ℕ) (params : List (ℕ × List ℕ))
      → All IsParam params
      → Holds buf p (params_wire params)
      → p + length (params_wire params) ≡ end
      → length (params_wire params) < fuel
      → svcb_loop buf end fuel p ≡ ok (params, end)
  unfolding svcb_loop params_wire
  svcb_loop-Holds zero p params ok_params h e enough = absurd (omega arith)
  svcb_loop-Holds (suc fuel) p [] ok_params h e enough =
      let over : ltb p end ≡ false = ground arith in
      let here : p ≡ end = omega arith in rw (over, here) refl
  svcb_loop-Holds (suc fuel) p ((key, value) ∷ params) (fits, more_fit) h e enough =
      let wire = params_wire params in
      let len = to_be_bytes 2 (length value) in
      let shape = param_wire_lem key value fits.1 in
      let width : length (param_wire (key, value)) ≡ 4 + length value = rw shape (
        omega (
          arith,
          length-append (to_be_bytes 2 key) (len ++ value),
          length-append len value,
          length-to_be_bytes 2 key,
          length-to_be_bytes 2 (length value),
        )) in
      let size : length (param_wire (key, value) ++ wire) ≡ 4 + length value + length wire =
        omega (arith, length-append (param_wire (key, value)) wire, width) in
      let split : param_wire (key, value) ++ wire ≡ to_be_bytes 2 key ++ (len ++ (value ++ wire)) =
        ap (λ t. t ++ wire) shape
        ∙ append_assoc (to_be_bytes 2 key) (len ++ value) wire
        ∙ ap (λ t. to_be_bytes 2 key ++ t) (append_assoc len value wire) in
      let inside : ltb p end ≡ true = ground (arith, size) in
      let head = svcb_param-Holds p key value wire fits (omega (arith, size)) (rw split at h) in
      let next = p + 4 + length value in
      let rest = Holds-behind buf p next (param_wire (key, value)) wire (omega (arith, width)) h in
      let more =
        svcb_loop-Holds fuel next params more_fit rest (omega (arith, size))
          (omega (arith, size)) in
      rw (inside, head, more) refl
