-- ===== src/Edns/RoundTrip.antt =====
-- src/edns.rs: the options and the fields of the pseudo-record, written and read back.
use recurse_x.Prelude.{
  ℕ, zero, suc, ◌+◌, ◌*◌, ◌/◌, ◌%◌, ◌^◌, ◌<◌, ◌≡◌, refl, sym, Bool, true, false, not, Bool-cases,
  inl, inr, List, [], ◌∷◌, ◌++◌, map, append-nil, ltb, ◌==◌, if◌then◌else◌, length, length-append,
  All, arith,
}
use recurse_x.Prelude.Bits.{bit_and-low, bit_and-digit, bit_or-shifted}
use recurse_x.Error.{ok}
use recurse_x.Wire.{usize_limit, to_be_bytes}
use recurse_x.Wire.Reads.{length-to_be_bytes}
use recurse_x.Wire.Holds.{Holds, Holds-left, Holds-right, u16_at-Holds, slice_at-Holds}
use recurse_x.Edns.{
  EdnsOption, Edns, code, option_data, option_wire, options_wire, option_at, options_loop,
  parse_options, parse, ttl_field, client_subnet, cookie, tcp_keepalive, padding, key_tag, nsid,
  ede, unknown,
}
use recurse_x.Edns.OneOption.{IsOption, unpadded, parse_option-option_data}

-- An option that can be written: its fields fit, and its data has a 16-bit length.
abbrev pub Fits : EdnsOption → Type 0
Fits o = IsOption o × (length (option_data o) < 2 ^ 16)

code-lt : (o : EdnsOption) → IsOption o → code o < 2 ^ 16
unfolding code
code-lt (unknown number bytes) (h, _) = h
code-lt (client_subnet e) h = omega arith
code-lt (cookie client server) h = omega arith
code-lt (tcp_keepalive t) h = omega arith
code-lt (padding n) h = omega arith
code-lt (key_tag tags) h = omega arith
code-lt (nsid v) h = omega arith
code-lt (ede info_code extra) h = omega arith

option_wire_pos : (o : EdnsOption) → 0 < length (option_wire o)
unfolding option_wire to_be_bytes
option_wire_pos o = omega arith

module _ (buf : List ℕ) (room : length buf < usize_limit) where
  option_at-Holds :
      (p : ℕ) (o : EdnsOption)
      → Fits o
      → Holds buf p (option_wire o)
      → option_at buf p ≡ ok (unpadded o, p + length (option_wire o))
  unfolding option_at option_wire
  option_at-Holds p o (fields, short) h =
      let number = to_be_bytes 2 (code o) in
      let len = length (option_data o) in
      let narrow : len % 2 ^ 16 ≡ len = omega arith in
      let size = to_be_bytes 2 len in
      let h0 = rw narrow at h in
      let rest = Holds-right buf p number (size ++ option_data o) h0 in
      let rest' = rw (length-to_be_bytes 2 (code o)) at rest in
      let bytes = Holds-right buf (p + 2) size (option_data o) rest' in
      let read_code =
        u16_at-Holds buf room p (code o) (code-lt o fields)
          (Holds-left buf p number (size ++ option_data o) h0) in
      let read_len =
        u16_at-Holds buf room (p + 2) len short
          (Holds-left buf (p + 2) size (option_data o) rest') in
      let place : p + 2 + length size ≡ p + 4 = omega (arith, length-to_be_bytes 2 len) in
      let read = slice_at-Holds buf room (p + 4) (option_data o) (rw place at bytes) in
      let end : p + 4 + len ≡ p + length (number ++ (to_be_bytes 2 len ++ option_data o)) = omega (
        arith,
        length-append number (size ++ option_data o),
        length-append size (option_data o),
        length-to_be_bytes 2 (code o),
        length-to_be_bytes 2 len,
      ) in
      rw (read_code, narrow, read_len, read, parse_option-option_data o fields short, end) refl

  options_loop-Holds :
      (fuel p : ℕ) (options : List EdnsOption)
      → All Fits options
      → Holds buf p (options_wire options)
      → p + length (options_wire options) ≡ length buf
      → length (options_wire options) < fuel
      → options_loop fuel buf p ≡ ok (map unpadded options)
  unfolding options_loop options_wire
  options_loop-Holds zero p options f h e enough = absurd (omega arith)
  options_loop-Holds (suc fuel) p [] f h e enough =
      let over : ltb p (length buf) ≡ false = ground arith in rw over refl
  options_loop-Holds (suc fuel) p (o ∷ options) (fo, f) h e enough =
      let size = length-append (option_wire o) (options_wire options) in
      let head =
        option_at-Holds p o fo (Holds-left buf p (option_wire o) (options_wire options) h) in
      let some_bytes = option_wire_pos o in
      let inside : ltb p (length buf) ≡ true = ground (arith, size, some_bytes) in
      let tail =
        options_loop-Holds fuel (p + length (option_wire o)) options f
          (Holds-right buf p (option_wire o) (options_wire options) h) (omega arith)
          (omega arith) in
      rw (inside, head, tail) refl

-- What a list of options writes is read back, option by option, but for padding: its bytes are not
-- written, so that it comes back with length 0.
pub parse_options-options_wire :
    (options : List EdnsOption)
    → All Fits options
    → length (options_wire options) < usize_limit
    → parse_options (options_wire options) ≡ ok (map unpadded options)
unfolding parse_options
parse_options-options_wire options f room =
    let wire = options_wire options in
    options_loop-Holds wire room (length wire + 1) 0 options f
      (record { front = []; rest = []; split = sym (append-nil wire); place = refl }) (omega arith)
      (omega arith)

abbrev pub flag : Bool → ℕ
flag b = if b then 1 else 0

pub ttl_field_lem :
    (e : Edns)
    → e.ext_rcode < 256
    → e.version < 256
    → ttl_field e ≡ e.ext_rcode * 2 ^ 24 + e.version * 2 ^ 16 + flag e.dnssec_ok * 2 ^ 15
unfolding ttl_field
ttl_field_lem e hx hv =
    let high : e.ext_rcode * 2 ^ 24 % 2 ^ 32 ≡ e.ext_rcode * 2 ^ 24 = omega arith in
    let low : e.version * 2 ^ 16 % 2 ^ 32 ≡ e.version * 2 ^ 16 = omega arith in
    let joined = bit_or-shifted 24 e.ext_rcode (e.version * 2 ^ 16) (omega arith) in
    let word : e.ext_rcode * 2 ^ 24 + e.version * 2 ^ 16
        ≡ (e.ext_rcode * 2 ^ 8 + e.version) * 2 ^ 16 =
      omega arith in
    let set = bit_or-shifted 16 (e.ext_rcode * 2 ^ 8 + e.version) 0x8000 (omega arith) in
    elim (Bool-cases e.dnssec_ok) [
      | inl on ↦ rw (on, high, low, joined, word, set) (omega arith)
      | inr off ↦ rw (off, high, low, joined) (omega arith)
    ]

-- The fields of the pseudo-record come back from the three fields of the OPT record that carry them;
-- of the options, padding loses its length.
pub parse-ttl_field :
    (e : Edns)
    → e.ext_rcode < 256
    → e.version < 256
    → All Fits e.options
    → length (options_wire e.options) < usize_limit
    → parse e.udp_payload_size (ttl_field e) (options_wire e.options)
      ≡ ok (record e { options = map unpadded e.options })
unfolding parse
parse-ttl_field e hx hv f room =
    let t = e.ext_rcode * 2 ^ 24 + e.version * 2 ^ 16 + flag e.dnssec_ok * 2 ^ 15 in
    let small = flag-lt e.dnssec_ok in
    let rcode : t / 2 ^ 24 % 2 ^ 8 % 256 ≡ e.ext_rcode = omega arith in
    let version : t / 2 ^ 16 % 2 ^ 8 % 256 ≡ e.version = omega arith in
    let digit : t / 2 ^ 15 % 2 ≡ flag e.dnssec_ok = omega arith in
    let ok_bit : not (t / 2 ^ 15 % 2 * 2 ^ 15 == 0) ≡ e.dnssec_ok = rw digit (is_set e.dnssec_ok) in
    rw
      (
        ttl_field_lem e hx hv,
        parse_options-options_wire e.options f room,
        bit_and-low 8 (t / 2 ^ 24),
        bit_and-low 8 (t / 2 ^ 16),
        bit_and-digit 15 t,
        rcode,
        version,
        ok_bit,
      )
      refl
  where
    flag-lt : (b : Bool) → flag b < 2
    flag-lt b = ground arith

    is_set : (b : Bool) → not (flag b * 2 ^ 15 == 0) ≡ b
    is_set true = refl
    is_set false = refl
