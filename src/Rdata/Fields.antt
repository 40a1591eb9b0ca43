-- ===== src/Rdata/Fields.antt =====
-- src/rdata.rs: the closures of `RData::parse` and the reads that its arms share. Everything is read
-- from `buf`, below `end`, at an explicit cursor.
use recurse_x.Prelude.{ℕ, zero, suc, ◌+◌, ◌-◌, not, List, [], ◌∷◌, leb, ltb, ◌==◌, if◌then◌else◌}
use recurse_x.Error.{
  Error, Result, ok, err, ◌>>=◌, ◌>>◌, fail_if, ok_or, or_error, wire_error, internal_error,
}
use recurse_x.Wire.{byte_at, get_range, u16_at, u32_at}
use recurse_x.Name.{Name}
use recurse_x.Name.FromWire.{from_wire}

abbrev pub truncated : Error
unfolding wire_error
truncated = wire_error "RDATA truncated"

-- Not an error of the code: a loop ran out of fuel.
abbrev pub no_fuel : Error
unfolding internal_error
no_fuel = internal_error "out of fuel"

module _ (buf : List ℕ) (end : ℕ) where
  unfoldable pub need : ℕ → ℕ → Result (Unit {0})
  need pos n = fail_if (ltb (end - pos) n) truncated

  unfoldable pub read_u16 : ℕ → Result ℕ
  read_u16 p = do fail_if (ltb end (p + 2)) truncated; u16_at buf p

  unfoldable pub read_u32 : ℕ → Result ℕ
  read_u32 p = do fail_if (ltb end (p + 4)) truncated; u32_at buf p

  -- `b_at`
  unfoldable pub read_byte : ℕ → Result ℕ
  read_byte p = do fail_if (leb end p) truncated; or_error (byte_at buf p) truncated

  unfoldable pub tail : ℕ → Result (List ℕ)
  tail p = do fail_if (ltb end p) truncated; ok_or (get_range buf p end) truncated

  unfoldable pub read_name : ℕ → Result (Name × ℕ)
  read_name p = do
    (n, next) ← from_wire buf p
    fail_if (ltb end next) (wire_error "name in RDATA overruns RDATA length")
    ok (n, next)

  unfoldable pub name_exact : ℕ → Result (Name × ℕ)
  name_exact p = do
    (n, next) ← read_name p
    fail_if (not (next == end)) (wire_error "trailing bytes after name in RDATA")
    ok (n, next)

  -- The check of a length that the data itself gives, the bytes of that length, and the cursor behind.
  unfoldable pub counted : ℕ → ℕ → Error → Result (List ℕ × ℕ)
  counted p len e = do
    fail_if (ltb end (p + len)) e
    s ← ok_or (get_range buf p (p + len)) e
    ok (s, p + len)

  unfoldable pub read_char_string : ℕ → Result (List ℕ × ℕ)
  read_char_string p = do
    fail_if (leb end p) (wire_error "character-string truncated")
    len ← or_error (byte_at buf p) (wire_error "character-string truncated")
    counted (p + 1) len (wire_error "character-string truncated")

  -- The string of one turn of the TXT loop.
  unfoldable pub txt_string : ℕ → Result (List ℕ × ℕ)
  txt_string p = do
    len ← or_error (byte_at buf p) (wire_error "TXT string truncated")
    counted (p + 1) len (wire_error "TXT string truncated")

  unfoldable pub txt_loop : ℕ → ℕ → Result (List (List ℕ) × ℕ)
  txt_loop zero p = err no_fuel
  txt_loop (suc fuel) p =
      let turn = (do
        (s, p') ← txt_string p
        (more, last) ← txt_loop fuel p'
        ok (s ∷ more, last)) in
      if ltb p end then turn else ok ([], p)

  -- One turn of the loop over the parameters of SVCB.
  unfoldable pub svcb_param : ℕ → Result ((ℕ × List ℕ) × ℕ)
  svcb_param p = do
    fail_if (ltb end (p + 4)) (wire_error "SVCB param header truncated")
    key ← read_u16 p
    len ← read_u16 (p + 2)
    (value, p') ← counted (p + 4) len (wire_error "SVCB param value truncated")
    ok ((key, value), p')

  unfoldable pub svcb_loop : ℕ → ℕ → Result (List (ℕ × List ℕ) × ℕ)
  svcb_loop zero p = err no_fuel
  svcb_loop (suc fuel) p =
      let turn = (do
        (param, p') ← svcb_param p
        (more, last) ← svcb_loop fuel p'
        ok (param ∷ more, last)) in
      if ltb p end then turn else ok ([], p)
