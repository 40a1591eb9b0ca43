-- ===== src/Message/Truncate.antt =====
-- src/message.rs: `truncate_for_udp`. Where the code leaves all three loops, it also cuts the buffer
-- back to the last accepted record; the compressor is not used any more.
use recurse_x.Prelude.{
  ℕ, suc, ◌+◌, ◌-◌, max, Bool, true, false, Option, none, some, List, [], ◌∷◌, leb, ltb,
  if◌then◌else◌, length, take,
}
use recurse_x.Error.{ok, err}
use recurse_x.Edns.{Edns, options_wire}
use recurse_x.Rdata.{Record}
use recurse_x.Rdata.ToWire.{Sink}
use recurse_x.Rdata.Records as Records
use recurse_x.Message.Sections.{Message}
use recurse_x.Message.ToBytes.{header_sink, put_questions, wire_len}

-- What the loops have so far: the records of the section that were accepted, the sink behind them,
-- and whether a record was refused.
pub record Fit : Type 0 where
  pub count : ℕ
  pub sink : Sink
  pub full : Bool

abbrev pub refused : Sink → Fit
refused s = record { count = 0; sink = s; full = true }

-- `for r in recs`
unfoldable pub fit_records : ℕ → List Record → Sink → Fit
fit_records budget [] s = record { count = 0; sink = s; full = false }
fit_records budget (r ∷ records) s = elim (Records.to_wire r s) [
  | err _ ↦ refused s
  | ok s' ↦
      let rest = fit_records budget records s' in
      if ltb budget (length s'.out) then refused s else record rest { count = suc rest.count }
]

-- The next section, unless a record of one before was refused: `break 'sections`.
unfoldable pub fit_next : ℕ → List Record → Fit → Fit
fit_next budget records before =
    if before.full then refused before.sink else fit_records budget records before.sink

unfoldable pub opt_len : Option Edns → ℕ
opt_len (some e) = 1 + 10 + length (options_wire e.options)
opt_len none = 0

unfoldable pub fit_sections : Message → ℕ → Fit × Fit × Fit
fit_sections m limit =
    let budget = limit - opt_len m.edns in
    let first =
      fit_records budget m.answers (put_questions m.questions (header_sink m.id m.flags)) in
    let second = fit_next budget m.authorities first in
    (first, second, fit_next budget m.additionals second)

-- `Vec::truncate` of the three sections to the counts.
unfoldable pub keep : Message → Fit × Fit × Fit → Message
keep m (first, second, third) = record m {
  answers = take first.count m.answers;
  authorities = take second.count m.authorities;
  additionals = take third.count m.additionals;
}

unfoldable pub set_tc : Message → Message
set_tc m = record m { flags = record m.flags { tc = true } }

unfoldable pub truncate_for_udp : Message → ℕ → Message
truncate_for_udp m limit =
    if leb (wire_len m) (max limit 512)
    then m
    else keep (set_tc m) (fit_sections (set_tc m) (max limit 512))
