-- ===== src/Rrset/Tests.antt =====
-- Runs on record sets, and their theorems at concrete inputs.
use mathlib.Core.List.{Permᴰ}
use Prim.Native.String.{String}
use recurse_x.Prelude.{ℕ, ◌≡◌, refl, true, false, [], ◌∷◌}
use recurse_x.Error.{ok, err, wire_error}
use recurse_x.Name.{root}
use recurse_x.Qtype.{RrType}
use recurse_x.Rdata.{RData, Record, a, cname, unknown}
use recurse_x.Rrset.{RrSet, from_records, gather, is_single, record_wire_without_ttl, same_data}
use recurse_x.Rrset.Built.{IsBuilt, from_records-IsBuilt}
use recurse_x.Rrset.Order.{same_data-Perm}

abbrev entry : ℕ → ℕ → RData → Record
entry code ttl rdata = record {
  name = root;
  rr_type = record { code = code };
  class = record { code = 1 };
  ttl = ttl;
  rdata = rdata;
}

abbrev first : ℕ → Record
first ttl = entry 1 ttl (a (192 ∷ 0 ∷ 2 ∷ 1 ∷ []))

abbrev second : ℕ → Record
second ttl = entry 1 ttl (a (192 ∷ 0 ∷ 2 ∷ 2 ∷ []))

abbrev signature : Record
signature = entry 46 200 (unknown (7 ∷ []))

abbrev text : RrType → ℕ → String
text t n = "several records"

-- With a limit of an hour.
abbrev addresses : RrSet
addresses = record {
  name = root;
  rr_type = record { code = 1 };
  class = record { code = 1 };
  records = first 300 ∷ second 60 ∷ [];
  rrsigs = signature ∷ [];
  ttl = 60;
  validated = false;
}

addresses_built : from_records text (first 300 ∷ signature ∷ second 60 ∷ []) 3600 ≡ ok addresses
unfolding from_records gather is_single
addresses_built = refl

two_aliases :
    from_records text (entry 5 60 (cname root) ∷ entry 5 60 (cname root) ∷ []) 3600
    ≡ err (wire_error "several records")
unfolding from_records gather is_single
two_aliases = refl

from_records-IsBuilt_example : IsBuilt (first 300 ∷ signature ∷ second 60 ∷ []) 3600 addresses
from_records-IsBuilt_example =
    from_records-IsBuilt text (first 300 ∷ signature ∷ second 60 ∷ []) 3600 addresses
      addresses_built

-- The other order, with other TTLs.
abbrev renewed : RrSet
renewed = record addresses { records = second 3600 ∷ first 3600 ∷ []; rrsigs = [] }

same_data-Perm_example : same_data addresses renewed ≡ true
unfolding record_wire_without_ttl
same_data-Perm_example = same_data-Perm addresses renewed (Permᴰ.swap refl refl)
