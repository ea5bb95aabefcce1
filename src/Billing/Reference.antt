-- ===== src/Billing/Reference.antt =====
-- Which table references validateTableRef accepts, and what it makes of them.
use Prim.Native.Char.{Char, char}
use costguard_operator.Base.{String, [], ◌∷◌}
use costguard_operator.Go.Text.Split.{join}
use costguard_operator.Billing.{TableRef}

abbrev dot : Char
dot = char b'.' tt

-- The table's three names with dots between them.
abbrev pub dotted : TableRef → String
dotted t = join dot (t.project ∷ t.dataset ∷ t.table ∷ [])
