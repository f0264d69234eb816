-- ===== src/PlotMap.antt =====
-- Hash maps keyed by plots.
use blockscape.HashMap.{HashMap}
use blockscape.Coord.{Coord}

abbrev pub PlotMap : Type 0 → Type 0
PlotMap V = HashMap Coord V
