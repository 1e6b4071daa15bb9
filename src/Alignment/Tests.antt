-- ===== src/Alignment/Tests.antt =====
-- Guidance for concrete repositories.
use keyhole_sdk.Base.{◌≡◌, refl, List, [], ◌∷◌}
use keyhole_sdk.Alignment.{
  GuidanceItem, GuidanceClass, gap, warning, GuidanceState, verified, inferred, medium, run_ready,
  derive_readiness,
}

abbrev item : GuidanceClass → GuidanceState → GuidanceItem
item c s = record {
  id = "i";
  guidance_class = c;
  severity = medium;
  confidence = 10;
  state = s;
  repair = [];
}

-- A verified warning and an inferred gap.
abbrev given : List GuidanceItem
given = item warning verified ∷ item gap inferred ∷ []

given-run_ready : derive_readiness given ≡ run_ready
unfolding derive_readiness
given-run_ready = refl
