-- ===== src/Data/Tests.antt =====
-- Runs of src/data/data.c, and its theorems at numbers that meet their hypotheses.
use central_node.Common.{◌≡◌, refl, arith}
use central_node.Data.{x_ctoi, rtonm}
use central_node.Data.Bounds.{IsLeastMultiple, rtonm-IsLeastMultiple}

runs : (rtonm 23 8 ≡ 24) × (rtonm 24 8 ≡ 24) × (rtonm 0 8 ≡ 8) × (x_ctoi 53 ≡ 5)
unfolding rtonm x_ctoi
runs = (refl, refl, refl, refl)

rtonm-IsLeastMultiple_example : IsLeastMultiple 23 8 (rtonm 23 8)
rtonm-IsLeastMultiple_example = rtonm-IsLeastMultiple 23 8 (omega arith) (omega arith)
