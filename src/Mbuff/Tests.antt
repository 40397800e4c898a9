-- ===== src/Mbuff/Tests.antt =====
-- Small Mbuffs of mbuff.hh, with what the theorems say of them.
use u_depot.Base.{◌≤◌, ℕ, ◌≡◌, refl, min, List, [], ◌∷◌, ◌++◌, some, take, drop, length, arith}
use u_depot.Mbuff.{Mbuff, append_avail_size, compute_valid_size}
use u_depot.Mbuff.Append.{Copy, append_from_buffer}
use u_depot.Mbuff.Reslice.{reslice}
use u_depot.Mbuff.Iterate.{copy_to_buffer}
use u_depot.Mbuff.Trip.{copy_to_buffer-append_from_buffer}
use u_depot.Mbuff.IterateReads.{copy_to_buffer_lem}
use u_depot.Mbuff.Valid.{IsValid, contents}
use u_depot.Mbuff.AppendFills.{append_from_buffer_lem}
use u_depot.Mbuff.ResliceKeeps.{reslice_lem}

-- three bytes in two buffers, and a free buffer
abbrev sample : Mbuff
sample = record {
  valid_size = 3;
  nodes =
      record { buff = 9 ∷ 1 ∷ 2 ∷ []; off = 1; len = 2 }
      ∷ record { buff = 3 ∷ 0 ∷ 0 ∷ []; off = 0; len = 1 }
      ∷ [];
  free_size = 2;
  free_nodes = 1;
  free = record { buff = 0 ∷ 0 ∷ []; off = 0; len = 0 } ∷ [];
}

sample-IsValid : IsValid sample
unfolding compute_valid_size
sample-IsValid = record {
  fits = (omega arith, omega arith, (omega arith, omega arith, tt));
  empty = (refl, refl, omega arith, tt);
  sized = refl;
  free_sized = refl;
  free_counted = refl;
}

abbrev source : List ℕ
source = 4 ∷ 5 ∷ 6 ∷ []

append_from_buffer_lem_example :
    (m' : Mbuff) × (append_from_buffer sample source
      ≡ some (m', min (length source) (append_avail_size sample)))
    × IsValid m'
    × (contents m' ≡ contents sample ++ take (append_avail_size sample) source)
append_from_buffer_lem_example = append_from_buffer_lem source sample sample-IsValid

abbrev start : Copy
start = record { remaining = 3; copied = 0 }

reslice_lem_example :
    (m' : Mbuff) × (reslice sample 2 1 ≡ some m')
    × IsValid m'
    × (contents m' ≡ take 2 (drop 1 (contents sample)))
reslice_lem_example = reslice_lem sample 2 1 sample-IsValid (omega arith) (omega arith)

source_fits : length source ≤ append_avail_size sample
unfolding append_avail_size
source_fits = omega arith

copy_to_buffer_lem_example : copy_to_buffer sample 1 5 ≡ take 5 (drop 1 (contents sample))
copy_to_buffer_lem_example = copy_to_buffer_lem sample 1 5 sample-IsValid

copy_to_buffer-append_from_buffer_example :
    (m' : Mbuff) × (append_from_buffer sample source ≡ some (m', length source))
    × (copy_to_buffer m' sample.valid_size (length source) ≡ source)
    × (copy_to_buffer m' 0 sample.valid_size ≡ copy_to_buffer sample 0 sample.valid_size)
copy_to_buffer-append_from_buffer_example =
    copy_to_buffer-append_from_buffer sample source sample-IsValid source_fits
