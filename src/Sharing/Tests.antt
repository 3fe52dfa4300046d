-- ===== src/Sharing/Tests.antt =====
-- The phases of the shared plugins at two plugins of which one fails.
use skywalking_satellite.Base.{ℕ, ◌+◌, true, false, [], ◌∷◌}
use skywalking_satellite.Sharing.{SharingPlugin, Sharing}

abbrev good : SharingPlugin ℕ
good = record {
  name = 1;
  prepare = λ w. (true, w + 1);
  start = λ w. (true, w);
  close = λ w. (true, w + 10);
}

abbrev bad : SharingPlugin ℕ
bad = record {
  name = 2;
  prepare = λ w. (false, w + 2);
  start = λ w. (true, w);
  close = λ w. (false, w + 10);
}

abbrev shared : Sharing ℕ
shared = record { loaded = true; manager = good ∷ bad ∷ [] }
