-- ===== src/Pool/Settling.antt =====
-- What a recycle does to the statistics (src/lifecycle/recycler.py): it is counted once.
use polypy.Prelude.{◌+◌, ◌↔◌, ◌≡◌, Bool, true}
use polypy.SortedDict.{SortedDict}
use polypy.Pool.Recycler.{ConnectionRecycler}

module _ (S : SortedDict) where
  -- each recycle that was begun has failed or has completed, as its result says
  pub record Settled (r : ConnectionRecycler S) (x : ConnectionRecycler S × Bool) : Type 0 where
    pub initiated : x.0.stats.recycles_initiated ≡ r.stats.recycles_initiated
    pub settled :
        x.0.stats.recycles_completed + x.0.stats.recycles_failed
        ≡ r.stats.recycles_completed + r.stats.recycles_failed + 1
    pub done : (x.1 ≡ true) ↔ (x.0.stats.recycles_completed ≡ r.stats.recycles_completed + 1)
