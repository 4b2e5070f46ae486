-- ===== src/Sync/Inspects.antt =====
-- A call whose error is only looked at, as a triple.
use netbox_herald.Base.{Error, Result, ok, err, panic, Exec}
use netbox_herald.Base.Triple.{Triple, Ends}
use netbox_herald.Controller.Common.{inspect, inspect_on}

module _ {S A B : Type 0} {mid : A → S → Type 0} {post : B → S → Type 0}
    {halt stop : S → Type 0} where
  pub Triple-inspect :
      {pre : S → Type 0} (m : Exec S A) (k : Result A → Exec S B)
      → Triple pre m mid halt
      → ((a : A) → Triple (mid a) (k (ok a)) post stop)
      → ((e : Error) → Triple halt (k (err e)) post stop)
      → ((s : S) → halt s → stop s)
      → Triple pre (inspect m k) post stop
  Triple-inspect m k tm tk te stopped = record {
    run = λ s h. inspected (m s).0 (m s).1 (tm.run s h);
  }
    where
      inspected :
          (r : Result A) (s : S)
          → Ends mid halt r s
          → Ends post stop (inspect_on r k s).0 (inspect_on r k s).1
      inspected (ok a) s h = (tk a).run s h
      inspected (err e) s h = (te e).run s h
      inspected panic s h = stopped s h
