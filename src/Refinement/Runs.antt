-- ===== src/Refinement/Runs.antt =====
-- Any sequence of the calls, whatever fails on the way, as a run of the abstract state.
use mathlib.Core.Path.{subst}
use netbox_herald.Base.{
  ℕ, suc, sym, ◌≡◌, refl, ap, String, List, [], ◌∷◌, length, All, Result, ok, err, panic,
}
use netbox_herald.Base.Triple.{Ends}
use netbox_herald.NetBox.Model.{NetBoxApi}
use netbox_herald.Server.Tables.{Db}
use netbox_herald.Server.Laws.{IsServer}
use netbox_herald.Refinement.View.{View, view, IsReady, IsReady-less}
use netbox_herald.Refinement.Calls.{Call, Carries, Means, perform, After, perform-After}

-- The calls one after the other, and how each ended; none stops the ones after it.
unfoldable pub perform_all :
    {S : Type 0} → NetBoxApi S → String → List Call → S → List (Result (Unit {0})) × S
unfolding perform
perform_all client slug [] s = ([], s)
perform_all client slug (call ∷ calls) s =
    let step = perform client slug call s in
    let rest = perform_all client slug calls step.1 in (step.0 ∷ rest.0, rest.1)

-- What one call with its result is for the abstract state.
abbrev pub Shows : Call → Result (Unit {0}) → View → View → Type 0
Shows call (ok _) v v' = Means call v v'
Shows call (err _) v v' = v' ≡ v
Shows call panic v v' = v' ≡ v

-- The abstract state goes through the same calls with the same results.
abbrev pub Replays : List Call → List (Result (Unit {0})) → View → View → Type 0
Replays [] [] v v' = v' ≡ v
Replays (call ∷ calls) (result ∷ results) v v' =
    (w : View) × Shows call result v w × Replays calls results w v'
Replays _ _ v v' = ⊥

module _ {S : Type 0} (db : S → Db) (client : NetBoxApi S) (page : ℕ)
    (server : IsServer db client page) (slug : String) where
  shows :
      (n : ℕ) (call : Call) (d : Db) (result : Result (Unit {0})) (s : S)
      → IsReady page slug (suc n) d
      → Ends (λ _ s. After db client page server slug n call d (db s)) (λ s. db s ≡ d) result s
      → IsReady page slug n (db s) × Shows call result (view slug d) (view slug (db s))
  shows n call d (ok _) s ready e = e
  shows n call d (err _) s ready e =
      (subst (IsReady page slug n) (sym e) (IsReady-less page slug n d ready), ap (view slug) e)
  shows n call d panic s ready e =
      (subst (IsReady page slug n) (sym e) (IsReady-less page slug n d ready), ap (view slug) e)

  -- On a server that keeps NetBox's documented laws, take any sequence of the six Ensure functions
  -- and of the four deletions by external id, whatever fails on the way. If at the start each
  -- kind's ids are unique, no external id is managed twice in a kind, the managed objects of each
  -- kind fit on one page with one more for each call, and the specs carry the managed tag, then at
  -- the end this holds of ids, external ids and the page still, and the maps from external ids to
  -- managed objects went through the same calls: one that returned set one kind's entry to the
  -- body of its spec, with some ids for what it refers to, or cleared it, and left all else; one
  -- that failed left all.
  pub perform_all-Replays :
      (calls : List Call) (s : S)
      → All (Carries slug) calls
      → IsReady page slug (length calls) (db s)
      → IsReady page slug 0 (db (perform_all client slug calls s).1)
        × Replays calls
            (perform_all client slug calls s).0
            (view slug (db s))
            (view slug (db (perform_all client slug calls s).1))
  unfolding perform_all
  perform_all-Replays [] s has ready = (ready, refl)
  perform_all-Replays (call ∷ calls) s (has, more) ready =
      let (still, shown) =
        shows (length calls) call (db s) (perform client slug call s).0
          (perform client slug call s).1 ready
          ((perform-After db client page server slug (length calls) call (db s) has ready).run s
            refl) in
      let (end, rest) = perform_all-Replays calls (perform client slug call s).1 more still in
      (end, (view slug (db (perform client slug call s).1), shown, rest))
