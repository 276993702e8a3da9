-- ===== src/Main/Clean.antt =====
-- Hijacked addresses over the life of the program.
use sentrydns.Base.{
  ℕ, ◌≡◌, refl, sym, ap, subst, true, none, some, Option, List, [], ◌∷◌, Text, All, Dict, delete,
  All-delete, ltb, Bool-cases, inl, inr,
}
use sentrydns.Cache
use sentrydns.Cache.{Entry, sweep_loop}
use sentrydns.Classifier.{Classifier}
use sentrydns.Config.{Config}
use sentrydns.Dns.{Question, is_address_type}
use sentrydns.Resolver.{Resolver, World, Live}
use sentrydns.Resolver.Filter.{static_lookup, is_hijacked}
use sentrydns.Resolver.Query.{address}
use sentrydns.Resolver.Clean.{is_clean, NoAnswer, HonestGlobal}
use sentrydns.Resolver.Hijack.{
  with_ranges, HonestGlobal-with_ranges, NamesTypes, SharesFlights, IsCleanCache, IsCleanEntry,
}
use sentrydns.Server.{Server, Arrival, handle}
use sentrydns.Server.Hijack.{RefusesEmpty, asked-clean, handle-Replied, start-clean}
use sentrydns.Updater
use sentrydns.Updater.{Download}
use sentrydns.Main.{Site, Disk, Outcomes, Process, runs, updater_of}
use sentrydns.Main.Start.{boot, set_up, first_store, first_process}
use sentrydns.Main.Started.{boot-Started, start_updater-server}
use sentrydns.Main.Life.{
  Happening, arrives, downloads, cleans, flushes, rewrites, saves, midnight, sweeps, forgets,
  download, with_updater, end_day, take_place, live,
}

sweep_loop-All :
    (w : World) (r : Resolver) (now : ℕ) (order : List (Text × Entry)) (m : Dict Entry)
    → All (IsCleanEntry w r) m
    → All (IsCleanEntry w r) (sweep_loop now order m)
unfolding sweep_loop
sweep_loop-All w r now [] m h = h
sweep_loop-All w r now ((k, e) ∷ rest) m h = elim (Bool-cases (ltb e.expires now)) [
  | inl past ↦
      rw past (sweep_loop-All w r now rest (delete k m) (All-delete (IsCleanEntry w r) k m h))
  | inr current ↦ rw current (sweep_loop-All w r now rest m h)
]

module _ (w : World) (r : Resolver) (c : Classifier) where
  SharesFlights-with_ranges : SharesFlights w r → SharesFlights w (with_ranges c r)
  SharesFlights-with_ranges h n key m e =
      let f = h n key m e in
      record {
        ranges = f.ranges;
        req = f.req;
        q = f.q;
        qs = f.qs;
        state = f.state;
        asked = f.asked;
        same_key = f.same_key;
        reply = f.reply;
      }

  IsCleanCache-with_ranges : (s : Live) → IsCleanCache w r s → IsCleanCache w (with_ranges c r) s
  unfolding is_hijacked
  IsCleanCache-with_ranges s h = h

  IsCleanCache-without : (s : Live) → IsCleanCache w (with_ranges c r) s → IsCleanCache w r s
  unfolding is_hijacked
  IsCleanCache-without s h = h

-- The resolver of the start, but for its ranges, and a cache without hijacked addresses.
record IsUnhijacked (w : World) (r : Resolver) (p : Process) : Type 0 where
  pub same : p.resolver ≡ with_ranges p.resolver.classifier r
  pub cached : IsCleanCache w r p.server.live

module _ (site : Site) (r : Resolver) (no_answer : NoAnswer site.world.lib)
    (honest : HonestGlobal site.world r) (types : NamesTypes site.world.lib)
    (shared : SharesFlights site.world r) (refuses : RefusesEmpty site.net) where
  arrives-IsUnhijacked :
      (a : Arrival) (p : Process)
      → IsUnhijacked site.world r p
      → IsUnhijacked site.world r (take_place site (arrives a) p)
  unfolding take_place
  arrives-IsUnhijacked a p v =
      let w = site.world in
      let c = p.resolver.classifier in
      let r' = with_ranges c r in
      let after =
        asked-clean w site.net p.cfg r' no_answer (HonestGlobal-with_ranges w r c honest) types
          (SharesFlights-with_ranges w r c shared) refuses a a.req.question p.server refl
          (IsCleanCache-with_ranges w r c p.server.live v.cached) in
      record {
        same = v.same;
        cached =
            subst (λ x. IsCleanCache w r (handle w site.net p.cfg x a p.server).0.live) (sym v.same)
              (IsCleanCache-without w r c (handle w site.net p.cfg r' a p.server).0.live after);
      }

  with_updater-IsUnhijacked :
      (u : Option (Option ℕ)) (p q : Process)
      → IsUnhijacked site.world r p
      → IsUnhijacked site.world r q
      → IsUnhijacked site.world r (with_updater u p q)
  with_updater-IsUnhijacked none p q k l = k
  with_updater-IsUnhijacked (some wait) p q k l = l

  download-IsUnhijacked :
      (d : Download) (p : Process)
      → IsUnhijacked site.world r p
      → IsUnhijacked site.world r (download site d p)
  unfolding download
  download-IsUnhijacked d p v =
      let u = Updater.update site.json site.world.net site.cidr d (updater_of p) in
      record { same = ap (with_ranges u.classifier) v.same; cached = v.cached }

  take_place-IsUnhijacked :
      (h : Happening) (p : Process)
      → IsUnhijacked site.world r p
      → IsUnhijacked site.world r (take_place site h p)
  unfolding take_place end_day Cache.sweep
  take_place-IsUnhijacked (arrives a) p v = arrives-IsUnhijacked a p v
  take_place-IsUnhijacked (downloads d) p v =
      with_updater-IsUnhijacked p.first_update p (download site d p) v (download-IsUnhijacked d p v)
  take_place-IsUnhijacked (cleans calls written now verdicts) p v = record {
    same = v.same;
    cached = v.cached;
  }
  take_place-IsUnhijacked (flushes opened) p v = record { same = v.same; cached = v.cached }
  take_place-IsUnhijacked (rewrites written) p v = record { same = v.same; cached = v.cached }
  take_place-IsUnhijacked (saves calls) p v = record { same = v.same; cached = v.cached }
  take_place-IsUnhijacked (midnight calls today) p v = record { same = v.same; cached = v.cached }
  take_place-IsUnhijacked (sweeps now order) p v = record {
    same = v.same;
    cached = sweep_loop-All site.world r now order p.server.live.cache.entries v.cached;
  }
  take_place-IsUnhijacked (forgets now orders) p v = record { same = v.same; cached = v.cached }

  live-IsUnhijacked :
      (hs : List Happening) (p : Process)
      → IsUnhijacked site.world r p
      → IsUnhijacked site.world r (live site hs p)
  unfolding live
  live-IsUnhijacked [] p v = v
  live-IsUnhijacked (h ∷ hs) p v =
      live-IsUnhijacked hs (take_place site h p) (take_place-IsUnhijacked h p v)

set_up-clean :
    (site : Site) (o : Outcomes) (disk : Disk) (cfg : Config) (c : Classifier) (r : Resolver)
    → IsCleanCache site.world r (set_up site o disk cfg c).server.live
unfolding set_up
set_up-clean site o disk cfg c r =
    subst (λ (s : Server). IsCleanCache site.world r s.live)
      (sym (start_updater-server site o (first_process site o disk cfg c)))
      (start-clean site.world site.net cfg r (first_store site o disk cfg) _ _ _ o.now)

reply-with_ranges :
    (site : Site) (cfg : Config) (r : Resolver) (c : Classifier) (a : Arrival) (q : Question)
    (qs : List Question) (s : Server)
    → NoAnswer site.world.lib
    → HonestGlobal site.world r
    → NamesTypes site.world.lib
    → SharesFlights site.world r
    → RefusesEmpty site.net
    → a.req.question ≡ q ∷ qs
    → static_lookup r q.name ≡ none
    → is_address_type q.qtype ≡ true
    → IsCleanCache site.world r s.live
    → is_clean site.world r (handle site.world site.net cfg (with_ranges c r) a s).1 ≡ true
unfolding is_hijacked static_lookup
reply-with_ranges site cfg r c a q qs s n h t f e asked none_static address k =
    let w = site.world in
    (handle-Replied w site.net cfg (with_ranges c r) n (HonestGlobal-with_ranges w r c h) t
        (SharesFlights-with_ranges w r c f) e a q qs asked s
        (IsCleanCache-with_ranges w r c s.live k)).1
      none_static address

-- From the start of the program on, whatever its goroutines did before, new ranges and sweeps of the cache
-- included: a query for an address (A or AAAA) of a name without a static record is never answered with
-- a hijacked address, be it from an upstream, from a shared call or from the cache, and whatever the
-- Iranian upstream returned at any time. The global upstream and its fallback must return no hijacked
-- address; a shared reply must be what a flight for the same key returned, in any state and with any
-- ranges; a reply must start without records; and the names of the query types must have no colon and
-- tell the types of addresses from the other ones.
pub live-clean :
    (site : Site) (o : Outcomes) (disk : Disk) (p : Process) (hs : List Happening) (a : Arrival)
    (q : Question) (qs : List Question)
    → boot site o disk ≡ runs p
    → NoAnswer site.world.lib
    → HonestGlobal site.world p.resolver
    → NamesTypes site.world.lib
    → SharesFlights site.world p.resolver
    → RefusesEmpty site.net
    → a.req.question ≡ q ∷ qs
    → static_lookup p.resolver q.name ≡ none
    → is_address_type q.qtype ≡ true
    → let z = live site hs p in
      is_clean site.world p.resolver (handle site.world site.net z.cfg z.resolver a z.server).1
      ≡ true
live-clean site o disk p hs a q qs starts n h t f e asked none_static address =
    let (cfg, c, began) = boot-Started site o disk p starts in
    let fresh =
      subst (λ v. IsCleanCache site.world p.resolver v.server.live) (sym began)
        (set_up-clean site o disk cfg c p.resolver) in
    let z = live site hs p in
    let v =
      live-IsUnhijacked site p.resolver n h t f e hs p (record { same = refl; cached = fresh }) in
    subst
      (λ x. is_clean site.world p.resolver (handle site.world site.net z.cfg x a z.server).1 ≡ true)
      (sym v.same)
      (reply-with_ranges site z.cfg p.resolver z.resolver.classifier a q qs z.server n h t f e asked
        none_static address v.cached)
