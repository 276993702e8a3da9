-- ===== src/Server/Restart.antt =====
-- The learned domains from one run of the server to the next: the handler, the resolver, the store and
-- the learned file together.
use sentrydns.Base.{
  refl, ℕ, ◌≡◌, Bool, true, false, ◌&&◌, ◌==◌, Option, List, [], ◌∷◌, Text, All, if◌then◌else◌,
  pos_part, some, none, sym, subst,
}
use sentrydns.Breaker.{Gauge}
use sentrydns.Dns.{Msg, Question}
use sentrydns.Store
use sentrydns.Store.{Store, Counters, flush_persist}
use sentrydns.Store.Durability
use sentrydns.Store.Durability.{Reach, WroteFile, Reach-restart}
use sentrydns.Config.{Config}
use sentrydns.RateLimit.{allow, allow_global}
use sentrydns.Resolver.{Resolver, World, Metrics, Live}
use sentrydns.Resolver.Handle.{set_cb_cooldown, set_global_cb_cooldown}
use sentrydns.Resolver.Setup.{new_live}
use sentrydns.Resolver.Steps.{AsksName, resolve_request-Reach}
use sentrydns.Server.{
  Net, Server, Arrival, client_ip, is_looped, start, settings, with_cooldowns, cooldown, answer,
  limit_client, limit_all, guard_loop, guard_question, handle,
}
use sentrydns.Server.Guards.{run}

-- A query for a name that a line of the learned file can hold, or one without a question.
abbrev pub IsNamed : Arrival → Type 0
IsNamed a = AsksName a.req.question

if-Reach :
    (before : Store) (b : Bool) (x y : Server × Msg)
    → Reach before x.0.live.store
    → Reach before y.0.live.store
    → Reach before (if b then x else y).0.live.store
if-Reach before true x y p q = p
if-Reach before false x y p q = q

module _ (w : World) (net : Net) (cfg : Config) (r : Resolver) (before : Store) where
  answer-Reach :
      (a : Arrival) (s : Server)
      → IsNamed a
      → Reach before s.live.store
      → Reach before (answer w r a s).0.live.store
  unfolding answer
  answer-Reach a s name k = resolve_request-Reach w r before (some a.req) s.live name k

  limit_client-Reach :
      (a : Arrival) (s : Server)
      → IsNamed a
      → Reach before s.live.store
      → Reach before (limit_client w net cfg r a s).0.live.store
  unfolding limit_client
  limit_client-Reach a s name k =
      let (limiter, ok) = allow a.now (client_ip net a) s.limiter in
      if-Reach before (pos_part cfg.rate_limit_per_client == 0) _ _ (answer-Reach a s name k)
        (if-Reach before ok _ _ (answer-Reach a (record s { limiter = limiter }) name k) k)

  limit_all-Reach :
      (a : Arrival) (s : Server)
      → IsNamed a
      → Reach before s.live.store
      → Reach before (limit_all w net cfg r a s).0.live.store
  unfolding limit_all
  limit_all-Reach a s name k =
      let (global, ok) = allow_global a.now s.global in
      if-Reach before (pos_part cfg.global_qps_limit == 0) _ _ (limit_client-Reach a s name k)
        (if-Reach before ok _ _ (limit_client-Reach a (record s { global = global }) name k) k)

  guard_question-Reach :
      (a : Arrival) (qs : List Question) (s : Server)
      → IsNamed a
      → Reach before s.live.store
      → Reach before (guard_question w net cfg r a qs s).0.live.store
  unfolding guard_question guard_loop
  guard_question-Reach a [] s name k = k
  guard_question-Reach a (q ∷ qs) s name k =
      if-Reach before (cfg.loop_detection && is_looped net cfg a) _ _ k (limit_all-Reach a s name k)

  pub handle-Reach :
      (a : Arrival) (s : Server)
      → IsNamed a
      → Reach before s.live.store
      → Reach before (handle w net cfg r a s).0.live.store
  unfolding handle
  handle-Reach a s name k = guard_question-Reach a a.req.question s name k

  run-Reach :
      (as' : List Arrival) (s : Server)
      → All IsNamed as'
      → Reach before s.live.store
      → Reach before (run w net cfg r as' s).live.store
  unfolding run handle
  run-Reach [] s names k = k
  run-Reach (a ∷ rest) s names k = run-Reach rest _ names.1 (handle-Reach a s names.0 k)

with_cooldowns-store : (d e : Option ℕ) (s : Live) → (with_cooldowns d e s).store ≡ s.store
unfolding set_cb_cooldown set_global_cb_cooldown
with_cooldowns-store none none s = refl
with_cooldowns-store (some d) none s = refl
with_cooldowns-store none (some e) s = refl
with_cooldowns-store (some d) (some e) s = refl

pub start-store :
    (net : Net) (cfg : Config) (store : Store) (metrics : Metrics) (iran_gauge global_gauge : Gauge)
    (now : ℕ)
    → (start net cfg store metrics iran_gauge global_gauge now).live.store ≡ store
unfolding start new_live
start-store net cfg store metrics iran_gauge global_gauge now =
    with_cooldowns-store (cooldown net cfg.iran_cb_cooldown) (cooldown net cfg.global_cb_cooldown)
      (new_live store (settings cfg) metrics iran_gauge global_gauge 0)

-- The store that a server leaves which starts with the store `old` and handles these queries.
abbrev pub left :
    World → Net → Config → Resolver → List Arrival → Metrics → Gauge → Gauge → ℕ → Store → Store
left w net cfg r as' metrics iran_gauge global_gauge now old =
    (run w net cfg r as' (start net cfg old metrics iran_gauge global_gauge now)).live.store

-- A server that starts on a learned file that the program wrote, or on none, may handle any queries for
-- names that a line can hold, whatever the upstreams reply: after one more flush to a working disk, a
-- restart from the file takes for Iranian every name that the store takes for Iranian at that time.
pub run-restart :
    (w : World) (net : Net) (cfg : Config) (r : Resolver) (as' : List Arrival) (metrics : Metrics)
    (iran_gauge global_gauge : Gauge) (now : ℕ) (m m' : Option Counters) (b b' : Bool)
    (file state_file state_file' : Option Text) (ls : List Text) (q : Text)
    → WroteFile file ls
    → All IsNamed as'
    → Store.is_iran
        (left w net cfg r as' metrics iran_gauge global_gauge now (Store.new m b file state_file))
        q
      ≡ true
    → Store.is_iran
        (Store.new m' b'
          (flush_persist true (
            left w net cfg r as' metrics iran_gauge global_gauge now
              (Store.new m b file state_file))).file
          state_file')
        q
      ≡ true
run-restart w net cfg r as' metrics iran_gauge global_gauge now m m' b b' file state_file
      state_file' ls q wrote names known =
    let old = Store.new m b file state_file in
    let s = start net cfg old metrics iran_gauge global_gauge now in
    let e = start-store net cfg old metrics iran_gauge global_gauge now in
    Reach-restart m m' b b' file state_file state_file' ls q wrote
      (run-Reach w net cfg r old as' s names (subst (Reach old) (sym e) Durability.start)) known
