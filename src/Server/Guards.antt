-- ===== src/Server/Guards.antt =====
-- The server over a series of queries.
use sentrydns.Base.{List, [], ◌∷◌}
use sentrydns.Config.{Config}
use sentrydns.Resolver.{Resolver, World}
use sentrydns.Server.{Net, Server, Arrival, handle}

-- The queries that arrive, one after the other: the state afterwards.
unfoldable pub run : World → Net → Config → Resolver → List Arrival → Server → Server
run w net cfg r [] s = s
run w net cfg r (a ∷ rest) s = run w net cfg r rest (handle w net cfg r a s).0
