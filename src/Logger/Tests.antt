-- ===== src/Logger/Tests.antt =====
-- Loggers with and without a file.
use sentrydns.Base.{◌≡◌, refl, true, none, some, [], ◌∷◌, codes, text_eq}
use sentrydns.Logger.{Logger, info, debug, warn, level_of, new, emit, write, sync, close, closer}

abbrev noted : Logger
noted =
    emit true true warn (codes "w")
      (emit true true debug (codes "d") (new (codes "info") true (codes "log") none))

-- A record below the level is left out; what is written is on the disk once the logger is closed, and
-- nothing is written after that.
closes :
    ((closer true noted).log_file
      ≡ some (record { written = codes "w" ∷ []; synced = codes "w" ∷ []; is_closed = true }))
    × ((emit true true warn (codes "x") (closer true noted)).log_file
        ≡ (closer true noted).log_file)
unfolding new emit write sync close closer level_of text_eq
closes = (refl, refl)

-- Without its file the logger still has the standard output.
falls_back :
    (emit true true info
      (codes "i")
      (new (codes "loud") true (codes "log") (some (codes "e")))).stdout
    ≡ codes "i" ∷ []
unfolding new emit write level_of text_eq
falls_back = refl
