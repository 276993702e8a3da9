-- ===== src/Metrics/Uptime.antt =====
-- What the uptime shows.
use sentrydns.Base.{arith, refl, ℕ, zero, suc, ◌+◌, ◌*◌, ◌/◌, ◌%◌, ◌<◌, ◌≡◌, ◌++◌, Text, codes}
use sentrydns.Metrics.{uptime}

-- The two or three leading units of a time.
abbrev pub shown : (ℕ → Text) → ℕ → ℕ → ℕ → ℕ → Text
shown decimal zero zero minutes seconds =
    decimal minutes ++ codes "m " ++ decimal seconds ++ codes "s"
shown decimal zero (suc h) minutes seconds =
    decimal (suc h) ++ codes "h " ++ decimal minutes ++ codes "m"
shown decimal (suc d) hours minutes seconds =
    decimal (suc d) ++ codes "d " ++ decimal hours ++ codes "h " ++ decimal minutes ++ codes "m"

uptime-shown :
    (decimal : ℕ → Text) (since days hours minutes seconds : ℕ)
    → days ≡ (since + 500000000) / 1000000000 / 3600 / 24
    → hours ≡ (since + 500000000) / 1000000000 / 3600 % 24
    → minutes ≡ (since + 500000000) / 1000000000 / 60 % 60
    → seconds ≡ (since + 500000000) / 1000000000 % 60
    → uptime decimal since ≡ shown decimal days hours minutes seconds
unfolding uptime
uptime-shown decimal since zero zero minutes seconds d h m s = ground (arith, d, h, m, s)
uptime-shown decimal since zero (suc hours) minutes seconds d h m s = ground (arith, d, h, m, s)
uptime-shown decimal since (suc days) hours minutes seconds d h m s = ground (arith, d, h, m, s)

-- The uptime, rounded to seconds, is the sum of days, hours below 24, minutes below 60 and seconds below
-- 60, and the text shows these units: days, hours and minutes where there are days, hours and minutes
-- where there are only hours, and else minutes and seconds.
uptime_lem :
    (decimal : ℕ → Text) (since : ℕ)
    → (days : ℕ) × (hours : ℕ) × (minutes : ℕ) × (seconds : ℕ) × ((since + 500000000) / 1000000000
        ≡ ((days * 24 + hours) * 60 + minutes) * 60 + seconds)
      × (hours < 24)
      × (minutes < 60)
      × (seconds < 60)
      × (uptime decimal since ≡ shown decimal days hours minutes seconds)
uptime_lem decimal since =
    let d = (since + 500000000) / 1000000000 in
    (
      d / 3600 / 24,
      d / 3600 % 24,
      d / 60 % 60,
      d % 60,
      omega arith,
      omega arith,
      omega arith,
      omega arith,
      uptime-shown decimal since (d / 3600 / 24) (d / 3600 % 24) (d / 60 % 60) (d % 60) refl refl
          refl refl,
    )
