-- ===== src/Pricing/Schedule.antt =====
-- app/products/schedule.py. Times are microseconds since 1970 in UTC. The zone Asia/Shanghai is
-- eight hours ahead of UTC, without changes of its clock since 1991.
use globuy.Prelude.{ℕ, ◌+◌, ◌-◌, ◌*◌, ◌/◌, ◌%◌, ◌≤◌, ◌<◌, ◌≡◌, leb, if◌then◌else◌, arith}

abbrev day : ℕ
day = 86400000000

abbrev pub hour : ℕ
hour = 3600000000

abbrev offset : ℕ
offset = 28800000000

-- The next time that the clock of the zone shows `local_hour`.
unfoldable pub next_daily_refresh : ℕ → ℕ → ℕ
next_daily_refresh local_hour now =
    let local = now + offset in
    let target = local / day * day + local_hour * hour in
    (if leb target local then target + day else target) - offset

unfoldable pub current_beijing_day_start : ℕ → ℕ
current_beijing_day_start now = (now + offset) / day * day - offset

-- For an hour of the day, the refresh lies behind now by at most a day, and at that hour of the
-- zone's clock.
next_daily_refresh_is_next :
    (local_hour now : ℕ)
    → local_hour < 24
    → (now < next_daily_refresh local_hour now)
      × (next_daily_refresh local_hour now ≤ now + 86400000000)
      × ((next_daily_refresh local_hour now + 28800000000) % 86400000000 ≡ local_hour * 3600000000)
unfolding next_daily_refresh
next_daily_refresh_is_next local_hour now h = ground arith

-- The day that has begun contains now, and a refresh at midnight starts the day after it.
day_start_contains_now :
    (now : ℕ)
    → 57600000000 ≤ now
    → (current_beijing_day_start now ≤ now)
      × (now < current_beijing_day_start now + 86400000000)
      × (next_daily_refresh 0 now ≡ current_beijing_day_start now + 86400000000)
unfolding current_beijing_day_start next_daily_refresh
day_start_contains_now now h = ground arith
