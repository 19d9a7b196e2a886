-- ===== src/Hub/Parts/Whole.antt =====
-- hub.ts and idle-stop.ts: a call that waits, where nothing comes in between, is its parts.
use saku.Hub.IdleStop.{Hub}
