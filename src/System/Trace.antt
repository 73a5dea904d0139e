-- ===== src/System/Trace.antt =====
-- Sequences of requests.
use second_hand_market_backe.Base.{Bool}
use second_hand_market_backe.Database.Tables.{Db}
use second_hand_market_backe.Database.Gorm.{Gorm}
use second_hand_market_backe.Request.{Context, Codec}
use second_hand_market_backe.RateLimiter.{MemoryRateLimiter}
use second_hand_market_backe.Buyers.Owner.{Visit}
use second_hand_market_backe.System.{Call, IsBound, handle}
use second_hand_market_backe.System.Buyers.{BuyerCall, Readers, serve_buyer}

-- The states that requests lead to, one after the other, whether they succeed or fail. The
-- limiter may be in any state, also that of a server that has just been started.
pub data Reaches (g : Gorm) (j : Codec) (s0 : Db) : Db → Type 0 where
  start : Reaches g j s0 s0
  request :
      {s : Db} (strict : Bool) (c : Context) (call : Call)
      → IsBound call
      → Reaches g j s0 s
      → Reaches g j s0 (handle g j strict c call s).1
  buyer_request :
      {s : Db} (l : MemoryRateLimiter) (rd : Readers) (c : Context) (v : Visit) (call : BuyerCall)
      → Reaches g j s0 s
      → Reaches g j s0 (serve_buyer g j rd c v call l s).0.1
