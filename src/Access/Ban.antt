-- ===== src/Access/Ban.antt =====
-- src/ban.cpp, Ban::acceptConnection: the limit on connection attempts of one address. The mutex
-- makes each call one step. Times are in milliseconds and do not reach 2 ^ 63.
pub mod Limits
use otxlinux.Prelude.{
  ℕ, ◌+◌, ◌%◌, ◌^◌, Bool, true, false, Option, none, some, List, ltb, leb, if◌then◌else◌, u32, u64,
}
use otxlinux.Prelude.Maps.{Map, find, assign}

pub record ConnectBlock : Type 0 where
  pub last_attempt : ℕ
  pub block_time : ℕ
  pub count : ℕ

abbrev pub IpConnectMap : Type 0
IpConnectMap = Map ConnectBlock

-- The branch for an address whose block is over. `timeDiff` is signed: the test of its upper bound
-- is written as a sum.
unfoldable pub attempt : ℕ → ConnectBlock → Bool × ConnectBlock
attempt now b =
    let count = u32 (b.count + 1) in
    if leb now (b.last_attempt + 5000)
    then if ltb 5 count
      then if leb now (b.last_attempt + 500)
        then (false, record { last_attempt = now; block_time = u64 (now + 3000); count = 0 })
        else (true, record { last_attempt = now; block_time = b.block_time; count = 0 })
      else (true, record { last_attempt = now; block_time = b.block_time; count = count })
    else (true, record { last_attempt = now; block_time = b.block_time; count = 1 })

-- The address is known.
unfoldable pub reconnect : ℕ → ConnectBlock → Bool × ConnectBlock
reconnect now b =
    if ltb now b.block_time
    then (false, record b { block_time = u64 (b.block_time + 250) })
    else attempt now b

unfoldable pub accept_connection : ℕ → ℕ → IpConnectMap → Bool × IpConnectMap
accept_connection client_ip now m = elim (find m client_ip) [
  | none ↦ (true, assign m client_ip (record { last_attempt = now; block_time = 0; count = 1 }))
  | some b ↦ let (ok, b') = reconnect now b in (ok, assign m client_ip b')
]
