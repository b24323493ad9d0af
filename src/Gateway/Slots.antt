-- ===== src/Gateway/Slots.antt =====
-- The places of the web gateway for browser clients: every connection that was let in holds one
-- until it ends.
use open_audio.Common.{ℕ, suc, ◌+◌, ◌^◌, ◌≤◌, ◌<◌, ◌≡◌, refl, if◌then◌else◌, arith}
use open_audio.Gateway.{GatewayState, reserve_client_slot, drop_client_slot}

-- The states of a gateway that began with `start`, with the number of connections that hold a place.
pub data Reached (start : GatewayState) : GatewayState → ℕ → Type 0 where
  starts : Reached start start 0
  connects :
      (s : GatewayState) (n : ℕ)
      → Reached start s n
      → Reached start (reserve_client_slot s).1 (if (reserve_client_slot s).0 then n + 1 else n)
  ends : (s : GatewayState) (n : ℕ) → Reached start s (suc n) → Reached start (drop_client_slot s) n

pub record CountsClients (max_clients : ℕ) (s : GatewayState) (n : ℕ) : Type 0 where
  pub limit : s.max_clients ≡ max_clients
  pub counted : s.active_clients ≡ n
  pub within : n ≤ max_clients

-- Whatever the order in which connections come and end, the count of active clients is the number of
-- connections that hold a place, and never above the limit, which fits 64 bits.
pub clients_within_limit :
    (start s : GatewayState) (n : ℕ)
    → start.active_clients ≡ 0
    → start.max_clients < 2 ^ 64
    → Reached start s n
    → CountsClients start.max_clients s n
unfolding reserve_client_slot drop_client_slot
clients_within_limit start s n none_yet fits starts = record {
  limit = refl;
  counted = none_yet;
  within = omega arith;
}
clients_within_limit start s n none_yet fits (connects t m r) =
    let c = clients_within_limit start t m none_yet fits r in
    record {
      limit = ground (arith, c.limit);
      counted = ground (arith, c.limit, c.counted, c.within);
      within = ground (arith, c.limit, c.counted, c.within);
    }
clients_within_limit start s n none_yet fits (ends t m r) =
    let c = clients_within_limit start t (suc m) none_yet fits r in
    record {
      limit = c.limit;
      counted = grind (arith, c.counted, c.within);
      within = omega (arith, c.within);
    }
