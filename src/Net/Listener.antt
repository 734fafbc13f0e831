-- ===== src/Net/Listener.antt =====
-- uvio/net/tcp_listener.hpp: the awaiter of `accept`. `uv_check` logs an error and goes on, so that
-- the code of `uv_accept` has no part in what it returns.
pub mod Accept
use uvio.Prelude.{Bool, true, false}
use uvio.Common.Result.{Result, ok}
use uvio.Common.Stoi.{ℤ, pos}

-- `AcceptAwaiter`.
pub record AcceptAwaiter : Type 0 where
  pub handle : Bool
  pub ready : Bool
  pub status : ℤ

abbrev pub accept_start : AcceptAwaiter
accept_start = record { handle = false; ready = false; status = pos 0 }

-- The callback of `uv_listen`.
unfoldable pub accept_callback : ℤ → AcceptAwaiter → AcceptAwaiter × Bool
accept_callback status a = (record a { status = status; ready = true }, a.handle)

unfoldable pub accept_suspend : AcceptAwaiter → AcceptAwaiter
accept_suspend a = record a { handle = true }

-- The stream of the client, whatever the status is.
unfoldable pub accept_resume :
    {Stream : Type 0} → Stream → AcceptAwaiter → Result Stream × AcceptAwaiter
accept_resume client a = (ok client, a)
