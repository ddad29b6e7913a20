-- ===== src/World.antt =====
-- What the server asks of the system: the clock, the time as text, and sockets to other servers.
-- Each answer may depend on how often the server has asked before (`ticks` of its state).
use ichatd.Common.{ℕ, Bytes}
use ichatd.Config.{S2sBlock}
use ichatd.Sockets.{ConnectAnswers}

pub record World : Type 0 where
  -- `GetTimerMS`
  pub clock : ℕ → ℕ
  -- `make_timestamp`, for a message to the client at an address
  pub stamp : ℕ → ℕ → Bytes
  -- the calls of `IC_nonblock_connect`
  pub sockets : ℕ → S2sBlock → ConnectAnswers
