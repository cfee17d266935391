-- ===== src/Context/Dispatch.antt =====
-- `skynet_context_message_dispatch` on a queue that holds messages: how many are dispatched, by the
-- weight of the worker, and which queue comes next.
use skynet_sy.Common.{ℕ, List, [], ◌∷◌, ◌++◌}
use skynet_sy.Monitor.{Monitor}
use skynet_sy.Context.Server.{Context, Server}

-- The queue that comes next, and the global queue then
abbrev pub next_of : List ℕ → ℕ → ℕ
next_of [] p = p
next_of (x ∷ ids) p = x

abbrev pub rotated : List ℕ → ℕ → List ℕ
rotated [] p = []
rotated (x ∷ ids) p = ids ++ p ∷ []
