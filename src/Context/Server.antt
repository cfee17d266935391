-- ===== src/Context/Server.antt =====
-- skynet-1.2.0/skynet-src/skynet_server.c: `struct skynet_context` with its count of references, and
-- the state of the process that the calls on contexts share. A pointer is a number; a context that
-- was freed is none in the heap. `none` as a result is an access to freed memory or a failed assert.
use skynet_sy.Common.{
  ℕ, ◌+◌, ◌-◌, ◌%◌, ◌^◌, ◌||◌, Bool, true, false, Option, none, some, ◌==◌, leb, if◌then◌else◌,
  ◌>>=◌,
}
use skynet_sy.Mq.Queue.{Message}
use skynet_sy.Mq.Global.{World, mq_push, mq_mark_release}
use skynet_sy.Handle.Slots.{Storage, handle_find, handle_retire}

-- Without the instance, the log file and the measures of time. `queue` is a pointer into the heap of
-- queues, `cb` tells whether there is a callback. The count of a context that lives is positive.
pub record Context : Type 0 where
  pub handle : ℕ
  pub queue : ℕ
  pub session_id : ℕ
  pub ref : ℕ
  pub message_count : ℕ
  pub init : Bool
  pub endless : Bool
  pub cb : Bool

-- The heap of contexts, `G_NODE.total`, the handles, the queues, and `user` for what services keep.
pub record Server (S : Type 0) : Type 0 where
  pub contexts : ℕ → Option Context
  pub total : ℕ
  pub storage : Storage
  pub world : World
  pub user : S

-- Session ids are positive; after 2 ^ 31 - 1 they start again.
unfoldable pub context_newsession : Context → ℕ × Context
context_newsession ctx =
    let session = (ctx.session_id + 1) % 2 ^ 32 in
    if session == 0 || leb (2 ^ 31) session
    then (1, record ctx { session_id = 1 })
    else (session, record ctx { session_id = session })

module _ {S : Type 0} where
  -- *c = ctx
  abbrev pub put_context : Server S → ℕ → Option Context → Server S
  put_context s c ctx = record s { contexts = λ x. if x == c then ctx else s.contexts x }

  -- what `skynet_context_handle` reads
  abbrev pub handle_of : Server S → ℕ → Option ℕ
  handle_of s c = s.contexts c >>= λ ctx. some ctx.handle

  unfoldable pub context_grab : Server S → ℕ → Option (Server S)
  context_grab s c =
      s.contexts c >>= λ ctx. some (put_context s c (some (record ctx { ref = ctx.ref + 1 })))

  unfoldable pub context_reserve : Server S → ℕ → Option (Server S)
  context_reserve s c = context_grab s c >>= λ s'. some (record s' { total = s'.total - 1 })

  -- The file of the log and the release function of the service are left out.
  unfoldable pub delete_context : Server S → ℕ → Option (Server S)
  delete_context s c = do
    ctx ← s.contexts c
    w ← mq_mark_release s.world ctx.queue
    some (record (put_context s c none) { world = w; total = s.total - 1 })

  -- The context, or null if that was the last reference. A count of 0 is no count of a context.
  unfoldable pub context_release : Server S → ℕ → Option (Option ℕ × Server S)
  context_release s c = do
    ctx ← s.contexts c
    let released = put_context s c (some (record ctx { ref = ctx.ref - 1 }))
    if ctx.ref == 0
        then none
        else if ctx.ref - 1 == 0
        then (delete_context released c >>= λ s'. some (none, s'))
        else some (some c, released)

  -- skynet_handle.c: the context with this handle, with one reference more
  unfoldable pub handle_grab : Server S → ℕ → Option (Option ℕ × Server S)
  handle_grab s handle = handle_find (handle_of s) s.storage handle >>= λ found.
      elim found as (λ _. Option (Option ℕ × Server S)) [
        | none ↦ some (none, s)
        | some c ↦ context_grab s c >>= λ s'. some (some c, s')
      ]

  -- true for the result 0, false for -1
  unfoldable pub context_push : Server S → ℕ → Message → Option (Bool × Server S)
  context_push s handle m = handle_grab s handle >>= λ r.
      elim r.0 as (λ _. Option (Bool × Server S)) [
        | none ↦ some (false, r.1)
        | some c ↦ do
          ctx ← r.1.contexts c
          w ← mq_push r.1.world ctx.queue m
          released ← context_release (record r.1 { world = w }) c
          some (true, released.1)
      ]

  unfoldable pub context_endless : Server S → ℕ → Option (Server S)
  context_endless s handle = handle_grab s handle >>= λ r. elim r.0 as (λ _. Option (Server S)) [
    | none ↦ some r.1
    | some c ↦ do
      ctx ← r.1.contexts c
      released ← context_release (put_context r.1 c (some (record ctx { endless = true }))) c
      some released.1
  ]

  -- skynet_handle.c: `skynet_handle_retire`, with the release of the context
  unfoldable pub retire : Server S → ℕ → Option (Bool × Server S)
  retire s handle = handle_retire (handle_of s) s.storage handle >>= λ r.
      elim r.0 as (λ _. Option (Bool × Server S)) [
        | none ↦ some (false, record s { storage = r.1 })
        | some c ↦
            context_release (record s { storage = r.1 }) c >>= λ released. some (true, released.1)
      ]
