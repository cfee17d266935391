-- ===== src/Netpack/Queue.antt =====
-- skynet-1.2.0/lualib-src/lua-netpack.c: `struct queue`, with its ring of packages and its chains of
-- incomplete ones. The userdata at index 1 of the Lua stack is an argument, none for nil. A buffer is
-- the bytes written to it. Numbers of cells stay below 2 ^ 31.
use skynet_sy.Common.{
  ℕ, zero, suc, ◌+◌, ◌-◌, ◌/◌, ◌%◌, ◌^◌, Option, none, some, List, [], ◌∷◌, ◌++◌, ◌==◌,
  if◌then◌else◌, ◌>>=◌, leb, ltb, length, Cell, load, store, replicate,
}
use skynet_sy.Common.Ring.{copy_ring}

abbrev pub queue_size : ℕ
queue_size = 1024

abbrev pub hash_size : ℕ
hash_size = 4096

pub record NetPack : Type 0 where
  pub id : ℕ
  pub size : ℕ
  pub buffer : List ℕ

-- `read` is none for -1: only the first byte of the length has come.
pub record Uncomplete : Type 0 where
  pub pack : NetPack
  pub read : Option ℕ
  pub header : ℕ

-- `hash` gives the chain of each index below `hash_size`.
pub record PackQueue : Type 0 where
  pub cap : ℕ
  pub head : ℕ
  pub tail : ℕ
  pub hash : ℕ → List Uncomplete
  pub queue : List (Cell NetPack)

unfoldable pub hash_fd : ℕ → ℕ
hash_fd fd = (fd / 2 ^ 24 + fd / 2 ^ 12 + fd) % 2 ^ 32 % hash_size

-- The first of a chain with this id, and the chain without it.
unfoldable pub unlink : ℕ → List Uncomplete → Option (Uncomplete × List Uncomplete)
unlink fd [] = none
unlink fd (uc ∷ chain) =
    if uc.pack.id == fd then some (uc, chain) else (unlink fd chain >>= λ r. some (r.0, uc ∷ r.1))

abbrev pub set_chain : PackQueue → ℕ → List Uncomplete → PackQueue
set_chain q h chain = record q { hash = λ i. if i == h then chain else q.hash i }

unfoldable pub find_uncomplete : Option PackQueue → ℕ → Option (Uncomplete × PackQueue)
find_uncomplete q fd =
    q >>= λ q'. unlink fd (q'.hash (hash_fd fd)) >>= λ r. some (r.0, set_chain q' (hash_fd fd) r.1)

unfoldable pub get_queue : Option PackQueue → PackQueue
get_queue (some q) = q
get_queue none = record {
  cap = queue_size;
  head = 0;
  tail = 0;
  hash = λ h. [];
  queue = replicate queue_size none;
}

unfoldable pub expand_queue : PackQueue → Option PackQueue
expand_queue q = do
  cells ← copy_ring q.cap 0 q.queue q.head q.cap (replicate (q.cap + queue_size) none)
  some (record { cap = q.cap + queue_size; head = 0; tail = q.cap; hash = q.hash; queue = cells })

unfoldable pub push_data : Option PackQueue → ℕ → List ℕ → Option PackQueue
push_data q fd buffer = do
  let q1 = get_queue q
  cells ← store q1.queue q1.tail (some (record { id = fd; size = length buffer; buffer = buffer }))
  let tail = if leb q1.cap (q1.tail + 1) then q1.tail + 1 - q1.cap else q1.tail + 1
  let q2 = record q1 { queue = cells; tail = tail }
  if q2.head == q2.tail then expand_queue q2 else some q2

-- The entry, as the callers fill it, at the front of its chain.
unfoldable pub save_uncomplete : Option PackQueue → Uncomplete → PackQueue
save_uncomplete q uc =
    let q' = get_queue q in let h = hash_fd uc.pack.id in set_chain q' h (uc ∷ q'.hash h)

-- the package taken from the queue, if there is one
unfoldable pub lpop : Option PackQueue → Option (Option NetPack × Option PackQueue)
lpop none = some (none, none)
lpop (some q) =
    if q.head == q.tail
    then some (none, some q)
    else (load q.queue q.head >>= λ np.
        some (some np, some (record q { head = if leb q.cap (q.head + 1) then 0 else q.head + 1 })))

-- `lpack` with its errors: the length in two bytes, and the data
unfoldable pub write_size : ℕ → List ℕ
write_size len = (len / 2 ^ 8 % 256) ∷ (len % 256) ∷ []

unfoldable pub lpack : List ℕ → Option (List ℕ)
lpack bytes = if leb 0x10000 (length bytes) then none else some (write_size (length bytes) ++ bytes)

-- for (i=0;i<HASHSIZE;i++): the entries of the chains from index `i` on, which are freed
unfoldable pub clear_chains : ℕ → ℕ → PackQueue → List Uncomplete
clear_chains zero i q = []
clear_chains (suc n) i q = q.hash i ++ clear_chains n (i + 1) q

-- for (i=q->head;i<q->tail;i++): the packages whose buffers are freed
unfoldable pub clear_ring : ℕ → ℕ → PackQueue → Option (List NetPack)
clear_ring zero i q = some []
clear_ring (suc n) i q = do
  np ← load q.queue (i % q.cap)
  nps ← clear_ring n (i + 1) q
  some (np ∷ nps)

-- The buffers that are freed, and the queue
unfoldable pub lclear :
    Option PackQueue → Option (List Uncomplete × (List NetPack × Option PackQueue))
lclear none = some ([], ([], none))
lclear (some q) =
    let tail = if ltb q.tail q.head then q.tail + q.cap else q.tail in
    do
      nps ← clear_ring (tail - q.head) q.head q
      some (
        clear_chains hash_size 0 q,
        (nps, some (record q { hash = λ h. []; head = 0; tail = 0 })),
      )
