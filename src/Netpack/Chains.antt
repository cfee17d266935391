-- ===== src/Netpack/Chains.antt =====
-- The chains of incomplete packages of lua-netpack.c: `find_uncomplete` takes an entry out of the
-- chain of its index, `save_uncomplete` puts one in front.
use native.Mathlib.Decide.{ℕ_discrete}
use skynet_sy.Common.{
  ℕ, ◌<◌, ◌≡◌, ◌≢◌, refl, sym, ◌∙◌, ap, Option, none, some, List, [], ◌∷◌, ◌++◌, ◌==◌,
  if◌then◌else◌, ==_iff, ==_ne, ==_refl, length,
}
use skynet_sy.Netpack.Queue.{
  Uncomplete, PackQueue, hash_fd, unlink, set_chain, find_uncomplete, write_size,
}

-- the entries of a chain that wait for data of `fd`
abbrev pub entries : ℕ → List Uncomplete → List Uncomplete
entries fd [] = []
entries fd (uc ∷ chain) = if uc.pack.id == fd then uc ∷ entries fd chain else entries fd chain

abbrev pub entries_of : PackQueue → ℕ → List Uncomplete
entries_of q fd = entries fd (q.hash (hash_fd fd))

unlink_missing : (fd : ℕ) (chain : List Uncomplete) → entries fd chain ≡ [] → unlink fd chain ≡ none
unfolding unlink
unlink_missing fd [] e = refl
unlink_missing fd (uc ∷ chain) e = elim (ℕ_discrete uc.pack.id fd) [
  | yes p ↦ absurd (cons_ne (rw ((==_iff uc.pack.id fd).1 p) at e))
  | no p ↦
      rw (==_ne uc.pack.id fd p, unlink_missing fd chain (rw (==_ne uc.pack.id fd p) at e)) refl
]
  where
    cons_ne : {u : Uncomplete} {us : List Uncomplete} → u ∷ us ≢ []
    cons_ne q = cc q

-- What `unlink` takes is the first entry, and the others stay.
unlink_lem :
    (fd : ℕ) (chain : List Uncomplete) (uc : Uncomplete) (more : List Uncomplete)
    → entries fd chain ≡ uc ∷ more
    → (rest : List Uncomplete) × (unlink fd chain ≡ some (uc, rest))
      × (entries fd rest ≡ more)
      × ((g : ℕ) → g ≢ fd → entries g rest ≡ entries g chain)
unfolding unlink
unlink_lem fd [] uc more e = absurd (cc e)
unlink_lem fd (x ∷ chain) uc more e = elim (ℕ_discrete x.pack.id fd) [
  | yes p ↦
      let same = (==_iff x.pack.id fd).1 p in
      let e' : x ∷ entries fd chain ≡ uc ∷ more = rw same at e in
      (
        chain,
        rw (same, first e') refl,
        later e',
        λ g ne. rw (==_ne x.pack.id g (λ r. ne (sym r ∙ p))) refl,
      )
  | no p ↦
      let apart = ==_ne x.pack.id fd p in
      let (rest, run, left, others) = unlink_lem fd chain uc more (rw apart at e) in
      (
        x ∷ rest,
        rw (apart, run) refl,
        rw apart left,
        λ g ne. ap (λ (l : List Uncomplete). if x.pack.id == g then x ∷ l else l) (others g ne),
      )
]
  where
    first : x ∷ entries fd chain ≡ uc ∷ more → x ≡ uc
    first q = cc q

    later : x ∷ entries fd chain ≡ uc ∷ more → entries fd chain ≡ more
    later q = cc q

-- The chains of two queues agree but for the entries of `fd`.
abbrev pub Apart : PackQueue → PackQueue → ℕ → Type 0
Apart q q' fd = (g : ℕ) → g ≢ fd → entries_of q' g ≡ entries_of q g

-- A chain changed for `fd` only, put at its index.
set_chain-entries :
    (q : PackQueue) (fd : ℕ) (chain : List Uncomplete)
    → entries_of (set_chain q (hash_fd fd) chain) fd ≡ entries fd chain
set_chain-entries q fd chain = rw (==_refl (hash_fd fd)) refl

set_chain-Apart :
    (q : PackQueue) (fd : ℕ) (chain : List Uncomplete)
    → ((g : ℕ) → g ≢ fd → entries g chain ≡ entries g (q.hash (hash_fd fd)))
    → Apart q (set_chain q (hash_fd fd) chain) fd
set_chain-Apart q fd chain same g ne = elim (ℕ_discrete (hash_fd g) (hash_fd fd)) [
  | yes p ↦
      rw ((==_iff (hash_fd g) (hash_fd fd)).1 p)
        (same g ne ∙ ap (λ h. entries g (q.hash h)) (sym p))
  | no p ↦ rw (==_ne (hash_fd g) (hash_fd fd) p) refl
]

pub find_uncomplete_missing :
    (q : PackQueue) (fd : ℕ) → entries_of q fd ≡ [] → find_uncomplete (some q) fd ≡ none
unfolding find_uncomplete
find_uncomplete_missing q fd e = rw (unlink_missing fd (q.hash (hash_fd fd)) e) refl

-- `find_uncomplete` takes the first entry of its id out of the queue, and nothing else.
pub find_uncomplete_lem :
    (q : PackQueue) (fd : ℕ) (uc : Uncomplete) (more : List Uncomplete)
    → entries_of q fd ≡ uc ∷ more
    → (chain : List Uncomplete) × (find_uncomplete (some q) fd
        ≡ some (uc, set_chain q (hash_fd fd) chain))
      × (entries_of (set_chain q (hash_fd fd) chain) fd ≡ more)
      × Apart q (set_chain q (hash_fd fd) chain) fd
unfolding find_uncomplete
find_uncomplete_lem q fd uc more e =
    let (rest, run, left, others) = unlink_lem fd (q.hash (hash_fd fd)) uc more e in
    (rest, rw run refl, set_chain-entries q fd rest ∙ left, set_chain-Apart q fd rest others)

-- An entry put in front of its chain.
pub put_front-entries :
    (q : PackQueue) (fd : ℕ) (uc : Uncomplete)
    → uc.pack.id ≡ fd
    → entries_of (set_chain q (hash_fd fd) (uc ∷ q.hash (hash_fd fd))) fd ≡ uc ∷ entries_of q fd
put_front-entries q fd uc e =
    set_chain-entries q fd (uc ∷ q.hash (hash_fd fd)) ∙ rw ((==_iff uc.pack.id fd).1 e) refl

pub put_front-Apart :
    (q : PackQueue) (fd : ℕ) (uc : Uncomplete)
    → uc.pack.id ≡ fd
    → Apart q (set_chain q (hash_fd fd) (uc ∷ q.hash (hash_fd fd))) fd
put_front-Apart q fd uc e =
    set_chain-Apart q fd (uc ∷ q.hash (hash_fd fd))
      (λ g ne. rw (==_ne uc.pack.id g (λ r. ne (sym r ∙ e))) refl)

-- The bytes of an entry, as they came.
abbrev pub unread : Uncomplete → Option ℕ → List ℕ
unread uc none = uc.header ∷ []
unread uc (some n) = write_size uc.pack.size ++ uc.pack.buffer

abbrev pub unread_of : List Uncomplete → List ℕ
unread_of [] = []
unread_of (uc ∷ more) = unread uc uc.read

abbrev pub pending : PackQueue → ℕ → List ℕ
pending q fd = unread_of (entries_of q fd)

-- An entry has one byte of its length, or the length and less data than it tells.
abbrev pub Partial : ℕ → Uncomplete → Option ℕ → Type 0
Partial fd uc none = (uc.pack.id ≡ fd) × (uc.header < 256) × (uc.pack.buffer ≡ [])
Partial fd uc (some n) =
    (uc.pack.id ≡ fd) × (n ≡ length uc.pack.buffer) × (n < uc.pack.size) × (uc.pack.size < 65536)

abbrev pub Waits : ℕ → List Uncomplete → Type 0
Waits fd [] = Unit
Waits fd (uc ∷ []) = Partial fd uc uc.read
Waits fd (uc ∷ x ∷ more) = ⊥

-- At most one entry waits for each connection, and it is incomplete.
abbrev pub Ready : PackQueue → Type 0
Ready q = (fd : ℕ) → Waits fd (entries_of q fd)

-- A step on `fd` alone that leaves a proper chain keeps the queue ready.
pub Apart-Ready :
    (q q' : PackQueue) (fd : ℕ) → Ready q → Apart q q' fd → Waits fd (entries_of q' fd) → Ready q'
Apart-Ready q q' fd r a w g = elim (ℕ_discrete g fd) [ yes p ↦ rw p w | no p ↦ rw (a g p) (r g) ]

pub Apart-trans : (q q' q'' : PackQueue) (fd : ℕ) → Apart q q' fd → Apart q' q'' fd → Apart q q'' fd
Apart-trans q q' q'' fd a b g ne = b g ne ∙ a g ne
