-- ===== src/Handle/Install.antt =====
-- `skynet_handle_register` as a whole, for handles that do not wrap round.
use Prim.Native.Nat.{◌∣◌}
use native.Mathlib.Nat.{mod-lt, pow-suc, mod-mod_of_dvd}
use skynet_sy.Common.{
  ℕ, suc, ◌+◌, ◌-◌, ◌*◌, ◌%◌, ◌^◌, ◌≤◌, ◌<◌, ◌≡◌, ◌≢◌, refl, sym, ◌∙◌, ap, subst, arith, Option,
  none, some, List, get_elem?, set, inl, inr, ◌⊎◌, ◌↔◌, length, replicate, store_lem, length-set,
  get_elem?-set_self, get_elem?-set_ne, ◌==◌, if◌then◌else◌, ==_refl, ==_ne, le→leb,
}
use skynet_sy.Common.Bits.{pow_pos, bit_or_shifted}
use skynet_sy.Handle.Slots.{Storage, rehash, scan, handle_register, handle_mask}
use skynet_sy.Handle.Scan.{hash_lem, scan_lem, scan_finds, Scanned, covers}
use skynet_sy.Handle.Rehash.{set_entry}
use skynet_sy.Handle.Register.{IsStorage, Present, pow_dvd}
use skynet_sy.Handle.Grow.{doubled, grow_lem}

-- The field `handle` of the contexts after `ctx->handle = h`.
abbrev pub write_handle : (ℕ → Option ℕ) → ℕ → ℕ → ℕ → Option ℕ
write_handle handle_of ctx h c = if c == ctx then some h else handle_of c

-- The harbor bits do not change the slot.
harbor_slot : (k b h : ℕ) → k ≤ 24 → (b * 2 ^ 24 + h) % 2 ^ k ≡ h % 2 ^ k
harbor_slot k b h le =
    let divides : 2 ^ k ∣ 2 ^ 24 =
      subst (λ n. 2 ^ k ∣ 2 ^ n) {y = 24} (omega arith) (pow_dvd k (24 - k)) in
    let high : (b * 2 ^ 24 + h) % 2 ^ 24 ≡ h % 2 ^ 24 = omega arith in
    sym (mod-mod_of_dvd (2 ^ k) (b * 2 ^ 24 + h) divides)
    ∙ ap (λ t. t % 2 ^ k) high
    ∙ mod-mod_of_dvd (2 ^ k) h divides

-- What a registration leaves.
abbrev pub installed : Storage → ℕ → ℕ → ℕ → Storage
installed s k h ctx = record s { slot = set s.slot (h % 2 ^ k) (some ctx); handle_index = h + 1 }

or_iff : {A P Q R : Type 0} → (P ↔ (A ⊎ Q)) → (Q ↔ R) → (P ↔ (A ⊎ R))
or_iff {A} {P} {Q} {R} f g = (λ p. ahead (f.0 p), λ r. f.1 (behind r))
  where
    ahead : (A ⊎ Q) → (A ⊎ R)
    ahead (inl e) = inl e
    ahead (inr q) = inr (g.0 q)

    behind : (A ⊎ R) → (A ⊎ Q)
    behind (inl e) = inl e
    behind (inr r) = inr (g.1 r)

module _ (handle_of : ℕ → Option ℕ) (b ctx : ℕ) where
  module _ (k : ℕ) (s : Storage) (v : IsStorage handle_of k s) (h : ℕ)
      (free : get_elem? s.slot (h % 2 ^ k) ≡ some none) where
    in_slots : h % 2 ^ k < length s.slot
    in_slots = rw v.width (mod-lt h (pow_pos k))

    register_found :
        (fuel : ℕ)
        → scan (2 ^ k) (2 ^ k) s.slot s.handle_index ≡ some (some h)
        → s.harbor ≡ b * 2 ^ 24
        → h < 2 ^ 24
        → handle_register handle_of (suc fuel) s ctx ≡ some (b * 2 ^ 24 + h, installed s k h ctx)
    unfolding handle_register
    register_found fuel run harbor low = simp (
      v.size,
      run,
      hash_lem k h,
      store_lem s.slot (h % 2 ^ k) (some ctx) in_slots,
      harbor,
      bit_or_shifted 24 b h low,
    )

    abbrev handle_of' : ℕ → Option ℕ
    handle_of' = write_handle handle_of ctx (b * 2 ^ 24 + h)

    module _ (fresh : (i : ℕ) → get_elem? s.slot i ≢ some (some ctx)) (low : k ≤ 24) where
      installed-IsStorage : IsStorage handle_of' k (installed s k h ctx)
      installed-IsStorage = record {
        size = v.size;
        width = length-set s.slot _ (some ctx) ∙ v.width;
        placed = λ i c e. by_entry i c (set_entry s.slot (h % 2 ^ k) i ctx c in_slots e);
      }
        where
          by_entry :
              (i c : ℕ)
              → ((i ≡ h % 2 ^ k) × (ctx ≡ c))
                ⊎ ((i ≢ h % 2 ^ k) × (get_elem? s.slot i ≡ some (some c)))
              → (x : ℕ) × (handle_of' c ≡ some x) × (x % 2 ^ k ≡ i)
          by_entry i c (inl (here, same)) = (
            b * 2 ^ 24 + h,
            rw (← same) (rw (==_refl ctx) refl),
            harbor_slot k b h low ∙ sym here,
          )
          by_entry i c (inr (away, e)) =
              let (x, ex, at_i) = v.placed i c e in
              (x, rw (==_ne c ctx (λ q. fresh i (e ∙ ap (λ z. some (some z)) q))) ex, at_i)

      installed-Present :
          (c : ℕ) → Present handle_of' (installed s k h ctx) c ↔ ((c ≡ ctx) ⊎ Present handle_of s c)
      installed-Present c =
          (λ p. there p.0 (set_entry s.slot (h % 2 ^ k) p.0 ctx c in_slots p.1), back)
        where
          there :
              (i : ℕ)
              → ((i ≡ h % 2 ^ k) × (ctx ≡ c))
                ⊎ ((i ≢ h % 2 ^ k) × (get_elem? s.slot i ≡ some (some c)))
              → (c ≡ ctx) ⊎ Present handle_of s c
          there i (inl (_, same)) = inl (sym same)
          there i (inr (_, e)) = inr (i, e)

          back : ((c ≡ ctx) ⊎ Present handle_of s c) → Present handle_of' (installed s k h ctx) c
          back (inl same) = (
            h % 2 ^ k,
            get_elem?-set_self s.slot _ (some ctx) in_slots ∙ ap (λ z. some (some z)) (sym same),
          )
          back (inr (i, e)) = (
            i,
            get_elem?-set_ne s.slot (h % 2 ^ k) i (some ctx)
                  (λ q. cc (sym free ∙ ap (get_elem? s.slot) q ∙ e))
                ∙ e,
          )

  register_full :
      (fuel k : ℕ) (s : Storage) (after : List (Option ℕ))
      → s.slot_size ≡ 2 ^ k
      → 2 ^ k * 2 ≤ 2 ^ 24
      → scan (2 ^ k) (2 ^ k) s.slot s.handle_index ≡ some none
      → rehash handle_of (2 ^ k) s.slot (replicate (2 ^ k * 2) none) ≡ some after
      → handle_register handle_of (suc fuel) s ctx
        ≡ handle_register handle_of fuel (doubled s after) ctx
  unfolding handle_register
  register_full fuel k s after size fits full run =
      simp (size, full, le→leb (2 ^ k * 2 - 1) handle_mask (omega arith), run)

  -- The storage `s'` holds what `s` held, and `ctx` under the handle `b * 2 ^ 24 + h`.
  pub record Registered (s s' : Storage) (h : ℕ) : Type 0 where
    pub fresh : s.handle_index ≤ h
    pub local : h < 2 ^ 24
    pub valid : (k' : ℕ) × IsStorage (write_handle handle_of ctx (b * 2 ^ 24 + h)) k' s'
    pub holds :
        (c : ℕ)
        → Present (write_handle handle_of ctx (b * 2 ^ 24 + h)) s' c
          ↔ ((c ≡ ctx) ⊎ Present handle_of s c)

  -- In a table of 2^k slots, k below 24, where every context stands in the slot of its handle and
  -- the next handles do not reach 2^24, the registration of a context that is not there ends
  -- within two rounds, faults nowhere, returns a local handle not below handle_index under the
  -- harbor, and gives a valid table that holds what it held and the new context.
  pub handle_register_lem :
      (fuel k : ℕ) (s : Storage)
      → IsStorage handle_of k s
      → k < 24
      → s.harbor ≡ b * 2 ^ 24
      → s.handle_index + 2 ^ k * 2 ≤ 2 ^ 24
      → ((i : ℕ) → get_elem? s.slot i ≢ some (some ctx))
      → (h : ℕ) × (s' : Storage) × (handle_register handle_of (suc (suc fuel)) s ctx
          ≡ some (b * 2 ^ 24 + h, s'))
        × Registered s s' h
  handle_register_lem fuel k s v low harbor room fresh =
      by_scan (scan_lem k s.slot v.width (2 ^ k) s.handle_index (omega arith))
    where
      by_scan :
          ((r : Option ℕ) × (scan (2 ^ k) (2 ^ k) s.slot s.handle_index ≡ some r)
            × Scanned (2 ^ k) s.slot (2 ^ k) s.handle_index r)
          → (h : ℕ) × (s' : Storage) × (handle_register handle_of (suc (suc fuel)) s ctx
              ≡ some (b * 2 ^ 24 + h, s'))
            × Registered s s' h
      by_scan (some h, run, (above, below, free)) = (
        h,
        installed s k h ctx,
        register_found k s v h free (suc fuel) run harbor (omega arith),
        record {
          fresh = above;
          local = omega arith;
          valid = (k, installed-IsStorage k s v h free fresh (omega arith));
          holds = installed-Present k s v h free fresh (omega arith);
        },
      )
      by_scan (none, run, full) =
          let all = λ (j : ℕ) (lt : j < 2 ^ k). slot_full j lt in
          let (after, moved, v', same, (x, room')) = grow_lem handle_of k s v all in
          let t = doubled s after in
          let (h, run', above, below, free) =
            scan_finds (suc k) after v'.width s.handle_index x (rw (pow-suc 2 k) room) room' in
          let low' : h < 2 ^ 24 = omega (arith, pow-suc 2 k) in
          let fresh' = λ (i : ℕ) (e : get_elem? after i ≡ some (some ctx)).
            let (j, ej) = (same ctx).0 (i, e) in fresh j ej in
          (
            h,
            installed t (suc k) h ctx,
            register_full (suc fuel) k s after v.size (omega arith) run moved
                ∙ register_found (suc k) t v' h free fuel run' harbor low',
            record {
              fresh = above;
              local = low';
              valid = (suc k, installed-IsStorage (suc k) t v' h free fresh' (omega arith));
              holds = λ c.
                  or_iff (installed-Present (suc k) t v' h free fresh' (omega arith) c) (same c);
            },
          )
        where
          slot_full : (j : ℕ) → j < 2 ^ k → (c : ℕ) × (get_elem? s.slot j ≡ some (some c))
          slot_full j lt =
              let (i, below, at_j) = covers (2 ^ k) s.handle_index j lt in
              let (c, e) = full i below in (c, ap (get_elem? s.slot) (sym at_j) ∙ e)
