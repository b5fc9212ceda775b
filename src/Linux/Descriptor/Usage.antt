-- ===== src/Linux/Descriptor/Usage.antt =====
-- `get_next_hid_usage` reads inside the descriptor, ends, and goes forward with each pair it finds.
use usb_hid_tool.Prelude.{
  ℕ, zero, suc, ◌+◌, ◌^◌, ◌≤◌, ◌<◌, ◌≡◌, ◌⊎◌, Bool, true, false, ◌&&◌, List, bit_and, arith, ltb,
  ◌==◌, Bool-cases, inl, inr, ltb→lt,
}
use usb_hid_tool.Run.{Run, ◌>>=◌, read, Returns, Returns-bind, Returns-mono}
use usb_hid_tool.Linux.Descriptor.{
  add_u32, ItemSize, get_hid_item_size, get_hid_report_bytes, Iterated, after_collection,
  iterate_loop, hid_iterate_over_collection, Scan, Verdict, pair, Next, stop, go, set_page,
  set_usage, skip, collection_item, usage_item, usage_step, usage_loop, get_next_hid_usage,
}
use usb_hid_tool.Linux.Descriptor.Progress.{
  IsByte, IsSized, IsDescriptor, read-IsByte, get_hid_item_size-IsSized, Forward,
  iterate_loop-Forward, get_hid_report_bytes-lt,
}

-- The scan `s'` has come from `s`: it is no further back, and a usage read since lies behind it.
pub record Ahead (s s' : Scan) : Type 0 where
  pub forward : s.at ≤ s'.at
  pub strict : s'.usage_found ≡ true → (s.usage_found ≡ true) ⊎ (s.at < s'.at)
  pub page_small : s.usage_page < 2 ^ 16 → s'.usage_page < 2 ^ 16
  pub usage_small : s.usage < 2 ^ 16 → s'.usage < 2 ^ 16

abbrev NextAhead : Scan → Next → Type 0
NextAhead s (stop v s') = Ahead s s' × (v ≡ pair → s'.usage_found ≡ true)
NextAhead s (go s') = Ahead s s' × (s.at < s'.at)

module _ (rpt : List ℕ) (size : ℕ) (d : IsDescriptor rpt size) where
  skip-NextAhead :
      (s s' : Scan) (it : ItemSize)
      → s.at < size
      → s.at ≤ s'.at
      → s'.at < size
      → (s.usage_page < 2 ^ 16 → s'.usage_page < 2 ^ 16)
      → (s.usage < 2 ^ 16 → s'.usage < 2 ^ 16)
      → IsSized it
      → NextAhead s (skip s' it)
  skip-NextAhead s s' it h f b pg us z = (
    record {
      forward = omega (arith, d.small, z);
      strict = λ _. inr (omega (arith, d.small, z));
      page_small = pg;
      usage_small = us;
    },
    omega (arith, d.small, z),
  )

  abbrev bytes : ℕ → ℕ → Run ℕ
  bytes n cur = get_hid_report_bytes rpt size n cur

  bytes-NextAhead :
      (s : Scan) (n cur : ℕ) (f : ℕ → Run Next)
      → cur + n < 2 ^ 64
      → ((v : ℕ) → Returns (NextAhead s) (f v))
      → Returns (NextAhead s) (bytes n cur >>= f)
  bytes-NextAhead s n cur f h k =
      Returns-bind (λ v. v < 2 ^ 32) (NextAhead s) (bytes n cur) f
        (get_hid_report_bytes-lt rpt size d n cur h) (λ v _ _. k v)

  after_collection-NextAhead :
      (s : Scan) (r : Iterated)
      → s.at < size
      → Forward rpt size d s.at r
      → NextAhead s (after_collection s r)
  unfolding after_collection
  after_collection-NextAhead s r h w = elim (Bool-cases r.found) [
    | inr lost ↦ simp lost (ahead, λ e. cc)
    | inl found ↦ elim (Bool-cases (s.usage_found && s.usage_page_found)) [
      | inl both ↦ simp (found, both) (ahead, λ _. ground arith)
      | inr missing ↦
          simp (found, missing)
            (skip-NextAhead s (record s { at = r.at }) r.last h w.forward (w.inside found) (λ u. u)
              (λ u. u) (w.sized found))
    ]
  ]
    where
      ahead : Ahead s (record s { at = r.at })
      ahead = record {
        forward = w.forward;
        strict = inl;
        page_small = λ u. u;
        usage_small = λ u. u;
      }

  collection-NextAhead :
      (fuel : ℕ) (s : Scan) (it : ItemSize)
      → s.at < size
      → size < s.at + fuel
      → Returns (NextAhead s) (collection_item fuel rpt size s it)
  unfolding collection_item hid_iterate_over_collection
  collection-NextAhead fuel s it h f =
      Returns-bind (Forward rpt size d s.at) (NextAhead s) (iterate_loop fuel rpt size s.at 0 it) _
        (iterate_loop-Forward rpt size d fuel s.at 0 it (omega arith) f)
        λ r _ w. after_collection-NextAhead s r h w

  usage_item-NextAhead :
      (fuel : ℕ) (s : Scan) (cmd : ℕ) (it : ItemSize)
      → s.at < size
      → size < s.at + fuel
      → IsSized it
      → Returns (NextAhead s) (usage_item fuel rpt size s cmd it)
  unfolding usage_item
  usage_item-NextAhead fuel s cmd it h f z = elim (Bool-cases (cmd == 0x4)) [
    | inl page ↦ rw page (
        bytes-NextAhead s it.data_len s.at _ (omega (arith, d.small, z))
          λ v. skip-NextAhead s (set_page s v) it h (omega arith) h (λ _. omega arith) (λ u. u) z)
    | inr p ↦ elim (Bool-cases (cmd == 0x8)) [
      | inl use_item ↦ elim (Bool-cases (it.data_len == 4)) [
        | inl wide ↦
            simp (p, use_item, wide)
              (bytes-NextAhead s 2 (add_u32 s.at 2) _ (omega arith) λ v.
                bytes-NextAhead s 2 s.at _ (omega (arith, d.small)) λ u.
                  skip-NextAhead s (set_usage (set_page s v) u) it h (omega arith) h
                    (λ _. omega arith) (λ _. omega arith) z)
        | inr narrow ↦
            simp (p, use_item, narrow)
              (bytes-NextAhead s it.data_len s.at _ (omega (arith, d.small, z)) λ u.
                skip-NextAhead s (set_usage s u) it h (omega arith) h (λ g. g) (λ _. omega arith) z)
      ]
      | inr u ↦ elim (Bool-cases (cmd == 0xa0)) [
        | inl open_item ↦ simp (p, u, open_item) (collection-NextAhead fuel s it h f)
        | inr c ↦ simp (p, u, c) (skip-NextAhead s s it h (omega arith) h (λ g. g) (λ g. g) z)
      ]
    ]
  ]

  usage_step-NextAhead :
      (fuel : ℕ) (s : Scan)
      → s.at < size
      → size < s.at + fuel
      → Returns (NextAhead s) (usage_step fuel rpt size s)
  unfolding usage_step
  usage_step-NextAhead fuel s h f =
      Returns-bind IsByte (NextAhead s) (read rpt s.at) _ (read-IsByte rpt size d s.at h) λ key _ _.
        Returns-bind IsSized (NextAhead s) (get_hid_item_size rpt size s.at) _
          (get_hid_item_size-IsSized rpt size d s.at h)
          λ it _ z. simp z.is_ok (usage_item-NextAhead fuel s (bit_and key 0xfc) it h f z)

Ahead-refl : (s : Scan) → Ahead s s
Ahead-refl s = record {
  forward = omega arith;
  strict = inl;
  page_small = λ g. g;
  usage_small = λ g. g;
}

-- What a call that starts at `s` returns: a pair has its usage behind the scan.
abbrev Result : Scan → Verdict × Scan → Type 0
Result s (v, s') = Ahead s s' × (v ≡ pair → s'.usage_found ≡ true)

Ahead-trans : (s s₁ s₂ : Scan) → s.at < s₁.at → Ahead s s₁ → Ahead s₁ s₂ → Ahead s s₂
Ahead-trans s s₁ s₂ l a b = record {
  forward = omega (arith, b.forward);
  strict = λ _. inr (omega (arith, b.forward));
  page_small = λ g. b.page_small (a.page_small g);
  usage_small = λ g. b.usage_small (a.usage_small g);
}

module _ (rpt : List ℕ) (size : ℕ) (d : IsDescriptor rpt size) where
  usage_loop-Result :
      (fuel : ℕ) (initial : Bool) (s : Scan)
      → 0 < fuel
      → size < s.at + fuel
      → Returns (Result s) (usage_loop fuel rpt size initial s)
  unfolding usage_loop
  usage_loop-Result zero initial s z f = absurd (omega arith)
  usage_loop-Result (suc fuel) initial s z f = elim (Bool-cases (ltb s.at size)) [
    | inr past ↦ elim (Bool-cases (initial && s.usage_found && s.usage_page_found)) [
      | inl e ↦ simp (past, e) (Ahead-refl s, λ _. ground arith)
      | inr e ↦ simp (past, e) (Ahead-refl s, λ q. cc)
    ]
    | inl within ↦
        let below : s.at < size = ltb→lt s.at size within in
        rw within (
          Returns-bind (NextAhead s) (Result s) (usage_step (suc fuel) rpt size s) _
            (usage_step-NextAhead rpt size d (suc fuel) s below f)
            elim [
              | stop v s' ↦ λ _ a. a
              | go s' ↦ λ _ a.
                  Returns-mono (usage_loop fuel rpt size initial s')
                    (λ r b. (Ahead-trans s s' r.1 a.1 a.0 b.0, b.1))
                    (usage_loop-Result fuel initial s' (omega (arith, below, a.1))
                      (omega (arith, a.1)))
            ])
  ]

  -- On a descriptor of at most 2^31 bytes, with more fuel than bytes ahead, a call of
  -- `get_next_hid_usage` returns and reads no byte outside the array. It does not move back, a pair
  -- is found strictly further on, and the usage page and the usage stay 16 bits wide.
  pub get_next_hid_usage_progress :
      (fuel : ℕ) (s : Scan)
      → 0 < fuel
      → size < s.at + fuel
      → s.usage_page < 2 ^ 16
      → s.usage < 2 ^ 16
      → Returns
          (λ (v, s').
            (s.at ≤ s'.at)
            × (v ≡ pair → s.at < s'.at)
            × (s'.usage_page < 2 ^ 16)
            × (s'.usage < 2 ^ 16))
          (get_next_hid_usage fuel rpt size s)
  unfolding get_next_hid_usage
  get_next_hid_usage_progress fuel s z f pg us =
      let start : Scan = record s { usage_found = false } in
      Returns-mono (usage_loop fuel rpt size (s.at == 0) start)
        (λ r a. (
          a.0.forward,
          λ q. elim (a.0.strict (a.1 q)) [ inl e ↦ cc | inr l ↦ l ],
          a.0.page_small pg,
          a.0.usage_small us,
        ))
        (usage_loop-Result fuel (s.at == 0) start z f)
