-- ===== src/Linux/Descriptor/Progress.antt =====
-- The descriptor parser stays inside the descriptor and ends.
use usb_hid_tool.Prelude.{
  ℕ, zero, suc, ◌+◌, ◌^◌, ◌≤◌, ◌<◌, ◌≡◌, refl, true, ◌&&◌, List, bit_and, arith, ltb, ◌==◌,
  Bool-cases, inl, inr, ltb→lt, length,
}
use usb_hid_tool.Prelude.Bits.{bit_and-le}
use usb_hid_tool.Prelude.Int.{ℤ, pos, negsuc}
use usb_hid_tool.Run.{read, Returns, Returns-bind, Returns-mono, All, Returns-read}
use usb_hid_tool.Linux.Descriptor.{
  add_u32, ItemSize, short_item_size, get_hid_item_size, get_hid_report_bytes, level_after, Round,
  leave, again, iterate_item, iterate_step, Iterated, iterate_loop,
}

abbrev pub IsByte : ℕ → Type 0
IsByte b = b < 256

-- An item that can be skipped: its key is there, and it is at most a long item.
pub record IsSized (it : ItemSize) : Type 0 where
  pub is_ok : it.ok ≡ true
  pub has_key : 0 < it.key_size
  pub is_short : it.data_len + it.key_size < 259

short_item_size-IsSized : (code : ℕ) → code ≤ 3 → IsSized (short_item_size code)
unfolding short_item_size
short_item_size-IsSized code h = ground arith

-- A descriptor of at most 2^31 bytes held in an array at least that long.
pub record IsDescriptor (rpt : List ℕ) (size : ℕ) : Type 0 where
  pub bytes : All IsByte rpt
  pub held : size ≤ length rpt
  pub small : size ≤ 2 ^ 31

module _ (rpt : List ℕ) (size : ℕ) (d : IsDescriptor rpt size) where
  pub read-IsByte : (p : ℕ) → p < size → Returns IsByte (read rpt p)
  read-IsByte p h = Returns-read IsByte rpt p d.bytes (omega (arith, d.held))

  pub get_hid_item_size-IsSized :
      (p : ℕ) → p < size → Returns IsSized (get_hid_item_size rpt size p)
  unfolding get_hid_item_size
  get_hid_item_size-IsSized p h =
      Returns-bind IsByte IsSized (read rpt p) _ (read-IsByte p h) λ key e b.
        elim (Bool-cases (bit_and key 0xf0 == 0xf0 && ltb (add_u32 p 1) size)) [
          | inl long ↦ rw long (
              Returns-bind IsByte IsSized (read rpt (add_u32 p 1)) _
                (read-IsByte (add_u32 p 1) (ground arith)) λ len e' b'. omega_sized len b')
          | inr short ↦ rw short (short_item_size-IsSized (bit_and key 3) (bit_and-le key 3))
        ]
    where
      omega_sized :
          (len : ℕ) → IsByte len → IsSized (record { ok = true; data_len = len; key_size = 3 })
      omega_sized len h = record { is_ok = refl; has_key = omega arith; is_short = omega arith }

  -- Where `hid_iterate_over_collection` has gone, started at `p`.
  pub record Forward (p : ℕ) (r : Iterated) : Type 0 where
    pub forward : p ≤ r.at
    pub inside : r.found ≡ true → r.at < size
    pub sized : r.found ≡ true → IsSized r.last

  -- A round that goes on goes forward, and stays below 2^32.
  abbrev RoundForward : ℕ → Round → Type 0
  RoundForward p (leave r) = Forward p r
  RoundForward p (again p' l it) = (p < p') × IsSized it

  iterate_item-RoundForward :
      (p : ℕ) (it : ItemSize) (z : ℤ) → p < size → IsSized it → RoundForward p (iterate_item p it z)
  unfolding iterate_item
  iterate_item-RoundForward p it (negsuc n) h s = record {
    forward = omega arith;
    inside = λ _. h;
    sized = λ _. s;
  }
  iterate_item-RoundForward p it (pos zero) h s = record {
    forward = omega arith;
    inside = λ _. h;
    sized = λ _. s;
  }
  iterate_item-RoundForward p it (pos (suc l)) h s = (omega (arith, d.small, s), s)

  iterate_step-RoundForward :
      (p level : ℕ) → p < size → Returns (RoundForward p) (iterate_step rpt size p level)
  unfolding iterate_step
  iterate_step-RoundForward p level h =
      Returns-bind IsByte (RoundForward p) (read rpt p) _ (read-IsByte p h) λ key _ _.
        Returns-bind IsSized (RoundForward p) (get_hid_item_size rpt size p) _
          (get_hid_item_size-IsSized p h)
          λ it _ s.
            simp s.is_ok (iterate_item-RoundForward p it (level_after (bit_and key 0xfc) level) h s)

  Forward-weaken : (p p' : ℕ) (r : Iterated) → p ≤ p' → Forward p' r → Forward p r
  Forward-weaken p p' r h f = record {
    forward = omega (arith, f.forward);
    inside = f.inside;
    sized = f.sized;
  }

  pub iterate_loop-Forward :
      (fuel p level : ℕ) (last : ItemSize)
      → 0 < fuel
      → size < p + fuel
      → Returns (Forward p) (iterate_loop fuel rpt size p level last)
  unfolding iterate_loop
  iterate_loop-Forward zero p level last z h = absurd (omega arith)
  iterate_loop-Forward (suc fuel) p level last z h = elim (Bool-cases (ltb p size)) [
    | inr past ↦ rw past (record { forward = omega arith; inside = λ e. cc; sized = λ e. cc })
    | inl within ↦
        let below : p < size = ltb→lt p size within in
        rw within (
          Returns-bind (RoundForward p) (Forward p) (iterate_step rpt size p level) _
            (iterate_step-RoundForward p level below)
            elim [
              | leave r ↦ λ _ f. f
              | again p' l it ↦ λ _ f.
                  Returns-mono (iterate_loop fuel rpt size p' l it)
                    (λ r. Forward-weaken p p' r (omega arith))
                    (iterate_loop-Forward fuel p' l it (omega arith) (omega arith))
            ])
  ]

  -- A value of at most four bytes, read inside the descriptor.
  pub get_hid_report_bytes-lt :
      (n cur : ℕ)
      → cur + n < 2 ^ 64
      → Returns (λ v. v < 2 ^ 32) (get_hid_report_bytes rpt size n cur)
  unfolding get_hid_report_bytes
  get_hid_report_bytes-lt n cur h = ground (
    arith,
    read-IsByte (cur + 1),
    read-IsByte (cur + 2),
    read-IsByte (cur + 3),
    read-IsByte (cur + 4),
  )
