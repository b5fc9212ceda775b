-- ===== src/Race/Transport/Lifecycle.antt =====
-- The handle and the poll timer over the life of a transport.
use usb_hid_tool.Prelude.{
  ℕ, suc, ◌-◌, ◌≡◌, refl, ◌∙◌, Bool, true, false, List, [], ◌∷◌, none, some, set, replicate,
  if◌then◌else◌, arith, Option-cases, inl, inr,
}
use usb_hid_tool.Race.Transport.{
  Bytes, Hidapi, HidTransport, is_open, configure_input_polling, pick_device_path, close, open_at,
  open_device, write_report, get_input_report, poll_read,
}

-- A call of a method.
pub data Call : Type 0 where
  opening : ℕ → ℕ → Call
  closing polling : Call
  writing : Bytes → Call
  configuring getting : ℕ → ℕ → Call

-- A new transport, as the constructor leaves it.
abbrev pub created : {H : Type 0} → HidTransport H
created = record {
  device = none;
  poll_timer_active = false;
  poll_input_report_id = 0;
  poll_read_buffer_size = 64;
}

-- `count` counts the open handles of hidapi: opening a path adds one when it gives a handle, closing
-- removes one, and all else keeps their number.
pub record Counts {H W : Type 0} (api : Hidapi H W) (count : W → ℕ) : Type 0 where
  pub on_enumerate : (w : W) (vid pid : ℕ) → count (api.enumerate w vid pid).1 ≡ count w
  pub on_open_path :
      (w : W) (path : List ℕ)
      → count (api.open_path w path).1
        ≡ (elim (api.open_path w path).0 [ none ↦ count w | some _ ↦ suc (count w) ])
  pub on_set_nonblocking : (w : W) (h : H) (b : Bool) → count (api.set_nonblocking w h b) ≡ count w
  pub on_close : (w : W) (h : H) → count (api.close w h) ≡ count w - 1
  pub on_write : (w : W) (h : H) (bytes : Bytes) → count (api.write w h bytes).1 ≡ count w
  pub on_read : (w : W) (h : H) (size : ℕ) → count (api.read w h size).2 ≡ count w
  pub on_get_input_report :
      (w : W) (h : H) (bytes : Bytes) → count (api.get_input_report w h bytes).2 ≡ count w

module _ {H W : Type 0} (api : Hidapi H W) where
  -- What a call leaves.
  unfoldable pub call : Call → HidTransport H → W → HidTransport H × W
  call (opening vid pid) t w = let d = open_device api vid pid t w in (d.transport, d.world)
  call closing t w = close api t w
  call polling t w = (t, (poll_read api t w).1)
  call (writing bytes) t w = let d = write_report api bytes t w in (d.transport, d.world)
  call (configuring id size) t w = (configure_input_polling t id size, w)
  call (getting id size) t w = (t, (get_input_report api id t w).1)

  unfoldable pub calls : List Call → HidTransport H → W → HidTransport H × W
  calls [] t w = (t, w)
  calls (c ∷ cs) t w = let (t', w') = call c t w in calls cs t' w'

  module _ (count : W → ℕ) (c : Counts api count) where
    -- The timer runs exactly while a device is open, and then hidapi has one more handle than `others`.
    abbrev pub Accounted : ℕ → HidTransport H → W → Type 0
    Accounted others t w =
        (t.poll_timer_active ≡ is_open t) × (count w ≡ (if is_open t then suc others else others))

    close-Accounted :
        (n : ℕ) (t : HidTransport H) (w : W)
        → Accounted n t w
        → Accounted n (close api t w).0 (close api t w).1 × (is_open (close api t w).0 ≡ false)
    unfolding close is_open
    close-Accounted n t w a = elim (Option-cases t.device) [
      | inl e ↦ ground (arith, e, a.0, a.1)
      | inr (h, e) ↦ ground (arith, e, a.0, a.1, c.on_close w h)
    ]

    open_at-Accounted :
        (n : ℕ) (path : List ℕ) (t : HidTransport H) (w : W)
        → Accounted n t w
        → is_open t ≡ false
        → Accounted n (open_at api path t w).transport (open_at api path t w).world
    unfolding open_at is_open
    open_at-Accounted n [] t w a s = a
    open_at-Accounted n (p ∷ ps) t w a s = elim (Option-cases (api.open_path w (p ∷ ps)).0) [
      | inl e ↦ ground (arith, e, a.0, a.1, s, c.on_open_path w (p ∷ ps))
      | inr (h, e) ↦ ground (
        arith,
        e,
        a.0,
        a.1,
        s,
        c.on_open_path w (p ∷ ps),
        c.on_set_nonblocking (api.open_path w (p ∷ ps)).1 h true,
      )
    ]

    open_device-Accounted :
        (n vid pid : ℕ) (t : HidTransport H) (w : W)
        → Accounted n t w
        → Accounted n (open_device api vid pid t w).transport (open_device api vid pid t w).world
    unfolding open_device pick_device_path is_open
    open_device-Accounted n vid pid t w a =
        let k = close-Accounted n t w a in
        let w' : W = (close api t w).1 in
        open_at-Accounted n _
          (record (close api t w).0 {
            poll_input_report_id = t.poll_input_report_id;
            poll_read_buffer_size = t.poll_read_buffer_size;
          })
          _ (k.0.0, c.on_enumerate w' vid pid ∙ k.0.1) k.1

    write-Accounted :
        (n : ℕ) (bytes : Bytes) (t : HidTransport H) (w : W)
        → Accounted n t w
        → Accounted n (write_report api bytes t w).transport (write_report api bytes t w).world
    unfolding write_report is_open
    write-Accounted n bytes t w a = elim (Option-cases t.device) [
      | inl e ↦ ground (arith, e, a.0, a.1)
      | inr (h, e) ↦ ground (arith, e, a.0, a.1, c.on_write w h bytes)
    ]

    get_input-count :
        (id : ℕ) (t : HidTransport H) (w : W) → count (get_input_report api id t w).1 ≡ count w
    unfolding get_input_report
    get_input-count id t w = elim (Option-cases t.device) [
      | inl e ↦ ground (arith, e)
      | inr (h, e) ↦
          ground
            (arith, e, c.on_get_input_report w h (set (replicate t.poll_read_buffer_size 0) 0 id))
    ]

    poll_read-count : (t : HidTransport H) (w : W) → count (poll_read api t w).1 ≡ count w
    unfolding poll_read
    poll_read-count t w = elim (Option-cases t.device) [
      | inl e ↦ ground (arith, e)
      | inr (h, e) ↦ ground (arith, e, c.on_read w h 64, get_input-count t.poll_input_report_id t w)
    ]

    call-Accounted :
        (n : ℕ) (k : Call) (t : HidTransport H) (w : W)
        → Accounted n t w
        → Accounted n (call k t w).0 (call k t w).1
    unfolding call configure_input_polling is_open
    call-Accounted n (opening vid pid) t w a = open_device-Accounted n vid pid t w a
    call-Accounted n closing t w a = (close-Accounted n t w a).0
    call-Accounted n polling t w a = (a.0, poll_read-count t w ∙ a.1)
    call-Accounted n (writing bytes) t w a = write-Accounted n bytes t w a
    call-Accounted n (configuring id size) t w a = a
    call-Accounted n (getting id size) t w a = (a.0, get_input-count id t w ∙ a.1)

    calls-Accounted :
        (n : ℕ) (ks : List Call) (t : HidTransport H) (w : W)
        → Accounted n t w
        → Accounted n (calls ks t w).0 (calls ks t w).1
    unfolding calls
    calls-Accounted n [] t w a = a
    calls-Accounted n (k ∷ ks) t w a =
        calls-Accounted n ks (call k t w).0 (call k t w).1 (call-Accounted n k t w a)

    -- Where `count` counts the open handles of hidapi (`Counts`), whatever methods are called on a
    -- new transport: the poll timer runs exactly while a device is open, and hidapi has exactly one
    -- more open handle than before while one is open, else none more. So a second `open` leaks no
    -- handle.
    pub created-Accounted :
        (ks : List Call) (w : W) → Accounted (count w) (calls ks created w).0 (calls ks created w).1
    created-Accounted ks w = calls-Accounted (count w) ks created w (unfold is_open in (refl, refl))
