-- ===== src/Windows/Enumerate/Balance.antt =====
-- What `hid_open` of hidapi/windows/hid.c leaves open, with a device and without.
use usb_hid_tool.Prelude.{
  ℕ, suc, ◌+◌, ◌≡◌, ◌≢◌, refl, ap, ◌∙◌, Bool, List, [], ◌∷◌, Option, none, some, arith,
}
use usb_hid_tool.Run.{done, Returns, Returns-bind}
use usb_hid_tool.Windows.Transfers.{Bytes}
use usb_hid_tool.Windows.DevNode.{Wide, DeviceInfo, Windows}
use usb_hid_tool.Windows.Enumerate.{
  hid_close, ListAnswer, HidDevice, hid_open_path, path_to_open, open_found, hid_open_listed,
  hid_open, hid_enumerate,
}
use usb_hid_tool.Windows.State.{State}
use usb_hid_tool.Windows.Enumerate.Lists.{IsEnumeration, Answered, hid_enumerate-IsEnumeration}
use usb_hid_tool.Windows.Enumerate.Open.{IsOpening, interface_path, hid_open_path-IsOpening}

-- As much is open as before.
pub record IsLeft (s s' : State) : Type 0 where
  pub handles : s'.open_handles ≡ s.open_handles
  pub events : s'.open_events ≡ s.open_events
  pub preparsed : s'.open_preparsed ≡ s.open_preparsed

-- With a device one handle and two events stay open, without one nothing; closing it leaves open what
-- was open before. The error is set without a device.
abbrev pub IsBalanced : Windows → State → Option HidDevice × State → Type 0
IsBalanced os s (some dev, s') =
    (s'.open_handles ≡ suc s.open_handles)
    × (s'.open_events ≡ 2 + s.open_events)
    × (s'.open_preparsed ≡ s.open_preparsed)
    × (s'.global_error ≡ none)
    × IsLeft s (hid_close os (some dev) s')
IsBalanced os s (none, s') = IsLeft s s' × (s'.global_error ≢ none)

IsOpening-IsBalanced :
    (os : Windows) (s t : State) (path : Wide) (r : Option HidDevice × State)
    → IsLeft s t
    → IsOpening os t path r
    → IsBalanced os s r
unfolding hid_close
IsOpening-IsBalanced os s t path (some dev, s') l o = (
  handles,
  events,
  o.2 ∙ l.preparsed,
  o.3,
  record { handles = omega arith; events = omega arith; preparsed = o.2 ∙ l.preparsed },
)
  where
    handles : s'.open_handles ≡ suc s.open_handles
    handles = o.0 ∙ ap suc l.handles

    events : s'.open_events ≡ 2 + s.open_events
    events = o.1 ∙ ap (λ n. 2 + n) l.events
IsOpening-IsBalanced os s t path (none, s') l o = (
  record { handles = o.0 ∙ l.handles; events = o.1 ∙ l.events; preparsed = o.2 ∙ l.preparsed },
  o.3,
)

open_found-IsBalanced :
    (os : Windows) (malloc : ℕ → Bytes) (resolved : Bool) (s t : State) (path : Option Bytes)
    → IsLeft s t
    → IsBalanced os s (open_found os malloc resolved path t)
open_found-IsBalanced os malloc resolved s t none l =
    (record { handles = l.handles; events = l.events; preparsed = l.preparsed }, ground arith)
open_found-IsBalanced os malloc resolved s t (some path) l =
    IsOpening-IsBalanced os s t (interface_path os path) (hid_open_path os malloc resolved path t) l
      (hid_open_path-IsOpening os malloc resolved path t)

listed-IsBalanced :
    (os : Windows) (malloc : ℕ → Bytes) (resolved : Bool) (v p : ℕ) (serial : Option Wide)
    (s : State) (records : List DeviceInfo × State)
    → IsEnumeration v p s records
    → IsBalanced os s (hid_open_listed os malloc resolved v p serial records)
unfolding hid_open_listed
listed-IsBalanced os malloc resolved v p serial s ([], t) e =
    (record { handles = e.1; events = e.2; preparsed = e.3 }, λ k. e.4.0 k refl)
listed-IsBalanced os malloc resolved v p serial s (d ∷ ds, t) e =
    open_found-IsBalanced os malloc resolved s t (path_to_open os v p serial (d ∷ ds))
      (record { handles = e.1; events = e.2; preparsed = e.3 })

-- Whatever Windows answers, once it answers, `hid_open` returns; with a device one handle and two
-- events more are open than before, and `hid_close` of it closes these; without a device no more is
-- open. As many preparsed data are open as before, and the global error is set exactly when there is no
-- device.
pub hid_open-IsBalanced :
    (os : Windows) (malloc : ℕ → Bytes) (resolved : Bool) (answers : List ListAnswer)
    (vendor_id product_id : ℕ) (serial : Option Wide) (s : State)
    → Answered answers
    → Returns (IsBalanced os s) (hid_open os malloc resolved answers vendor_id product_id serial s)
unfolding hid_open
hid_open-IsBalanced os malloc resolved answers v p serial s h =
    Returns-bind (IsEnumeration v p s) (IsBalanced os s) (hid_enumerate os resolved answers v p s)
      (λ records. done (hid_open_listed os malloc resolved v p serial records))
      (hid_enumerate-IsEnumeration os resolved answers v p s h)
      (λ records _ k. listed-IsBalanced os malloc resolved v p serial s records k)
