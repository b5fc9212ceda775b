-- ===== src/Race/Transport/Path.antt =====
-- Which interface of a device the transport opens.
use usb_hid_tool.Prelude.{
  ℕ, ◌≡◌, refl, Bool, ◌&&◌, List, [], ◌∷◌, Option, none, some, ◌==◌, if◌then◌else◌, arith,
}
use usb_hid_tool.Race.Transport.{
  DeviceInfo, race_hid_usage_page, pick_path, Hidapi, pick_device_path,
}

-- The first interface of a list that passes a test.
abbrev pub first : (DeviceInfo → Bool) → List DeviceInfo → Option DeviceInfo
first p [] = none
first p (d ∷ ds) = if p d then some d else first p ds

abbrev is_of : ℕ → ℕ → DeviceInfo → Bool
is_of vid pid d = d.vendor_id == vid && d.product_id == pid

abbrev is_race : ℕ → ℕ → DeviceInfo → Bool
is_race vid pid d = is_of vid pid d && d.usage_page == race_hid_usage_page

abbrev path_or : List ℕ → Option DeviceInfo → List ℕ
path_or path none = path
path_or path (some d) = d.path

-- The path of the first interface on the RACE usage page, else of the first interface of the device,
-- else the empty path.
abbrev preferred : ℕ → ℕ → List DeviceInfo → List ℕ
preferred vid pid devs =
    path_or (path_or [] (first (is_of vid pid) devs)) (first (is_race vid pid) devs)

pick_path-some :
    (vid pid : ℕ) (devs : List DeviceInfo) (path : List ℕ)
    → pick_path vid pid devs (some path) ≡ path_or path (first (is_race vid pid) devs)
unfolding pick_path
pick_path-some vid pid [] path = refl
pick_path-some vid pid (d ∷ devs) path = ground (arith, pick_path-some vid pid devs path)

pick_path-none :
    (vid pid : ℕ) (devs : List DeviceInfo) → pick_path vid pid devs none ≡ preferred vid pid devs
unfolding pick_path
pick_path-none vid pid [] = refl
pick_path-none vid pid (d ∷ devs) =
    ground (arith, pick_path-none vid pid devs, pick_path-some vid pid devs d.path)

-- Of the interfaces that hidapi lists, the first with the vendor and product id on the RACE usage
-- page is picked; without one, the first with these ids; without any, the path is empty.
pub pick_device_path-preferred :
    {H W : Type 0} (api : Hidapi H W) (vid pid : ℕ) (w : W)
    → pick_device_path api vid pid w
      ≡ (preferred vid pid (api.enumerate w vid pid).0, (api.enumerate w vid pid).1)
unfolding pick_device_path
pick_device_path-preferred api vid pid w =
    ground (arith, pick_path-none vid pid (api.enumerate w vid pid).0)
