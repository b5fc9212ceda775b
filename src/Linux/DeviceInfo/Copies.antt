-- ===== src/Linux/DeviceInfo/Copies.antt =====
-- The usage pairs of a report descriptor make copies of a record.
use usb_hid_tool.Prelude.{
  ℕ, zero, suc, ◌+◌, ◌-◌, ◌^◌, ◌≤◌, ◌<◌, ◌≡◌, ◌≢◌, inl, inr, refl, sym, ◌∙◌, List, [], ◌∷◌, some,
  arith, ltb, Bool-cases, ltb→lt, le→ltb, length,
}
use usb_hid_tool.Run.{done, ◌>>=◌, Returns, Returns-bind, Returns-mono, Returns-and, All}
use usb_hid_tool.Linux.Descriptor.{
  Scan, Verdict, pair, finished, malformed, usage_loop, get_next_hid_usage,
}
use usb_hid_tool.Linux.Descriptor.Progress.{IsDescriptor}
use usb_hid_tool.Linux.Descriptor.Usage.{get_next_hid_usage_progress}
use usb_hid_tool.Linux.Uevent.{Bytes}
use usb_hid_tool.Linux.DeviceInfo.{
  DeviceInfo, with_usage, more_infos, first_scan, if_pair, usage_infos,
}

pair-ne-finished : pair ≢ finished
pair-ne-finished e = cc

-- Past the end there is no further pair.
next_past_end :
    (fuel : ℕ) (rpt : Bytes) (size : ℕ) (s : Scan)
    → size ≤ s.at
    → Returns (λ r. r.0 ≡ finished) (get_next_hid_usage (suc fuel) rpt size s)
unfolding get_next_hid_usage usage_loop
next_past_end fuel rpt size s h = ground (arith, le→ltb s.at size h)

-- `e` describes the same device as `d`, with a 16-bit usage pair of its own.
pub record IsCopy (d e : DeviceInfo) : Type 0 where
  pub same : e ≡ record d { usage_page = e.usage_page; usage = e.usage }
  pub page_small : e.usage_page < 2 ^ 16
  pub usage_small : e.usage < 2 ^ 16

-- Copies, at most `n` of them.
abbrev pub Copies : DeviceInfo → ℕ → List DeviceInfo → Type 0
Copies d n l = All (IsCopy d) l × (length l ≤ n)

-- A usage pair of 16-bit values.
abbrev HasPair : DeviceInfo → Type 0
HasPair d = (d.usage_page < 2 ^ 16) × (d.usage < 2 ^ 16)

-- The records after the first are copies of it.
abbrev pub Alike : ℕ → List DeviceInfo → Type 0
Alike n [] = Unit
Alike n (d ∷ l) = HasPair d × Copies d n l

pub record IsSmall (s : Scan) : Type 0 where
  pub page_small : s.usage_page < 2 ^ 16
  pub usage_small : s.usage < 2 ^ 16

with_usage-IsCopy : (d : DeviceInfo) (s : Scan) → IsSmall s → IsCopy d (with_usage d s)
with_usage-IsCopy d s h = record {
  same = refl;
  page_small = h.page_small;
  usage_small = h.usage_small;
}

IsCopy-trans : (d e : DeviceInfo) (s : Scan) → IsCopy (with_usage d s) e → IsCopy d e
IsCopy-trans d e s h = record {
  same = h.same;
  page_small = h.page_small;
  usage_small = h.usage_small;
}

All-IsCopy :
    (d : DeviceInfo) (s : Scan) (l : List DeviceInfo)
    → All (IsCopy (with_usage d s)) l
    → All (IsCopy d) l
All-IsCopy d s [] a = tt
All-IsCopy d s (e ∷ l) a = (IsCopy-trans d e s a.0, All-IsCopy d s l a.1)

if_pair-HasPair :
    (v : Verdict) (d : DeviceInfo) (s : Scan)
    → IsSmall s
    → HasPair d
    → HasPair (if_pair v (with_usage d s) d)
if_pair-HasPair pair d s m h = (m.page_small, m.usage_small)
if_pair-HasPair _ d s m h = h

if_pair-IsCopy :
    (v : Verdict) (d : DeviceInfo) (s : Scan)
    → IsSmall s
    → HasPair d
    → IsCopy d (if_pair v (with_usage d s) d)
if_pair-IsCopy pair d s m h = with_usage-IsCopy d s m
if_pair-IsCopy _ d s m h = record { same = refl; page_small = h.0; usage_small = h.1 }

All-IsCopy-if_pair :
    (v : Verdict) (d : DeviceInfo) (s : Scan) (l : List DeviceInfo)
    → All (IsCopy (if_pair v (with_usage d s) d)) l
    → All (IsCopy d) l
All-IsCopy-if_pair pair d s l a = All-IsCopy d s l a
All-IsCopy-if_pair _ d s l a = a

-- All records describe the device that `d` describes.
abbrev pub Describes : ℕ → DeviceInfo → List DeviceInfo → Type 0
Describes n d l = All (IsCopy d) l × Alike n l

-- A pair is found before the end of the descriptor, and strictly further on.
abbrev pub Found : ℕ → Scan → Verdict × Scan → Type 0
Found size s r = (r.0 ≡ pair → (s.at < size) × (s.at < r.1.at)) × IsSmall r.1

module _ (rpt : Bytes) (h : IsDescriptor rpt (length rpt)) where
  next-Found :
      (fuel : ℕ) (s : Scan)
      → length rpt < s.at + suc fuel
      → IsSmall s
      → Returns (Found (length rpt) s) (get_next_hid_usage (suc fuel) rpt (length rpt) s)
  next-Found fuel s f m = elim (Bool-cases (ltb s.at (length rpt))) [
    | inl within ↦
        Returns-mono (get_next_hid_usage (suc fuel) rpt (length rpt) s)
          (λ r p. (
            λ e. (ltb→lt s.at (length rpt) within, p.1 e),
            record { page_small = p.2; usage_small = p.3 },
          ))
          progress
    | inr past ↦
        Returns-mono (get_next_hid_usage (suc fuel) rpt (length rpt) s)
          (λ r p. (
            λ e. absurd (pair-ne-finished (sym e ∙ p.1)),
            record { page_small = p.0.2; usage_small = p.0.3 },
          ))
          (Returns-and Progress (λ r. r.0 ≡ finished)
            (get_next_hid_usage (suc fuel) rpt (length rpt) s) progress
            (next_past_end fuel rpt (length rpt) s (ground arith)))
  ]
    where
      Progress : Verdict × Scan → Type 0
      Progress (v, s') =
          (s.at ≤ s'.at)
          × (v ≡ pair → s.at < s'.at)
          × (s'.usage_page < 2 ^ 16)
          × (s'.usage < 2 ^ 16)

      progress : Returns Progress (get_next_hid_usage (suc fuel) rpt (length rpt) s)
      progress =
          get_next_hid_usage_progress rpt (length rpt) h (suc fuel) s (omega arith) f m.page_small
            m.usage_small

  more_infos-Copies :
      (fuel : ℕ) (d : DeviceInfo) (s : Scan)
      → 0 < fuel
      → length rpt < s.at + fuel
      → IsSmall s
      → Returns (Copies d (length rpt - s.at)) (more_infos fuel rpt d s)
  unfolding more_infos
  more_infos-Copies zero d s z f m = absurd (omega arith)
  more_infos-Copies (suc fuel) d s z f m =
      Returns-bind (Found (length rpt) s) (Copies d (length rpt - s.at))
        (get_next_hid_usage (suc fuel) rpt (length rpt) s) _ (next-Found fuel s f m)
        λ r _ g. after r.0 r.1 g (more_infos-Copies fuel (with_usage d r.1) r.1)
    where
      after :
          (v : Verdict) (s' : Scan)
          → Found (length rpt) s (v, s')
          → (0 < fuel
              → length rpt < s'.at + fuel
              → IsSmall s'
              → Returns
                  (Copies (with_usage d s') (length rpt - s'.at))
                  (more_infos fuel rpt (with_usage d s') s'))
          → Returns (Copies d (length rpt - s.at)) (elim v [
            | pair ↦ (do
              rest ← more_infos fuel rpt (with_usage d s') s'
              done (with_usage d s' ∷ rest))
            | _ ↦ done []
          ])
      after pair s' g ih =
          let ahead : (s.at < length rpt) × (s.at < s'.at) = g.0 refl in
          Returns-bind (Copies (with_usage d s') (length rpt - s'.at))
            (Copies d (length rpt - s.at)) (more_infos fuel rpt (with_usage d s') s') _
            (ih (omega arith) (omega arith) g.1)
            λ rest _ c. ((with_usage-IsCopy d s' g.1, All-IsCopy d s' rest c.0), omega (arith, c.1))
      after finished s' g ih = (tt, omega arith)
      after malformed s' g ih = (tt, omega arith)

  pub usage_infos-Describes :
      (fuel : ℕ) (d : DeviceInfo)
      → length rpt < fuel
      → d.usage_page < 2 ^ 16
      → d.usage < 2 ^ 16
      → Returns (Describes (length rpt) d) (usage_infos fuel (some rpt) d)
  unfolding usage_infos
  usage_infos-Describes zero d f p u = absurd (omega arith)
  usage_infos-Describes (suc fuel) d f p u =
      Returns-bind (Found (length rpt) first_scan) (Describes (length rpt) d)
        (get_next_hid_usage (suc fuel) rpt (length rpt) first_scan) _
        (next-Found fuel first_scan (omega arith)
          (record { page_small = omega arith; usage_small = omega arith }))
        λ r _ g.
          let d' : DeviceInfo = if_pair r.0 (with_usage d r.1) d in
          Returns-bind (Copies d' (length rpt - r.1.at)) (Describes (length rpt) d)
            (more_infos (suc fuel) rpt d' r.1) _
            (more_infos-Copies (suc fuel) d' r.1 (omega arith) (omega arith) g.1)
            λ rest _ c. (
              (if_pair-IsCopy r.0 d r.1 g.1 (p, u), All-IsCopy-if_pair r.0 d r.1 rest c.0),
              (if_pair-HasPair r.0 d r.1 g.1 (p, u), (c.0, omega (arith, c.1))),
            )
