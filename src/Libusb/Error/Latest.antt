-- ===== src/Libusb/Error/Latest.antt =====
-- `hid_error` tells the error that was registered last: its cache is never stale.
use usb_hid_tool.Prelude.{
  ℕ, Bool, true, false, ◌&&◌, ◌≡◌, inl, inr, refl, ap, ap₂, sym, ◌∙◌, Option, none, some, List, [],
  ◌∷◌, arith, Bool-cases,
}
use usb_hid_tool.Prelude.Int.{ℤ, pos, negsuc}
use usb_hid_tool.Libusb.Error.{
  Message, Context, Text, success, message, described, ErrorCtx, no_error, register_libusb_error,
  register_string_error, same_code, same_context, context_number, write, send_feature, get_feature,
  send_output, get_input, indexed_string, report_descriptor, made, make_text, kept_text, hid_error,
}

-- The error registered last. Codes of libusb are negative.
pub data Latest : Type 0 where
  nothing : Latest
  failure : ℕ → Option Context → Latest
  text : Message → Latest

abbrev tell : Latest → Text
tell nothing = success
tell (failure n c) = described (negsuc n) c
tell (text m) = message m

-- The state stands for the latest error.
abbrev Shows : ErrorCtx → Latest → Type 0
Shows err nothing = err.error_code ≡ pos 0
Shows err (failure n c) = (err.error_code ≡ negsuc n) × (err.error_context ≡ c)
Shows err (text m) =
    (err.error_code ≡ pos 1)
    × (err.error_context ≡ none)
    × (err.last_error_code_cache ≡ pos 1)
    × (err.last_error_context_cache ≡ none)
    × (err.last_error_str ≡ some (message m))

-- The cached text of a negative code is the text of that code and context.
abbrev Cached : Option Text → Option Context → ℤ → Type 0
Cached str c (negsuc n) = str ≡ some (described (negsuc n) c)
Cached str c (pos n) = Unit

pub record Represents (err : ErrorCtx) (l : Latest) : Type 0 where
  pub shows : Shows err l
  pub cached : Cached err.last_error_str err.last_error_context_cache err.last_error_code_cache

no_error-Represents : Represents no_error nothing
no_error-Represents = record { shows = refl; cached = tt }

-- A call on the error state, for which memory suffices.
pub data Call : Type 0 where
  clear : Call
  fail : ℕ → Context → Call
  say : Message → Call
  ask : Call

abbrev pub call : ErrorCtx → Call → ErrorCtx
call err clear = register_libusb_error err (pos 0) none
call err (fail n c) = register_libusb_error err (negsuc n) (some c)
call err (say m) = register_string_error true err m
call err ask = (hid_error made err).1

abbrev pub after : Latest → Call → Latest
after l clear = nothing
after l (fail n c) = failure n (some c)
after l (say m) = text m
after l ask = l

same_context-eq : (a b : Option Context) → same_context a b ≡ true → a ≡ b
same_context-eq none b h = ground arith
same_context-eq (some a) none h = ground arith
same_context-eq (some a) (some b) h = ap some (same_number a b (ground arith))
  where
    same_number : (a b : Context) → context_number a ≡ context_number b → a ≡ b
    same_number write b h = ground arith
    same_number send_feature b h = ground arith
    same_number get_feature b h = ground arith
    same_number send_output b h = ground arith
    same_number get_input b h = ground arith
    same_number indexed_string b h = ground arith
    same_number report_descriptor b h = ground arith

-- A code that is in the cache has its text there.
stored_text :
    (str : Option Text) (c : Option Context) (n : ℕ) (z : ℤ)
    → Cached str c z
    → same_code (negsuc n) z ≡ true
    → str ≡ some (described (negsuc n) c)
stored_text str c n (pos k) h e = cc
stored_text str c n (negsuc k) h e = ground arith

and_true : (a b : Bool) → (a && b) ≡ true → (a ≡ true) × (b ≡ true)
and_true a b h = ground arith

abbrev hit : ErrorCtx → Bool
hit err =
    same_code err.error_code err.last_error_code_cache
    && same_context err.error_context err.last_error_context_cache

hid_error_silent :
    (err : ErrorCtx) → same_code err.error_code (pos 0) ≡ true → hid_error made err ≡ (success, err)
unfolding hid_error
hid_error_silent err e = rw e

hid_error-hit :
    (err : ErrorCtx)
    → same_code err.error_code (pos 0) ≡ false
    → hit err ≡ true
    → hid_error made err ≡ (kept_text err.last_error_str, err)
unfolding hid_error
hid_error-hit err e h = rw e (rw h)

hid_error_miss :
    (err : ErrorCtx)
    → same_code err.error_code (pos 0) ≡ false
    → hit err ≡ false
    → hid_error made err ≡ make_text made err
unfolding hid_error
hid_error_miss err e h = rw e (rw h)

make_text-Represents :
    (err : ErrorCtx) (n : ℕ) (c : Option Context)
    → err.error_code ≡ negsuc n
    → err.error_context ≡ c
    → ((make_text made err).0 ≡ described (negsuc n) c)
      × Represents (make_text made err).1 (failure n c)
unfolding make_text
make_text-Represents err n c e f =
    (ap₂ described e f, record { shows = (e, f); cached = fresh err.error_code })
  where
    fresh : (z : ℤ) → Cached (some (described z err.error_context)) err.error_context z
    fresh (pos k) = tt
    fresh (negsuc k) = refl

kept_failure :
    (err : ErrorCtx) (n : ℕ) (c : Option Context)
    → Represents err (failure n c)
    → hit err ≡ true
    → kept_text err.last_error_str ≡ described (negsuc n) c
kept_failure err n c r h =
    ap kept_text (
      stored_text err.last_error_str err.last_error_context_cache n err.last_error_code_cache
        r.cached
        (sym (ap (λ z. same_code z err.last_error_code_cache) r.shows.0) ∙ (and_true _ _ h).0))
    ∙ ap (described (negsuc n)) (
        sym (same_context-eq err.error_context err.last_error_context_cache (and_true _ _ h).1)
        ∙ r.shows.1)

hid_error-Represents :
    (err : ErrorCtx) (l : Latest)
    → Represents err l
    → ((hid_error made err).0 ≡ tell l) × Represents (hid_error made err).1 l
hid_error-Represents err nothing r =
    rw (hid_error_silent err (ap (λ z. same_code z (pos 0)) r.shows)) (refl, r)
hid_error-Represents err (failure n c) r = elim (Bool-cases (hit err)) [
  | inl h ↦
      rw (hid_error-hit err (ap (λ z. same_code z (pos 0)) r.shows.0) h)
        (kept_failure err n c r h, r)
  | inr m ↦
      rw (hid_error_miss err (ap (λ z. same_code z (pos 0)) r.shows.0) m)
        (make_text-Represents err n c r.shows.0 r.shows.1)
]
hid_error-Represents err (text m) r =
    rw (hid_error-hit err (ap (λ z. same_code z (pos 0)) r.shows.0) (ground arith))
      (ap kept_text r.shows.4, r)

-- Each call keeps the state in step with the error registered last.
call-Represents :
    (err : ErrorCtx) (l : Latest) (x : Call)
    → Represents err l
    → Represents (call err x) (after l x)
unfolding register_libusb_error register_string_error
call-Represents err l clear r = record { shows = refl; cached = r.cached }
call-Represents err l (fail n c) r = record { shows = (refl, refl); cached = r.cached }
call-Represents err l (say m) r = record { shows = (refl, refl, refl, refl, refl); cached = tt }
call-Represents err l ask r = (hid_error-Represents err l r).1

abbrev pub calls : ErrorCtx → List Call → ErrorCtx
calls err [] = err
calls err (x ∷ xs) = calls (call err x) xs

abbrev latest : Latest → List Call → Latest
latest l [] = l
latest l (x ∷ xs) = latest (after l x) xs

calls-Represents :
    (xs : List Call) (err : ErrorCtx) (l : Latest)
    → Represents err l
    → Represents (calls err xs) (latest l xs)
calls-Represents [] err l r = r
calls-Represents (x ∷ xs) err l r =
    calls-Represents xs (call err x) (after l x) (call-Represents err l x r)

-- After any calls on a fresh error state, `hid_error` tells the error registered last, and "Success"
-- if there is none: the cached text is never that of another error. (Memory suffices, and a code
-- that libusb returns is negative.)
pub hid_error-latest :
    (xs : List Call) → (hid_error made (calls no_error xs)).0 ≡ tell (latest nothing xs)
hid_error-latest xs =
    (hid_error-Represents (calls no_error xs) (latest nothing xs)
      (calls-Represents xs no_error nothing no_error-Represents)).0
