-- ===== src/Tests/Process.antt =====
-- The recorder of a process on a concrete input.
use x402_nockchain.Prelude.{
  ℕ, String, Bool, true, false, Option, none, some, OnSome, [], ◌∷◌, Result, ok, err, ◌≡◌, refl,
  nat_eq,
}
use x402_nockchain.Facilitator.Observability.{Exporter, called, returned, interleave, step}
use x402_nockchain.Facilitator.Observability.Single.{IsExclusive, interleave-IsSingle}

abbrev handle : ℕ
handle = 7

-- A recorder counts; its handle is a number.
abbrev install : Option ℕ → Result String ℕ × Option ℕ
install none = (ok handle, some 0)
install (some n) = (err "already set", some n)

abbrev exporter : Exporter
exporter = record {
  Handle = ℕ;
  Global = Option ℕ;
  Filter = String;
  install_recorder = install;
  render = λ h g. "";
  default_env = λ g. none;
  filter_of = λ s. s;
  try_init = λ f g. (ok tt, g);
}

abbrev is_some : Option ℕ → Bool
is_some none = false
is_some (some n) = true

install-is_some :
    (g : Option ℕ) (h : ℕ)
    → (install g).0 ≡ ok h
    → (is_some g ≡ false) × (is_some (install g).1 ≡ true)
install-is_some none h e = (refl, refl)
install-is_some (some n) h e = cc

install-keep : (g : Option ℕ) → is_some g ≡ true → is_some (install g).1 ≡ true
install-keep none e = cc
install-keep (some n) e = refl

exporter-IsExclusive : IsExclusive exporter
exporter-IsExclusive = record {
  is_set = is_some;
  install-ok = install-is_some;
  install-keep = install-keep;
}

-- Threads 0 and 1 both find no handle; 0 installs the recorder, 1 fails to; 2 comes late.
interleave-IsSingle_example :
    (handle ≡ handle)
    × OnSome
        (λ kept. kept ≡ handle)
        (interleave exporter
          (0 ∷ 1 ∷ 0 ∷ 1 ∷ 0 ∷ 2 ∷ [])
          (λ i. called)
          (record { metrics_handle = none; globals = none })).1.metrics_handle
unfolding interleave step
interleave-IsSingle_example =
    interleave-IsSingle exporter exporter-IsExclusive (0 ∷ 1 ∷ 0 ∷ 1 ∷ 0 ∷ 2 ∷ []) none 0 2 handle
      handle refl refl

-- Thread 1 is refused, though thread 0 has a handle.
refused :
    (interleave exporter
        (0 ∷ 1 ∷ 0 ∷ 1 ∷ 0 ∷ [])
        (λ i. called)
        (record { metrics_handle = none; globals = none })).0
      1
    ≡ returned (err "install Prometheus recorder")
unfolding interleave step
refused = refl
