-- ===== src/Library/Handles.antt =====
-- Which handles Init keeps.
use capture.Prelude.{
  ℕ, ◌≡◌, refl, Bool, true, false, List, [], ◌∷◌, ◌++◌, none, some, arith, ◌==◌, if◌then◌else◌, All,
  Bool-cases, Option-cases, inl, inr, subst,
}
use capture.Device.{CapDevice}
use capture.Text.{Str}
use capture.Errors.{cap_compile, cap_filter}
use capture.Handle.{
  Pcap, CapHandleInit, CapHandle, new_handle, open_live, with_filter, opened, set_callback,
  set_non_block,
}
use capture.Capture.Sound.Parts.{All-snoc}
use capture.Library.{CaptureInit, open_handle, open_handles}

-- The handle is open on some `pcap_t`, has the callback, and has the link type of its `pcap_t`.
pub record IsReady (pcap : Pcap) (h : CapHandle) : Type 0 where
  pub p : ℕ
  pub is_open : h.handle ≡ some p
  pub callback : h.callback ≡ true
  pub linktype : h.linktype ≡ pcap.pcap_datalink p

module _ (pcap : Pcap) where
  -- A success of OpenLive leaves an open handle with the link type of its `pcap_t`.
  abbrev Opened : ℕ × CapHandle → Type 0
  Opened r = r.0 ≡ 0 → (p : ℕ) × (r.1.handle ≡ some p) × (r.1.linktype ≡ pcap.pcap_datalink p)

  with_filter-Opened :
      (config : CapHandleInit) (f : Str) (p : ℕ) (h : CapHandle)
      → Opened (with_filter pcap config f p h)
  unfolding with_filter opened
  with_filter-Opened config f p h = chosen _ _
    where
      chosen :
          (b c : Bool)
          → Opened (
              if b
              then (cap_compile, record h { handle = none })
              else if c
              then (cap_filter, record h { handle = none })
              else opened pcap p h)
      chosen true c z = absurd (omega arith)
      chosen false true z = absurd (omega arith)
      chosen false false z = (p, refl, refl)

  open_live-Opened : (config : CapHandleInit) (h : CapHandle) → Opened (open_live pcap config h)
  unfolding open_live opened
  open_live-Opened config h =
      elim (Option-cases
        (pcap.pcap_open_live config.device config.snaplen config.promise config.ms)) [
          | inl e ↦ rw (e, open_live) (λ z. absurd (omega arith))
          | inr (p, e) ↦ elim (Option-cases config.fliter) [
            | inl g ↦ rw (e, g, open_live) (λ z. (p, refl, refl))
            | inr (f, g) ↦ rw (e, open_live) (simp g (with_filter-Opened config f p h))
          ]
        ]

  abbrev device_config : CaptureInit → CapDevice → CapHandleInit
  device_config config d = record {
    device = d.name;
    snaplen = config.snaplen;
    promise = config.promise;
    ms = config.ms;
    fliter = config.fliter;
  }

  some_handle : (a b : CapHandle) → some a ≡ some b → a ≡ b
  some_handle a b e = cc

  kept :
      (r : ℕ × CapHandle) (h : CapHandle)
      → Opened r
      → (if r.0 == 0
          then (if set_non_block pcap (set_callback r.1) 1 == 0
              then some (set_callback r.1)
              else none)
          else none)
        ≡ some h
      → IsReady pcap h
  unfolding set_callback
  kept r h o e = elim (Bool-cases (r.0 == 0)) [
    | inr a ↦ absurd (ground arith)
    | inl a ↦ elim (Bool-cases (set_non_block pcap (set_callback r.1) 1 == 0)) [
      | inr b ↦ absurd (ground arith)
      | inl b ↦
          let k = o (ground arith) in
          subst (IsReady pcap) (some_handle (set_callback r.1) h (ground arith))
            (record { p = k.0; is_open = k.1; callback = refl; linktype = k.2 })
    ]
  ]

  open_handle-IsReady :
      (config : CaptureInit) (d : CapDevice) (h : CapHandle)
      → open_handle pcap config d ≡ some h
      → IsReady pcap h
  unfolding open_handle
  open_handle-IsReady config d h e = go (open_live pcap (device_config config d) new_handle) refl
    where
      go :
          (r : ℕ × CapHandle)
          → open_live pcap (device_config config d) new_handle ≡ r
          → IsReady pcap h
      go r g =
          kept r h (rw (← g) (open_live-Opened (device_config config d) new_handle))
            (rw (g, open_handle) at e)

  -- If the handles that are there are open, with the callback and the link type of their `pcap_t`,
  -- then so are those that the loop of Init leaves.
  pub open_handles-IsReady :
      (config : CaptureInit) (ds : List CapDevice) (hs : List CapHandle)
      → All (IsReady pcap) hs
      → All (IsReady pcap) (open_handles pcap config ds hs)
  unfolding open_handles
  open_handles-IsReady config [] hs k = k
  open_handles-IsReady config (d ∷ ds) hs k = elim (Option-cases (open_handle pcap config d)) [
    | inl e ↦ rw e (open_handles-IsReady config ds hs k)
    | inr (h, e) ↦ rw e (
        open_handles-IsReady config ds (hs ++ h ∷ [])
          (All-snoc (IsReady pcap) hs h (open_handle-IsReady config d h e) k))
  ]
