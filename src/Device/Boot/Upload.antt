-- ===== src/Device/Boot/Upload.antt =====
-- Which bytes of a file are sent, and in which order.
use opendab.Base.{
  ℕ, zero, suc, ◌+◌, ◌-◌, ◌*◌, ◌<◌, ◌≤◌, ◌≡◌, refl, sym, ap, ap₂, ◌∙◌, arith, true, ltb, lt→ltb,
  List, [], ◌∷◌, ◌++◌, append_assoc, Buffer, store, for_range, for_range_ext, window,
}
use opendab.Base.Fill.{filled_at}
use opendab.Base.Window.{window-append}
use opendab.Device.{Event, sent, pause, wf_usb_ctrl_msg, wf_sendmem}
use opendab.Device.Boot.{fill_frame, fill_last, frames_loop}

-- Each second byte, from the first on.
abbrev pub evens : List ℕ → List ℕ
evens [] = []
evens (x ∷ []) = x ∷ []
evens (x ∷ y ∷ xs) = x ∷ evens xs

-- The bytes of code in a frame: each second one behind the register.
abbrev pub payload : List ℕ → List ℕ
payload [] = []
payload (x ∷ []) = []
payload (x ∷ y ∷ xs) = evens xs

-- The bytes of code in what is sent.
abbrev pub uploaded : List Event → List ℕ
uploaded [] = []
uploaded (sent m ∷ es) = payload m.bytes ++ uploaded es
uploaded (pause n ∷ es) = uploaded es

evens-window :
    (u cbuf : Buffer) (n i at : ℕ)
    → ((k : ℕ) → k < n → u (i + 2 * k) ≡ cbuf (at + k))
    → evens (window u i (2 * n)) ≡ window cbuf at n
evens-window u cbuf zero i at h = refl
evens-window u cbuf (suc n) i at h =
    let even : 2 * suc n ≡ suc (suc (2 * n)) = omega arith in
    rw even (
      ap₂ (λ x xs. x ∷ xs) (here i at (h 0 (omega arith)))
        (evens-window u cbuf n (i + 1 + 1) (at + 1) (λ k p. next k (h (k + 1) (omega (arith, p))))))
  where
    here : (i at : ℕ) → u (i + 2 * 0) ≡ cbuf (at + 0) → u i ≡ cbuf at
    here i at e = ground (arith, e)

    next :
        (k : ℕ)
        → u (i + 2 * (k + 1)) ≡ cbuf (at + (k + 1))
        → u (i + 1 + 1 + 2 * k) ≡ cbuf (at + 1 + k)
    next k e =
        ap u (let m : i + 1 + 1 + 2 * k ≡ i + 2 * (k + 1) = omega arith in m)
        ∙ e
        ∙ ap cbuf (let m : at + (k + 1) ≡ at + 1 + k = omega arith in m)

-- What a loop over the bytes of a frame puts into it.
frame-payload :
    (u cbuf : Buffer) (m n at : ℕ)
    → n ≤ m
    → payload (window (for_range m 0 (λ k b. store b (2 * k + 2) (cbuf (at + k))) u) 0 (2 * n + 2))
      ≡ window cbuf at n
frame-payload u cbuf m n at h =
    let two : 2 * n + 2 ≡ suc (suc (2 * n)) = omega arith in
    rw two (
      evens-window (for_range m 0 (λ k b. store b (2 * k + 2) (cbuf (at + k))) u) cbuf n (0 + 1 + 1)
        at
        (λ k p.
          ap (for_range m 0 (λ k b. store b (2 * k + 2) (cbuf (at + k))) u)
            (let e : 0 + 1 + 1 + 2 * k ≡ 2 * k + 2 = omega arith in e)
          ∙ filled_at (λ k. cbuf (at + k)) (λ k. 2 * k + 2) m k u (λ j k p q e. omega (arith, p, e))
              (omega (arith, p, h))))

-- The same where the place in the file is counted from behind.
frame_from :
    (cbuf u : Buffer) (end remain m n at : ℕ)
    → at + remain ≡ end
    → m ≤ remain
    → n ≤ m
    → payload (
        window
          (for_range m 0 (λ k b. store b (2 * k + 2) (cbuf (end - (remain - k)))) u)
          0
          (2 * n + 2))
      ≡ window cbuf at n
frame_from cbuf u end remain m n at e h p =
    ap (λ b. payload (window b 0 (2 * n + 2)))
      (for_range_ext (λ k b. store b (2 * k + 2) (cbuf (end - (remain - k))))
        (λ k b. store b (2 * k + 2) (cbuf (at + k))) m
        (λ k b q.
          ap (λ i. store b (2 * k + 2) (cbuf i))
            (let s : end - (remain - k) ≡ at + k = omega (arith, e, h, q) in s))
        m 0 u (omega arith))
    ∙ frame-payload u cbuf m n at p

full_lem :
    (cbuf u : Buffer) (remain at : ℕ)
    → at + remain ≡ 0x2001
    → 30 ≤ remain
    → payload (window (fill_frame cbuf remain u) 0 62) ≡ window cbuf at 30
unfolding fill_frame
full_lem cbuf u remain at e h = frame_from cbuf u 0x2001 remain 30 30 at e h (omega arith)

last_lem : (cbuf u : Buffer) → payload (window (fill_last cbuf 25 u) 0 50) ≡ window cbuf 0x1fe7 24
unfolding fill_last
last_lem cbuf u = frame_from cbuf u 0x2000 25 25 24 0x1fe7 refl (omega arith) (omega arith)

-- The frames from one on: `n` full ones and the last.
uploaded-frames_loop :
    (fuel n at datareg : ℕ) (cbuf u : Buffer)
    → at + (30 * n + 25) ≡ 0x2001
    → n < fuel
    → uploaded (frames_loop fuel cbuf datareg (30 * n + 25) u)
      ≡ window cbuf at (30 * n) ++ window cbuf 0x1fe7 24
unfolding frames_loop wf_sendmem wf_usb_ctrl_msg
uploaded-frames_loop zero n at datareg cbuf u e h = absurd (omega (arith, h))
uploaded-frames_loop (suc fuel) zero at datareg cbuf u e h = last_lem cbuf u
uploaded-frames_loop (suc fuel) (suc n) at datareg cbuf u e h =
    let remain = 30 * suc n + 25 in
    let full = fill_frame cbuf remain u in
    let more : ltb 30 remain ≡ true = lt→ltb 30 remain (omega arith) in
    let left : remain - 30 ≡ 30 * n + 25 = omega arith in
    rw (more, left)
      (ap₂ (λ xs ys. xs ++ ys) (full_lem cbuf u remain at e (omega arith))
          (uploaded-frames_loop fuel n (at + 30) datareg cbuf full (omega (arith, e))
            (omega (arith, h)))
        ∙ sym (
            append_assoc (window cbuf at 30) (window cbuf (at + 30) (30 * n))
              (window cbuf 0x1fe7 24))
        ∙ ap (λ xs. xs ++ window cbuf 0x1fe7 24)
            (window-append cbuf at 30 (30 * n)
              ∙ ap (window cbuf at) (let s : 30 + 30 * n ≡ 30 * suc n = omega arith in s)))

-- Of each file the upload sends the bytes 0x80 to 0x1fe7 and then again 0x1fe7 to 0x1ffe: the byte
-- 0x1fe7 twice, and 0x1fff not at all. The 270 rounds allowed to the loop are enough.
pub boot_upload :
    (cbuf u : Buffer) (datareg : ℕ)
    → uploaded (frames_loop 270 cbuf datareg (0x2000 - 0x80 + 1) u)
      ≡ window cbuf 0x80 8040 ++ window cbuf 0x1fe7 24
boot_upload cbuf u datareg = uploaded-frames_loop 270 268 0x80 datareg cbuf u refl (omega arith)
