-- ===== src/Audio/Mp2/Stream.antt =====
-- A stream of frames: which of them are passed on.
use opendab.Base.{
  ℕ, ◌≡◌, refl, sym, ◌∙◌, Bool, true, false, not, ◌==◌, if◌then◌else◌, List, [], ◌∷◌, ◌++◌,
  append_assoc, append-nil, Buffer, get_or, window, Bool-cases, inl, inr,
}
use opendab.Base.Int.{pos}
use opendab.Bytes.{ipack}
use opendab.Audio.Mp2.{
  Mp2, brtab, lbrtab, is_rate, header_error, id, bit_rate_index, read_header, wfmp2,
}

-- The calls for the frames of a sub-channel, all of the same length and rate.
pub play : ℕ → ℕ → List Buffer → Mp2 → Mp2
play len bitrate [] m = m
play len bitrate (f ∷ fs) m = play len bitrate fs (wfmp2 f len bitrate m)

abbrev pub is_dab : Buffer → Bool
is_dab f = header_error (ipack f) == 0

abbrev pub is_half : Buffer → Bool
is_half f = id (ipack f) == 0

-- The rate that a header names is that of the sub-channel.
abbrev pub fits : ℕ → Buffer → Bool
fits bitrate f =
    is_rate (get_or (if is_half f then lbrtab else brtab) (bit_rate_index (ipack f)) (pos 0))
      bitrate

-- What is passed on of a stream that starts with a header: a frame with a valid header of the right
-- rate, and with half the sampling frequency the next one with it.
unfoldable mutual
  pub passed : ℕ → ℕ → List Buffer → List ℕ
  passed len bitrate [] = []
  passed len bitrate (f ∷ fs) =
      let next = passed len bitrate fs in
      let both = second len bitrate (fits bitrate f) fs in
      let this = if fits bitrate f then window f 0 len else [] in
      if not (is_dab f) then next else if is_half f then this ++ both else this ++ next

  -- The second half of a frame is passed on if the first was.
  pub second : ℕ → ℕ → Bool → List Buffer → List ℕ
  second len bitrate valid [] = []
  second len bitrate valid (f ∷ fs) =
      (if valid then window f 0 len else []) ++ passed len bitrate fs

abbrev to_come : ℕ → ℕ → List Buffer → Mp2 → List ℕ
to_come len bitrate fs m =
    if m.header_expected then passed len bitrate fs else second len bitrate m.header_valid fs

without_header :
    (len bitrate : ℕ) (f : Buffer) (fs : List Buffer) (m : Mp2)
    → m.header_expected ≡ false
    → (wfmp2 f len bitrate m).out ++ to_come len bitrate fs (wfmp2 f len bitrate m)
      ≡ m.out ++ second len bitrate m.header_valid (f ∷ fs)
unfolding wfmp2 second
without_header len bitrate f fs m e = elim (Bool-cases m.header_valid) [
  | inl v ↦ rw (e, v) (append_assoc m.out (window f 0 len) (passed len bitrate fs))
  | inr v ↦ rw (e, v) refl
]

with_header :
    (len bitrate : ℕ) (f : Buffer) (fs : List Buffer) (m : Mp2)
    → m.header_expected ≡ true
    → (wfmp2 f len bitrate m).out ++ to_come len bitrate fs (wfmp2 f len bitrate m)
      ≡ m.out ++ passed len bitrate (f ∷ fs)
unfolding wfmp2 read_header passed
with_header len bitrate f fs m e = elim (Bool-cases (is_dab f)) [
  | inl d ↦ elim (Bool-cases (is_half f)) [
    | inl h ↦ elim (Bool-cases (fits bitrate f)) [
      | inl v ↦ rw (e, d, h, rw h at v) (append_assoc m.out (window f 0 len) _)
      | inr v ↦ rw (e, d, h, rw h at v) refl
    ]
    | inr h ↦ elim (Bool-cases (fits bitrate f)) [
      | inl v ↦ rw (e, d, h, rw h at v) (append_assoc m.out (window f 0 len) _)
      | inr v ↦ rw (e, d, h, rw h at v) refl
    ]
  ]
  | inr d ↦ rw (e, d) refl
]

next_frame :
    (len bitrate : ℕ) (f : Buffer) (fs : List Buffer) (m : Mp2)
    → (wfmp2 f len bitrate m).out ++ to_come len bitrate fs (wfmp2 f len bitrate m)
      ≡ m.out ++ to_come len bitrate (f ∷ fs) m
next_frame len bitrate f fs m = elim (Bool-cases m.header_expected) [
  | inl e ↦ with_header len bitrate f fs m e ∙ rw e refl
  | inr e ↦ without_header len bitrate f fs m e ∙ rw e refl
]

play-to_come :
    (len bitrate : ℕ) (fs : List Buffer) (m : Mp2)
    → (play len bitrate fs m).out ≡ m.out ++ to_come len bitrate fs m
unfolding play passed second
play-to_come len bitrate [] m = elim (Bool-cases m.header_expected) [
  | inl e ↦ rw e (sym (append-nil m.out))
  | inr e ↦ rw e (sym (append-nil m.out))
]
play-to_come len bitrate (f ∷ fs) m =
    play-to_come len bitrate fs (wfmp2 f len bitrate m) ∙ next_frame len bitrate f fs m

-- Of a stream of frames exactly those are passed on, in their order, that have a valid header of the
-- rate of the sub-channel, each with the next frame if its sampling frequency is the half one, which is
-- not taken for a header.
pub play_lem :
    (len bitrate : ℕ) (fs : List Buffer) (m : Mp2)
    → m.header_expected ≡ true
    → (play len bitrate fs m).out ≡ m.out ++ passed len bitrate fs
play_lem len bitrate fs m e = play-to_come len bitrate fs m ∙ rw e refl
