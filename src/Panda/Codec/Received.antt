-- ===== src/Panda/Codec/Received.antt =====
-- What unpacking promises on any input: both loops end, and every frame found is well formed.
use supercombo_k.Base.{
  ℕ, zero, suc, ◌+◌, ◌-◌, ◌/◌, ◌%◌, ◌^◌, ◌≤◌, ◌<◌, ◌≡◌, ◌≢◌, refl, ◌∙◌, inl, inr, true, List, [],
  ◌∷◌, ◌++◌, some, arith, ltb, ◌==◌, length, length-append, length-take, length-drop,
  length-replicate, take, drop, All, All-append, All-get_or, All-take, All-drop, get_or, replicate,
  Bool-cases, Option-cases, ltb_false→le, passes_under, passes_under-elim,
}
use supercombo_k.Base.Int.{pos}
use supercombo_k.Panda.Codec.{
  PandaCanFrame, out_of_fuel, StripResult, panda_can_unpack_buffer, after_strip, strip_counters,
  parse_frames, read_frame, read_le32, dlc_to_len, panda_can_is_valid_data_len,
}

abbrev IsByte : ℕ → Type 0
IsByte b = b < 256

-- A received frame: a representable length, an array of 64 bytes, and header fields of their widths.
pub record IsReceived (f : PandaCanFrame) : Type 0 where
  pub valid_len : panda_can_is_valid_data_len f.data_len ≡ true
  pub len_fits : f.data_len ≤ 64
  pub array : length f.payload ≡ 64
  pub bus_fits : f.bus < 8
  pub address_fits : f.address < 2 ^ 29

strip_counters_ends :
    (fuel i : ℕ) (bytes recv : List ℕ)
    → length bytes ≤ fuel
    → (strip_counters fuel i bytes recv).error ≢ some out_of_fuel
unfolding strip_counters
strip_counters_ends fuel i [] recv h = ground arith
strip_counters_ends zero i (c ∷ rest) recv h = elim h [ ]
strip_counters_ends (suc fuel) i (c ∷ rest) recv h = elim (Bool-cases (c == i / 64 % 256)) [
  | inl same ↦ rw same (
      strip_counters_ends fuel (i + 64) (drop 63 rest) (recv ++ take 63 rest)
        (omega (arith, length-drop 63 rest)))
  | inr other ↦ rw other (λ e. cc)
]

strip_counters-IsByte :
    (fuel i : ℕ) (bytes recv : List ℕ)
    → All IsByte bytes
    → All IsByte recv
    → All IsByte (strip_counters fuel i bytes recv).recv_buf
unfolding strip_counters
strip_counters-IsByte fuel i [] recv h r = r
strip_counters-IsByte zero i (c ∷ rest) recv h r = r
strip_counters-IsByte (suc fuel) i (c ∷ rest) recv h r = elim (Bool-cases (c == i / 64 % 256)) [
  | inl same ↦ rw same (
      strip_counters-IsByte fuel (i + 64) (drop 63 rest) (recv ++ take 63 rest)
        (All-drop IsByte 63 rest h.1)
        (All-append IsByte recv (take 63 rest) r (All-take IsByte 63 rest h.1)))
  | inr other ↦ rw other r
]

parse_frames_ends :
    (fuel : ℕ) (bytes : List ℕ) (found : List PandaCanFrame)
    → length bytes ≤ fuel
    → (parse_frames fuel bytes found).error ≢ some out_of_fuel
unfolding parse_frames
parse_frames_ends fuel [] found h = ground arith
parse_frames_ends zero (b ∷ bytes) found h = elim h [ ]
parse_frames_ends (suc fuel) (b ∷ bytes) found h =
    let n = get_or dlc_to_len (b / 16 % 16) 0 in
    elim (Bool-cases (ltb (length (b ∷ bytes)) 5)) [
      | inl short ↦ rw short (λ e. cc)
      | inr whole_head ↦ rw whole_head (elim (Bool-cases (ltb (length (b ∷ bytes)) (5 + n))) [
        | inl cut ↦ rw cut (λ e. cc)
        | inr whole ↦ rw whole (
            parse_frames_ends fuel (drop (5 + n) (b ∷ bytes))
              (found ++ read_frame (b ∷ bytes) n ∷ [])
              (omega (arith, length-drop (5 + n) (b ∷ bytes))))
      ])
    ]

valid_len_table : passes_under 16 (λ d. panda_can_is_valid_data_len (get_or dlc_to_len d 0)) ≡ true
unfolding passes_under panda_can_is_valid_data_len
valid_len_table = refl

read_frame-IsReceived :
    (bytes : List ℕ) (d : ℕ)
    → d < 16
    → All IsByte bytes
    → 5 + get_or dlc_to_len d 0 ≤ length bytes
    → IsReceived (read_frame bytes (get_or dlc_to_len d 0))
unfolding read_frame read_le32
read_frame-IsReceived bytes d hd h fits =
    let n = get_or dlc_to_len d 0 in
    let at_most : n ≤ 64 = All-get_or (λ x. x ≤ 64) dlc_to_len d 0 (omega arith) (omega arith) in
    let copied = take n (drop 5 bytes) in
    let byte : (k : ℕ) → get_or (drop 1 bytes) k 0 < 256 =
      λ k. All-get_or IsByte (drop 1 bytes) k 0 (All-drop IsByte 1 bytes h) (omega arith) in
    record {
      valid_len = passes_under-elim 16 _ d valid_len_table hd;
      len_fits = at_most;
      array =
          length-append copied (replicate (64 - length copied) 0)
          ∙ omega (
            arith,
            length-replicate {A = ℕ} (64 - length copied) 0,
            length-take n (drop 5 bytes),
            length-drop 5 bytes,
          );
      bus_fits = omega arith;
      address_fits = omega (arith, byte 0, byte 1, byte 2, byte 3);
    }

parse_frames-IsReceived :
    (fuel : ℕ) (bytes : List ℕ) (found : List PandaCanFrame)
    → All IsByte bytes
    → All IsReceived found
    → All IsReceived (parse_frames fuel bytes found).frames
unfolding parse_frames
parse_frames-IsReceived fuel [] found h r = r
parse_frames-IsReceived zero (b ∷ bytes) found h r = r
parse_frames-IsReceived (suc fuel) (b ∷ bytes) found h r =
    let n = get_or dlc_to_len (b / 16 % 16) 0 in
    elim (Bool-cases (ltb (length (b ∷ bytes)) 5)) [
      | inl short ↦ rw short r
      | inr whole_head ↦ rw whole_head (elim (Bool-cases (ltb (length (b ∷ bytes)) (5 + n))) [
        | inl cut ↦ rw cut r
        | inr whole ↦ rw whole (
            parse_frames-IsReceived fuel (drop (5 + n) (b ∷ bytes))
              (found ++ read_frame (b ∷ bytes) n ∷ []) (All-drop IsByte (5 + n) (b ∷ bytes) h)
              (All-append IsReceived found _ r (
                read_frame-IsReceived (b ∷ bytes) (b / 16 % 16) (omega arith) h
                    (ltb_false→le _ _ whole),
                tt,
              )))
      ])
    ]

-- With no null pointer and no negative size, both loops end within their fuel, whatever the bytes.
pub unpack_ends :
    (bytes recv : List ℕ) (size : ℕ) (fs : List PandaCanFrame)
    → (panda_can_unpack_buffer (some bytes) (pos size) (some recv) (some fs)).error
      ≢ some out_of_fuel
unfolding panda_can_unpack_buffer after_strip
unpack_ends bytes recv size fs = elim (Option-cases s.error) [
  | inl e ↦ rw (e, after_strip) (parse_frames_ends (length s.recv_buf) s.recv_buf [] (omega arith))
  | inr (x, e) ↦
      rw (e, after_strip)
        (λ p.
          strip_counters_ends size 0 (take size bytes) [] (omega (arith, length-take size bytes))
            (e ∙ p))
]
  where
    s : StripResult
    s = strip_counters size 0 (take size bytes) []

-- Whatever bytes come in, each frame that unpacking delivers is well formed.
pub unpack-IsReceived :
    (bytes recv : List ℕ) (size : ℕ) (fs : List PandaCanFrame)
    → All IsByte bytes
    → All IsReceived (panda_can_unpack_buffer (some bytes) (pos size) (some recv) (some fs)).frames
unfolding panda_can_unpack_buffer after_strip
unpack-IsReceived bytes recv size fs h = elim (Option-cases s.error) [
  | inl e ↦
      rw (e, after_strip)
        (parse_frames-IsReceived (length s.recv_buf) s.recv_buf []
          (strip_counters-IsByte size 0 (take size bytes) [] (All-take IsByte size bytes h) tt) tt)
  | inr (x, e) ↦ rw (e, after_strip) tt
]
  where
    s : StripResult
    s = strip_counters size 0 (take size bytes) []
